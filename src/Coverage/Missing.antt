-- ===== src/Coverage/Missing.antt =====
-- finalizeStats counts the holes.
use mmwcli.Base.{ℕ, suc, ◌+◌, ◌-◌, ◌≤◌, ◌≡◌, List, [], ◌∷◌, ltb, arith, max, if◌then◌else◌}
use mmwcli.Coverage.{
  ByteRange, missing_from, missing_bytes, SeparatedFrom, IsSeparated, covered_bytes, extent,
}

reach :
    (u : ℕ) (current : ByteRange)
    → u ≤ current.end
    → (if ltb u current.end then current.end else u) ≡ current.end
reach u current h = ground arith

gap :
    (u : ℕ) (current : ByteRange) (missing : ℕ)
    → u ≤ current.start
    → (if ltb u current.start then missing + (current.start - u) else missing)
      ≡ missing + (current.start - u)
gap u current missing h = ground arith

max_end : (u : ℕ) (current : ByteRange) → u ≤ current.end → max u current.end ≡ current.end
max_end u current h = omega arith

missing_from-covered :
    (u f : ℕ) (ranges : List ByteRange) (highest missing : ℕ)
    → u ≤ f
    → SeparatedFrom f ranges
    → extent u ranges ≤ highest
    → missing_from ranges highest u missing + covered_bytes ranges + u ≡ missing + highest
unfolding missing_from covered_bytes extent
missing_from-covered u f [] highest missing l s h = ground arith
missing_from-covered u f (current ∷ ranges) highest missing l (a, b, c) h =
    rw (reach u current (omega arith), gap u current missing (omega arith))
      (omega (
        arith,
        missing_from-covered current.end (suc current.end) ranges highest
            (missing + (current.start - u)) (omega arith) c
            (rw (max_end u current (omega arith)) at h),
      ))

-- For separated ranges within the extent `highest`, the bytes that finalizeStats reports missing and
-- the covered bytes add up to the extent.
pub missing_bytes-covered :
    (ranges : List ByteRange) (highest : ℕ)
    → IsSeparated ranges
    → extent 0 ranges ≤ highest
    → missing_bytes ranges highest + covered_bytes ranges ≡ highest
unfolding missing_bytes
missing_bytes-covered ranges highest s h =
    omega (arith, missing_from-covered 0 0 ranges highest 0 (omega arith) s h)
