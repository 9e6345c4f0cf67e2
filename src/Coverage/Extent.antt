-- ===== src/Coverage/Extent.antt =====
-- How far the ranges reach.
use mmwcli.Base.{ℕ, suc, ◌+◌, ◌≤◌, ◌≡◌, List, [], ◌∷◌, ltb, leb, Bool-cases, inl, inr, arith, max}
use mmwcli.Coverage.{ByteRange, extend, absorb, add_range, extent, SeparatedFrom, covered_bytes}

-- The floor counts as one more end.
pub extent_floor : (u : ℕ) (ranges : List ByteRange) → extent u ranges ≡ max u (extent 0 ranges)
unfolding extent
extent_floor u [] = omega arith
extent_floor u (current ∷ ranges) =
    omega (arith, extent_floor (max u current.end) ranges, extent_floor (max 0 current.end) ranges)

extent-absorb :
    (u : ℕ) (ranges : List ByteRange) (addition : ByteRange)
    → extent u (absorb ranges addition) ≡ max addition.end (extent u ranges)
unfolding absorb extent
extent-absorb u [] addition = omega arith
extent-absorb u (current ∷ ranges) addition = elim (Bool-cases (leb current.start addition.end)) [
  | inl meet ↦ rw meet (
      omega (
        arith,
        extent-absorb u ranges (extend current addition),
        grown current addition,
        extent_floor u ranges,
        extent_floor (max u current.end) ranges,
      ))
  | inr apart ↦ rw apart (
      omega (
        arith,
        extent_floor (max (max u addition.end) current.end) ranges,
        extent_floor (max u current.end) ranges,
      ))
]
  where
    grown :
        (current addition : ByteRange)
        → (extend current addition).end ≡ max current.end addition.end
    grown current addition = unfold extend in ground arith

-- Adding a range moves the extent of the ranges to the end of the added one, where that lies
-- further out, and never back.
pub extent-add_range :
    (u : ℕ) (ranges : List ByteRange) (addition : ByteRange)
    → extent u (add_range ranges addition) ≡ max addition.end (extent u ranges)
unfolding add_range extent
extent-add_range u [] addition = omega arith
extent-add_range u (current ∷ ranges) addition =
    elim (Bool-cases (ltb current.end addition.start)) [
      | inl skip ↦ rw skip (extent-add_range (max u current.end) ranges addition)
      | inr stop ↦ rw stop (extent-absorb u (current ∷ ranges) addition)
    ]

-- Separated ranges cover no more bytes than lie between the floor and their extent.
pub covered_bytes-le :
    (u f : ℕ) (ranges : List ByteRange)
    → u ≤ f
    → SeparatedFrom f ranges
    → (covered_bytes ranges + u ≤ extent u ranges) × (u ≤ extent u ranges)
unfolding covered_bytes extent
covered_bytes-le u f [] l s = omega arith
covered_bytes-le u f (current ∷ ranges) l (a, b, c) = omega (
  arith,
  covered_bytes-le current.end (suc current.end) ranges (omega arith) c,
  extent_floor (max u current.end) ranges,
  extent_floor current.end ranges,
)
