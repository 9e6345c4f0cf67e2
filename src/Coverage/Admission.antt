-- ===== src/Coverage/Admission.antt =====
-- What preflightRangeAddition admits, and why the number of ranges stays bounded.
use mmwcli.Base.{
  ℕ, suc, ◌+◌, ◌-◌, ◌≤◌, ◌<◌, ◌≡◌, refl, ap, false, List, [], ◌∷◌, ltb, length, Bool-cases, ◌⊎◌,
  inl, inr, arith, if◌then◌else◌, ok, err,
}
use mmwcli.Coverage.{
  ByteRange, overlap, sparse_limit, extend, absorb, add_range, resulting_count,
  preflight_range_addition, SeparatedFrom, IsSeparated, meets, meets_any,
}
use mmwcli.Coverage.Separated.{Reaches, SeparatedFrom-Reaches}
use mmwcli.Coverage.Bytes.{meets_any_apart}

-- How many ranges are left depends on the end of the addition alone, and not on that where it lies
-- in front of them.
length-absorb_end :
    (f : ℕ) (ranges : List ByteRange) (one two : ByteRange)
    → (one.end ≡ two.end) ⊎ ((one.end < f) × (two.end < f))
    → SeparatedFrom f ranges
    → length (absorb ranges one) ≡ length (absorb ranges two)
unfolding absorb
length-absorb_end f [] one two h s = refl
length-absorb_end f (current ∷ ranges) one two (inl e) (a, b, c) = ground (
  arith,
  length-absorb_end (suc current.end) ranges (extend current one) (extend current two)
      (inl (unfold extend in ground arith)) c,
)
length-absorb_end f (current ∷ ranges) one two (inr (p, q)) (a, b, c) = ground arith

length-absorb-extend :
    (ranges : List ByteRange) (current addition : ByteRange)
    → current.start < current.end
    → addition.start < addition.end
    → current.start ≤ addition.end
    → addition.start ≤ current.end
    → meets current addition ≡ false
    → SeparatedFrom (suc current.end) ranges
    → length (absorb ranges (extend current addition)) ≡ length (absorb ranges addition)
length-absorb-extend ranges current addition p q t r m s =
    length-absorb_end (suc current.end) ranges (extend current addition) addition ends s
  where
    ends :
        ((extend current addition).end ≡ addition.end)
        ⊎ (((extend current addition).end < suc current.end) × (addition.end < suc current.end))
    ends = unfold extend in ground arith

resulting_count-absorb :
    (f : ℕ) (ranges : List ByteRange) (addition : ByteRange) (count k : ℕ)
    → count ≡ length ranges + suc k
    → addition.start < addition.end
    → Reaches addition.start ranges
    → SeparatedFrom f ranges
    → resulting_count ranges addition count ≡ (
        if meets_any ranges addition then err overlap else ok (length (absorb ranges addition) + k))
unfolding resulting_count absorb meets_any
resulting_count-absorb f [] addition count k e q r s = ap ok (omega arith)
resulting_count-absorb f (current ∷ ranges) addition count k e q r (a, b, c) =
    elim (Bool-cases (ltb addition.end current.start)) [
      | inl apart ↦
          ground (arith, meets_any_apart (suc current.end) ranges addition (ground arith) c)
      | inr touch ↦ ground (
        arith,
        length-absorb-extend ranges current addition b q (ground arith) r,
        resulting_count-absorb (suc current.end) ranges addition (count - 1) k (omega arith) q
            (SeparatedFrom-Reaches _ _ ranges (omega arith) c) c,
      )
    ]

resulting_count-add_range :
    (f : ℕ) (ranges : List ByteRange) (addition : ByteRange) (count k : ℕ)
    → count ≡ length ranges + suc k
    → addition.start < addition.end
    → SeparatedFrom f ranges
    → resulting_count ranges addition count ≡ (
        if meets_any ranges addition
        then err overlap
        else ok (length (add_range ranges addition) + k))
unfolding resulting_count add_range meets_any
resulting_count-add_range f [] addition count k e q s = ap ok (omega arith)
resulting_count-add_range f (current ∷ ranges) addition count k e q (a, b, c) =
    elim (Bool-cases (ltb current.end addition.start)) [
      | inl skip ↦ ground (
        arith,
        resulting_count-add_range (suc current.end) ranges addition count (suc k) (omega arith) q c,
      )
      | inr stop ↦ ground (
        arith,
        resulting_count-absorb f (current ∷ ranges) addition count k e q (ground arith) (a, b, c),
      )
    ]

-- Against separated ranges, preflightRangeAddition of a range that is not empty refuses with the
-- overlap error exactly where the addition shares a byte with a range; otherwise with the sparse
-- limit error exactly where addRange would leave more ranges than the limit; and otherwise passes.
pub preflight_range_addition_exact :
    (limit : ℕ) (ranges : List ByteRange) (addition : ByteRange)
    → addition.start < addition.end
    → IsSeparated ranges
    → preflight_range_addition limit ranges addition ≡ (
        if meets_any ranges addition
        then err overlap
        else if ltb limit (length (add_range ranges addition))
        then err sparse_limit
        else ok tt)
unfolding preflight_range_addition
preflight_range_addition_exact limit ranges addition q s =
    ground
      (arith, resulting_count-add_range 0 ranges addition (length ranges + 1) 0 (omega arith) q s)
