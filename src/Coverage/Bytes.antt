-- ===== src/Coverage/Bytes.antt =====
-- How many bytes the ranges cover, and what an addition that meets none of them adds.
use mmwcli.Base.{
  ℕ, suc, ◌+◌, ◌-◌, ◌≤◌, ◌<◌, ◌≡◌, refl, ◌∙◌, false, List, [], ◌∷◌, ltb, leb, Bool-cases, inl, inr,
  arith,
}
use mmwcli.Coverage.{
  ByteRange, extend, absorb, add_range, SeparatedFrom, IsSeparated, covered_bytes, meets, meets_any,
}
use mmwcli.Coverage.Separated.{Reaches, SeparatedFrom-Reaches, extend-start-le}

-- The addition that ends in front of the ranges meets none of them.
pub meets_any_apart :
    (f : ℕ) (ranges : List ByteRange) (addition : ByteRange)
    → addition.end ≤ f
    → SeparatedFrom f ranges
    → meets_any ranges addition ≡ false
unfolding meets_any
meets_any_apart f [] addition h s = refl
meets_any_apart f (current ∷ ranges) addition h (a, b, c) =
    ground (arith, meets_any_apart (suc current.end) ranges addition)

-- Growing by a range that it does not meet changes nothing for the ranges behind that one.
pub meets_any-extend :
    (f : ℕ) (ranges : List ByteRange) (current addition : ByteRange)
    → current.end < f
    → current.start < current.end
    → addition.start < addition.end
    → current.start ≤ addition.end
    → addition.start ≤ current.end
    → meets current addition ≡ false
    → SeparatedFrom f ranges
    → meets_any ranges (extend current addition) ≡ meets_any ranges addition
unfolding meets_any
meets_any-extend f [] current addition h p q t u m s = refl
meets_any-extend f (next ∷ ranges) current addition h p q t u m (a, b, c) =
    ground (arith, same_meets, meets_any-extend (suc next.end) ranges current addition)
  where
    same_meets : meets next (extend current addition) ≡ meets next addition
    same_meets = unfold extend in ground arith

extend_size :
    (current addition : ByteRange)
    → current.start < current.end
    → addition.start < addition.end
    → current.start ≤ addition.end
    → addition.start ≤ current.end
    → meets current addition ≡ false
    → ((extend current addition).end - (extend current addition).start
        ≡ (current.end - current.start) + (addition.end - addition.start))
      × ((extend current addition).start < (extend current addition).end)
unfolding extend
extend_size current addition p q t u m = ground arith

meets_any-cons :
    (current : ByteRange) (ranges : List ByteRange) (addition : ByteRange)
    → meets_any (current ∷ ranges) addition ≡ false
    → (meets current addition ≡ false) × (meets_any ranges addition ≡ false)
unfolding meets_any
meets_any-cons current ranges addition h = ground arith

covered_bytes-absorb :
    (f : ℕ) (ranges : List ByteRange) (addition : ByteRange)
    → addition.start < addition.end
    → Reaches addition.start ranges
    → SeparatedFrom f ranges
    → meets_any ranges addition ≡ false
    → covered_bytes (absorb ranges addition)
      ≡ covered_bytes ranges + (addition.end - addition.start)
unfolding absorb covered_bytes
covered_bytes-absorb f [] addition q r s m = omega arith
covered_bytes-absorb f (current ∷ ranges) addition q r (a, b, c) m =
    elim (Bool-cases (leb current.start addition.end)) [
      | inl meet ↦
          let t : current.start ≤ addition.end = ground arith in
          let (mc, mr) = meets_any-cons current ranges addition m in
          let (size, full) = extend_size current addition b q t r mc in
          rw meet (
            omega (
              arith,
              size,
              covered_bytes-absorb (suc current.end) ranges (extend current addition) full
                  (SeparatedFrom-Reaches _ _ ranges
                    (omega (arith, extend-start-le current addition)) c)
                  c
                  (meets_any-extend (suc current.end) ranges current addition (omega arith) b q t r
                      mc c
                    ∙ mr),
            ))
      | inr apart ↦ rw apart (omega arith)
    ]

covered_bytes-add_range_from :
    (f : ℕ) (ranges : List ByteRange) (addition : ByteRange)
    → addition.start < addition.end
    → SeparatedFrom f ranges
    → meets_any ranges addition ≡ false
    → covered_bytes (add_range ranges addition)
      ≡ covered_bytes ranges + (addition.end - addition.start)
unfolding add_range covered_bytes
covered_bytes-add_range_from f [] addition q s m = omega arith
covered_bytes-add_range_from f (current ∷ ranges) addition q (a, b, c) m =
    elim (Bool-cases (ltb current.end addition.start)) [
      | inl skip ↦
          let (mc, mr) = meets_any-cons current ranges addition m in
          rw skip
            (omega (arith, covered_bytes-add_range_from (suc current.end) ranges addition q c mr))
      | inr stop ↦
          rw stop (covered_bytes-absorb f (current ∷ ranges) addition q (ground arith) (a, b, c) m)
    ]

-- Adding a range that is not empty and shares no byte with separated ranges adds exactly its
-- length to the number of covered bytes.
pub covered_bytes-add_range :
    (ranges : List ByteRange) (addition : ByteRange)
    → addition.start < addition.end
    → IsSeparated ranges
    → meets_any ranges addition ≡ false
    → covered_bytes (add_range ranges addition)
      ≡ covered_bytes ranges + (addition.end - addition.start)
covered_bytes-add_range ranges addition q s m = covered_bytes-add_range_from 0 ranges addition q s m
