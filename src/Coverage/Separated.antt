-- ===== src/Coverage/Separated.antt =====
-- addRange keeps the ranges apart and covers the union.
use mmwcli.Base.{
  ℕ, suc, ◌≤◌, ◌<◌, ◌≡◌, refl, ◌∙◌, Bool, ◌||◌, List, [], ◌∷◌, ltb, leb, Bool-cases, inl, inr,
  arith,
}
use mmwcli.Coverage.{
  ByteRange, extend, absorb, add_range, SeparatedFrom, IsSeparated, covers, in_range,
}

pub SeparatedFrom-le :
    (low floor : ℕ) (ranges : List ByteRange)
    → low ≤ floor
    → SeparatedFrom floor ranges
    → SeparatedFrom low ranges
SeparatedFrom-le low floor [] h s = tt
SeparatedFrom-le low floor (current ∷ ranges) h (a, b, c) = (omega arith, b, c)

absorb-SeparatedFrom :
    (floor f : ℕ) (ranges : List ByteRange) (addition : ByteRange)
    → floor ≤ addition.start
    → addition.start < addition.end
    → floor ≤ f
    → SeparatedFrom f ranges
    → SeparatedFrom floor (absorb ranges addition)
unfolding absorb
absorb-SeparatedFrom floor f [] addition h k hf s = (h, k, tt)
absorb-SeparatedFrom floor f (current ∷ ranges) addition h k hf (a, b, c) =
    elim (Bool-cases (leb current.start addition.end)) [
      | inl meet ↦ rw meet (
          absorb-SeparatedFrom floor (suc current.end) ranges (extend current addition)
            (ground arith) (ground arith) (omega arith) c)
      | inr apart ↦ rw apart (h, k, (ground arith, b, c))
    ]

add_range-SeparatedFrom :
    (floor : ℕ) (ranges : List ByteRange) (addition : ByteRange)
    → floor ≤ addition.start
    → addition.start < addition.end
    → SeparatedFrom floor ranges
    → SeparatedFrom floor (add_range ranges addition)
unfolding add_range
add_range-SeparatedFrom floor [] addition h k s = (h, k, tt)
add_range-SeparatedFrom floor (current ∷ ranges) addition h k (a, b, c) =
    elim (Bool-cases (ltb current.end addition.start)) [
      | inl skip ↦
          rw skip
            (a, b, add_range-SeparatedFrom (suc current.end) ranges addition (ground arith) k c)
      | inr stop ↦
          rw stop (
            absorb-SeparatedFrom floor floor (current ∷ ranges) addition h k (omega arith)
              (a, b, c))
    ]

-- Adding a range that is not empty to separated ranges leaves separated ranges.
pub add_range-IsSeparated :
    (ranges : List ByteRange) (addition : ByteRange)
    → addition.start < addition.end
    → IsSeparated ranges
    → IsSeparated (add_range ranges addition)
add_range-IsSeparated ranges addition k s =
    add_range-SeparatedFrom 0 ranges addition (omega arith) k s

-- Growing over a range that touches the addition covers what either of the two covered.
in_range-extend :
    (current addition : ByteRange) (x : ℕ)
    → current.start ≤ addition.end
    → addition.start ≤ current.end
    → in_range (extend current addition) x ≡ (in_range addition x || in_range current x)
unfolding extend
in_range-extend current addition x h k = ground arith

||_assoc : (a b c : Bool) → ((a || b) || c) ≡ (a || (b || c))
||_assoc a b c = ground arith

||_left_comm : (a b c : Bool) → (a || (b || c)) ≡ (b || (a || c))
||_left_comm a b c = ground arith

-- The first range, if there is one, ends at `low` or behind it.
abbrev pub Reaches : ℕ → List ByteRange → Type 0
Reaches low [] = Unit {0}
Reaches low (current ∷ ranges) = low ≤ current.end

pub SeparatedFrom-Reaches :
    (low floor : ℕ) (ranges : List ByteRange)
    → low ≤ floor
    → SeparatedFrom floor ranges
    → Reaches low ranges
SeparatedFrom-Reaches low floor [] h s = tt
SeparatedFrom-Reaches low floor (current ∷ ranges) h (a, b, c) = omega arith

pub extend-start-le :
    (current addition : ByteRange) → (extend current addition).start ≤ current.start
unfolding extend
extend-start-le current addition = ground arith

covers-absorb :
    (f : ℕ) (ranges : List ByteRange) (addition : ByteRange) (x : ℕ)
    → Reaches addition.start ranges
    → SeparatedFrom f ranges
    → covers (absorb ranges addition) x ≡ (in_range addition x || covers ranges x)
unfolding absorb covers
covers-absorb f [] addition x k s = refl
covers-absorb f (current ∷ ranges) addition x k (a, b, c) =
    elim (Bool-cases (leb current.start addition.end)) [
      | inl meet ↦ rw meet (
          covers-absorb (suc current.end) ranges (extend current addition) x
            (SeparatedFrom-Reaches _ _ ranges (omega (arith, extend-start-le current addition)) c) c
          ∙ (rw (in_range-extend current addition x (ground arith) k)
              (||_assoc (in_range addition x) (in_range current x) (covers ranges x))))
      | inr apart ↦ rw apart
    ]

covers-add_range_from :
    (f : ℕ) (ranges : List ByteRange) (addition : ByteRange) (x : ℕ)
    → SeparatedFrom f ranges
    → covers (add_range ranges addition) x ≡ (in_range addition x || covers ranges x)
unfolding add_range covers
covers-add_range_from f [] addition x s = refl
covers-add_range_from f (current ∷ ranges) addition x (a, b, c) =
    elim (Bool-cases (ltb current.end addition.start)) [
      | inl skip ↦ rw skip (
          rw (covers-add_range_from (suc current.end) ranges addition x c)
            (||_left_comm (in_range current x) (in_range addition x) (covers ranges x)))
      | inr stop ↦ rw stop (covers-absorb f (current ∷ ranges) addition x (ground arith) (a, b, c))
    ]

-- After adding a range to separated ranges exactly the bytes that were covered before and those of
-- the added range are covered.
pub covers-add_range :
    (ranges : List ByteRange) (addition : ByteRange) (x : ℕ)
    → IsSeparated ranges
    → covers (add_range ranges addition) x ≡ (in_range addition x || covers ranges x)
covers-add_range ranges addition x s = covers-add_range_from 0 ranges addition x s
