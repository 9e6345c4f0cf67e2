-- ===== src/Base/Lists.antt =====
-- Lists measured and sliced by native numbers, under the library's names.
use Prim.Native.Nat.{ℕ, zero, suc, ◌+◌, ◌-◌, ◌≤◌, min}
use mathlib.Core.Path.{◌≡◌, refl, ap, sym}
use mathlib.Core.List.{List, [], ◌∷◌, ◌++◌, map, append_assoc}
use mathlib.Core.Option.{Option, none, some}
use native.Mathlib.Omega.{arith}
use native.Mathlib.Nat.{zero-add, suc-add}

module _ {ℓ} {A : Type ℓ} where
  abbrev pub length : List A → ℕ
  length [] = 0
  length (x ∷ xs) = suc (length xs)

  abbrev pub get_elem? : List A → ℕ → Option A
  get_elem? [] i = none
  get_elem? (x ∷ xs) zero = some x
  get_elem? (x ∷ xs) (suc i) = get_elem? xs i

  abbrev pub take : ℕ → List A → List A
  take zero xs = []
  take (suc n) [] = []
  take (suc n) (x ∷ xs) = x ∷ take n xs

  abbrev pub drop : ℕ → List A → List A
  drop zero xs = xs
  drop (suc n) [] = []
  drop (suc n) (x ∷ xs) = drop n xs

  abbrev pub replicate : ℕ → A → List A
  replicate zero a = []
  replicate (suc n) a = a ∷ replicate n a

module _ {ℓ} {A : Type ℓ} where
  -- Go's `xs[lo:hi]`.
  abbrev pub slice : ℕ → ℕ → List A → List A
  slice lo hi xs = take (hi - lo) (drop lo xs)

  abbrev pub All {κ} : (A → Type κ) → List A → Type κ
  All P [] = Unit {κ}
  All P (x ∷ xs) = P x × All P xs

  pub length-append : (xs ys : List A) → length (xs ++ ys) ≡ length xs + length ys
  length-append [] ys = omega arith
  length-append (x ∷ xs) ys = omega (arith, length-append xs ys)

  pub length-take : (n : ℕ) (xs : List A) → length (take n xs) ≡ min n (length xs)
  length-take zero xs = omega arith
  length-take (suc n) [] = omega arith
  length-take (suc n) (x ∷ xs) = omega (arith, length-take n xs)

  pub length-drop : (n : ℕ) (xs : List A) → length (drop n xs) ≡ length xs - n
  length-drop zero xs = omega arith
  length-drop (suc n) [] = omega arith
  length-drop (suc n) (x ∷ xs) = omega (arith, length-drop n xs)

  pub length-replicate : (n : ℕ) (a : A) → length (replicate n a) ≡ n
  length-replicate zero a = refl
  length-replicate (suc n) a = ap suc (length-replicate n a)

  pub take-append-drop : (n : ℕ) (xs : List A) → take n xs ++ drop n xs ≡ xs
  take-append-drop zero xs = refl
  take-append-drop (suc n) [] = refl
  take-append-drop (suc n) (x ∷ xs) = ap (λ (r : List A). x ∷ r) (take-append-drop n xs)

module _ {ℓ} {A : Type ℓ} where
  pub take-append : (xs ys : List A) → take (length xs) (xs ++ ys) ≡ xs
  take-append [] ys = refl
  take-append (x ∷ xs) ys = ap (λ (r : List A). x ∷ r) (take-append xs ys)

  pub drop-append : (xs ys : List A) → drop (length xs) (xs ++ ys) ≡ ys
  drop-append [] ys = refl
  drop-append (x ∷ xs) ys = drop-append xs ys

  pub take_all : (n : ℕ) (xs : List A) → length xs ≤ n → take n xs ≡ xs
  take_all zero [] h = refl
  take_all zero (x ∷ xs) h = absurd (omega arith)
  take_all (suc n) [] h = refl
  take_all (suc n) (x ∷ xs) h = ap (λ (r : List A). x ∷ r) (take_all n xs (omega arith))

  pub drop_all : (n : ℕ) (xs : List A) → length xs ≤ n → drop n xs ≡ []
  drop_all zero [] h = refl
  drop_all zero (x ∷ xs) h = absurd (omega arith)
  drop_all (suc n) [] h = refl
  drop_all (suc n) (x ∷ xs) h = drop_all n xs (omega arith)

  pub All-append {κ} : (P : A → Type κ) (xs ys : List A) → All P xs → All P ys → All P (xs ++ ys)
  All-append P [] ys h k = k
  All-append P (x ∷ xs) ys (hx, h) k = (hx, All-append P xs ys h k)

pub length-map {ℓ κ} :
    {A : Type ℓ} {B : Type κ} (f : A → B) (xs : List A) → length (map f xs) ≡ length xs
length-map f [] = refl
length-map f (x ∷ xs) = ap suc (length-map f xs)

module _ {ℓ} {A : Type ℓ} where
  pub drop-add : (m n : ℕ) (xs : List A) → drop (m + n) xs ≡ drop n (drop m xs)
  drop-add zero n xs = rw zero-add
  drop-add (suc m) zero [] = rw suc-add
  drop-add (suc m) (suc n) [] = rw suc-add
  drop-add (suc m) n (x ∷ xs) = rw suc-add (drop-add m n xs)

  pub sub_self_left : (m n : ℕ) (xs : List A) → take (m + n - m) xs ≡ take n xs
  sub_self_left m n xs = ap (λ (k : ℕ). take k xs) (omega arith)

  -- What stands between two parts of a list.
  pub slice-append :
      (front middle back : List A) {lo hi : ℕ}
      → lo ≡ length front
      → hi ≡ length front + length middle
      → slice lo hi (front ++ (middle ++ back)) ≡ middle
  slice-append front middle back l h =
      rw
        (
          l,
          h,
          drop-append front (middle ++ back),
          sub_self_left (length front) (length middle) (middle ++ back),
        )
        (take-append middle back)

  pub drop-append_at :
      (front back : List A) {n : ℕ} → n ≡ length front → drop n (front ++ back) ≡ back
  drop-append_at front back at = rw at (drop-append front back)

  -- Four parts of a list, one behind the other.
  pub part_slices :
      (front middle body back : List A) {a b c : ℕ}
      → a ≡ length front
      → b ≡ a + length middle
      → c ≡ b + length body
      → let xs = front ++ (middle ++ (body ++ back)) in
        (slice 0 a xs ≡ front)
        × (slice a b xs ≡ middle)
        × (slice b c xs ≡ body)
        × (drop c xs ≡ back)
        × (length xs ≡ c + length back)
  part_slices front middle body back {a} {b} {c} h k m =
      let size = length-append front middle in
      let regroup = append_assoc front middle (body ++ back) in
      (
        slice-append [] front (middle ++ (body ++ back)) {hi = a} refl (omega (arith, h)),
        slice-append front middle (body ++ back) {hi = b} h (omega (arith, h, k)),
        rw (sym regroup) (
            slice-append (front ++ middle) body back {hi = c} (omega (arith, h, k, size))
              (omega (arith, h, k, m, size))),
        rw (sym regroup, sym (append_assoc (front ++ middle) body back))
            (drop-append_at ((front ++ middle) ++ body) back
              (omega (arith, h, k, m, size, length-append (front ++ middle) body))),
        omega (
          arith,
          h,
          k,
          m,
          length-append front (middle ++ (body ++ back)),
          length-append middle (body ++ back),
          length-append body back,
        ),
      )
