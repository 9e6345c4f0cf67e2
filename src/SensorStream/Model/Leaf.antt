-- ===== src/SensorStream/Model/Leaf.antt =====
-- The names that validateLeaf of internal/multisensorstream/model.go refuses.
use mmwcli.Base.{
  ℕ, ◌≡◌, ◌≢◌, refl, Bool, true, false, ◌||◌, List, [], ◌∷◌, ◌++◌, ◌==◌, ◌!=◌, ok, arith,
}
use mmwcli.SensorStream.Model.{all_bytes, contains_any, leaf_separators, validate_leaf}

-- A text that holds a byte of the set contains one.
contains_any_of :
    (front back : List ℕ) (c : ℕ) (set : List ℕ)
    → all_bytes (λ d. c != d) set ≡ false
    → contains_any (front ++ (c ∷ back)) set ≡ true
unfolding contains_any
contains_any_of [] back c set h = rw h refl
contains_any_of (b ∷ front) back c set h = ground (arith, contains_any_of front back c set h)

leaf_refused :
    (valid_utf8 : List ℕ → Bool) (value : List ℕ)
    → contains_any value leaf_separators ≡ true
    → validate_leaf valid_utf8 value ≢ ok tt
unfolding validate_leaf
leaf_refused valid_utf8 value found = λ accepted. ground arith

-- A file name that holds a digit 0 or a letter x anywhere is refused, whatever else it holds.
pub validate_leaf_refuses :
    (valid_utf8 : List ℕ → Bool) (front back : List ℕ) (c : ℕ)
    → ((c == 48) || (c == 120)) ≡ true
    → validate_leaf valid_utf8 (front ++ (c ∷ back)) ≢ ok tt
validate_leaf_refuses valid_utf8 front back c h =
    let found = contains_any_of front back c leaf_separators (unfold all_bytes in ground arith) in
    leaf_refused valid_utf8 (front ++ (c ∷ back)) found
