-- ===== src/SensorStream/Digest.antt =====
-- Digests in hexadecimal, of internal/multisensorstream/model.go.
use mmwcli.Base.{
  ℕ, ◌+◌, ◌*◌, ◌/◌, ◌%◌, ◌<◌, ◌≡◌, refl, Bool, true, ◌&&◌, List, [], ◌∷◌, ltb, ◌==◌, length, All,
  IsByte, if◌then◌else◌, arith,
}
use mmwcli.SensorStream.Model.{all_bytes, is_hex_digit}

abbrev pub hex_digit : ℕ → ℕ
hex_digit v = if ltb v 10 then 48 + v else 87 + v

unfoldable pub digest_string : List ℕ → List ℕ
digest_string [] = []
digest_string (b ∷ rest) = hex_digit (b / 16) ∷ (hex_digit (b % 16) ∷ digest_string rest)

-- Comparing with strings.ToLower leaves only the lower digits of those that hex.DecodeString takes.
unfoldable pub valid_digest : List ℕ → Bool
unfolding all_bytes
valid_digest text = (length text == 64) && all_bytes is_hex_digit text

hex_digit_valid : (v : ℕ) → v < 16 → is_hex_digit (hex_digit v) ≡ true
hex_digit_valid v h = ground arith

length-digest_string : (bytes : List ℕ) → length (digest_string bytes) ≡ 2 * length bytes
unfolding digest_string
length-digest_string [] = refl
length-digest_string (b ∷ bytes) = omega (arith, length-digest_string bytes)

digest_string_digits :
    (bytes : List ℕ) → All IsByte bytes → all_bytes is_hex_digit (digest_string bytes) ≡ true
unfolding digest_string all_bytes
digest_string_digits [] h = refl
digest_string_digits (b ∷ bytes) (small, h) =
    rw
      (
        hex_digit_valid (b / 16) (omega (arith, small)),
        hex_digit_valid (b % 16) (omega arith),
        digest_string_digits bytes h,
      )
      refl

-- A digest of 32 bytes prints as a valid one.
pub valid_digest-digest_string :
    (bytes : List ℕ)
    → length bytes ≡ 32
    → All IsByte bytes
    → valid_digest (digest_string bytes) ≡ true
unfolding valid_digest
valid_digest-digest_string bytes size h =
    rw (digest_string_digits bytes h) (ground (arith, length-digest_string bytes))
