-- ===== src/Multisensor/Clock.antt =====
-- SourceLimits.Validate, UnwrapTicks and the checked sums of internal/multisensor (model.go, index.go).
-- A uint64 is a number below 2^64; bits.Add64 and bits.Mul64 give the sum and the product in two
-- words, of which the code wants the high one to be 0.
use mmwcli.Base.{
  ℕ, ◌+◌, ◌*◌, ◌≤◌, ◌<◌, ◌≡◌, true, ◌||◌, List, Option, none, some, ltb, leb, ◌==◌, ◌!=◌,
  if◌then◌else◌, Result, ok, err, ◌>>◌, reject_if, arith, ◌/◌, ◌∙◌,
}
use native.Mathlib.Nat.{mul-add-div_right, div-eq_of_lt}

abbrev pub max_uint64 : ℕ
max_uint64 = 18446744073709551615

abbrev pub maximum_index_items : ℕ
maximum_index_items = 16777216

abbrev pub maximum_item_bytes : ℕ
maximum_item_bytes = 17179869184

abbrev pub maximum_payload_bytes : ℕ
maximum_payload_bytes = 1125899906842624

pub record SourceLimits : Type 0 where
  pub max_items : ℕ
  pub max_item_bytes : ℕ
  pub max_payload_bytes : ℕ

pub data LimitError : Type 0 where
  items_outside item_bytes_outside payload_bytes_outside item_exceeds_payload : LimitError

unfoldable pub validate_limits : SourceLimits → Result LimitError (Unit {0})
validate_limits limits = do
  reject_if (limits.max_items == 0 || ltb maximum_index_items limits.max_items) items_outside
  reject_if (limits.max_item_bytes == 0 || ltb maximum_item_bytes limits.max_item_bytes)
      item_bytes_outside
  reject_if (limits.max_payload_bytes == 0 || ltb maximum_payload_bytes limits.max_payload_bytes)
      payload_bytes_outside
  reject_if (ltb limits.max_payload_bytes limits.max_item_bytes) item_exceeds_payload

unfoldable pub checked_add : ℕ → ℕ → Option ℕ
checked_add left right = if ltb max_uint64 (left + right) then none else some (left + right)

unfoldable pub checked_mul : ℕ → ℕ → Option ℕ
checked_mul left right = if ltb max_uint64 (left * right) then none else some (left * right)

pub data TimestampSemantics : Type 0 where
  host_monotonic frame_start exposure_midpoint delivery_observed : TimestampSemantics
  other_semantics : TimestampSemantics

-- The identifier is the bytes of the string.
pub record Clock : Type 0 where
  pub clock_id : List ℕ
  pub tick_hz : ℕ
  pub wrap_ticks : ℕ
  pub timestamp_semantics : TimestampSemantics

pub data ClockError : Type 0 where
  wrap_count_without_wrap tick_not_below_wrap wrap_overflow unwrapped_overflow : ClockError

-- The sum behind the product.
unfoldable pub add_wrapped : Option ℕ → ℕ → Result ClockError ℕ
unfolding checked_add
add_wrapped none tick = err wrap_overflow
add_wrapped (some wrapped) tick = elim (checked_add wrapped tick) [
  | none ↦ err unwrapped_overflow
  | some unwrapped ↦ ok unwrapped
]

unfoldable pub unwrap_ticks : Clock → ℕ → ℕ → Result ClockError ℕ
unfolding add_wrapped checked_mul
unwrap_ticks clock tick wrap_count =
    if clock.wrap_ticks == 0
    then (if wrap_count != 0 then err wrap_count_without_wrap else ok tick)
    else if leb clock.wrap_ticks tick
    then err tick_not_below_wrap
    else add_wrapped (checked_mul wrap_count clock.wrap_ticks) tick

-- Where UnwrapTicks succeeds on a uint64 tick, the unwrapped tick is the wraps' ticks and the tick
-- together, and it is a uint64.
unwrap_ticks_exact :
    (clock : Clock) (tick wrap_count : ℕ) {unwrapped : ℕ}
    → tick ≤ max_uint64
    → unwrap_ticks clock tick wrap_count ≡ ok unwrapped
    → (unwrapped ≡ wrap_count * clock.wrap_ticks + tick)
      × (unwrapped ≤ max_uint64)
      × ((clock.wrap_ticks == 0 || ltb tick clock.wrap_ticks) ≡ true)
      × ((clock.wrap_ticks != 0 || wrap_count == 0) ≡ true)
unfolding unwrap_ticks checked_add checked_mul
unwrap_ticks_exact clock tick wrap_count h k = ground arith

-- The wraps are the quotient by the clock's period.
wraps : (period count tick : ℕ) → tick < period → (count * period + tick) / period ≡ count
wraps period count tick h =
    mul-add-div_right (omega arith) count tick ∙ omega (arith, div-eq_of_lt h)

-- On one clock, two readings that unwrap to the same tick are the same reading: wrapping loses nothing.
pub unwrap_ticks_injective :
    (clock : Clock) (tick wrap_count tick' wrap_count' : ℕ) {unwrapped : ℕ}
    → unwrap_ticks clock tick wrap_count ≡ ok unwrapped
    → unwrap_ticks clock tick' wrap_count' ≡ ok unwrapped
    → (tick ≡ tick') × (wrap_count ≡ wrap_count')
unfolding unwrap_ticks checked_add checked_mul
unwrap_ticks_injective clock tick wrap_count tick' wrap_count' h k =
    ground (arith, wraps clock.wrap_ticks wrap_count tick, wraps clock.wrap_ticks wrap_count' tick')
