-- ===== src/Multisensor/Examples.antt =====
-- Runs of internal/multisensor's index and clock at small inputs.
use mmwcli.Base.{ℕ, ◌+◌, ◌≤◌, ◌≡◌, refl, arith, List, [], ◌∷◌, ◌++◌, ok, err, le_bytes, take}
use mmwcli.Multisensor.Clock.{
  SourceLimits, Clock, frame_start, unwrap_ticks, tick_not_below_wrap, wrap_overflow,
  unwrap_ticks_injective,
}
use mmwcli.Multisensor.Index.{
  IndexEntry, SensorIndex, validate_index, encode_sensor_index, decode_sensor_index, put_header,
  put_entries, entry_offset, truncated,
}
use mmwcli.Multisensor.Index.Contiguous.{Contiguous, validate_index-Contiguous}
use mmwcli.Multisensor.Index.Layout.{decode_sensor_index-encode_sensor_index}

abbrev some_limits : SourceLimits
some_limits = record { max_items = 10; max_item_bytes = 5; max_payload_bytes = 100 }

abbrev entry_at : ℕ → ℕ → ℕ → IndexEntry
entry_at item offset size = record {
  item_index = item;
  payload_offset = offset;
  payload_size = size;
  tick = 1000 + item;
  wrap_count = 3;
  duration_ticks = 40;
  sync_event_id = 18446744073709551615;
  flags = 0;
  reserved = 0;
}

abbrev two_items : SensorIndex
two_items = record { payload_bytes = 7; entries = entry_at 0 0 5 ∷ entry_at 1 5 2 ∷ [] }

abbrev with_gap : SensorIndex
with_gap = record { payload_bytes = 7; entries = entry_at 0 0 4 ∷ entry_at 1 5 2 ∷ [] }

abbrev encoded_items : List ℕ
encoded_items = put_header 2 7 ++ put_entries two_items.entries

two_items_valid : validate_index two_items some_limits ≡ ok tt
unfolding validate_index
two_items_valid = refl

gap_refused : validate_index with_gap some_limits ≡ err entry_offset
unfolding validate_index
gap_refused = refl

two_items_encoded : encode_sensor_index two_items some_limits ≡ ok encoded_items
unfolding encode_sensor_index
two_items_encoded = refl

short_refused : decode_sensor_index (take 31 encoded_items) some_limits ≡ err truncated
unfolding decode_sensor_index put_header put_entries le_bytes
short_refused = refl

decode_sensor_index-encode_sensor_index_example :
    decode_sensor_index encoded_items some_limits ≡ ok two_items
decode_sensor_index-encode_sensor_index_example =
    decode_sensor_index-encode_sensor_index two_items some_limits encoded_items (omega arith)
      two_items_encoded

validate_index-Contiguous_example : Contiguous 5 0 0 7 two_items.entries × (2 ≤ 10) × (7 ≤ 100)
validate_index-Contiguous_example = validate_index-Contiguous two_items some_limits two_items_valid

abbrev wrapping_clock : Clock
wrapping_clock = record {
  clock_id = 99 ∷ [];
  tick_hz = 1000;
  wrap_ticks = 65536;
  timestamp_semantics = frame_start;
}

third_wrap : unwrap_ticks wrapping_clock 17 3 ≡ ok 196625
unfolding unwrap_ticks
third_wrap = refl

tick_too_high : unwrap_ticks wrapping_clock 65536 3 ≡ err tick_not_below_wrap
unfolding unwrap_ticks
tick_too_high = refl

too_many_wraps : unwrap_ticks wrapping_clock 17 18446744073709551615 ≡ err wrap_overflow
unfolding unwrap_ticks
too_many_wraps = refl

unwrap_ticks_injective_example : (◌≡◌ {A = ℕ} 17 17) × (◌≡◌ {A = ℕ} 3 3)
unwrap_ticks_injective_example =
    unwrap_ticks_injective wrapping_clock 17 3 17 3 third_wrap third_wrap
