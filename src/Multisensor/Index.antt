-- ===== src/Multisensor/Index.antt =====
-- The sensor index of internal/multisensor/index.go: a header of 32 bytes and an entry of 64 bytes for
-- each item. An `int` has 64 bits.
pub mod Layout
pub mod Contiguous
use mmwcli.Base.{
  ℕ, zero, suc, ◌+◌, ◌-◌, ◌*◌, Bool, ◌||◌, not, List, [], ◌∷◌, ◌++◌, Option, none, some, ltb, ◌==◌,
  ◌!=◌, Result, ok, err, ◌>>=◌, ◌>>◌, reject_if, length, slice, le_bytes, le_value, same_bytes,
  if◌then◌else◌,
}
use mmwcli.Multisensor.Clock.{SourceLimits, LimitError, validate_limits, checked_add, checked_mul}

-- "MMWSIDX1".
abbrev pub sensor_index_magic : List ℕ
sensor_index_magic = 77 ∷ 77 ∷ 87 ∷ 83 ∷ 73 ∷ 68 ∷ 88 ∷ 49 ∷ []

abbrev pub sensor_index_major : ℕ
sensor_index_major = 1

abbrev pub sensor_index_header_bytes : ℕ
sensor_index_header_bytes = 32

abbrev pub sensor_index_entry_bytes : ℕ
sensor_index_entry_bytes = 64

abbrev pub max_int : ℕ
max_int = 9223372036854775807

pub record IndexEntry : Type 0 where
  pub item_index : ℕ
  pub payload_offset : ℕ
  pub payload_size : ℕ
  pub tick : ℕ
  pub wrap_count : ℕ
  pub duration_ticks : ℕ
  pub sync_event_id : ℕ
  pub flags : ℕ
  pub reserved : ℕ

pub record SensorIndex : Type 0 where
  pub payload_bytes : ℕ
  pub entries : List IndexEntry

pub data IndexError : Type 0 where
  bad_limits : LimitError → IndexError
  too_many_items too_many_payload_bytes : IndexError
  entry_index entry_offset entry_empty entry_too_large entry_overflow entry_beyond entry_flags :
      IndexError
  not_covered size_overflow too_large_here : IndexError
  truncated bad_magic bad_major bad_header_size bad_entry_size header_flags bad_length : IndexError

abbrev pub or_index_error : Result LimitError (Unit {0}) → Result IndexError (Unit {0})
or_index_error (ok u) = ok u
or_index_error (err e) = err (bad_limits e)

abbrev pub or_overflow : Option ℕ → IndexError → Result IndexError ℕ
or_overflow none e = err e
or_overflow (some n) e = ok n

-- The loop of Validate, from the entry `item` on, with `nextOffset`; it ends with the offset behind the
-- last entry.
unfoldable pub validate_entries : SourceLimits → ℕ → ℕ → ℕ → List IndexEntry → Result IndexError ℕ
unfolding checked_add
validate_entries limits payload_bytes item next_offset [] = ok next_offset
validate_entries limits payload_bytes item next_offset (entry ∷ entries) = do
  reject_if (entry.item_index != item) entry_index
  reject_if (entry.payload_offset != next_offset) entry_offset
  reject_if (entry.payload_size == 0) entry_empty
  reject_if (ltb limits.max_item_bytes entry.payload_size) entry_too_large
  end ← or_overflow (checked_add entry.payload_offset entry.payload_size) entry_overflow
  reject_if (ltb payload_bytes end) entry_beyond
  reject_if ((entry.flags != 0) || (entry.reserved != 0)) entry_flags
  validate_entries limits payload_bytes (item + 1) end entries

-- SensorIndex.Validate.
unfoldable pub validate_index : SensorIndex → SourceLimits → Result IndexError (Unit {0})
unfolding validate_limits validate_entries
validate_index index limits = do
  or_index_error (validate_limits limits)
  reject_if (ltb limits.max_items (length index.entries)) too_many_items
  reject_if (ltb limits.max_payload_bytes index.payload_bytes) too_many_payload_bytes
  covered ← validate_entries limits index.payload_bytes 0 0 index.entries
  reject_if (covered != index.payload_bytes) not_covered

unfoldable pub encoded_index_size : ℕ → Result IndexError ℕ
unfolding checked_add checked_mul
encoded_index_size item_count = do
  entries_bytes ← or_overflow (checked_mul item_count sensor_index_entry_bytes) size_overflow
  or_overflow (checked_add sensor_index_header_bytes entries_bytes) size_overflow

unfoldable pub put_index_entry : IndexEntry → List ℕ
put_index_entry entry =
    le_bytes 8 entry.item_index
    ++ (le_bytes 8 entry.payload_offset
        ++ (le_bytes 8 entry.payload_size
            ++ (le_bytes 8 entry.tick
                ++ (le_bytes 8 entry.wrap_count
                    ++ (le_bytes 8 entry.duration_ticks
                        ++ (le_bytes 8 entry.sync_event_id
                            ++ (le_bytes 4 entry.flags ++ le_bytes 4 entry.reserved)))))))

-- Each entry goes to the 64 bytes behind the one before it, so the buffer is their texts in order.
unfoldable pub put_entries : List IndexEntry → List ℕ
unfolding put_index_entry
put_entries [] = []
put_entries (entry ∷ entries) = put_index_entry entry ++ put_entries entries

unfoldable pub put_header : ℕ → ℕ → List ℕ
put_header item_count payload_bytes =
    sensor_index_magic
    ++ (le_bytes 2 sensor_index_major
        ++ (le_bytes 2 sensor_index_header_bytes
            ++ (le_bytes 2 sensor_index_entry_bytes
                ++ (le_bytes 2 0 ++ (le_bytes 8 item_count ++ le_bytes 8 payload_bytes)))))

-- EncodeSensorIndex.
unfoldable pub encode_sensor_index : SensorIndex → SourceLimits → Result IndexError (List ℕ)
unfolding validate_index encoded_index_size put_header put_entries
encode_sensor_index index limits = do
  validate_index index limits
  size ← encoded_index_size (length index.entries)
  reject_if (ltb max_int size) too_large_here
  ok (put_header (length index.entries) index.payload_bytes ++ put_entries index.entries)

unfoldable pub read_index_entry : List ℕ → IndexEntry
read_index_entry encoded = record {
  item_index = le_value (slice 0 8 encoded);
  payload_offset = le_value (slice 8 16 encoded);
  payload_size = le_value (slice 16 24 encoded);
  tick = le_value (slice 24 32 encoded);
  wrap_count = le_value (slice 32 40 encoded);
  duration_ticks = le_value (slice 40 48 encoded);
  sync_event_id = le_value (slice 48 56 encoded);
  flags = le_value (slice 56 60 encoded);
  reserved = le_value (slice 60 64 encoded);
}

-- The loop that fills `entries`, with the entries that are left and the offset of the next one.
unfoldable pub read_entries : ℕ → ℕ → List ℕ → List IndexEntry
unfolding read_index_entry
read_entries zero offset encoded = []
read_entries (suc left) offset encoded =
    read_index_entry (slice offset (offset + sensor_index_entry_bytes) encoded)
    ∷ read_entries left (offset + sensor_index_entry_bytes) encoded

-- DecodeSensorIndex.
unfoldable pub decode_sensor_index : List ℕ → SourceLimits → Result IndexError SensorIndex
unfolding validate_limits encoded_index_size read_entries validate_index
decode_sensor_index encoded limits = do
  or_index_error (validate_limits limits)
  reject_if (ltb (length encoded) sensor_index_header_bytes) truncated
  reject_if (not (same_bytes (slice 0 8 encoded) sensor_index_magic)) bad_magic
  reject_if (le_value (slice 8 10 encoded) != sensor_index_major) bad_major
  reject_if (le_value (slice 10 12 encoded) != sensor_index_header_bytes) bad_header_size
  reject_if (le_value (slice 12 14 encoded) != sensor_index_entry_bytes) bad_entry_size
  reject_if (le_value (slice 14 16 encoded) != 0) header_flags
  let item_count = le_value (slice 16 24 encoded)
  let payload_bytes = le_value (slice 24 32 encoded)
  reject_if (ltb limits.max_items item_count) too_many_items
  reject_if (ltb limits.max_payload_bytes payload_bytes) too_many_payload_bytes
  expected_bytes ← encoded_index_size item_count
  reject_if (length encoded != expected_bytes) bad_length
  reject_if (ltb max_int item_count) too_large_here
  let index : SensorIndex = record {
    payload_bytes = payload_bytes;
    entries = read_entries item_count sensor_index_header_bytes encoded;
  }
  validate_index index limits
  ok index
