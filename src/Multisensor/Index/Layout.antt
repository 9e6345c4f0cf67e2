-- ===== src/Multisensor/Index/Layout.antt =====
-- EncodeSensorIndex and DecodeSensorIndex of internal/multisensor/index.go are inverse to each other.
use mmwcli.Base.{
  ℕ, ◌+◌, ◌*◌, ◌^◌, ◌≤◌, ◌<◌, ◌≡◌, refl, sym, ap, true, List, [], ◌∷◌, ◌++◌, not_below,
  not_different, ok, length, slice, slice-append, length-append, append_assoc, le_bytes, le_value,
  le_value-le_bytes, same_bytes, arith, All, Result-cases, inl, inr,
}
use mmwcli.Multisensor.Clock.{SourceLimits, validate_limits, checked_add, checked_mul}
use mmwcli.Multisensor.Index.{
  IndexEntry, SensorIndex, validate_index, encoded_index_size, put_index_entry, put_entries,
  put_header, encode_sensor_index, sensor_index_magic, read_index_entry, read_entries,
  decode_sensor_index, max_int,
}
use mmwcli.Multisensor.Index.Contiguous.{validate_index-Contiguous}

-- The fields are uint64 and uint32 numbers.
pub record IsEntry (entry : IndexEntry) : Type 0 where
  pub item_index_fits : entry.item_index < 2 ^ 64
  pub payload_offset_fits : entry.payload_offset < 2 ^ 64
  pub payload_size_fits : entry.payload_size < 2 ^ 64
  pub tick_fits : entry.tick < 2 ^ 64
  pub wrap_count_fits : entry.wrap_count < 2 ^ 64
  pub duration_ticks_fits : entry.duration_ticks < 2 ^ 64
  pub sync_event_id_fits : entry.sync_event_id < 2 ^ 64
  pub flags_fits : entry.flags < 2 ^ 32
  pub reserved_fits : entry.reserved < 2 ^ 32

length-put_index_entry : (entry : IndexEntry) → length (put_index_entry entry) ≡ 64
unfolding put_index_entry le_bytes
length-put_index_entry entry = refl

read_index_entry-put_index_entry :
    (entry : IndexEntry) → IsEntry entry → read_index_entry (put_index_entry entry) ≡ entry
unfolding read_index_entry put_index_entry le_bytes
read_index_entry-put_index_entry entry h =
    rw
      (
        le_value-le_bytes 8 entry.item_index h.item_index_fits,
        le_value-le_bytes 8 entry.payload_offset h.payload_offset_fits,
        le_value-le_bytes 8 entry.payload_size h.payload_size_fits,
        le_value-le_bytes 8 entry.tick h.tick_fits,
        le_value-le_bytes 8 entry.wrap_count h.wrap_count_fits,
        le_value-le_bytes 8 entry.duration_ticks h.duration_ticks_fits,
        le_value-le_bytes 8 entry.sync_event_id h.sync_event_id_fits,
        le_value-le_bytes 4 entry.flags h.flags_fits,
        le_value-le_bytes 4 entry.reserved h.reserved_fits,
      )
      refl

read_entries-put_entries :
    (front : List ℕ) (entries : List IndexEntry) (offset : ℕ)
    → offset ≡ length front
    → All IsEntry entries
    → read_entries (length entries) offset (front ++ put_entries entries) ≡ entries
unfolding read_entries put_entries
read_entries-put_entries front [] offset at h = refl
read_entries-put_entries front (entry ∷ entries) offset at (fits, h) =
    let text = put_index_entry entry in
    let size = length-put_index_entry entry in
    let past : offset + 64 ≡ length front + length text = omega (arith, size, at) in
    let here = slice-append front text (put_entries entries) at past in
    let rest =
      read_entries-put_entries (front ++ text) entries (offset + 64)
        (omega (arith, size, length-append front text)) h in
    rw (here, read_index_entry-put_index_entry entry fits)
      (ap (λ (r : List IndexEntry). entry ∷ r)
        (rw (append_assoc front text (put_entries entries)) at rest))

length-put_entries :
    (entries : List IndexEntry) → length (put_entries entries) ≡ 64 * length entries
unfolding put_entries
length-put_entries [] = omega arith
length-put_entries (entry ∷ entries) = omega (
  arith,
  length-put_entries entries,
  length-put_index_entry entry,
  length-append (put_index_entry entry) (put_entries entries),
)

-- The fields of the header, whatever stands behind it.
header_fields :
    (item_count payload_bytes : ℕ) (back : List ℕ)
    → item_count < 2 ^ 64
    → payload_bytes < 2 ^ 64
    → let encoded = put_header item_count payload_bytes ++ back in
      (same_bytes (slice 0 8 encoded) sensor_index_magic ≡ true)
      × (le_value (slice 8 10 encoded) ≡ 1)
      × (le_value (slice 10 12 encoded) ≡ 32)
      × (le_value (slice 12 14 encoded) ≡ 64)
      × (le_value (slice 14 16 encoded) ≡ 0)
      × (le_value (slice 16 24 encoded) ≡ item_count)
      × (le_value (slice 24 32 encoded) ≡ payload_bytes)
      × (length (put_header item_count payload_bytes) ≡ 32)
unfolding put_header le_bytes same_bytes
header_fields item_count payload_bytes back h k = (
  refl,
  le_value-le_bytes 2 1 (omega arith),
  le_value-le_bytes 2 32 (omega arith),
  le_value-le_bytes 2 64 (omega arith),
  le_value-le_bytes 2 0 (omega arith),
  le_value-le_bytes 8 item_count h,
  le_value-le_bytes 8 payload_bytes k,
  refl,
)

encoded_index_size_small :
    (item_count : ℕ)
    → item_count ≤ 16777216
    → encoded_index_size item_count ≡ ok (32 + item_count * 64)
unfolding encoded_index_size checked_add checked_mul
encoded_index_size_small item_count h = ground arith

-- What a limits check allows.
limits_bound :
    (limits : SourceLimits)
    → validate_limits limits ≡ ok tt
    → (limits.max_items ≤ 16777216) × (limits.max_payload_bytes ≤ 1125899906842624)
unfolding validate_limits
limits_bound limits h = ground arith

validate_index-limits :
    (index : SensorIndex) (limits : SourceLimits)
    → validate_index index limits ≡ ok tt
    → validate_limits limits ≡ ok tt
unfolding validate_index
validate_index-limits index limits h = elim (Result-cases (validate_limits limits)) [
  | inl (u, v) ↦ v
  | inr (e, v) ↦ absurd (ground arith)
]

-- The text that EncodeSensorIndex prints of an index.
abbrev text_of : SensorIndex → List ℕ
text_of index = put_header (length index.entries) index.payload_bytes ++ put_entries index.entries

encode_sensor_index-text :
    (index : SensorIndex) (limits : SourceLimits) (encoded : List ℕ)
    → encode_sensor_index index limits ≡ ok encoded
    → (validate_index index limits ≡ ok tt) × (encoded ≡ text_of index)
unfolding encode_sensor_index
encode_sensor_index-text index limits encoded h =
    elim (Result-cases (validate_index index limits)) [
      | inr (e, v) ↦ absurd (ground arith)
      | inl (u, v) ↦ elim (Result-cases (encoded_index_size (length index.entries))) [
        | inr (e, s) ↦ absurd (ground arith)
        | inl (size, s) ↦ (v, ground arith)
      ]
    ]

-- DecodeSensorIndex reads what EncodeSensorIndex prints, under the same limits: where the encoder
-- succeeds on an index of 64-bit and 32-bit fields, the decoder succeeds on the text and gives the index
-- back.
pub decode_sensor_index-encode_sensor_index :
    (index : SensorIndex) (limits : SourceLimits) (encoded : List ℕ)
    → All IsEntry index.entries
    → encode_sensor_index index limits ≡ ok encoded
    → decode_sensor_index encoded limits ≡ ok index
unfolding decode_sensor_index
decode_sensor_index-encode_sensor_index index limits encoded fits h =
    let (valid, text) = encode_sensor_index-text index limits encoded h in
    let allowed = validate_index-limits index limits valid in
    let (most, most_bytes) = limits_bound limits allowed in
    let (contiguous, few, small) = validate_index-Contiguous index limits valid in
    let count : length index.entries ≤ 16777216 = omega (arith, most, few) in
    let (magic, major, header_size, entry_size, flags, items, payload, header_length) =
      header_fields (length index.entries) index.payload_bytes (put_entries index.entries)
        (omega (arith, count)) (omega (arith, most_bytes, small)) in
    let total : length (text_of index) ≡ 32 + length index.entries * 64 = omega (
      arith,
      header_length,
      length-put_entries index.entries,
      length-append (put_header (length index.entries) index.payload_bytes)
          (put_entries index.entries),
    ) in
    let size = encoded_index_size_small (length index.entries) count in
    let read : read_entries (length index.entries) 32 (text_of index) ≡ index.entries =
      read_entries-put_entries (put_header (length index.entries) index.payload_bytes) index.entries
        32 (sym header_length) fits in
    rw
      (
        text, magic, major, header_size, entry_size, flags, items, payload, size, read, valid,
        allowed,
      )
      (rw
        (
          not_below (length (text_of index)) 32 (omega (arith, total)),
          not_below limits.max_items (length index.entries) few,
          not_below limits.max_payload_bytes index.payload_bytes small,
          not_different (length (text_of index)) (32 + length index.entries * 64) total,
          not_below max_int (length index.entries) (omega (arith, count)),
        )
        refl)
