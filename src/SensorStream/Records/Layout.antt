-- ===== src/SensorStream/Records/Layout.antt =====
-- readRecord of internal/multisensorstream/protocol.go reads back what writeRecord prints.
use mmwcli.Base.{
  ℕ, ◌+◌, ◌-◌, ◌^◌, ◌≤◌, ◌<◌, ◌≡◌, refl, sym, Bool, true, false, ◌||◌, ◌&&◌, not, List, ◌++◌, ltb,
  ◌==◌, ok, length, slice, drop, take-append, drop-append, part_slices, length-append, append_assoc,
  le_bytes, le_value, le_value-le_bytes, same_bytes, same_bytes_refl, arith,
}
use mmwcli.SensorStream.Wire.{Record}
use mmwcli.SensorStream.Records.{
  RecordLibrary, record_magic, is_type, is_json_object, validate_wire_payload, record_prefix,
  prefix_of, record_digest, record_header, check_record, read_record, record_digest_domain,
}

prefix_fields :
    (kind seq metadata_bytes payload_bytes : ℕ) (back : List ℕ)
    → kind < 2 ^ 16
    → seq < 2 ^ 64
    → metadata_bytes < 2 ^ 64
    → payload_bytes < 2 ^ 64
    → let bytes = record_prefix kind seq metadata_bytes payload_bytes ++ back in
      (same_bytes (slice 0 8 bytes) record_magic ≡ true)
      × (le_value (slice 8 10 bytes) ≡ 1)
      × (le_value (slice 10 12 bytes) ≡ 80)
      × (le_value (slice 12 14 bytes) ≡ kind)
      × (le_value (slice 14 16 bytes) ≡ 0)
      × (le_value (slice 16 24 bytes) ≡ seq)
      × (le_value (slice 24 32 bytes) ≡ metadata_bytes)
      × (le_value (slice 32 40 bytes) ≡ payload_bytes)
      × (le_value (slice 40 48 bytes) ≡ 0)
      × (length (record_prefix kind seq metadata_bytes payload_bytes) ≡ 48)
unfolding record_prefix le_bytes same_bytes
prefix_fields kind seq metadata_bytes payload_bytes back a b c d = (
  refl,
  le_value-le_bytes 2 1 (omega arith),
  le_value-le_bytes 2 80 (omega arith),
  le_value-le_bytes 2 kind a,
  le_value-le_bytes 2 0 (omega arith),
  le_value-le_bytes 8 seq b,
  le_value-le_bytes 8 metadata_bytes c,
  le_value-le_bytes 8 payload_bytes d,
  le_value-le_bytes 8 0 (omega arith),
  refl,
)

-- What the tests of writeRecord say.
payload_bound : (kind size : ℕ) → validate_wire_payload kind size ≡ ok tt → size ≤ 17179869184
unfolding validate_wire_payload
payload_bound kind size h = ground arith

check_go :
    (go : RecordLibrary) (taken : Record)
    → check_record go taken ≡ ok tt
    → (is_type taken.kind ≡ true)
      × (taken.kind ≤ 8)
      × (0 < length taken.metadata)
      × (length taken.metadata ≤ 1048576)
      × (is_json_object go taken.metadata ≡ true)
      × (validate_wire_payload taken.kind (length taken.payload) ≡ ok tt)
unfolding check_record
check_go go taken h =
    (ground arith, ground arith, ground arith, ground arith, ground arith, ground arith)

size_tests :
    (metadata payload size rest : ℕ) (broken : Bool)
    → 0 < metadata
    → metadata ≤ 1048576
    → payload ≤ 17179869184
    → size ≡ 80 + (metadata + payload) + rest
    → (((size == 0) && not broken) ≡ false)
      × (ltb size 80 ≡ false)
      × (((metadata == 0) || ltb 1048576 metadata) ≡ false)
      × (ltb (18446744073709551615 - payload) metadata ≡ false)
      × (ltb 9223372036854775807 (metadata + payload) ≡ false)
      × (ltb size (80 + (metadata + payload)) ≡ false)
size_tests metadata payload size rest broken a b c d =
    (ground arith, ground arith, ground arith, ground arith, ground arith, ground arith)

-- A text whose slices are a record's parts reads as that record.
read_record_lem :
    (go : RecordLibrary) (broken : Bool) (taken : Record) (bytes rest : List ℕ)
    → check_record go taken ≡ ok tt
    → same_bytes (slice 0 8 bytes) record_magic ≡ true
    → le_value (slice 8 10 bytes) ≡ 1
    → le_value (slice 10 12 bytes) ≡ 80
    → le_value (slice 12 14 bytes) ≡ taken.kind
    → le_value (slice 14 16 bytes) ≡ 0
    → le_value (slice 16 24 bytes) ≡ taken.record_seq
    → le_value (slice 24 32 bytes) ≡ length taken.metadata
    → le_value (slice 32 40 bytes) ≡ length taken.payload
    → le_value (slice 40 48 bytes) ≡ 0
    → slice 0 48 bytes ≡ prefix_of taken
    → slice 48 80 bytes ≡ record_digest go (prefix_of taken) taken.metadata taken.payload
    → slice 80 (80 + (length taken.metadata + length taken.payload)) bytes
      ≡ taken.metadata ++ taken.payload
    → drop (80 + (length taken.metadata + length taken.payload)) bytes ≡ rest
    → length bytes ≡ 80 + (length taken.metadata + length taken.payload) + length rest
    → read_record go broken bytes ≡ ok (taken, rest)
unfolding read_record
read_record_lem go broken taken bytes rest valid magic major size kind flags seq metadata payload
      reserved prefix_part digest_part body_part rest_part total =
    let (typed, kind_bound, some_metadata, metadata_bound, object, carried) =
      check_go go taken valid in
    let tests =
      size_tests (length taken.metadata) (length taken.payload) (length bytes) (length rest) broken
        some_metadata metadata_bound (payload_bound taken.kind (length taken.payload) carried)
        total in
    rw
      (
        magic,
        major,
        size,
        flags,
        reserved,
        kind,
        typed,
        metadata,
        payload,
        carried,
        seq,
        prefix_part,
        digest_part,
        body_part,
        rest_part,
        take-append taken.metadata taken.payload,
        drop-append taken.metadata taken.payload,
        same_bytes_refl (record_digest go (prefix_of taken) taken.metadata taken.payload),
        object,
        tests.0,
        tests.1,
        tests.2,
        tests.3,
        tests.4,
        tests.5,
      )
      refl

-- The header, metadata and payload of a record that passes the tests of writeRecord read as that record.
pub read_record-record_header :
    (go : RecordLibrary) (broken : Bool) (taken : Record) (rest : List ℕ)
    → ((bytes : List ℕ) → length (go.sha256 bytes) ≡ 32)
    → taken.record_seq < 2 ^ 64
    → check_record go taken ≡ ok tt
    → read_record go broken (record_header go taken ++ ((taken.metadata ++ taken.payload) ++ rest))
      ≡ ok (taken, rest)
unfolding record_header
read_record-record_header go broken taken rest digest_size small valid =
    let (typed, kind_bound, some_metadata, metadata_bound, object, carried) =
      check_go go taken valid in
    let payload_small = payload_bound taken.kind (length taken.payload) carried in
    let body = taken.metadata ++ taken.payload in
    let digest = record_digest go (prefix_of taken) taken.metadata taken.payload in
    let bytes = prefix_of taken ++ (digest ++ (body ++ rest)) in
    let (magic, major, size, kind, flags, seq, metadata, payload, reserved, prefix_size) =
      prefix_fields taken.kind taken.record_seq (length taken.metadata) (length taken.payload)
        (digest ++ (body ++ rest)) (omega (arith, kind_bound)) small (omega (arith, metadata_bound))
        (omega (arith, payload_small)) in
    let digest_length : length digest ≡ 32 =
      unfold record_digest in
      digest_size
        (record_digest_domain ++ (prefix_of taken ++ (taken.metadata ++ taken.payload))) in
    let body_size = length-append taken.metadata taken.payload in
    let (prefix_part, digest_part, body_part, rest_part, total) =
      part_slices (prefix_of taken) digest body rest {a = 48} {b = 80}
        {c = 80 + (length taken.metadata + length taken.payload)} (sym prefix_size)
        (omega (arith, digest_length)) (omega (arith, body_size)) in
    rw (append_assoc (prefix_of taken) digest (body ++ rest)) (
      read_record_lem go broken taken bytes rest valid magic major size kind flags seq metadata
        payload reserved prefix_part digest_part body_part rest_part total)
