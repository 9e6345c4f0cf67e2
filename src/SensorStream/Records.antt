-- ===== src/SensorStream/Records.antt =====
-- The records' bytes, of internal/multisensorstream/protocol.go. A reader is the bytes that it gives, and
-- whether it then fails instead of ending.
pub mod Layout
pub mod Written
mod Examples
use mmwcli.Base.{
  ℕ, ◌+◌, ◌-◌, Bool, true, false, ◌||◌, ◌&&◌, not, List, [], ◌∷◌, ◌++◌, Option, none, some, ltb,
  leb, ◌==◌, ◌!=◌, Result, ok, err, ◌>>=◌, ◌>>◌, reject_if, length, slice, take, drop, le_bytes,
  le_value, same_bytes, if◌then◌else◌, ℤ, pos, negsuc,
}
use mmwcli.Stream.Writer.{Writer}
use mmwcli.Multisensor.Clock.{max_uint64}
use mmwcli.Multisensor.Index.{max_int}
use mmwcli.Producer.Protocol.{starts_with, ends_with}
use mmwcli.SensorStream.Wire.{
  Record, record_session, record_radar_config, record_item, record_eof, max_record_metadata_bytes,
  max_radar_config_bytes,
}

-- "MMWMSTR1".
abbrev pub record_magic : List ℕ
record_magic = 77 ∷ (77 ∷ (87 ∷ (77 ∷ (83 ∷ (84 ∷ (82 ∷ (49 ∷ [])))))))

abbrev pub record_header_size : ℕ
record_header_size = 80

abbrev pub max_item_bytes : ℕ
max_item_bytes = 17179869184

-- "mmwcli.multisensor_stream.record.v1" and NUL.
abbrev pub record_digest_domain : List ℕ
record_digest_domain =
    109
    ∷ (109
        ∷ (119
            ∷ (99
                ∷ (108
                    ∷ (105
                        ∷ (46
                            ∷ (109
                                ∷ (117
                                    ∷ (108
                                        ∷ (116
                                            ∷ (105
                                                ∷ (115
                                                    ∷ (101
                                                        ∷ (110
                                                            ∷ (115
                                                            ∷ (111
                                                            ∷ (114
                                                            ∷ (95
                                                            ∷ (115
                                                            ∷ (116
                                                            ∷ (114
                                                            ∷ (101
                                                            ∷ (97
                                                            ∷ (109
                                                            ∷ (46
                                                            ∷ (114
                                                            ∷ (101
                                                            ∷ (99
                                                            ∷ (111
                                                            ∷ (114
                                                            ∷ (100
                                                            ∷ (46
                                                            ∷ (118
                                                            ∷ (49
                                                            ∷ (0
                                                            ∷ [])))))))))))))))))))))))))))))))))))

pub data RecordError : Type 0 where
  unknown_type metadata_invalid config_size_invalid item_size_invalid no_payload_allowed :
      RecordError
  header_truncated bad_magic bad_major bad_size bad_flags metadata_size body_overflow
        body_too_large :
      RecordError
  body_truncated digest_mismatch not_an_object : RecordError
  writer_failed short_write : RecordError

abbrev pub is_type : ℕ → Bool
is_type kind = leb record_session kind && leb kind record_eof

-- What the source uses of Go's library.
pub record RecordLibrary : Type 0 where
  pub sha256 : List ℕ → List ℕ
  pub trim_space : List ℕ → List ℕ
  pub json_valid : List ℕ → Bool

unfoldable pub validate_wire_payload : ℕ → ℕ → Result RecordError (Unit {0})
validate_wire_payload kind size =
    if kind == record_radar_config
    then reject_if ((size == 0) || ltb max_radar_config_bytes size) config_size_invalid
    else if kind == record_item
    then reject_if ((size == 0) || ltb max_item_bytes size) item_size_invalid
    else if is_type kind
    then reject_if (size != 0) no_payload_allowed
    else err unknown_type

-- header[:48].
unfoldable pub record_prefix : ℕ → ℕ → ℕ → ℕ → List ℕ
record_prefix kind seq metadata_bytes payload_bytes =
    record_magic
    ++ (le_bytes 2 1
        ++ (le_bytes 2 record_header_size
            ++ (le_bytes 2 kind
                ++ (le_bytes 2 0
                    ++ (le_bytes 8 seq
                        ++ (le_bytes 8 metadata_bytes
                            ++ (le_bytes 8 payload_bytes ++ le_bytes 8 0)))))))

abbrev pub prefix_of : Record → List ℕ
prefix_of taken =
    record_prefix taken.kind taken.record_seq (length taken.metadata) (length taken.payload)

abbrev pub or_read : Result RecordError (Unit {0}) → Result (Option RecordError) (Unit {0})
or_read (ok u) = ok u
or_read (err e) = err (some e)

module _ (go : RecordLibrary) where
  unfoldable pub is_json_object : List ℕ → Bool
  is_json_object text =
      let trimmed = go.trim_space text in
      leb 2 (length trimmed)
      && (starts_with 123 trimmed && (ends_with 125 trimmed && go.json_valid trimmed))

  unfoldable pub record_digest : List ℕ → List ℕ → List ℕ → List ℕ
  record_digest prefix metadata payload =
      go.sha256 (record_digest_domain ++ (prefix ++ (metadata ++ payload)))

  unfoldable pub record_header : Record → List ℕ
  record_header taken =
      prefix_of taken ++ record_digest (prefix_of taken) taken.metadata taken.payload

  -- The tests of writeRecord.
  unfoldable pub check_record : Record → Result RecordError (Unit {0})
  check_record taken = do
    reject_if (not (is_type taken.kind)) unknown_type
    reject_if
        ((length taken.metadata == 0)
          || (ltb max_record_metadata_bytes (length taken.metadata)
              || not (is_json_object taken.metadata)))
        metadata_invalid
    validate_wire_payload taken.kind (length taken.payload)

  -- readRecord; io.EOF is the error none.
  unfoldable pub read_record : Bool → List ℕ → Result (Option RecordError) (Record × List ℕ)
  read_record broken bytes = do
    reject_if ((length bytes == 0) && not broken) none
    reject_if (ltb (length bytes) record_header_size) (some header_truncated)
    reject_if (not (same_bytes (slice 0 8 bytes) record_magic)) (some bad_magic)
    reject_if (le_value (slice 8 10 bytes) != 1) (some bad_major)
    reject_if (le_value (slice 10 12 bytes) != record_header_size) (some bad_size)
    reject_if ((le_value (slice 14 16 bytes) != 0) || (le_value (slice 40 48 bytes) != 0))
        (some bad_flags)
    let kind = le_value (slice 12 14 bytes)
    reject_if (not (is_type kind)) (some unknown_type)
    let metadata_bytes = le_value (slice 24 32 bytes)
    let payload_bytes = le_value (slice 32 40 bytes)
    reject_if ((metadata_bytes == 0) || ltb max_record_metadata_bytes metadata_bytes)
        (some metadata_size)
    or_read (validate_wire_payload kind payload_bytes)
    reject_if (ltb (max_uint64 - payload_bytes) metadata_bytes) (some body_overflow)
    let body_bytes = metadata_bytes + payload_bytes
    reject_if (ltb max_int body_bytes) (some body_too_large)
    reject_if (ltb (length bytes) (record_header_size + body_bytes)) (some body_truncated)
    let body = slice record_header_size (record_header_size + body_bytes) bytes
    let metadata = take metadata_bytes body
    let payload = drop metadata_bytes body
    reject_if
        (not (same_bytes (slice 48 80 bytes) (record_digest (slice 0 48 bytes) metadata payload)))
        (some digest_mismatch)
    reject_if (not (is_json_object metadata)) (some not_an_object)
    let taken : Record = record {
      kind = kind;
      record_seq = le_value (slice 16 24 bytes);
      metadata = metadata;
      payload = payload;
    }
    ok (taken, drop (record_header_size + body_bytes) bytes)

abbrev pub is_whole : ℤ → ℕ → Bool
is_whole (pos n) size = n == size
is_whole (negsuc n) size = false

module _ (writer : Writer) (go : RecordLibrary) where
  -- writeExact: one call of Write.
  unfoldable pub write_exact : writer.World → List ℕ → writer.World × Option RecordError
  write_exact w bytes =
      let answer = writer.write w bytes in
      if answer.failed
      then (answer.world, some writer_failed)
      else if not (is_whole answer.written (length bytes))
      then (answer.world, some short_write)
      else (answer.world, none)

  abbrev pub then_write :
      writer.World × Option RecordError → List ℕ → writer.World × Option RecordError
  then_write (w, some e) part = (w, some e)
  then_write (w, none) [] = (w, none)
  then_write (w, none) (b ∷ part) = write_exact w (b ∷ part)

  -- writeRecord.
  unfoldable pub write_record : writer.World → Record → writer.World × Option RecordError
  write_record w taken = elim (check_record go taken) [
    | err e ↦ (w, some e)
    | ok u ↦
        then_write (then_write (then_write (w, none) (record_header go taken)) taken.metadata)
          taken.payload
  ]
