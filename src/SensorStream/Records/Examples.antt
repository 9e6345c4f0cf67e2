-- ===== src/SensorStream/Records/Examples.antt =====
-- A record of internal/multisensorstream/protocol.go at a small input.
use mmwcli.Base.{
  ℕ, ◌≡◌, refl, sym, ap, take, arith, true, false, List, [], ◌∷◌, ◌++◌, none, ok, err, length,
  replicate, length-replicate, le_bytes, pos,
}
use mmwcli.Stream.Writer.{Writer, IsWriter}
use mmwcli.SensorStream.Wire.{Record, record_item, record_end}
use mmwcli.SensorStream.Records.{
  RecordLibrary, check_record, no_payload_allowed, is_json_object, validate_wire_payload,
  record_header, record_digest, record_prefix, read_record, write_record, write_exact,
}
use mmwcli.SensorStream.Records.Written.{read_record-write_record}

abbrev some_library : RecordLibrary
some_library = record {
  sha256 = λ bytes. replicate 32 7;
  trim_space = λ bytes. bytes;
  json_valid = λ bytes. true;
}

abbrev some_record : Record
some_record = record {
  kind = record_item;
  record_seq = 3;
  metadata = 123 ∷ (125 ∷ []);
  payload = 5 ∷ (6 ∷ []);
}

record_passes : check_record some_library some_record ≡ ok tt
unfolding check_record is_json_object validate_wire_payload
record_passes = refl

-- An END record cannot carry a payload.
end_refused :
    check_record some_library
      (record { kind = record_end; record_seq = 3; metadata = 123 ∷ (125 ∷ []); payload = 5 ∷ [] })
    ≡ err no_payload_allowed
unfolding check_record is_json_object validate_wire_payload
end_refused = refl

-- A writer that takes every byte.
abbrev buffer : Writer
buffer = record {
  World = List ℕ;
  write = λ w bytes. record { world = w ++ bytes; written = pos (length bytes); failed = false };
  taken = λ w. w;
}

record_written :
    write_record buffer some_library [] some_record
    ≡ (record_header some_library some_record ++ (123 ∷ (125 ∷ [])) ++ (5 ∷ (6 ∷ [])), none)
unfolding write_record check_record is_json_object validate_wire_payload write_exact record_header
    record_digest record_prefix le_bytes
record_written = refl

take-length : (bytes : List ℕ) → take (length bytes) bytes ≡ bytes
take-length [] = refl
take-length (b ∷ bytes) = ap (λ (r : List ℕ). b ∷ r) (take-length bytes)

buffer-IsWriter : IsWriter buffer
buffer-IsWriter = record {
  takes = λ w bytes. ap (λ (r : List ℕ). w ++ r) (sym (take-length bytes));
}

record_quiet : (write_record buffer some_library (9 ∷ []) some_record).1 ≡ none
unfolding write_record check_record is_json_object validate_wire_payload write_exact record_header
    record_digest record_prefix le_bytes
record_quiet = refl

read_record-write_record_example :
    (text : List ℕ) × (buffer.taken (write_record buffer some_library (9 ∷ []) some_record).0
      ≡ buffer.taken (9 ∷ []) ++ text)
    × (read_record some_library false (text ++ (1 ∷ [])) ≡ ok (some_record, 1 ∷ []))
read_record-write_record_example =
    read_record-write_record buffer some_library buffer-IsWriter false (9 ∷ []) some_record (1 ∷ [])
      (λ bytes. length-replicate {A = ℕ} 32 7) (omega arith) record_quiet
