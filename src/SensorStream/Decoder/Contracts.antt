-- ===== src/SensorStream/Decoder/Contracts.antt =====
-- What the stream of internal/multisensorstream asks of encoding/json and crypto/sha256.
use mmwcli.Base.{ℕ, ◌≡◌, Bool, true, List, Option, none, some, ok, length, All, IsByte, arith}
use mmwcli.SensorStream.Model.{
  validate_session, is_session_id, is_source_id, is_format, is_outcome, is_abort_reason,
}
use mmwcli.SensorStream.Digest.{valid_digest}
use mmwcli.SensorStream.Wire.{
  SessionRecord, RadarConfigRecord, RadarStartRecord, ItemRecord, EndRecord, CommitRecord,
  AbortRecord, EofRecord, Json,
}
use mmwcli.SensorStream.Encoder.{encode_metadata}

-- What encoding/json promises of these records: what Marshal prints of one decodes as that one, where its
-- texts are valid UTF-8, as Marshal replaces anything else. They are where the record passes the tests of
-- model.go: identifiers, formats and digests are ASCII, and a file name is what utf8.ValidString takes.
pub record IsJson (json : Json) (valid_utf8 : List ℕ → Bool) : Type 0 where
  pub reads_session :
      (wire : SessionRecord) (text : List ℕ)
      → validate_session valid_utf8 wire.session ≡ ok tt
      → json.encode_session wire ≡ some text
      → json.decode_session text ≡ some wire
  pub reads_radar_config :
      (wire : RadarConfigRecord) (text : List ℕ)
      → is_source_id wire.source_id ≡ true
      → is_format wire.format ≡ true
      → valid_digest wire.sha256 ≡ true
      → json.encode_radar_config wire ≡ some text
      → json.decode_radar_config text ≡ some wire
  pub reads_radar_start :
      (wire : RadarStartRecord) (text : List ℕ)
      → is_source_id wire.start.source_id ≡ true
      → json.encode_radar_start wire ≡ some text
      → json.decode_radar_start text ≡ some wire
  pub reads_item :
      (wire : ItemRecord) (text : List ℕ)
      → is_source_id wire.item.source_id ≡ true
      → json.encode_item wire ≡ some text
      → json.decode_item text ≡ some wire
  pub reads_end :
      (wire : EndRecord) (text : List ℕ)
      → is_source_id wire.source_id ≡ true
      → is_outcome wire.outcome ≡ true
      → valid_digest wire.payload_sha256 ≡ true
      → json.encode_end wire ≡ some text
      → json.decode_end text ≡ some wire
  pub reads_commit :
      (wire : CommitRecord) (text : List ℕ)
      → is_session_id wire.session_id ≡ true
      → valid_digest wire.sha256 ≡ true
      → json.encode_commit wire ≡ some text
      → json.decode_commit text ≡ some wire
  pub reads_abort :
      (wire : AbortRecord) (text : List ℕ)
      → is_session_id wire.session_id ≡ true
      → is_abort_reason wire.reason ≡ true
      → json.encode_abort wire ≡ some text
      → json.decode_abort text ≡ some wire
  pub reads_eof :
      (wire : EofRecord) (text : List ℕ)
      → is_session_id wire.session_id ≡ true
      → json.encode_eof wire ≡ some text
      → json.decode_eof text ≡ some wire

-- A SHA-256 digest is 32 bytes.
pub record IsDigest (sha256 : List ℕ → List ℕ) : Type 0 where
  pub digest_size : (bytes : List ℕ) → length (sha256 bytes) ≡ 32
  pub digest_bytes : (bytes : List ℕ) → All IsByte (sha256 bytes)

pub encode_metadata_text :
    (encoded : Option (List ℕ)) {text : List ℕ}
    → encode_metadata encoded ≡ ok text
    → encoded ≡ some text
encode_metadata_text none h = ground arith
encode_metadata_text (some text) h = ground arith
