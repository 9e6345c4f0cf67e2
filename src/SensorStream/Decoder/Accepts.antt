-- ===== src/SensorStream/Decoder/Accepts.antt =====
-- The Decoder of internal/multisensorstream/decoder.go accepts each record that the Encoder plans.
use mmwcli.Base.{
  ℕ, ◌≡◌, Bool, true, List, ok, length, same_bytes_refl, arith, Result-cases, Option-cases, inl,
  inr,
}
use mmwcli.SensorStream.Model.{SourceOutcome, AbortReason}
use mmwcli.SensorStream.Digest.{digest_string, valid_digest, valid_digest-digest_string}
use mmwcli.SensorStream.Wire.{
  radar_config_v1, radar_start_v1, item_v1, end_v1, terminal_v1, eof_v1, committed, aborted,
  RadarConfigRecord, RadarStart, RadarStartRecord, Item, ItemRecord, EndRecord, SessionArtifact,
  CommitRecord, AbortRecord, EofRecord, Json, find_source, current_digest, joined,
}
use mmwcli.SensorStream.Encoder.{
  Emission, encode_metadata, plan_radar_config, plan_radar_start, plan_item, plan_end, plan_commit,
  plan_abort, plan_eof,
}
use mmwcli.SensorStream.Decoder.Contracts.{IsJson, IsDigest, encode_metadata_text}
use mmwcli.SensorStream.Decoder.Known.{IsKnown, find_source-HasId}
use mmwcli.SensorStream.Decoder.{
  Decoder, active_phase, terminal_phase, eof_phase, accept_radar_config, accept_radar_start,
  accept_item, accept_end, accept_commit, accept_abort, accept_eof,
}

module _ (json : Json) (sha256 : List ℕ → List ℕ) (valid_utf8 : List ℕ → Bool)
    (reads : IsJson json valid_utf8) (digests : IsDigest sha256) where
  digest_valid : (bytes : List ℕ) → valid_digest (digest_string (sha256 bytes)) ≡ true
  digest_valid bytes =
      valid_digest-digest_string (sha256 bytes) (digests.digest_size bytes)
        (digests.digest_bytes bytes)

  pub accept_radar_config-plan :
      (decoder : Decoder) (source_id format payload : List ℕ) (seq : ℕ) {emission : Emission}
      → decoder.phase ≡ active_phase
      → IsKnown decoder.progress
      → plan_radar_config json sha256 decoder.progress source_id format payload ≡ ok emission
      → accept_radar_config json sha256 decoder (record {
        kind = emission.kind;
        record_seq = seq;
        metadata = emission.metadata;
        payload = emission.payload;
      })
        ≡ ok (record decoder { progress = emission.after })
  unfolding plan_radar_config accept_radar_config
  accept_radar_config-plan decoder source_id format payload seq {emission} active known planned =
      let wire : RadarConfigRecord = record {
        schema = radar_config_v1;
        source_id = source_id;
        format = format;
        size_bytes = length payload;
        sha256 = digest_string (sha256 payload);
      } in
      elim (Option-cases (find_source source_id decoder.progress.sources)) [
        | inl n ↦ absurd (ground arith)
        | inr (source, f) ↦ elim (Result-cases (encode_metadata (json.encode_radar_config wire))) [
          | inr (e, m) ↦ absurd (ground arith)
          | inl (text, m) ↦
              let decoded =
                reads.reads_radar_config wire text
                  (find_source-HasId source_id decoder.progress.sources known.1 f).0 (ground arith)
                  (digest_valid payload) (encode_metadata_text (json.encode_radar_config wire) m) in
              ground (
                arith,
                decoded,
                digest_valid payload,
                same_bytes_refl (digest_string (sha256 payload)),
              )
        ]
      ]

  pub accept_radar_start-plan :
      (decoder : Decoder) (start : RadarStart) (seq : ℕ) {emission : Emission}
      → decoder.phase ≡ active_phase
      → IsKnown decoder.progress
      → plan_radar_start json sha256 decoder.progress start ≡ ok emission
      → accept_radar_start json sha256 decoder (record {
        kind = emission.kind;
        record_seq = seq;
        metadata = emission.metadata;
        payload = emission.payload;
      })
        ≡ ok (record decoder { progress = emission.after })
  unfolding plan_radar_start accept_radar_start
  accept_radar_start-plan decoder start seq {emission} active known planned =
      elim (Option-cases (find_source start.source_id decoder.progress.sources)) [
        | inl n ↦ absurd (ground arith)
        | inr (source, f) ↦
            let wire : RadarStartRecord = record { schema = radar_start_v1; start = start } in
            elim (Result-cases (encode_metadata (json.encode_radar_start wire))) [
              | inr (e, m) ↦ absurd (ground arith)
              | inl (text, m) ↦
                  let decoded =
                    reads.reads_radar_start wire text
                      (find_source-HasId start.source_id decoder.progress.sources known.1 f).0
                      (encode_metadata_text (json.encode_radar_start wire) m) in
                  ground (arith, decoded)
            ]
      ]

  pub accept_item-plan :
      (decoder : Decoder) (item : Item) (payload : List ℕ) (seq : ℕ) {emission : Emission}
      → decoder.phase ≡ active_phase
      → IsKnown decoder.progress
      → plan_item json sha256 decoder.progress item payload ≡ ok emission
      → accept_item json sha256 decoder (record {
        kind = emission.kind;
        record_seq = seq;
        metadata = emission.metadata;
        payload = emission.payload;
      })
        ≡ ok (record decoder { progress = emission.after })
  unfolding plan_item accept_item
  accept_item-plan decoder item payload seq {emission} active known planned =
      elim (Option-cases (find_source item.source_id decoder.progress.sources)) [
        | inl n ↦ absurd (ground arith)
        | inr (source, f) ↦
            let wire : ItemRecord = record { schema = item_v1; provisional = true; item = item } in
            elim (Result-cases (encode_metadata (json.encode_item wire))) [
              | inr (e, m) ↦ absurd (ground arith)
              | inl (text, m) ↦
                  let decoded =
                    reads.reads_item wire text
                      (find_source-HasId item.source_id decoder.progress.sources known.1 f).0
                      (encode_metadata_text (json.encode_item wire) m) in
                  ground (arith, decoded)
            ]
      ]

  pub accept_end-plan :
      (decoder : Decoder) (source_id : List ℕ) (outcome : SourceOutcome) (seq : ℕ)
      {emission : Emission}
      → decoder.phase ≡ active_phase
      → IsKnown decoder.progress
      → plan_end json sha256 decoder.progress source_id outcome ≡ ok emission
      → accept_end json sha256 decoder (record {
        kind = emission.kind;
        record_seq = seq;
        metadata = emission.metadata;
        payload = emission.payload;
      })
        ≡ ok (record decoder { progress = emission.after })
  unfolding plan_end accept_end
  accept_end-plan decoder source_id outcome seq {emission} active known planned =
      elim (Option-cases (find_source source_id decoder.progress.sources)) [
        | inl n ↦ absurd (ground arith)
        | inr (source, f) ↦
            let wire : EndRecord = record {
              schema = end_v1;
              source_id = source_id;
              outcome = outcome;
              item_count = source.next_item;
              payload_bytes = source.payload_bytes;
              payload_sha256 = current_digest sha256 source;
            } in
            elim (Result-cases (encode_metadata (json.encode_end wire))) [
              | inr (e, m) ↦ absurd (ground arith)
              | inl (text, m) ↦
                  let decoded =
                    reads.reads_end wire text
                      (find_source-HasId source_id decoder.progress.sources known.1 f).0
                      (ground arith) (digest_valid (joined source.payload_chunks))
                      (encode_metadata_text (json.encode_end wire) m) in
                  ground (
                    arith,
                    decoded,
                    digest_valid (joined source.payload_chunks),
                    same_bytes_refl (current_digest sha256 source),
                  )
            ]
      ]

  pub accept_commit-plan :
      (decoder : Decoder) (artifact : SessionArtifact) (seq : ℕ) {emission : Emission}
      → decoder.phase ≡ active_phase
      → IsKnown decoder.progress
      → valid_digest (digest_string artifact.sha256) ≡ true
      → plan_commit json sha256 decoder.progress artifact ≡ ok emission
      → accept_commit json sha256 decoder (record {
        kind = emission.kind;
        record_seq = seq;
        metadata = emission.metadata;
        payload = emission.payload;
      })
        ≡ ok (record decoder { phase = terminal_phase })
  unfolding plan_commit accept_commit
  accept_commit-plan decoder artifact seq {emission} active known artifact_valid planned =
      let wire : CommitRecord = record {
        schema = terminal_v1;
        session_id = decoder.progress.session_id;
        outcome = committed;
        size_bytes = artifact.size_bytes;
        sha256 = digest_string artifact.sha256;
      } in
      elim (Result-cases (encode_metadata (json.encode_commit wire))) [
        | inr (e, m) ↦ absurd (ground arith)
        | inl (text, m) ↦
            let decoded =
              reads.reads_commit wire text known.0 artifact_valid
                (encode_metadata_text (json.encode_commit wire) m) in
            ground (arith, decoded, same_bytes_refl decoder.progress.session_id, artifact_valid)
      ]

  pub accept_abort-plan :
      (decoder : Decoder) (reason : AbortReason) (seq : ℕ) {emission : Emission}
      → decoder.phase ≡ active_phase
      → IsKnown decoder.progress
      → plan_abort json sha256 decoder.progress reason ≡ ok emission
      → accept_abort json sha256 decoder (record {
        kind = emission.kind;
        record_seq = seq;
        metadata = emission.metadata;
        payload = emission.payload;
      })
        ≡ ok (record decoder { phase = terminal_phase })
  unfolding plan_abort accept_abort
  accept_abort-plan decoder reason seq {emission} active known planned =
      let wire : AbortRecord = record {
        schema = terminal_v1;
        session_id = decoder.progress.session_id;
        outcome = aborted;
        reason = reason;
      } in
      elim (Result-cases (encode_metadata (json.encode_abort wire))) [
        | inr (e, m) ↦ absurd (ground arith)
        | inl (text, m) ↦
            let decoded =
              reads.reads_abort wire text known.0 (ground arith)
                (encode_metadata_text (json.encode_abort wire) m) in
            ground (arith, decoded, same_bytes_refl decoder.progress.session_id)
      ]

  pub accept_eof-plan :
      (decoder : Decoder) (seq : ℕ) {emission : Emission}
      → decoder.phase ≡ terminal_phase
      → IsKnown decoder.progress
      → plan_eof json sha256 decoder.progress ≡ ok emission
      → accept_eof json sha256 decoder (record {
        kind = emission.kind;
        record_seq = seq;
        metadata = emission.metadata;
        payload = emission.payload;
      })
        ≡ ok (record decoder { phase = eof_phase })
  unfolding plan_eof accept_eof
  accept_eof-plan decoder seq {emission} active known planned =
      let wire : EofRecord = record { schema = eof_v1; session_id = decoder.progress.session_id } in
      elim (Result-cases (encode_metadata (json.encode_eof wire))) [
        | inr (e, m) ↦ absurd (ground arith)
        | inl (text, m) ↦
            let decoded =
              reads.reads_eof wire text known.0 (encode_metadata_text (json.encode_eof wire) m) in
            ground (arith, decoded, same_bytes_refl decoder.progress.session_id)
      ]
