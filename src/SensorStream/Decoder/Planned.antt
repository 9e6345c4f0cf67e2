-- ===== src/SensorStream/Decoder/Planned.antt =====
-- The Decoder of internal/multisensorstream/decoder.go accepts the record of each planned operation.
use mmwcli.Base.{
  ℕ, ◌≡◌, sym, subst, Bool, true, List, ok, length, if◌then◌else◌, arith, Result-cases,
  Option-cases, inl, inr,
}
use mmwcli.SensorStream.Model.{SourceOutcome, AbortReason}
use mmwcli.SensorStream.Digest.{digest_string, valid_digest}
use mmwcli.SensorStream.Wire.{
  Record, record_radar_config, record_radar_start, record_item, record_end, record_commit,
  record_abort, record_eof, radar_config_v1, radar_start_v1, item_v1, end_v1, terminal_v1, eof_v1,
  committed, aborted, RadarStart, Item, SessionArtifact, Json, Progress, find_source,
  current_digest,
}
use mmwcli.SensorStream.Encoder.{
  Emission, encode_metadata, plan_radar_config, plan_radar_start, plan_item, plan_end, plan_commit,
  plan_abort, plan_eof, Operation, write_radar_config, write_radar_start, write_item,
  end_source_with, commit_session, abort_session, is_final, plan,
}
use mmwcli.SensorStream.Decoder.{
  Decoder, active_phase, terminal_phase, eof_phase, accept_radar_config, accept_radar_start,
  accept_item, accept_end, accept_commit, accept_abort, accept_eof, accept,
}
use mmwcli.SensorStream.Decoder.Contracts.{IsJson, IsDigest}
use mmwcli.SensorStream.Decoder.Known.{
  IsKnown, start-IsKnown, item-IsKnown, end-IsKnown, config-IsKnown,
}
use mmwcli.SensorStream.Decoder.Accepts.{
  accept_radar_config-plan, accept_radar_start-plan, accept_item-plan, accept_end-plan,
  accept_commit-plan, accept_abort-plan, accept_eof-plan,
}

-- An artifact's digest is a [32]byte.
abbrev pub IsOperation : Operation → Type 0
IsOperation (commit_session artifact) = valid_digest (digest_string artifact.sha256) ≡ true
IsOperation _ = Unit {0}

module _ (json : Json) (sha256 : List ℕ → List ℕ) where
  config_kind :
      (progress : Progress) (source_id format payload : List ℕ) {emission : Emission}
      → plan_radar_config json sha256 progress source_id format payload ≡ ok emission
      → emission.kind ≡ record_radar_config
  unfolding plan_radar_config
  config_kind progress source_id format payload planned =
      elim (Option-cases (find_source source_id progress.sources)) [
        | inl n ↦ absurd (ground arith)
        | inr (source, f) ↦
            elim (Result-cases (
              encode_metadata (
                json.encode_radar_config (record {
                  schema = radar_config_v1;
                  source_id = source_id;
                  format = format;
                  size_bytes = length payload;
                  sha256 = digest_string (sha256 payload);
                })))) [ inr (e, m) ↦ absurd (ground arith) | inl (text, m) ↦ ground arith ]
      ]

  start_kind :
      (progress : Progress) (start : RadarStart) {emission : Emission}
      → plan_radar_start json sha256 progress start ≡ ok emission
      → emission.kind ≡ record_radar_start
  unfolding plan_radar_start
  start_kind progress start planned =
      elim (Option-cases (find_source start.source_id progress.sources)) [
        | inl n ↦ absurd (ground arith)
        | inr (source, f) ↦
            elim (Result-cases (
              encode_metadata
                (json.encode_radar_start (record { schema = radar_start_v1; start = start })))) [
                  | inr (e, m) ↦ absurd (ground arith)
                  | inl (text, m) ↦ ground arith
                ]
      ]

  item_kind :
      (progress : Progress) (item : Item) (payload : List ℕ) {emission : Emission}
      → plan_item json sha256 progress item payload ≡ ok emission
      → emission.kind ≡ record_item
  unfolding plan_item
  item_kind progress item payload planned =
      elim (Option-cases (find_source item.source_id progress.sources)) [
        | inl n ↦ absurd (ground arith)
        | inr (source, f) ↦
            elim (Result-cases (
              encode_metadata (
                json.encode_item (record { schema = item_v1; provisional = true; item = item })))) [
                  | inr (e, m) ↦ absurd (ground arith)
                  | inl (text, m) ↦ ground arith
                ]
      ]

  end_kind :
      (progress : Progress) (source_id : List ℕ) (outcome : SourceOutcome) {emission : Emission}
      → plan_end json sha256 progress source_id outcome ≡ ok emission
      → emission.kind ≡ record_end
  unfolding plan_end
  end_kind progress source_id outcome planned =
      elim (Option-cases (find_source source_id progress.sources)) [
        | inl n ↦ absurd (ground arith)
        | inr (source, f) ↦
            elim (Result-cases (
              encode_metadata (
                json.encode_end (record {
                  schema = end_v1;
                  source_id = source_id;
                  outcome = outcome;
                  item_count = source.next_item;
                  payload_bytes = source.payload_bytes;
                  payload_sha256 = current_digest sha256 source;
                })))) [ inr (e, m) ↦ absurd (ground arith) | inl (text, m) ↦ ground arith ]
      ]

  commit_kind :
      (progress : Progress) (artifact : SessionArtifact) {emission : Emission}
      → plan_commit json sha256 progress artifact ≡ ok emission
      → (emission.kind ≡ record_commit) × (emission.after ≡ progress)
  unfolding plan_commit
  commit_kind progress artifact planned =
      elim (Result-cases (
        encode_metadata (
          json.encode_commit (record {
            schema = terminal_v1;
            session_id = progress.session_id;
            outcome = committed;
            size_bytes = artifact.size_bytes;
            sha256 = digest_string artifact.sha256;
          })))) [
            | inr (e, m) ↦ absurd (ground arith)
            | inl (text, m) ↦ (ground arith, ground arith)
          ]

  abort_kind :
      (progress : Progress) (reason : AbortReason) {emission : Emission}
      → plan_abort json sha256 progress reason ≡ ok emission
      → (emission.kind ≡ record_abort) × (emission.after ≡ progress)
  unfolding plan_abort
  abort_kind progress reason planned =
      elim (Result-cases (
        encode_metadata (
          json.encode_abort (record {
            schema = terminal_v1;
            session_id = progress.session_id;
            outcome = aborted;
            reason = reason;
          })))) [
            | inr (e, m) ↦ absurd (ground arith)
            | inl (text, m) ↦ (ground arith, ground arith)
          ]

  pub eof_kind :
      (progress : Progress) {emission : Emission}
      → plan_eof json sha256 progress ≡ ok emission
      → (emission.kind ≡ record_eof) × (emission.after ≡ progress)
  unfolding plan_eof
  eof_kind progress planned =
      elim (Result-cases (
        encode_metadata
          (json.encode_eof (record { schema = eof_v1; session_id = progress.session_id })))) [
            | inr (e, m) ↦ absurd (ground arith)
            | inl (text, m) ↦ (ground arith, ground arith)
          ]

abbrev pub taken_of : Emission → ℕ → Record
taken_of emission seq = record {
  kind = emission.kind;
  record_seq = seq;
  metadata = emission.metadata;
  payload = emission.payload;
}

-- How far the decoder is behind the record of an operation.
abbrev pub behind : Decoder → Operation → Emission → Decoder
behind decoder operation emission =
    if is_final operation
    then (record decoder { phase = terminal_phase })
    else (record decoder { progress = emission.after })

module _ (json : Json) (sha256 : List ℕ → List ℕ) (valid_utf8 : List ℕ → Bool)
    (reads : IsJson json valid_utf8) (digests : IsDigest sha256) where
  pub planned_accept :
      (decoder : Decoder) (operation : Operation) (seq : ℕ) {emission : Emission}
      → decoder.phase ≡ active_phase
      → IsKnown decoder.progress
      → IsOperation operation
      → plan json sha256 decoder.progress operation ≡ ok emission
      → accept json sha256 valid_utf8 decoder (taken_of emission seq)
        ≡ ok (behind decoder operation emission)
  unfolding plan accept accept_radar_config accept_radar_start accept_item accept_end accept_commit
      accept_abort
  planned_accept decoder (write_radar_config source_id format payload) seq {emission} ready known
        fine planned =
      rw (config_kind json sha256 decoder.progress source_id format payload planned) (
        accept_radar_config-plan json sha256 valid_utf8 reads digests decoder source_id format
          payload seq ready known planned)
  planned_accept decoder (write_radar_start start) seq {emission} ready known fine planned =
      rw (start_kind json sha256 decoder.progress start planned) (
        accept_radar_start-plan json sha256 valid_utf8 reads digests decoder start seq ready known
          planned)
  planned_accept decoder (write_item item payload) seq {emission} ready known fine planned =
      rw (item_kind json sha256 decoder.progress item payload planned) (
        accept_item-plan json sha256 valid_utf8 reads digests decoder item payload seq ready known
          planned)
  planned_accept decoder (end_source_with source_id outcome) seq {emission} ready known fine
        planned =
      rw (end_kind json sha256 decoder.progress source_id outcome planned) (
        accept_end-plan json sha256 valid_utf8 reads digests decoder source_id outcome seq ready
          known planned)
  planned_accept decoder (commit_session artifact) seq {emission} ready known fine planned =
      rw (commit_kind json sha256 decoder.progress artifact planned).0 (
        accept_commit-plan json sha256 valid_utf8 reads digests decoder artifact seq ready known
          fine planned)
  planned_accept decoder (abort_session reason) seq {emission} ready known fine planned =
      rw (abort_kind json sha256 decoder.progress reason planned).0 (
        accept_abort-plan json sha256 valid_utf8 reads digests decoder reason seq ready known
          planned)

  pub planned_eof :
      (decoder : Decoder) (seq : ℕ) {emission : Emission}
      → decoder.phase ≡ terminal_phase
      → IsKnown decoder.progress
      → plan_eof json sha256 decoder.progress ≡ ok emission
      → accept json sha256 valid_utf8 decoder (taken_of emission seq)
        ≡ ok (record decoder { phase = eof_phase })
  unfolding accept accept_eof
  planned_eof decoder seq ready known planned =
      rw (eof_kind json sha256 decoder.progress planned).0
        (accept_eof-plan json sha256 valid_utf8 reads digests decoder seq ready known planned)

-- A terminal record and the EOF leave the progress alone.
pub final_after :
    (json : Json) (sha256 : List ℕ → List ℕ) (progress : Progress) (operation : Operation)
    {emission : Emission}
    → is_final operation ≡ true
    → plan json sha256 progress operation ≡ ok emission
    → emission.after ≡ progress
unfolding plan
final_after json sha256 progress (write_radar_config source_id format payload) h planned = cc
final_after json sha256 progress (write_radar_start start) h planned = cc
final_after json sha256 progress (write_item item payload) h planned = cc
final_after json sha256 progress (end_source_with source_id outcome) h planned = cc
final_after json sha256 progress (commit_session artifact) h planned =
    (commit_kind json sha256 progress artifact planned).1
final_after json sha256 progress (abort_session reason) h planned =
    (abort_kind json sha256 progress reason planned).1

-- The identifiers stay known.
pub plan-IsKnown :
    (json : Json) (sha256 : List ℕ → List ℕ) (progress : Progress) (operation : Operation)
    {emission : Emission}
    → IsKnown progress
    → plan json sha256 progress operation ≡ ok emission
    → IsKnown emission.after
unfolding plan
plan-IsKnown json sha256 progress (write_radar_config source_id format payload) known planned =
    config-IsKnown json sha256 progress source_id format payload known planned
plan-IsKnown json sha256 progress (write_radar_start start) known planned =
    start-IsKnown json sha256 progress start known planned
plan-IsKnown json sha256 progress (write_item item payload) known planned =
    item-IsKnown json sha256 progress item payload known planned
plan-IsKnown json sha256 progress (end_source_with source_id outcome) known planned =
    end-IsKnown json sha256 progress source_id outcome known planned
plan-IsKnown json sha256 progress (commit_session artifact) known planned =
    subst (λ (p : Progress). IsKnown p) (sym (commit_kind json sha256 progress artifact planned).1)
      known
plan-IsKnown json sha256 progress (abort_session reason) known planned =
    subst (λ (p : Progress). IsKnown p) (sym (abort_kind json sha256 progress reason planned).1)
      known
