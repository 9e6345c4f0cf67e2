-- ===== src/SensorStream/Decoder.antt =====
-- The Decoder of internal/multisensorstream/decoder.go.
pub mod Contracts
pub mod Known
pub mod Accepts
pub mod Planned
pub mod InStep
pub mod Operated
pub mod Followed
use mmwcli.Base.{
  ℕ, ◌+◌, ◌-◌, ◌%◌, Bool, true, false, ◌||◌, ◌&&◌, not, List, [], ◌∷◌, ◌++◌, Option, none, some,
  ltb, leb, ◌==◌, ◌!=◌, Result, ok, err, ◌>>=◌, ◌>>◌, reject_if, length, same_bytes, if◌then◌else◌,
}
use mmwcli.SensorStream.Model.{
  Session, validate_session, is_format, is_outcome, is_abort_reason, checked_item_time,
  SourceOutcome,
}
use mmwcli.SensorStream.Digest.{digest_string, valid_digest}
use mmwcli.SensorStream.Wire.{
  Record, record_session, record_radar_config, record_radar_start, record_item, record_end,
  record_commit, record_abort, record_eof, u64, sub_u64, is_schema, session_v1, radar_config_v1,
  radar_start_v1, item_v1, end_v1, terminal_v1, eof_v1, is_committed, is_aborted, Json, StreamFault,
  bad_contract, seq_exhausted, seq_order, bad_type, bad_metadata, config_order, config_source,
  config_format, config_digest, start_source, start_order, start_bounds, item_source,
  item_needs_start, item_after_end, item_order, payload_limit, item_time, end_source, end_outcome,
  end_mismatch, reason_unknown, terminal_contract, session_order, eof_order, phase_order,
  transport_eof, is_poisoned, SourceProgress, Progress, first_progress, find_source, with_source,
  is_radar, current_digest, add_item, validate_commit_outcomes, validate_artifact, or_fault,
}

pub data DecoderPhase : Type 0 where
  initial_phase active_phase terminal_phase eof_phase complete_phase poisoned_phase : DecoderPhase

abbrev pub phase_code : DecoderPhase → ℕ
phase_code initial_phase = 0
phase_code active_phase = 1
phase_code terminal_phase = 2
phase_code eof_phase = 3
phase_code complete_phase = 4
phase_code poisoned_phase = 5

abbrev pub is_phase : DecoderPhase → DecoderPhase → Bool
is_phase a b = phase_code a == phase_code b

pub record Decoder : Type 0 where
  pub next_record : ℕ
  pub phase : DecoderPhase
  pub progress : Progress
  pub failure : Option StreamFault

abbrev pub no_progress : Progress
no_progress = record {
  session_id = [];
  sources = [];
  config_written = false;
  records_started = false;
  ending_started = false;
}

-- NewDecoder.
unfoldable pub new_decoder : Decoder
new_decoder = record {
  next_record = 0;
  phase = initial_phase;
  progress = no_progress;
  failure = none;
}

abbrev pub or_contract {ℓ} :
    {E : Type ℓ} → Result E (Unit {0}) → StreamFault → Result StreamFault (Unit {0})
or_contract (ok u) e = ok u
or_contract (err e') e = err e

module _ (json : Json) (sha256 : List ℕ → List ℕ) where
  abbrev pub Accepted : Type 0
  Accepted = Result StreamFault Decoder

  unfoldable pub accept_session : (List ℕ → Bool) → Decoder → Record → Accepted
  accept_session valid_utf8 decoder taken = do
    reject_if (not (is_phase decoder.phase initial_phase) || (taken.record_seq != 0)) session_order
    wire ← or_fault (json.decode_session taken.metadata) bad_metadata
    reject_if (not (is_schema wire.schema session_v1)) bad_metadata
    or_contract (validate_session valid_utf8 wire.session) session_order
    ok (record decoder { phase = active_phase; progress = first_progress wire.session })

  unfoldable pub accept_radar_config : Decoder → Record → Accepted
  unfolding find_source is_format valid_digest digest_string
  accept_radar_config decoder taken = do
    reject_if
        (not (is_phase decoder.phase active_phase)
          || (decoder.progress.config_written || decoder.progress.records_started))
        config_order
    wire ← or_fault (json.decode_radar_config taken.metadata) bad_metadata
    reject_if (not (is_schema wire.schema radar_config_v1)) config_source
    source ← or_fault (find_source wire.source_id decoder.progress.sources) config_source
    reject_if (not (is_radar source.contract.kind)) config_source
    reject_if
        (not (is_format wire.format)
          || ((wire.size_bytes != length taken.payload) || not (valid_digest wire.sha256)))
        config_format
    reject_if (not (same_bytes wire.sha256 (digest_string (sha256 taken.payload)))) config_digest
    ok (record decoder { progress = record decoder.progress { config_written = true } })

  unfoldable pub accept_radar_start : Decoder → Record → Accepted
  unfolding find_source
  accept_radar_start decoder taken = do
    reject_if (not (is_phase decoder.phase active_phase) || decoder.progress.ending_started)
        start_order
    wire ← or_fault (json.decode_radar_start taken.metadata) bad_metadata
    reject_if (not (is_schema wire.schema radar_start_v1)) start_source
    source ← or_fault (find_source wire.start.source_id decoder.progress.sources) start_source
    reject_if (not (is_radar source.contract.kind)) start_source
    reject_if (source.radar_started || ((source.next_item != 0) || source.ended)) start_order
    reject_if (ltb wire.start.host_upper_ns wire.start.host_lower_ns) start_bounds
    ok (record decoder {
      progress =
          with_source decoder.progress wire.start.source_id
            (record source { radar_started = true });
    })

  unfoldable pub accept_item : Decoder → Record → Accepted
  unfolding find_source checked_item_time
  accept_item decoder taken = do
    reject_if (not (is_phase decoder.phase active_phase)) phase_order
    reject_if decoder.progress.ending_started item_after_end
    wire ← or_fault (json.decode_item taken.metadata) bad_metadata
    reject_if (not (is_schema wire.schema item_v1) || not wire.provisional) item_source
    source ← or_fault (find_source wire.item.source_id decoder.progress.sources) item_source
    reject_if source.ended item_source
    reject_if (is_radar source.contract.kind && not source.radar_started) item_needs_start
    reject_if (wire.item.item_index != source.next_item) item_order
    reject_if
        (leb source.contract.limits.max_items source.next_item
          || (ltb source.contract.limits.max_item_bytes (length taken.payload)
              || ltb (sub_u64 source.contract.limits.max_payload_bytes source.payload_bytes)
                  (length taken.payload)))
        payload_limit
    reject_if
        (not (
          checked_item_time source.contract.clock wire.item.tick wire.item.wrap_count
            wire.item.duration_ticks))
        item_time
    ok (record decoder {
      progress =
          record (with_source decoder.progress wire.item.source_id
            (add_item source taken.payload)) { records_started = true };
    })

  unfoldable pub accept_end : Decoder → Record → Accepted
  unfolding find_source is_outcome valid_digest
  accept_end decoder taken = do
    reject_if (not (is_phase decoder.phase active_phase)) phase_order
    wire ← or_fault (json.decode_end taken.metadata) bad_metadata
    reject_if (not (is_schema wire.schema end_v1)) end_source
    source ← or_fault (find_source wire.source_id decoder.progress.sources) end_source
    reject_if (source.ended || not (valid_digest wire.payload_sha256)) end_source
    reject_if (not (is_outcome wire.outcome)) end_outcome
    reject_if
        ((wire.item_count != source.next_item)
          || ((wire.payload_bytes != source.payload_bytes)
              || not (same_bytes wire.payload_sha256 (current_digest sha256 source))))
        end_mismatch
    ok (record decoder {
      progress =
          record (with_source decoder.progress wire.source_id
            (record source { ended = true; outcome = wire.outcome })) {
              records_started = true;
              ending_started = true;
            };
    })

  unfoldable pub accept_commit : Decoder → Record → Accepted
  unfolding validate_commit_outcomes valid_digest
  accept_commit decoder taken = do
    reject_if (not (is_phase decoder.phase active_phase)) phase_order
    validate_commit_outcomes decoder.progress.sources
    wire ← or_fault (json.decode_commit taken.metadata) bad_metadata
    reject_if
        (not (is_schema wire.schema terminal_v1)
          || (not (same_bytes wire.session_id decoder.progress.session_id)
              || (not (is_committed wire.outcome) || not (valid_digest wire.sha256))))
        terminal_contract
    validate_artifact wire.size_bytes
    ok (record decoder { phase = terminal_phase })

  unfoldable pub accept_abort : Decoder → Record → Accepted
  unfolding is_abort_reason
  accept_abort decoder taken = do
    reject_if (not (is_phase decoder.phase active_phase)) phase_order
    wire ← or_fault (json.decode_abort taken.metadata) bad_metadata
    reject_if
        (not (is_schema wire.schema terminal_v1)
          || (not (same_bytes wire.session_id decoder.progress.session_id)
              || not (is_aborted wire.outcome)))
        terminal_contract
    reject_if (not (is_abort_reason wire.reason)) reason_unknown
    ok (record decoder { phase = terminal_phase })

  unfoldable pub accept_eof : Decoder → Record → Accepted
  accept_eof decoder taken = do
    reject_if (not (is_phase decoder.phase terminal_phase)) eof_order
    wire ← or_fault (json.decode_eof taken.metadata) bad_metadata
    reject_if
        (not (is_schema wire.schema eof_v1)
          || not (same_bytes wire.session_id decoder.progress.session_id))
        terminal_contract
    ok (record decoder { phase = eof_phase })

-- What readRecord answers: a record, io.EOF or an error.
pub data ReadAnswer : Type 0 where
  a_record : Record → ReadAnswer
  an_eof : ReadAnswer
  a_fault : StreamFault → ReadAnswer

-- What Read gives: a record, io.EOF or an error.
pub data ReadResult : Type 0 where
  gave : Record → ReadResult
  at_end : ReadResult
  fault : StreamFault → ReadResult

unfoldable pub poison_decoder : Decoder → StreamFault → Decoder × ReadResult
poison_decoder decoder e = (record decoder { phase = poisoned_phase; failure = some e }, fault e)

-- The end of Read, from what `accept` gave.
unfoldable pub after_accept : Decoder → Record → Result StreamFault Decoder → Decoder × ReadResult
unfolding poison_decoder
after_accept decoder taken (err e) = poison_decoder decoder e
after_accept decoder taken (ok next) =
    (record next { next_record = next.next_record + 1 }, gave taken)

module _ (json : Json) (sha256 : List ℕ → List ℕ) (valid_utf8 : List ℕ → Bool) where
  unfoldable pub accept : Decoder → Record → Result StreamFault Decoder
  accept decoder taken =
      if taken.kind == record_session
      then accept_session json sha256 valid_utf8 decoder taken
      else if taken.kind == record_radar_config
      then accept_radar_config json sha256 decoder taken
      else if taken.kind == record_radar_start
      then accept_radar_start json sha256 decoder taken
      else if taken.kind == record_item
      then accept_item json sha256 decoder taken
      else if taken.kind == record_end
      then accept_end json sha256 decoder taken
      else if taken.kind == record_commit
      then accept_commit json sha256 decoder taken
      else if taken.kind == record_abort
      then accept_abort json sha256 decoder taken
      else if taken.kind == record_eof
      then accept_eof json sha256 decoder taken
      else err bad_type

  unfoldable pub take_answer : Decoder → ReadAnswer → Decoder × ReadResult
  unfolding poison_decoder after_accept
  take_answer decoder (a_fault e) = poison_decoder decoder e
  take_answer decoder an_eof =
      if not (is_phase decoder.phase eof_phase)
      then poison_decoder decoder transport_eof
      else (record decoder { phase = complete_phase }, at_end)
  take_answer decoder (a_record taken) =
      if taken.record_seq != decoder.next_record
      then poison_decoder decoder seq_order
      else if taken.record_seq == 18446744073709551615
      then poison_decoder decoder seq_exhausted
      else after_accept decoder taken (accept decoder taken)

  -- Read, with what readRecord would answer. A poisoned or complete decoder does not call it.
  unfoldable pub read : Decoder → ReadAnswer → Decoder × ReadResult
  unfolding take_answer
  read decoder answer =
      if is_phase decoder.phase poisoned_phase
      then (decoder, fault is_poisoned)
      else if is_phase decoder.phase complete_phase
      then (decoder, at_end)
      else take_answer decoder answer
