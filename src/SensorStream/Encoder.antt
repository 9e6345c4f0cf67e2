-- ===== src/SensorStream/Encoder.antt =====
-- The Encoder of internal/multisensorstream/encoder.go.
use mmwcli.Base.{
  ℕ, ◌+◌, Bool, true, false, ◌||◌, ◌&&◌, not, List, [], ◌∷◌, ◌++◌, Option, none, some, ltb, leb,
  ◌==◌, ◌!=◌, Result, ok, err, ◌>>=◌, ◌>>◌, reject_if, length, if◌then◌else◌,
}
use mmwcli.SensorStream.Model.{
  Session, SourceOutcome, AbortReason, validate_session, is_format, is_outcome, is_abort_reason,
  checked_item_time,
}
use mmwcli.SensorStream.Digest.{digest_string}
use mmwcli.SensorStream.Wire.{
  Record, record_session, record_radar_config, record_radar_start, record_item, record_end,
  record_commit, record_abort, record_eof, max_record_metadata_bytes, max_radar_config_bytes,
  sub_u64, session_v1, radar_config_v1, radar_start_v1, item_v1, end_v1, terminal_v1, eof_v1,
  committed, aborted, RadarStart, Item, SessionArtifact, Json, StreamFault, bad_contract, encoding,
  metadata_limit, seq_exhausted, config_order, config_source, config_format, config_size,
  start_source, start_twice, start_order, start_bounds, item_source, item_ended, item_needs_start,
  item_after_end, item_order, item_size, item_count, payload_limit, item_time, end_source,
  end_twice, end_outcome, reason_unknown, is_poisoned, is_terminal, Progress, first_progress,
  find_source, with_source, is_radar, current_digest, add_item, validate_commit_outcomes,
  validate_artifact, or_fault,
}

-- encodeMetadata.
abbrev pub encode_metadata : Option (List ℕ) → Result StreamFault (List ℕ)
encode_metadata none = err encoding
encode_metadata (some text) =
    if ltb max_record_metadata_bytes (length text) then err metadata_limit else ok text

-- What an operation that passed its tests is about to write, and the progress behind the record.
pub record Emission : Type 0 where
  pub kind : ℕ
  pub metadata : List ℕ
  pub payload : List ℕ
  pub after : Progress

module _ (json : Json) (sha256 : List ℕ → List ℕ) where
  -- WriteRadarConfig up to its record.
  unfoldable pub plan_radar_config :
      Progress → List ℕ → List ℕ → List ℕ → Result StreamFault Emission
  unfolding find_source is_format digest_string
  plan_radar_config progress source_id format payload = do
    reject_if (progress.config_written || progress.records_started) config_order
    source ← or_fault (find_source source_id progress.sources) config_source
    reject_if (not (is_radar source.contract.kind)) config_source
    reject_if (not (is_format format)) config_format
    reject_if ((length payload == 0) || ltb max_radar_config_bytes (length payload)) config_size
    metadata ← encode_metadata (
        json.encode_radar_config (record {
          schema = radar_config_v1;
          source_id = source_id;
          format = format;
          size_bytes = length payload;
          sha256 = digest_string (sha256 payload);
        }))
    ok (record {
      kind = record_radar_config;
      metadata = metadata;
      payload = payload;
      after = record progress { config_written = true };
    })

  -- WriteRadarStart up to its record.
  unfoldable pub plan_radar_start : Progress → RadarStart → Result StreamFault Emission
  unfolding find_source
  plan_radar_start progress start = do
    source ← or_fault (find_source start.source_id progress.sources) start_source
    reject_if (not (is_radar source.contract.kind)) start_source
    reject_if source.radar_started start_twice
    reject_if ((source.next_item != 0) || (source.ended || progress.ending_started)) start_order
    reject_if (ltb start.host_upper_ns start.host_lower_ns) start_bounds
    metadata ←
        encode_metadata
          (json.encode_radar_start (record { schema = radar_start_v1; start = start }))
    ok (record {
      kind = record_radar_start;
      metadata = metadata;
      payload = [];
      after = with_source progress start.source_id (record source { radar_started = true });
    })

  -- WriteItem up to its record; `hash.Write` never fails.
  unfoldable pub plan_item : Progress → Item → List ℕ → Result StreamFault Emission
  unfolding find_source checked_item_time
  plan_item progress item payload = do
    source ← or_fault (find_source item.source_id progress.sources) item_source
    reject_if source.ended item_ended
    reject_if (is_radar source.contract.kind && not source.radar_started) item_needs_start
    reject_if progress.ending_started item_after_end
    reject_if (item.item_index != source.next_item) item_order
    reject_if ((length payload == 0) || ltb source.contract.limits.max_item_bytes (length payload))
        item_size
    reject_if (leb source.contract.limits.max_items source.next_item) item_count
    reject_if
        (ltb (sub_u64 source.contract.limits.max_payload_bytes source.payload_bytes)
          (length payload))
        payload_limit
    reject_if
        (not
          (checked_item_time source.contract.clock item.tick item.wrap_count item.duration_ticks))
        item_time
    metadata ←
        encode_metadata
          (json.encode_item (record { schema = item_v1; provisional = true; item = item }))
    ok (record {
      kind = record_item;
      metadata = metadata;
      payload = payload;
      after = record (with_source progress item.source_id (add_item source payload)) {
        records_started = true;
      };
    })

  -- EndSource up to its record.
  unfoldable pub plan_end : Progress → List ℕ → SourceOutcome → Result StreamFault Emission
  unfolding find_source is_outcome
  plan_end progress source_id outcome = do
    source ← or_fault (find_source source_id progress.sources) end_source
    reject_if source.ended end_twice
    reject_if (not (is_outcome outcome)) end_outcome
    metadata ← encode_metadata (
        json.encode_end (record {
          schema = end_v1;
          source_id = source_id;
          outcome = outcome;
          item_count = source.next_item;
          payload_bytes = source.payload_bytes;
          payload_sha256 = current_digest sha256 source;
        }))
    ok (record {
      kind = record_end;
      metadata = metadata;
      payload = [];
      after =
          record (with_source progress source_id
            (record source { ended = true; outcome = outcome })) {
              records_started = true;
              ending_started = true;
            };
    })

  -- Commit and Abort up to the terminal record, which leave the progress alone.
  unfoldable pub plan_commit : Progress → SessionArtifact → Result StreamFault Emission
  unfolding validate_commit_outcomes digest_string
  plan_commit progress artifact = do
    validate_commit_outcomes progress.sources
    validate_artifact artifact.size_bytes
    metadata ← encode_metadata (
        json.encode_commit (record {
          schema = terminal_v1;
          session_id = progress.session_id;
          outcome = committed;
          size_bytes = artifact.size_bytes;
          sha256 = digest_string artifact.sha256;
        }))
    ok (record { kind = record_commit; metadata = metadata; payload = []; after = progress })

  unfoldable pub plan_abort : Progress → AbortReason → Result StreamFault Emission
  unfolding is_abort_reason
  plan_abort progress reason = do
    reject_if (not (is_abort_reason reason)) reason_unknown
    metadata ← encode_metadata (
        json.encode_abort (record {
          schema = terminal_v1;
          session_id = progress.session_id;
          outcome = aborted;
          reason = reason;
        }))
    ok (record { kind = record_abort; metadata = metadata; payload = []; after = progress })

  -- The EOF record of emitTerminal.
  unfoldable pub plan_eof : Progress → Result StreamFault Emission
  plan_eof progress = do
    metadata ←
        encode_metadata
          (json.encode_eof (record { schema = eof_v1; session_id = progress.session_id }))
    ok (record { kind = record_eof; metadata = metadata; payload = []; after = progress })

pub data EncoderState : Type 0 where
  active poisoned terminal : EncoderState

-- `sent` keeps the records that were written with no error, the oldest first, for the theorems.
pub record Encoder (World : Type 0) : Type 0 where
  pub world : World
  pub progress : Progress
  pub next_record : ℕ
  pub state : EncoderState
  pub failure : Option StreamFault
  pub sent : List Record

pub data Operation : Type 0 where
  write_radar_config : List ℕ → List ℕ → List ℕ → Operation
  write_radar_start : RadarStart → Operation
  write_item : Item → List ℕ → Operation
  end_source_with : List ℕ → SourceOutcome → Operation
  commit_session : SessionArtifact → Operation
  abort_session : AbortReason → Operation

abbrev pub is_final : Operation → Bool
is_final (commit_session artifact) = true
is_final (abort_session reason) = true
is_final _ = false

unfoldable pub require_active : EncoderState → Option StreamFault
require_active active = none
require_active poisoned = some is_poisoned
require_active terminal = some is_terminal

module _ (World : Type 0) where
  abbrev pub Step : Type 0
  Step = Encoder World × Option StreamFault

  unfoldable pub poison : Encoder World → StreamFault → Step
  poison encoder e = (record encoder { state = poisoned; failure = some e }, some e)

module _ (json : Json) (sha256 : List ℕ → List ℕ) where
  unfoldable pub plan : Progress → Operation → Result StreamFault Emission
  unfolding plan_radar_config plan_radar_start plan_item plan_end plan_commit plan_abort
  plan progress (write_radar_config source_id format payload) =
      plan_radar_config json sha256 progress source_id format payload
  plan progress (write_radar_start start) = plan_radar_start json sha256 progress start
  plan progress (write_item item payload) = plan_item json sha256 progress item payload
  plan progress (end_source_with source_id outcome) =
      plan_end json sha256 progress source_id outcome
  plan progress (commit_session artifact) = plan_commit json sha256 progress artifact
  plan progress (abort_session reason) = plan_abort json sha256 progress reason

  -- `write` is writeRecord at the encoder's writer.
  module _ {World : Type 0} (write : World → Record → World × Option StreamFault) where
    abbrev pub record_of : Encoder World → Emission → Record
    record_of encoder emission = record {
      kind = emission.kind;
      record_seq = encoder.next_record;
      metadata = emission.metadata;
      payload = emission.payload;
    }

    abbrev pub after_write : Encoder World → Emission → World × Option StreamFault → Step World
    after_write encoder emission (w, some e) = poison World (record encoder { world = w }) e
    after_write encoder emission (w, none) = (
      record encoder {
        world = w;
        progress = emission.after;
        next_record = encoder.next_record + 1;
        sent = encoder.sent ++ (record_of encoder emission ∷ []);
      },
      none,
    )

    -- emit, with the poison of its callers.
    unfoldable pub emit : Encoder World → Emission → Step World
    unfolding poison
    emit encoder emission =
        if encoder.next_record == 18446744073709551615
        then poison World encoder seq_exhausted
        else after_write encoder emission (write encoder.world (record_of encoder emission))

    abbrev pub emit_planned : Encoder World → Result StreamFault Emission → Step World
    emit_planned encoder (err e) = poison World encoder e
    emit_planned encoder (ok emission) = emit encoder emission

    abbrev pub close : Step World → Step World
    close (encoder, some e) = (encoder, some e)
    close (encoder, none) = (record encoder { state = terminal }, none)

    -- The rest of emitTerminal behind the terminal record.
    abbrev pub emit_eof : Step World → Step World
    emit_eof (encoder, some e) = (encoder, some e)
    emit_eof (encoder, none) = close (emit_planned encoder (plan_eof json sha256 encoder.progress))

    unfoldable pub operate : Encoder World → Operation → Step World
    operate encoder operation = elim (require_active encoder.state) [
      | some e ↦ (encoder, some e)
      | none ↦
          let emitted = emit_planned encoder (plan encoder.progress operation) in
          if is_final operation then emit_eof emitted else emitted
    ]

    abbrev pub first_record : List ℕ → Record
    first_record metadata = record {
      kind = record_session;
      record_seq = 0;
      metadata = metadata;
      payload = [];
    }

    abbrev pub after_session :
        Session → List ℕ → World × Option StreamFault → World × Result StreamFault (Encoder World)
    after_session session metadata (w, some e) = (w, err e)
    after_session session metadata (w, none) = (
      w,
      ok (record {
        world = w;
        progress = first_progress session;
        next_record = 1;
        state = active;
        failure = none;
        sent = first_record metadata ∷ [];
      }),
    )

    -- NewEncoder.
    unfoldable pub new_encoder :
        (List ℕ → Bool) → World → Session → World × Result StreamFault (Encoder World)
    new_encoder valid_utf8 w session = elim (validate_session valid_utf8 session) [
      | err e ↦ (w, err (bad_contract e))
      | ok u ↦
          elim (encode_metadata
            (json.encode_session (record { schema = session_v1; session = session }))) [
              | err e ↦ (w, err e)
              | ok metadata ↦ after_session session metadata (write w (first_record metadata))
            ]
    ]

    abbrev pub then_operate : (Encoder World → Step World) → Step World → Step World
    then_operate rest (encoder, some e) = (encoder, some e)
    then_operate rest (encoder, none) = rest encoder

    -- A client's calls, until one of them fails.
    unfoldable pub operate_all : Encoder World → List Operation → Step World
    operate_all encoder [] = (encoder, none)
    operate_all encoder (operation ∷ operations) =
        then_operate (λ (e : Encoder World). operate_all e operations) (operate encoder operation)
