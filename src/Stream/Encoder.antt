-- ===== src/Stream/Encoder.antt =====
-- The Encoder of internal/capturestream/encoder.go, and the terminal's rules of session.go.
-- SHA-256 and the JSON text of the terminal record come from Go's library and are parameters; a
-- running hash is the list of the chunks that were written to it.
use mmwcli.Base.{
  ℕ, ◌+◌, ◌%◌, Bool, true, false, ◌||◌, List, [], ◌∷◌, ◌++◌, Option, none, some, ltb, leb, ◌!=◌,
  if◌then◌else◌, Result, ok, err, ◌>>◌, reject_if, length, not, same_bytes,
}
use mmwcli.Stream.Writer.{
  StreamError, Writer, frame_order, frame_excess, frame_size, frames_missing, artifact_size,
  artifact_digest, abort_reason, terminal_encoding, terminal_size, is_poisoned, is_terminal,
}
use mmwcli.Stream.Record.{
  write_record, session_record, radar_config_record, frame_record, commit_record, abort_record,
  max_session_payload_bytes, max_radar_config_bytes, max_frame_payload_bytes,
  max_terminal_payload_bytes,
}

abbrev pub u64 : ℕ → ℕ
u64 n = n % 18446744073709551616

pub record CaptureShape : Type 0 where
  pub frame_count : ℕ
  pub frame_bytes : ℕ
  pub expected_bytes : ℕ

-- The reasons that validateAbortReason knows, and any other text.
pub data AbortReason : Type 0 where
  cancelled backpressure capture_failed integrity_failed cleanup_failed publish_failed : AbortReason
  other_reason : AbortReason

unfoldable pub is_known_reason : AbortReason → Bool
is_known_reason other_reason = false
is_known_reason _ = true

pub data TerminalOutcome : Type 0 where
  commit : TerminalOutcome
  abort : AbortReason → TerminalOutcome

-- What the terminal record says beside its schema and the stream's identifier.
pub record Terminal : Type 0 where
  pub outcome : TerminalOutcome
  pub frames : ℕ
  pub adc_bytes : ℕ
  pub adc_digest : List ℕ

pub record Artifact : Type 0 where
  pub size_bytes : ℕ
  pub digest : List ℕ

pub data EncoderState : Type 0 where
  ready poisoned terminal : EncoderState

pub record Encoder (World : Type 0) : Type 0 where
  pub world : World
  pub shape : CaptureShape
  pub next_frame : ℕ
  pub adc_bytes : ℕ
  pub adc_chunks : List (List ℕ)  -- adcHash, the oldest chunk first
  pub state : EncoderState
  pub failure : Option StreamError

abbrev pub flatten : List (List ℕ) → List ℕ
flatten [] = []
flatten (chunk ∷ chunks) = chunk ++ flatten chunks

unfoldable pub require_ready : EncoderState → Option StreamError
require_ready ready = none
require_ready poisoned = some is_poisoned
require_ready terminal = some is_terminal

-- An abort's reason is tested again where the payload is built.
unfoldable pub check_outcome : TerminalOutcome → Result StreamError (Unit {0})
check_outcome commit = ok tt
check_outcome (abort reason) = reject_if (not (is_known_reason reason)) abort_reason

unfoldable pub sized_terminal : Option (List ℕ) → Result StreamError (List ℕ)
sized_terminal none = err terminal_encoding
sized_terminal (some payload) =
    if ltb max_terminal_payload_bytes (length payload) then err terminal_size else ok payload

module _ {World : Type 0} where
  -- An operation gives the new encoder and the error, if there is one.
  unfoldable pub poison : Encoder World → StreamError → Encoder World × Option StreamError
  poison encoder e = (record encoder { state = poisoned; failure = some e }, some e)

  -- Behind a record that was written or not: the writer's state is kept in both cases.
  unfoldable pub after_record :
      Encoder World
      → World × Option StreamError
      → Encoder World
      → Encoder World × Option StreamError
  unfolding poison
  after_record encoder (w, some e) done = poison (record encoder { world = w }) e
  after_record encoder (w, none) done = (record done { world = w }, none)

  unfoldable pub first_encoder : CaptureShape → World → Encoder World
  first_encoder shape w = record {
    world = w;
    shape = shape;
    next_frame = 0;
    adc_bytes = 0;
    adc_chunks = [];
    state = ready;
    failure = none;
  }

  unfoldable pub after_config :
      CaptureShape → World × Option StreamError → World × Result StreamError (Encoder World)
  unfolding first_encoder
  after_config shape (w, some e) = (w, err e)
  after_config shape (w, none) = (w, ok (first_encoder shape w))

  -- The digest is of the chunks as one text; `hash.Write` never fails.
  unfoldable pub current_digest : (List ℕ → List ℕ) → Encoder World → List ℕ
  current_digest sha256 encoder = sha256 (flatten encoder.adc_chunks)

  -- The tests of WriteFrame behind requireReady.
  unfoldable pub frame_error : Encoder World → ℕ → List ℕ → Option StreamError
  frame_error encoder index payload =
      if index != encoder.next_frame
      then some frame_order
      else if leb encoder.shape.frame_count index
      then some frame_excess
      else if length payload != encoder.shape.frame_bytes
      then some frame_size
      else none

  -- The encoder behind a frame's record.
  unfoldable pub add_frame : Encoder World → List ℕ → Encoder World
  add_frame encoder payload = record encoder {
    adc_bytes = u64 (encoder.adc_bytes + length payload);
    next_frame = u64 (encoder.next_frame + 1);
    adc_chunks = encoder.adc_chunks ++ (payload ∷ []);
  }

  -- The tests of Commit behind requireReady.
  unfoldable pub commit_error : (List ℕ → List ℕ) → Encoder World → Artifact → Option StreamError
  commit_error sha256 encoder artifact =
      if encoder.next_frame != encoder.shape.frame_count
      then some frames_missing
      else if (artifact.size_bytes != encoder.shape.expected_bytes)
          || (artifact.size_bytes != encoder.adc_bytes)
      then some artifact_size
      else if not (same_bytes artifact.digest (current_digest sha256 encoder))
      then some artifact_digest
      else none

module _ (writer : Writer) (sha256 : List ℕ → List ℕ)
    (encode_terminal : Terminal → Option (List ℕ)) where
  abbrev pub Step : Type 0
  Step = Encoder writer.World × Option StreamError

  unfoldable pub after_session :
      CaptureShape
      → List ℕ
      → writer.World × Option StreamError
      → writer.World × Result StreamError (Encoder writer.World)
  after_session shape radar_config (w, some e) = (w, err e)
  after_session shape radar_config (w, none) =
      after_config shape
        (write_record writer sha256 w radar_config_record 1 0 radar_config max_radar_config_bytes)

  -- NewEncoder with what buildSessionPayload answered.
  unfoldable pub new_encoder :
      writer.World
      → Result StreamError (List ℕ × CaptureShape)
      → List ℕ
      → writer.World × Result StreamError (Encoder writer.World)
  new_encoder w (err e) radar_config = (w, err e)
  new_encoder w (ok (payload, shape)) radar_config =
      after_session shape radar_config
        (write_record writer sha256 w session_record 0 0 payload max_session_payload_bytes)

  -- `2 + index` is a uint64, of which the record holds the eight low bytes in any case.
  unfoldable pub write_frame : Encoder writer.World → ℕ → List ℕ → Step
  write_frame encoder index payload = elim (require_ready encoder.state) [
    | some e ↦ (encoder, some e)
    | none ↦ elim (frame_error encoder index payload) [
      | some e ↦ poison encoder e
      | none ↦
          after_record encoder
            (write_record writer sha256 encoder.world frame_record (2 + index) index payload
              max_frame_payload_bytes)
            (add_frame encoder payload)
    ]
  ]

  -- buildTerminalPayload.
  unfoldable pub build_terminal_payload : Terminal → Result StreamError (List ℕ)
  build_terminal_payload fields = do
    check_outcome fields.outcome
    sized_terminal (encode_terminal fields)

  -- The end of Commit and Abort, from the terminal's payload on.
  unfoldable pub finish_stream : Encoder writer.World → ℕ → TerminalOutcome → Step
  finish_stream encoder kind outcome =
      elim (build_terminal_payload (record {
        outcome = outcome;
        frames = encoder.next_frame;
        adc_bytes = encoder.adc_bytes;
        adc_digest = current_digest sha256 encoder;
      })) [
        | err e ↦ poison encoder e
        | ok payload ↦
            after_record encoder
              (write_record writer sha256 encoder.world kind (2 + encoder.next_frame)
                encoder.next_frame payload max_terminal_payload_bytes)
              (record encoder { state = terminal })
      ]

  unfoldable pub commit_stream : Encoder writer.World → Artifact → Step
  commit_stream encoder artifact = elim (require_ready encoder.state) [
    | some e ↦ (encoder, some e)
    | none ↦ elim (commit_error sha256 encoder artifact) [
      | some e ↦ poison encoder e
      | none ↦ finish_stream encoder commit_record commit
    ]
  ]

  unfoldable pub abort_stream : Encoder writer.World → AbortReason → Step
  abort_stream encoder reason = elim (require_ready encoder.state) [
    | some e ↦ (encoder, some e)
    | none ↦
        if not (is_known_reason reason)
        then poison encoder abort_reason
        else finish_stream encoder abort_record (abort reason)
  ]
