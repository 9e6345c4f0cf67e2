-- ===== src/Stream/Delivered.antt =====
-- What the stream of an encoder holds where it was committed.
use mmwcli.Base.{
  ℕ, ◌+◌, ◌^◌, ◌<◌, ◌≡◌, ◌≢◌, refl, sym, ◌∙◌, List, [], ◌∷◌, ◌++◌, Option, none, some, ok,
  append_assoc, append-nil, arith, Option-cases, Result-cases, Bool-cases, inl, inr,
}
use mmwcli.Stream.Writer.{StreamError, Writer, IsWriter, is_poisoned, is_terminal}
use mmwcli.Stream.Record.{
  write_record, record_bytes, write_record-taken, session_record, radar_config_record, frame_record,
  commit_record, abort_record, max_session_payload_bytes, max_radar_config_bytes,
  max_frame_payload_bytes, max_terminal_payload_bytes,
}
use mmwcli.Stream.Encoder.{
  CaptureShape, AbortReason, TerminalOutcome, commit, abort, Terminal, Artifact, EncoderState,
  ready, poisoned, terminal, Encoder, require_ready, poison, after_record, first_encoder,
  after_config, after_session, new_encoder, current_digest, frame_error, write_frame,
  build_terminal_payload, finish_stream, commit_error, commit_stream, abort_stream, is_known_reason,
}
use mmwcli.Stream.Emitted.{
  frame_records, Streaming, Operation, give_frame, give_commit, give_abort, operate, operate_all,
  require_ready-error, after_record_not_ready, Good, framed,
}

refused :
    (state : EncoderState) → state ≢ ready → (x : StreamError) × (require_ready state ≡ some x)
unfolding require_ready
refused ready h = absurd (h refl)
refused poisoned h = (is_poisoned, refl)
refused terminal h = (is_terminal, refl)

module _ {World : Type 0} where
  poison_not_ready : (e : Encoder World) (x : StreamError) → (poison e x).0.state ≢ ready
  unfolding poison
  poison_not_ready e x = λ p. cc

module _ (writer : Writer) (sha256 : List ℕ → List ℕ)
    (encode_terminal : Terminal → Option (List ℕ)) where
  finish_stream_not_ready :
      (e : Encoder writer.World) (kind : ℕ) (outcome : TerminalOutcome)
      → (finish_stream writer sha256 encode_terminal e kind outcome).0.state ≢ ready
  unfolding finish_stream
  finish_stream_not_ready e kind outcome =
      let fields : Terminal = record {
        outcome = outcome;
        frames = e.next_frame;
        adc_bytes = e.adc_bytes;
        adc_digest = current_digest sha256 e;
      } in
      elim (Result-cases (build_terminal_payload writer sha256 encode_terminal fields)) [
        | inl (payload, h) ↦
            rw (h, finish_stream)
              (after_record_not_ready e (record e { state = terminal })
                (write_record writer sha256 e.world kind (2 + e.next_frame) e.next_frame payload
                  max_terminal_payload_bytes)
                (λ p. cc))
        | inr (x, h) ↦ rw (h, finish_stream) (poison_not_ready e x)
      ]

  commit_not_ready :
      (e : Encoder writer.World) (artifact : Artifact)
      → (commit_stream writer sha256 encode_terminal e artifact).0.state ≢ ready
  unfolding commit_stream
  commit_not_ready e artifact = elim (Option-cases (require_ready e.state)) [
    | inr (x, h) ↦ rw (h, commit_stream) (require_ready-error e.state h)
    | inl h ↦ elim (Option-cases (commit_error sha256 e artifact)) [
      | inr (x, f) ↦ rw (h, commit_stream, f) (poison_not_ready e x)
      | inl f ↦ rw (h, commit_stream, f) (finish_stream_not_ready e commit_record commit)
    ]
  ]

  abort_not_ready :
      (e : Encoder writer.World) (reason : AbortReason)
      → (abort_stream writer sha256 encode_terminal e reason).0.state ≢ ready
  unfolding abort_stream
  abort_not_ready e reason = elim (Option-cases (require_ready e.state)) [
    | inr (x, h) ↦ rw (h, abort_stream) (require_ready-error e.state h)
    | inl h ↦ elim (Bool-cases (is_known_reason reason)) [
      | inl f ↦ rw (h, abort_stream, f) (finish_stream_not_ready e abort_record (abort reason))
      | inr f ↦ rw (h, abort_stream, f) (poison_not_ready e _)
    ]
  ]

  stopped :
      (operation : Operation) (e : Encoder writer.World)
      → e.state ≢ ready
      → operate writer sha256 encode_terminal operation e ≡ e
  unfolding operate write_frame commit_stream abort_stream
  stopped (give_frame index payload) e h =
      let (x, p) = refused e.state h in rw (p, operate, write_frame) refl
  stopped (give_commit artifact) e h =
      let (x, p) = refused e.state h in rw (p, operate, commit_stream) refl
  stopped (give_abort reason) e h =
      let (x, p) = refused e.state h in rw (p, operate, abort_stream) refl

  -- An encoder that is poisoned or at its end is left as it is by every later operation, so nothing
  -- more reaches the writer.
  pub stopped_for_good :
      (operations : List Operation) (e : Encoder writer.World)
      → e.state ≢ ready
      → operate_all writer sha256 encode_terminal operations e ≡ e
  unfolding operate_all
  stopped_for_good [] e h = refl
  stopped_for_good (operation ∷ operations) e h =
      rw (stopped operation e h) (stopped_for_good operations e h)

module _ {World : Type 0} where
  pub after_record-none :
      (e done : Encoder World) (result : World × Option StreamError)
      → (after_record e result done).1 ≡ none
      → (result.1 ≡ none) × ((after_record e result done).0.world ≡ result.0)
  unfolding after_record poison
  after_record-none e done (w, none) h = (refl, refl)
  after_record-none e done (w, some x) h = cc

module _ (writer : Writer) (contract : IsWriter writer) (sha256 : List ℕ → List ℕ)
    (encode_terminal : Terminal → Option (List ℕ)) (front : List ℕ) (shape : CaptureShape)
    (countable : shape.frame_count < 2 ^ 64) where
  write_frame-Good :
      (e : Encoder writer.World) (index : ℕ) (payload : List ℕ)
      → Streaming writer sha256 front shape e
      → Good writer contract sha256 encode_terminal front shape countable
          (write_frame writer sha256 encode_terminal e index payload).0
  unfolding write_frame
  write_frame-Good e index payload h = elim (Option-cases (require_ready e.state)) [
    | inr (x, p) ↦ rw (p, write_frame) (inr h)
    | inl p ↦ elim (Option-cases (frame_error e index payload)) [
      | inr (x, f) ↦ rw (p, write_frame, f) (inl (poison_not_ready e x))
      | inl f ↦
          let result =
            write_record writer sha256 e.world frame_record (2 + index) index payload
              max_frame_payload_bytes in
          let exact : result.1 ≡ none
              → writer.taken result.0
                ≡ writer.taken e.world
                  ++ record_bytes sha256 frame_record (2 + index) index payload =
            λ q.
              (write_record-taken writer contract sha256 e.world frame_record (2 + index) index
                payload max_frame_payload_bytes q).2 in
          rw (p, write_frame, f)
            (framed writer contract sha256 encode_terminal front shape countable e index payload
              result f exact h)
    ]
  ]

  operate-Good :
      (operation : Operation) (e : Encoder writer.World)
      → Good writer contract sha256 encode_terminal front shape countable e
      → Good writer contract sha256 encode_terminal front shape countable
          (operate writer sha256 encode_terminal operation e)
  unfolding operate
  operate-Good operation e (inl h) =
      rw (stopped writer sha256 encode_terminal operation e h) (inl h)
  operate-Good (give_frame index payload) e (inr h) = write_frame-Good e index payload h
  operate-Good (give_commit artifact) e (inr h) =
      inl (commit_not_ready writer sha256 encode_terminal e artifact)
  operate-Good (give_abort reason) e (inr h) =
      inl (abort_not_ready writer sha256 encode_terminal e reason)

  pub operate_all-Good :
      (operations : List Operation) (e : Encoder writer.World)
      → Good writer contract sha256 encode_terminal front shape countable e
      → Good writer contract sha256 encode_terminal front shape countable
          (operate_all writer sha256 encode_terminal operations e)
  unfolding operate_all
  operate_all-Good [] e h = h
  operate_all-Good (operation ∷ operations) e h =
      operate_all-Good operations (operate writer sha256 encode_terminal operation e)
        (operate-Good operation e h)

module _ {World : Type 0} where
  after_config_ok :
      (shape : CaptureShape) (result : World × Option StreamError) (w : World) (e : Encoder World)
      → after_config shape result ≡ (w, ok e)
      → (result.1 ≡ none) × (e ≡ first_encoder shape result.0)
  unfolding after_config
  after_config_ok shape (w1, none) w e h = (refl, cc)
  after_config_ok shape (w1, some x) w e h = cc

module _ (writer : Writer) (sha256 : List ℕ → List ℕ)
    (encode_terminal : Terminal → Option (List ℕ)) where
  after_session_ok :
      (shape : CaptureShape) (config : List ℕ) (result : writer.World × Option StreamError)
      (w : writer.World) (e : Encoder writer.World)
      → after_session writer sha256 encode_terminal shape config result ≡ (w, ok e)
      → (result.1 ≡ none)
        × (after_config shape (
              write_record writer sha256 result.0 radar_config_record 1 0 config
                max_radar_config_bytes)
            ≡ (w, ok e))
  unfolding after_session
  after_session_ok shape config (w1, none) w e h = (refl, h)
  after_session_ok shape config (w1, some x) w e h = cc

module _ (writer : Writer) (contract : IsWriter writer) (sha256 : List ℕ → List ℕ)
    (encode_terminal : Terminal → Option (List ℕ)) (shape : CaptureShape) where
  -- The records that a new encoder has written.
  abbrev pub opening : List ℕ → List ℕ → List ℕ
  opening payload radar_config =
      record_bytes sha256 session_record 0 0 payload
      ++ record_bytes sha256 radar_config_record 1 0 radar_config

  pub opened :
      (w w1 : writer.World) (payload radar_config : List ℕ) (e : Encoder writer.World)
      → new_encoder writer sha256 encode_terminal w (ok (payload, shape)) radar_config ≡ (w1, ok e)
      → Streaming writer sha256 (writer.taken w ++ opening payload radar_config) shape e
  unfolding new_encoder
  opened w w1 payload radar_config e h =
      let (session_ok, rest) =
        after_session_ok writer sha256 encode_terminal shape radar_config
          (write_record writer sha256 w session_record 0 0 payload max_session_payload_bytes) w1 e
          h in
      let w2 : writer.World =
        (write_record writer sha256 w session_record 0 0 payload max_session_payload_bytes).0 in
      let (config_ok, made) =
        after_config_ok shape
          (write_record writer sha256 w2 radar_config_record 1 0 radar_config
            max_radar_config_bytes)
          w1 e rest in
      let (_, _, first) =
        write_record-taken writer contract sha256 w session_record 0 0 payload
          max_session_payload_bytes session_ok in
      let (_, _, second) =
        write_record-taken writer contract sha256 w2 radar_config_record 1 0 radar_config
          max_radar_config_bytes config_ok in
      rw made (
        unfold first_encoder frame_records in
        record {
          on_wire =
              second
              ∙ (rw first (
                    append_assoc (writer.taken w) (record_bytes sha256 session_record 0 0 payload)
                      _)
                  ∙ sym (append-nil _));
          numbered = refl;
          sized = tt;
          within = omega arith;
          shaped = refl;
        })
