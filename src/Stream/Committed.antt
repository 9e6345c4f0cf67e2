-- ===== src/Stream/Committed.antt =====
-- What the reader of a committed stream has got.
use mmwcli.Base.{
  ℕ, ◌+◌, ◌^◌, ◌<◌, ◌≡◌, refl, ◌∙◌, ap, List, ◌++◌, Option, none, ok, length, append_assoc, All,
  arith, same_bytes→eq, Option-cases, Result-cases, inl, inr,
}
use mmwcli.Stream.Writer.{Writer, IsWriter}
use mmwcli.Stream.Record.{
  write_record, record_bytes, write_record-taken, session_record, radar_config_record,
  commit_record, max_terminal_payload_bytes,
}
use mmwcli.Stream.Encoder.{
  CaptureShape, TerminalOutcome, commit, Terminal, Artifact, ready, terminal, Encoder, flatten,
  require_ready, poison, new_encoder, current_digest, build_terminal_payload, finish_stream,
  commit_error, commit_stream,
}
use mmwcli.Stream.Emitted.{frame_records, Streaming, Operation, operate_all, require_ready-state}
use mmwcli.Stream.Delivered.{after_record-none, operate_all-Good, opened}

module _ (sha256 : List ℕ → List ℕ) {World : Type 0} where
  commit_error-none :
      (e : Encoder World) (artifact : Artifact)
      → commit_error sha256 e artifact ≡ none
      → (e.next_frame ≡ e.shape.frame_count)
        × (artifact.size_bytes ≡ e.shape.expected_bytes)
        × (artifact.digest ≡ sha256 (flatten e.adc_chunks))
  unfolding commit_error current_digest
  commit_error-none e artifact h =
      let same = same_bytes→eq artifact.digest (sha256 (flatten e.adc_chunks)) in ground arith

module _ (writer : Writer) (contract : IsWriter writer) (sha256 : List ℕ → List ℕ)
    (encode_terminal : Terminal → Option (List ℕ)) where
  -- The record that ends a stream, behind a success.
  finish_stream-none :
      (e : Encoder writer.World) (kind : ℕ) (outcome : TerminalOutcome)
      → (finish_stream writer sha256 encode_terminal e kind outcome).1 ≡ none
      → (payload : List ℕ) × (writer.taken
            (finish_stream writer sha256 encode_terminal e kind outcome).0.world
          ≡ writer.taken e.world
            ++ record_bytes sha256 kind (2 + e.next_frame) e.next_frame payload)
  unfolding finish_stream
  finish_stream-none e kind outcome h =
      let fields : Terminal = record {
        outcome = outcome;
        frames = e.next_frame;
        adc_bytes = e.adc_bytes;
        adc_digest = current_digest sha256 e;
      } in
      elim (Result-cases (build_terminal_payload writer sha256 encode_terminal fields)) [
        | inr (x, p) ↦ absurd (unfold poison in (let q = rw (p, finish_stream) at h in cc))
        | inl (payload, p) ↦
            let result =
              write_record writer sha256 e.world kind (2 + e.next_frame) e.next_frame payload
                max_terminal_payload_bytes in
            let (written, kept) =
              after_record-none e (record e { state = terminal }) result
                (rw (p, finish_stream) at h) in
            let (_, _, taken) =
              write_record-taken writer contract sha256 e.world kind (2 + e.next_frame) e.next_frame
                payload max_terminal_payload_bytes written in
            rw (p, finish_stream) (payload, ap writer.taken kept ∙ taken)
      ]

  commit_stream-none :
      (e : Encoder writer.World) (artifact : Artifact)
      → (commit_stream writer sha256 encode_terminal e artifact).1 ≡ none
      → (e.state ≡ ready)
        × (commit_error sha256 e artifact ≡ none)
        × (commit_stream writer sha256 encode_terminal e artifact
            ≡ finish_stream writer sha256 encode_terminal e commit_record commit)
  unfolding commit_stream poison
  commit_stream-none e artifact h = elim (Option-cases (require_ready e.state)) [
    | inr (x, p) ↦ absurd (let q = rw (p, commit_stream) at h in cc)
    | inl p ↦ elim (Option-cases (commit_error sha256 e artifact)) [
      | inr (x, f) ↦ absurd (let q = rw (p, commit_stream, f) at h in cc)
      | inl f ↦ (require_ready-state e.state p, f, rw (p, commit_stream, f) refl)
    ]
  ]

  -- The artifact of a committed stream, and what its writer took.
  pub record IsCommitted (shape : CaptureShape) (front : List ℕ) (e : Encoder writer.World)
      (artifact : Artifact) : Type 0 where
    pub whole : length e.adc_chunks ≡ shape.frame_count
    pub sized : All (λ chunk. length chunk ≡ shape.frame_bytes) e.adc_chunks
    pub size : artifact.size_bytes ≡ shape.expected_bytes
    pub digest : artifact.digest ≡ sha256 (flatten e.adc_chunks)
    pub on_wire :
        (terminal_payload : List ℕ) × (writer.taken
            (commit_stream writer sha256 encode_terminal e artifact).0.world
          ≡ front
            ++ (frame_records sha256 0 e.adc_chunks
                ++ record_bytes sha256 commit_record
                    (2 + shape.frame_count)
                    shape.frame_count
                    terminal_payload))

  commit_Streaming :
      (shape : CaptureShape) (front : List ℕ) (e : Encoder writer.World) (artifact : Artifact)
      → Streaming writer sha256 front shape e
      → commit_error sha256 e artifact ≡ none
      → commit_stream writer sha256 encode_terminal e artifact
        ≡ finish_stream writer sha256 encode_terminal e commit_record commit
      → (commit_stream writer sha256 encode_terminal e artifact).1 ≡ none
      → IsCommitted shape front e artifact
  commit_Streaming shape front e artifact h tests same done =
      let (full, exact, digest) = commit_error-none sha256 e artifact tests in
      let (terminal_payload, taken) = finish_stream-none e commit_record commit (rw same at done) in
      let count : e.next_frame ≡ shape.frame_count =
        full ∙ ap (λ (c : CaptureShape). c.frame_count) h.shaped in
      record {
        whole = h.numbered ∙ count;
        sized = h.sized;
        size = exact ∙ ap (λ (c : CaptureShape). c.expected_bytes) h.shaped;
        digest = digest;
        on_wire = (
          terminal_payload,
          rw same (
              taken
              ∙ (rw h.on_wire
                  (rw count (append_assoc front (frame_records sha256 0 e.adc_chunks) _)))),
        );
      }

  -- Over a writer that keeps the contract of io.Writer: where NewEncoder succeeded for a shape of
  -- fewer than 2^64 frames, and Commit succeeded behind any sequence of operations, the encoder has
  -- taken as many frames as the shape says, each of its size; the artifact has the expected size and
  -- the digest of the frames; and the writer took, behind what it had before, exactly the session
  -- record, the configuration record, one frame record for each frame in order, and a commit record.
  pub commit_stream-IsCommitted :
      (w w1 : writer.World) (payload radar_config : List ℕ) (shape : CaptureShape)
      (first : Encoder writer.World) (operations : List Operation) (artifact : Artifact)
      → shape.frame_count < 2 ^ 64
      → new_encoder writer sha256 encode_terminal w (ok (payload, shape)) radar_config
        ≡ (w1, ok first)
      → (commit_stream writer sha256 encode_terminal
          (operate_all writer sha256 encode_terminal operations first)
          artifact).1
        ≡ none
      → IsCommitted shape
          (writer.taken w
            ++ (record_bytes sha256 session_record 0 0 payload
                ++ record_bytes sha256 radar_config_record 1 0 radar_config))
          (operate_all writer sha256 encode_terminal operations first)
          artifact
  commit_stream-IsCommitted w w1 payload radar_config shape first operations artifact countable h
        done =
      let front : List ℕ =
        writer.taken w
        ++ (record_bytes sha256 session_record 0 0 payload
            ++ record_bytes sha256 radar_config_record 1 0 radar_config) in
      let e : Encoder writer.World = operate_all writer sha256 encode_terminal operations first in
      let start =
        opened writer contract sha256 encode_terminal shape w w1 payload radar_config first h in
      let (is_ready, tests, same) = commit_stream-none e artifact done in
      elim (operate_all-Good writer contract sha256 encode_terminal front shape countable operations
        first (inr start)) [
          | inl stopped ↦ absurd (stopped is_ready)
          | inr streaming ↦ commit_Streaming shape front e artifact streaming tests same done
        ]
