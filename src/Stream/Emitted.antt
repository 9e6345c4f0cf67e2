-- ===== src/Stream/Emitted.antt =====
-- What is on the wire behind any sequence of operations of an encoder.
use mmwcli.Base.{
  ℕ, suc, ◌+◌, ◌^◌, ◌≤◌, ◌<◌, ◌≡◌, ◌≢◌, ◌⊎◌, refl, sym, ◌∙◌, ap, List, [], ◌∷◌, ◌++◌, Option, none,
  some, length, length-append, append_assoc, append-nil, add-zero, All, All-append, arith, inl, inr,
}
use mmwcli.Stream.Writer.{StreamError, Writer, IsWriter}
use mmwcli.Stream.Record.{record_bytes, frame_record}
use mmwcli.Stream.Encoder.{
  CaptureShape, AbortReason, Terminal, Artifact, EncoderState, ready, poisoned, terminal, Encoder,
  require_ready, after_record, frame_error, add_frame, write_frame, commit_stream, abort_stream,
}

-- The frame records of the chunks, from the frame `index` on.
unfoldable pub frame_records : (List ℕ → List ℕ) → ℕ → List (List ℕ) → List ℕ
frame_records sha256 index [] = []
frame_records sha256 index (chunk ∷ chunks) =
    record_bytes sha256 frame_record (2 + index) index chunk
    ++ frame_records sha256 (index + 1) chunks

pub frame_records-append :
    (sha256 : List ℕ → List ℕ) (index : ℕ) (chunks : List (List ℕ)) (chunk : List ℕ)
    → frame_records sha256 index (chunks ++ (chunk ∷ []))
      ≡ frame_records sha256 index chunks
        ++ record_bytes sha256 frame_record
            (2 + (index + length chunks))
            (index + length chunks)
            chunk
unfolding frame_records
frame_records-append sha256 index [] chunk = rw add-zero (append-nil _)
frame_records-append sha256 index (first ∷ chunks) chunk =
    rw (frame_records-append sha256 (index + 1) chunks chunk, move index (length chunks))
      (sym (
        append_assoc (record_bytes sha256 frame_record (2 + index) index first)
          (frame_records sha256 (index + 1) chunks) _))
  where
    move : (i n : ℕ) → i + 1 + n ≡ i + suc n
    move i n = omega arith

-- An encoder that is ready: what the writer took is `front` and the frames so far.
pub record Streaming (writer : Writer) (sha256 : List ℕ → List ℕ) (front : List ℕ)
    (shape : CaptureShape) (e : Encoder writer.World) : Type 0 where
  pub on_wire : writer.taken e.world ≡ front ++ frame_records sha256 0 e.adc_chunks
  pub numbered : length e.adc_chunks ≡ e.next_frame
  pub sized : All (λ chunk. length chunk ≡ shape.frame_bytes) e.adc_chunks
  pub within : e.next_frame ≤ shape.frame_count
  pub shaped : e.shape ≡ shape

-- What a caller may do with an encoder.
pub data Operation : Type 0 where
  give_frame : ℕ → List ℕ → Operation
  give_commit : Artifact → Operation
  give_abort : AbortReason → Operation

module _ (writer : Writer) (sha256 : List ℕ → List ℕ)
    (encode_terminal : Terminal → Option (List ℕ)) where
  unfoldable pub operate : Operation → Encoder writer.World → Encoder writer.World
  operate (give_frame index payload) e =
      (write_frame writer sha256 encode_terminal e index payload).0
  operate (give_commit artifact) e = (commit_stream writer sha256 encode_terminal e artifact).0
  operate (give_abort reason) e = (abort_stream writer sha256 encode_terminal e reason).0

  unfoldable pub operate_all : List Operation → Encoder writer.World → Encoder writer.World
  operate_all [] e = e
  operate_all (operation ∷ operations) e = operate_all operations (operate operation e)

pub require_ready-state : (state : EncoderState) → require_ready state ≡ none → state ≡ ready
unfolding require_ready
require_ready-state ready h = refl
require_ready-state poisoned h = cc
require_ready-state terminal h = cc

pub require_ready-error :
    (state : EncoderState) {x : StreamError} → require_ready state ≡ some x → state ≢ ready
unfolding require_ready
require_ready-error state h e = ground arith

module _ {World : Type 0} where
  pub after_record_not_ready :
      (e done : Encoder World) (result : World × Option StreamError)
      → done.state ≢ ready
      → (after_record e result done).0.state ≢ ready
  unfolding after_record
  after_record_not_ready e done (w, none) h = h
  after_record_not_ready e done (w, some x) h = λ p. cc

next_on_wire :
    (sha256 : List ℕ → List ℕ) (front : List ℕ) (chunks : List (List ℕ)) (payload : List ℕ)
    {index : ℕ} {before after : List ℕ}
    → length chunks ≡ index
    → after ≡ before ++ record_bytes sha256 frame_record (2 + index) index payload
    → before ≡ front ++ frame_records sha256 0 chunks
    → after ≡ front ++ frame_records sha256 0 (chunks ++ (payload ∷ []))
next_on_wire sha256 front chunks payload {index} n t h =
    rw (frame_records-append sha256 0 chunks payload) (
      t
      ∙ (ap (λ (r : List ℕ). r ++ record_bytes sha256 frame_record (2 + index) index payload) h
          ∙ (append_assoc front (frame_records sha256 0 chunks) _
              ∙ ap
                  (λ (k : ℕ).
                    front
                    ++ (frame_records sha256 0 chunks
                        ++ record_bytes sha256 frame_record (2 + k) k payload))
                  (omega (arith, n)))))

module _ (writer : Writer) (contract : IsWriter writer) (sha256 : List ℕ → List ℕ)
    (encode_terminal : Terminal → Option (List ℕ)) (front : List ℕ) (shape : CaptureShape)
    (countable : shape.frame_count < 2 ^ 64) where
  abbrev pub Good : Encoder writer.World → Type 0
  Good e = (e.state ≢ ready) ⊎ Streaming writer sha256 front shape e

  frame_error-none :
      (e : Encoder writer.World) (index : ℕ) (payload : List ℕ)
      → frame_error e index payload ≡ none
      → (index ≡ e.next_frame)
        × (index < e.shape.frame_count)
        × (length payload ≡ e.shape.frame_bytes)
  unfolding frame_error
  frame_error-none e index payload h = ground arith

  -- A frame that passed the tests, behind its record.
  pub framed :
      (e : Encoder writer.World) (index : ℕ) (payload : List ℕ)
      (result : writer.World × Option StreamError)
      → frame_error e index payload ≡ none
      → (result.1 ≡ none
          → writer.taken result.0
            ≡ writer.taken e.world ++ record_bytes sha256 frame_record (2 + index) index payload)
      → Streaming writer sha256 front shape e
      → Good (after_record e result (add_frame e payload)).0
  unfolding after_record
  framed e index payload (w, some x) f t h = inl (λ p. cc)
  framed e index payload (w, none) f t h =
      let (at, below, exact) = frame_error-none e index payload f in
      inr (
        unfold add_frame in
        record {
          on_wire =
              (next_on_wire sha256 front e.adc_chunks payload (h.numbered ∙ sym at) (t refl)
                h.on_wire);
          numbered = ground (
            arith,
            length-append e.adc_chunks (payload ∷ []),
            h.numbered,
            h.within,
            h.shaped,
            countable,
          );
          sized =
              All-append (λ c. length c ≡ shape.frame_bytes) e.adc_chunks (payload ∷ []) h.sized
                (exact ∙ ap (λ (c : CaptureShape). c.frame_bytes) h.shaped, tt);
          within = ground (arith, h.within, h.shaped, countable);
          shaped = h.shaped;
        })
