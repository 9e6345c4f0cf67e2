-- ===== src/Producer/Frames/Layout.antt =====
-- Decoder.Read of internal/sensorproducer/protocol.go reads back what Encoder.Write prints.
use mmwcli.Base.{
  ℕ, ◌+◌, ◌^◌, ◌≤◌, ◌<◌, ◌≡◌, refl, sym, Bool, true, false, ◌||◌, ◌&&◌, not, List, [], ◌++◌, ltb,
  ◌==◌, ok, length, slice, drop, slice-append, part_slices, drop-append_at, length-append,
  append_assoc, le_bytes, le_value, le_value-le_bytes, same_bytes, same_bytes_refl, arith,
  Result-cases, inl, inr,
}
use mmwcli.Producer.Protocol.{Record, GoLibrary, validate_id, validate_record}
use mmwcli.Producer.Frames.{
  frame_magic, frame_prefix, prefix_of, frame_body, frame_header, read_frame,
}

-- The fields of the prefix, whatever stands behind it.
prefix_fields :
    (kind seq session_length source_length metadata_length payload_length : ℕ) (back : List ℕ)
    → kind < 2 ^ 16
    → seq < 2 ^ 64
    → session_length < 2 ^ 16
    → source_length < 2 ^ 16
    → metadata_length < 2 ^ 32
    → payload_length < 2 ^ 64
    → let bytes =
        frame_prefix kind seq session_length source_length metadata_length payload_length ++ back in
      (same_bytes (slice 0 8 bytes) frame_magic ≡ true)
      × (le_value (slice 8 10 bytes) ≡ 1)
      × (le_value (slice 10 12 bytes) ≡ kind)
      × (le_value (slice 12 16 bytes) ≡ 0)
      × (le_value (slice 16 24 bytes) ≡ seq)
      × (le_value (slice 24 26 bytes) ≡ session_length)
      × (le_value (slice 26 28 bytes) ≡ source_length)
      × (le_value (slice 28 32 bytes) ≡ metadata_length)
      × (le_value (slice 32 40 bytes) ≡ payload_length)
unfolding frame_prefix le_bytes same_bytes
prefix_fields kind seq session_length source_length metadata_length payload_length back a b c d e
      f =
    (
      refl,
      le_value-le_bytes 2 1 (omega arith),
      le_value-le_bytes 2 kind a,
      le_value-le_bytes 4 0 (omega arith),
      le_value-le_bytes 8 seq b,
      le_value-le_bytes 2 session_length c,
      le_value-le_bytes 2 source_length d,
      le_value-le_bytes 4 metadata_length e,
      le_value-le_bytes 8 payload_length f,
    )

length-frame_prefix :
    (kind seq session_length source_length metadata_length payload_length : ℕ)
    → length (frame_prefix kind seq session_length source_length metadata_length payload_length)
      ≡ 40
unfolding frame_prefix le_bytes
length-frame_prefix kind seq session_length source_length metadata_length payload_length = refl

id_sizes : (text : List ℕ) → validate_id text ≡ ok tt → (0 < length text) × (length text ≤ 128)
unfolding validate_id
id_sizes text h = ground arith

-- What a frame's own tests say of its sizes.
validate_record_sizes :
    (go : GoLibrary) (frame : Record)
    → validate_record go frame ≡ ok tt
    → (frame.kind ≤ 6)
      × (0 < length frame.session_id)
      × (length frame.session_id ≤ 128)
      × (0 < length frame.source_id)
      × (length frame.source_id ≤ 128)
      × (length frame.metadata ≤ 65536)
      × (length frame.payload ≤ 67108864)
unfolding validate_record
validate_record_sizes go frame h = elim (Result-cases (validate_id frame.session_id)) [
  | inr (e, v) ↦ absurd (ground arith)
  | inl (u, v) ↦ elim (Result-cases (validate_id frame.source_id)) [
    | inr (e, w) ↦ absurd (ground arith)
    | inl (u', w) ↦
        let a = id_sizes frame.session_id v in
        let b = id_sizes frame.source_id w in
        (ground arith, a.0, a.1, b.0, b.1, ground arith, ground arith)
  ]
]

-- The four parts of a body.
body_parts :
    (frame : Record)
    → let body = frame_body frame in
      let source_end = length frame.session_id + length frame.source_id in
      (slice 0 (length frame.session_id) body ≡ frame.session_id)
      × (slice (length frame.session_id) source_end body ≡ frame.source_id)
      × (slice source_end (source_end + length frame.metadata) body ≡ frame.metadata)
      × (drop (source_end + length frame.metadata) body ≡ frame.payload)
      × (length body
          ≡ length frame.session_id
            + length frame.source_id
            + length frame.metadata
            + length frame.payload)
unfolding frame_body
body_parts frame =
    let front : List ℕ = frame.session_id ++ frame.source_id in
    let size = length-append frame.session_id frame.source_id in
    let regroup = append_assoc frame.session_id frame.source_id (frame.metadata ++ frame.payload) in
    let past : length front + length frame.metadata ≡ length (front ++ frame.metadata) =
      omega (arith, length-append front frame.metadata) in
    (
      slice-append [] frame.session_id (frame.source_id ++ (frame.metadata ++ frame.payload)) refl
          (omega arith),
      slice-append frame.session_id frame.source_id (frame.metadata ++ frame.payload) refl refl,
      rw (sym regroup)
          (slice-append front frame.metadata frame.payload (sym size) (omega (arith, size))),
      rw (sym regroup, sym (append_assoc front frame.metadata frame.payload))
          (drop-append_at (front ++ frame.metadata) frame.payload (omega (arith, size, past))),
      omega (
        arith,
        length-append frame.session_id (frame.source_id ++ (frame.metadata ++ frame.payload)),
        length-append frame.source_id (frame.metadata ++ frame.payload),
        length-append frame.metadata frame.payload,
      ),
    )

-- No test of a size refuses what the frame's own tests accept.
size_tests :
    (session source metadata payload size rest : ℕ) (broken : Bool)
    → 0 < session
    → session ≤ 128
    → 0 < source
    → source ≤ 128
    → metadata ≤ 65536
    → payload ≤ 67108864
    → size ≡ 72 + (session + source + metadata + payload) + rest
    → (((size == 0) && not broken) ≡ false)
      × (ltb size 72 ≡ false)
      × (((session == 0) || (ltb 128 session || ((source == 0) || ltb 128 source))) ≡ false)
      × ((ltb 65536 metadata || ltb 67108864 payload) ≡ false)
      × (ltb 67174656 (session + source + metadata + payload) ≡ false)
      × (ltb size (72 + (session + source + metadata + payload)) ≡ false)
size_tests session source metadata payload size rest broken a b c d e f g =
    (ground arith, ground arith, ground arith, ground arith, ground arith, ground arith)

-- A text whose slices are a frame's parts reads as that frame.
read_frame_lem :
    (go : GoLibrary) (broken : Bool) (frame : Record) (bytes rest : List ℕ)
    → let total =
        length frame.session_id
        + length frame.source_id
        + length frame.metadata
        + length frame.payload in
      let source_end = length frame.session_id + length frame.source_id in
      let body = frame_body frame in
      validate_record go frame ≡ ok tt
      → same_bytes (slice 0 8 bytes) frame_magic ≡ true
      → le_value (slice 8 10 bytes) ≡ 1
      → le_value (slice 10 12 bytes) ≡ frame.kind
      → le_value (slice 12 16 bytes) ≡ 0
      → le_value (slice 16 24 bytes) ≡ frame.seq
      → le_value (slice 24 26 bytes) ≡ length frame.session_id
      → le_value (slice 26 28 bytes) ≡ length frame.source_id
      → le_value (slice 28 32 bytes) ≡ length frame.metadata
      → le_value (slice 32 40 bytes) ≡ length frame.payload
      → slice 0 40 bytes ≡ prefix_of frame
      → slice 40 72 bytes ≡ go.sha256 (prefix_of frame ++ body)
      → slice 72 (72 + total) bytes ≡ body
      → drop (72 + total) bytes ≡ rest
      → length bytes ≡ 72 + total + length rest
      → read_frame go broken bytes ≡ ok (frame, rest)
unfolding read_frame
read_frame_lem go broken frame bytes rest valid magic version kind flags seq session source metadata
      payload prefix_part digest_part body_part rest_part size =
    let (
      kind_bound, some_session, session_bound, some_source, source_bound, metadata_bound,
      payload_bound,
    ) =
      validate_record_sizes go frame valid in
    let digest = go.sha256 (prefix_of frame ++ frame_body frame) in
    let tests =
      size_tests (length frame.session_id) (length frame.source_id) (length frame.metadata)
        (length frame.payload) (length bytes) (length rest) broken some_session session_bound
        some_source source_bound metadata_bound payload_bound size in
    let (in_session, in_source, in_metadata, in_payload, body_size) = body_parts frame in
    rw
      (
        magic,
        version,
        flags,
        session,
        source,
        metadata,
        payload,
        kind,
        seq,
        prefix_part,
        digest_part,
        body_part,
        rest_part,
        same_bytes_refl digest,
        in_session,
        in_source,
        in_metadata,
        in_payload,
        valid,
      )
      (rw (tests.0, tests.1, tests.2, tests.3, tests.4, tests.5) refl)

-- What Encoder.Write prints of a frame that passes the frame's tests, Decoder.Read gives back, and leaves
-- what stands behind it, however the reader ends; for a digest of 32 bytes and a sequence number of 64 bits.
pub read_frame-frame_header :
    (go : GoLibrary) (broken : Bool) (frame : Record) (rest : List ℕ)
    → ((bytes : List ℕ) → length (go.sha256 bytes) ≡ 32)
    → frame.seq < 2 ^ 64
    → validate_record go frame ≡ ok tt
    → read_frame go broken (frame_header go frame ++ (frame_body frame ++ rest)) ≡ ok (frame, rest)
unfolding frame_header
read_frame-frame_header go broken frame rest digest_size small valid =
    let (kind, some_session, session, some_source, source, metadata, payload) =
      validate_record_sizes go frame valid in
    let body = frame_body frame in
    let digest = go.sha256 (prefix_of frame ++ body) in
    let bytes = prefix_of frame ++ (digest ++ (body ++ rest)) in
    let (
      magic, version, kind_read, flags, seq_read, session_read, source_read, metadata_read,
      payload_read,
    ) =
      prefix_fields frame.kind frame.seq (length frame.session_id) (length frame.source_id)
        (length frame.metadata) (length frame.payload) (digest ++ (body ++ rest))
        (omega (arith, kind)) small (omega (arith, session)) (omega (arith, source))
        (omega (arith, metadata)) (omega (arith, payload)) in
    let prefix_size =
      length-frame_prefix frame.kind frame.seq (length frame.session_id) (length frame.source_id)
        (length frame.metadata) (length frame.payload) in
    let body_size = (body_parts frame).4 in
    let (prefix_part, digest_part, body_part, rest_part, size) =
      part_slices (prefix_of frame) digest body rest {a = 40} {b = 72} {c = 72 + length body}
        (sym prefix_size) (omega (arith, digest_size (prefix_of frame ++ body))) refl in
    rw (append_assoc (prefix_of frame) digest (body ++ rest)) (
      read_frame_lem go broken frame bytes rest valid magic version kind_read flags seq_read
        session_read source_read metadata_read payload_read prefix_part digest_part
        (rw body_size at body_part) (rw body_size at rest_part) (rw body_size at size))
