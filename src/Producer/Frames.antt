-- ===== src/Producer/Frames.antt =====
-- The frames of internal/sensorproducer/protocol.go. A reader is the bytes that it gives, and whether it
-- then fails instead of ending; the bytes behind a frame that is refused are of no use to anyone.
pub mod Layout
pub mod Sent
use mmwcli.Base.{
  ℕ, zero, suc, ◌+◌, ◌*◌, Bool, true, false, ◌||◌, ◌&&◌, not, List, [], ◌∷◌, ◌++◌, Option, none,
  some, ltb, ◌==◌, ◌!=◌, Result, ok, err, ◌>>=◌, ◌>>◌, reject_if, length, slice, take, drop,
  le_bytes, le_value, same_bytes, if◌then◌else◌,
}
use mmwcli.Stream.Writer.{Writer, out_of_range, count}
use mmwcli.Producer.Protocol.{
  Record, ProducerFault, truncated, bad_magic, bad_version, bad_flags, id_limit, body_limit,
  digest_mismatch, GoLibrary, validate_record, protocol_version, max_id_bytes, max_metadata_bytes,
  max_payload_bytes,
}

-- "MMWSPRD1".
abbrev pub frame_magic : List ℕ
frame_magic = 77 ∷ 77 ∷ 87 ∷ 83 ∷ 80 ∷ 82 ∷ 68 ∷ 49 ∷ []

abbrev pub frame_prefix_size : ℕ
frame_prefix_size = 40

abbrev pub frame_header_size : ℕ
frame_header_size = 72

unfoldable pub frame_prefix : ℕ → ℕ → ℕ → ℕ → ℕ → ℕ → List ℕ
frame_prefix kind seq session_length source_length metadata_length payload_length =
    frame_magic
    ++ (le_bytes 2 protocol_version
        ++ (le_bytes 2 kind
            ++ (le_bytes 4 0
                ++ (le_bytes 8 seq
                    ++ (le_bytes 2 session_length
                        ++ (le_bytes 2 source_length
                            ++ (le_bytes 4 metadata_length ++ le_bytes 8 payload_length)))))))

abbrev pub prefix_of : Record → List ℕ
prefix_of frame =
    frame_prefix frame.kind frame.seq (length frame.session_id) (length frame.source_id)
      (length frame.metadata) (length frame.payload)

unfoldable pub frame_body : Record → List ℕ
frame_body frame = frame.session_id ++ (frame.source_id ++ (frame.metadata ++ frame.payload))

module _ (go : GoLibrary) where
  -- The header with the digest behind its prefix.
  unfoldable pub frame_header : Record → List ℕ
  unfolding frame_prefix frame_body
  frame_header frame = prefix_of frame ++ go.sha256 (prefix_of frame ++ frame_body frame)

  abbrev pub or_read : Result ProducerFault (Unit {0}) → Result (Option ProducerFault) (Unit {0})
  or_read (ok u) = ok u
  or_read (err e) = err (some e)

  -- Decoder.Read. The header is the first 72 bytes; io.EOF is the error none.
  unfoldable pub read_frame : Bool → List ℕ → Result (Option ProducerFault) (Record × List ℕ)
  read_frame broken bytes = do
    reject_if ((length bytes == 0) && not broken) none
    reject_if (ltb (length bytes) frame_header_size) (some truncated)
    reject_if (not (same_bytes (slice 0 8 bytes) frame_magic)) (some bad_magic)
    reject_if (le_value (slice 8 10 bytes) != protocol_version) (some bad_version)
    reject_if (le_value (slice 12 16 bytes) != 0) (some bad_flags)
    let session_length = le_value (slice 24 26 bytes)
    let source_length = le_value (slice 26 28 bytes)
    let metadata_length = le_value (slice 28 32 bytes)
    let payload_length = le_value (slice 32 40 bytes)
    reject_if
        ((session_length == 0)
          || (ltb max_id_bytes session_length
              || ((source_length == 0) || ltb max_id_bytes source_length)))
        (some id_limit)
    reject_if (ltb max_metadata_bytes metadata_length || ltb max_payload_bytes payload_length)
        (some body_limit)
    let total = session_length + source_length + metadata_length + payload_length
    reject_if (ltb (2 * max_id_bytes + max_metadata_bytes + max_payload_bytes) total)
        (some body_limit)
    reject_if (ltb (length bytes) (frame_header_size + total)) (some truncated)
    let body = slice frame_header_size (frame_header_size + total) bytes
    reject_if
        (not (
          same_bytes (slice frame_prefix_size frame_header_size bytes)
            (go.sha256 (slice 0 frame_prefix_size bytes ++ body))))
        (some digest_mismatch)
    let source_end = session_length + source_length
    let metadata_end = source_end + metadata_length
    let frame : Record = record {
      kind = le_value (slice 10 12 bytes);
      session_id = slice 0 session_length body;
      source_id = slice session_length source_end body;
      seq = le_value (slice 16 24 bytes);
      metadata = slice source_end metadata_end body;
      payload = drop metadata_end body;
    }
    or_read (validate_record go frame)
    ok (frame, drop (frame_header_size + total) bytes)

pub data SendError : Type 0 where
  send_failed short_send send_stuck : SendError

pub data FrameError : Type 0 where
  invalid_frame : ProducerFault → FrameError
  unsent : SendError → FrameError

module _ (writer : Writer) where
  -- One round of writeAll takes a byte at least, so a round for each byte is enough.
  unfoldable pub send_rounds : ℕ → writer.World → List ℕ → writer.World × Option SendError
  send_rounds fuel w [] = (w, none)
  send_rounds zero w (b ∷ bytes) = (w, some send_stuck)
  send_rounds (suc fuel) w (b ∷ bytes) =
      let answer = writer.write w (b ∷ bytes) in
      let rest = send_rounds fuel answer.world (drop (count answer.written) (b ∷ bytes)) in
      if answer.failed
      then (answer.world, some send_failed)
      else if (count answer.written == 0) || out_of_range answer.written (length (b ∷ bytes))
      then (answer.world, some short_send)
      else rest

  -- writeAll.
  unfoldable pub send_all : writer.World → List ℕ → writer.World × Option SendError
  unfolding send_rounds
  send_all w bytes = send_rounds (length bytes) w bytes

  abbrev pub then_send : writer.World × Option SendError → List ℕ → writer.World × Option SendError
  then_send (w, some e) bytes = (w, some e)
  then_send (w, none) bytes = send_all w bytes

  -- The loop over the parts of a frame.
  unfoldable pub send_parts :
      writer.World × Option SendError → List (List ℕ) → writer.World × Option SendError
  unfolding send_all
  send_parts sent [] = sent
  send_parts sent (part ∷ parts) = send_parts (then_send sent part) parts

  abbrev pub or_unsent : writer.World × Option SendError → writer.World × Option FrameError
  or_unsent (w, none) = (w, none)
  or_unsent (w, some e) = (w, some (unsent e))

module _ (writer : Writer) (go : GoLibrary) where
  -- Encoder.Write.
  unfoldable pub write_frame : writer.World → Record → writer.World × Option FrameError
  unfolding send_parts frame_header
  write_frame w frame = elim (validate_record go frame) [
    | err e ↦ (w, some (invalid_frame e))
    | ok u ↦ or_unsent writer (
        send_parts writer (w, none)
          (frame_header go frame
            ∷ frame.session_id
            ∷ frame.source_id
            ∷ frame.metadata
            ∷ frame.payload
            ∷ []))
  ]
