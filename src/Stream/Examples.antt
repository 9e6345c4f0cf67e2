-- ===== src/Stream/Examples.antt =====
-- A stream of one frame into a buffer.
use mmwcli.Base.{
  ℕ, ◌≤◌, ◌≡◌, ◌≢◌, refl, sym, ap, true, false, List, [], ◌∷◌, ◌++◌, Option, none, some, ok, pos,
  length, take, arith, le_bytes, same_bytes, replicate,
}
use mmwcli.Stream.Writer.{
  Writer, IsWriter, write_rounds, write_all, write_stuck, write_all-ne-stuck, write_all-taken,
}
use mmwcli.Stream.Record.{
  write_record, record_bytes, write_record-taken, record_header, record_digest, header_prefix,
  write_payload, is_kind, session_record, radar_config_record, frame_record,
  max_frame_payload_bytes,
}
use mmwcli.Stream.Encoder.{
  CaptureShape, Artifact, Terminal, ready, terminal, Encoder, first_encoder, new_encoder,
  after_session, after_config, require_ready, write_frame, frame_error, add_frame, after_record,
  commit_error, current_digest, build_terminal_payload, check_outcome, sized_terminal,
  finish_stream, commit_stream,
}
use mmwcli.Stream.Emitted.{Operation, give_frame, operate, operate_all}
use mmwcli.Stream.Delivered.{stopped_for_good}
use mmwcli.Stream.Committed.{IsCommitted, commit_stream-IsCommitted}

-- A writer that takes every byte.
abbrev buffer : Writer
buffer = record {
  World = List ℕ;
  write = λ w bytes. record { world = w ++ bytes; written = pos (length bytes); failed = false };
  taken = λ w. w;
}

take_all : (bytes : List ℕ) → take (length bytes) bytes ≡ bytes
take_all [] = refl
take_all (b ∷ bytes) = ap (λ (r : List ℕ). b ∷ r) (take_all bytes)

buffer-IsWriter : IsWriter buffer
buffer-IsWriter = record { takes = λ w bytes. ap (λ (r : List ℕ). w ++ r) (sym (take_all bytes)) }

-- A digest of 32 bytes in the place of SHA-256.
abbrev sum_digest : List ℕ → List ℕ
sum_digest bytes = length bytes ∷ replicate 31 0

abbrev encode_short : Terminal → Option (List ℕ)
encode_short fields = some (fields.frames ∷ [])

abbrev one_shape : CaptureShape
one_shape = record { frame_count = 1; frame_bytes = 2; expected_bytes = 2 }

abbrev opening_bytes : List ℕ
opening_bytes =
    record_bytes sum_digest session_record 0 0 (9 ∷ [])
    ++ record_bytes sum_digest radar_config_record 1 0 (8 ∷ [])

abbrev one_encoder : Encoder (List ℕ)
one_encoder = first_encoder one_shape opening_bytes

one_encoder-new :
    new_encoder buffer sum_digest encode_short [] (ok (9 ∷ [], one_shape)) (8 ∷ [])
    ≡ (opening_bytes, ok one_encoder)
unfolding new_encoder after_session after_config write_record write_payload write_all write_rounds
    first_encoder record_bytes is_kind record_header record_digest header_prefix le_bytes
one_encoder-new = refl

abbrev frame_then : List Operation
frame_then = give_frame 0 (3 ∷ 4 ∷ []) ∷ []

abbrev one_artifact : Artifact
one_artifact = record { size_bytes = 2; digest = sum_digest (3 ∷ 4 ∷ []) }

one_commit :
    (commit_stream buffer sum_digest encode_short
      (operate_all buffer sum_digest encode_short frame_then one_encoder)
      one_artifact).1
    ≡ none
unfolding commit_stream operate_all operate write_frame require_ready frame_error add_frame
    after_record commit_error current_digest finish_stream build_terminal_payload check_outcome
    sized_terminal write_record write_payload write_all write_rounds first_encoder record_bytes
    is_kind record_header record_digest header_prefix le_bytes same_bytes
one_commit = refl

commit_stream-IsCommitted_example :
    IsCommitted buffer buffer-IsWriter sum_digest encode_short one_shape opening_bytes
      (operate_all buffer sum_digest encode_short frame_then one_encoder)
      one_artifact
commit_stream-IsCommitted_example =
    commit_stream-IsCommitted buffer buffer-IsWriter sum_digest encode_short [] opening_bytes
      (9 ∷ []) (8 ∷ []) one_shape one_encoder frame_then one_artifact (omega arith) one_encoder-new
      one_commit

write_all-ne-stuck_example : (write_all buffer [] (1 ∷ 2 ∷ [])).1 ≢ some write_stuck
write_all-ne-stuck_example = write_all-ne-stuck buffer [] (1 ∷ 2 ∷ [])

write_all-taken_example :
    buffer.taken (write_all buffer (7 ∷ []) (1 ∷ 2 ∷ [])).0 ≡ buffer.taken (7 ∷ []) ++ (1 ∷ 2 ∷ [])
write_all-taken_example =
    write_all-taken buffer buffer-IsWriter (7 ∷ []) (1 ∷ 2 ∷ [])
      (unfold write_all write_rounds in refl)

frame_written :
    (write_record buffer sum_digest [] frame_record 2 0 (3 ∷ 4 ∷ []) max_frame_payload_bytes).1
    ≡ none
unfolding write_record write_payload write_all write_rounds is_kind record_header record_digest
    header_prefix le_bytes
frame_written = refl

write_record-taken_example :
    (is_kind frame_record ≡ true)
    × (2 ≤ max_frame_payload_bytes)
    × (buffer.taken
          (write_record buffer sum_digest [] frame_record 2 0
            (3 ∷ 4 ∷ [])
            max_frame_payload_bytes).0
        ≡ buffer.taken [] ++ record_bytes sum_digest frame_record 2 0 (3 ∷ 4 ∷ []))
write_record-taken_example =
    write_record-taken buffer buffer-IsWriter sum_digest [] frame_record 2 0 (3 ∷ 4 ∷ [])
      max_frame_payload_bytes frame_written

abbrev ended_encoder : Encoder (List ℕ)
ended_encoder = record one_encoder { state = terminal }

ended_encoder-not_ready : ended_encoder.state ≢ ready
ended_encoder-not_ready = λ e. cc

stopped_for_good_example :
    operate_all buffer sum_digest encode_short frame_then ended_encoder ≡ ended_encoder
stopped_for_good_example =
    stopped_for_good buffer sum_digest encode_short frame_then ended_encoder ended_encoder-not_ready
