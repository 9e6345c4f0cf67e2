-- ===== src/Producer/Examples.antt =====
-- Runs of internal/sensorproducer at small inputs.
use mmwcli.Base.{
  ℕ, ◌≡◌, ◌⊎◌, ◌≢◌, refl, sym, ap, arith, true, false, List, [], ◌∷◌, ◌++◌, Option, none, some, ok,
  err, length, replicate, take, length-replicate, ◌==◌, same_bytes, le_bytes, pos,
}
use mmwcli.Stream.Writer.{Writer, IsWriter}
use mmwcli.Producer.Protocol.{
  Command, ready, arm, start, stop, cancel, other_command, command_code, AckMetadata, Record,
  GoLibrary, ack_frame, session_frame, item_frame, end_frame, eof_frame, validate_record, rejected,
  is_protocol_error, bad_payload,
}
use mmwcli.Producer.Frames.{
  read_frame, frame_header, frame_body, write_frame, send_parts, send_all, send_rounds,
}
use mmwcli.Producer.Frames.Layout.{read_frame-frame_header}
use mmwcli.Producer.Frames.Sent.{write_frame-taken}
use mmwcli.Producer.State.{State, init_phase, accept, accept_transport_eof}
use mmwcli.Producer.State.Run.{
  Run, Event, command_sent, frame_arrived, first_run, observe, observe_all,
}
use mmwcli.Producer.State.Reported.{is_lasting, accept_error_reported}

abbrev command_of : ℕ → Command
command_of code = elim (code == 0) [
  | true ↦ ready
  | false ↦ elim (code == 1) [
    | true ↦ arm
    | false ↦ elim (code == 2) [
      | true ↦ start
      | false ↦ elim (code == 3) [
        | true ↦ stop
        | false ↦ elim (code == 4) [ true ↦ cancel | false ↦ other_command ]
      ]
    ]
  ]
]

-- "{c}" accepts the command of the code c, and "{ct}" refuses it with the text t.
abbrev read_ack : List ℕ → Option AckMetadata
read_ack (b ∷ (c ∷ (d ∷ []))) =
    some (record { command = command_of c; accepted = true; error_text = [] })
read_ack (b ∷ (c ∷ (t ∷ (d ∷ rest)))) =
    some (record { command = command_of c; accepted = false; error_text = t ∷ [] })
read_ack _ = none

abbrev some_go : GoLibrary
some_go = record {
  sha256 = λ bytes. replicate 32 7;
  trim_space = λ bytes. bytes;
  json_valid = λ bytes. true;
  encode_ack = λ ack. some (123 ∷ (command_code ack.command ∷ (125 ∷ [])));
  decode_ack_json = read_ack;
  decode_error_json = λ bytes. some bytes;
}

abbrev frame_of : ℕ → ℕ → List ℕ → List ℕ → Record
frame_of kind seq metadata payload = record {
  kind = kind;
  session_id = 115 ∷ [];
  source_id = 99 ∷ [];
  seq = seq;
  metadata = metadata;
  payload = payload;
}

abbrev ack_of : ℕ → ℕ → Event
ack_of seq code = frame_arrived (frame_of ack_frame seq (123 ∷ (code ∷ (125 ∷ []))) [])

abbrev data_of : ℕ → ℕ → List ℕ → Event
data_of kind seq payload = frame_arrived (frame_of kind seq (123 ∷ (125 ∷ [])) payload)

abbrev whole_run : List Event
whole_run =
    command_sent ready
    ∷ (ack_of 1 0
        ∷ (command_sent arm
            ∷ (ack_of 2 1
                ∷ (command_sent start
                    ∷ (ack_of 3 2
                        ∷ (data_of session_frame 1 []
                            ∷ (data_of item_frame 2 (5 ∷ [])
                                ∷ (command_sent stop
                                    ∷ (data_of item_frame 3 (6 ∷ [])
                                        ∷ (ack_of 4 3
                                            ∷ (data_of end_frame 4 []
                                                ∷ (data_of eof_frame 5 [] ∷ []))))))))))))

abbrev start_state : State
start_state = record {
  session_id = 115 ∷ [];
  source_id = 99 ∷ [];
  phase = init_phase;
  next_seq = 1;
  pending = none;
  last_data = 0;
  cause = none;
}

-- A producer that has been asked for READY refuses it.
abbrev asked : Run
asked = observe some_go (first_run start_state) (command_sent ready)

abbrev refusal : Record
refusal = frame_of ack_frame 1 (123 ∷ (0 ∷ (33 ∷ (125 ∷ [])))) []

refused : (accept some_go asked.state refusal).1 ≡ some (rejected (some ready) (33 ∷ []))
unfolding observe first_run accept validate_record same_bytes
refused = refl

accept_error_reported_example :
    let reported =
      (accept_transport_eof
        (observe_all some_go (observe some_go asked (frame_arrived refusal)) whole_run).state).1 in
    ((is_lasting asked.state.cause ≡ true) × (reported ≡ asked.state.cause))
    ⊎ (((is_lasting asked.state.cause ≡ false)
          × (is_protocol_error (rejected (some ready) (33 ∷ [])) ≡ false)
          × (reported ≡ some (rejected (some ready) (33 ∷ []))))
        ⊎ ((is_lasting asked.state.cause ≡ false)
            × (is_protocol_error (rejected (some ready) (33 ∷ [])) ≡ true)
            × (reported ≢ none)))
accept_error_reported_example = accept_error_reported some_go asked refusal whole_run refused

abbrev some_item : Record
some_item = frame_of item_frame 2 (123 ∷ (125 ∷ [])) (5 ∷ (6 ∷ []))

item_valid : validate_record some_go some_item ≡ ok tt
unfolding validate_record
item_valid = refl

-- A session frame cannot carry a payload.
session_payload :
    validate_record some_go (frame_of session_frame 1 (123 ∷ (125 ∷ [])) (5 ∷ [])) ≡ err bad_payload
unfolding validate_record
session_payload = refl

read_frame-frame_header_example :
    read_frame some_go false
      (frame_header some_go some_item ++ (frame_body some_item ++ (1 ∷ (2 ∷ []))))
    ≡ ok (some_item, 1 ∷ (2 ∷ []))
read_frame-frame_header_example =
    read_frame-frame_header some_go false some_item (1 ∷ (2 ∷ []))
      (λ bytes. length-replicate {A = ℕ} 32 7) (omega arith) item_valid

-- A writer that takes every byte.
abbrev buffer : Writer
buffer = record {
  World = List ℕ;
  write = λ w bytes. record { world = w ++ bytes; written = pos (length bytes); failed = false };
  taken = λ w. w;
}

take_whole : (bytes : List ℕ) → take (length bytes) bytes ≡ bytes
take_whole [] = refl
take_whole (b ∷ bytes) = ap (λ (r : List ℕ). b ∷ r) (take_whole bytes)

buffer-IsWriter : IsWriter buffer
buffer-IsWriter = record { takes = λ w bytes. ap (λ (r : List ℕ). w ++ r) (sym (take_whole bytes)) }

item_written : (write_frame buffer some_go [] some_item).1 ≡ none
unfolding write_frame validate_record send_parts send_all send_rounds le_bytes
item_written = refl

write_frame-taken_example :
    (validate_record some_go some_item ≡ ok tt)
    × (buffer.taken (write_frame buffer some_go [] some_item).0
        ≡ buffer.taken [] ++ (frame_header some_go some_item ++ frame_body some_item))
write_frame-taken_example =
    write_frame-taken buffer some_go buffer-IsWriter [] some_item item_written
