-- ===== src/Producer/State.antt =====
-- The states of a sensor producer as mmwcli sees them, of internal/sensorproducer/state.go. The lock makes
-- each method one step.
pub mod Run
pub mod Answers
pub mod Accepted
pub mod Kept
pub mod Reported
pub mod Handshake
use mmwcli.Base.{
  ℕ, ◌+◌, ◌%◌, Bool, true, false, ◌||◌, ◌&&◌, not, List, [], ◌∷◌, Option, none, some, ltb, ◌==◌,
  ◌!=◌, Result, ok, err, ◌>>=◌, ◌>>◌, length, if◌then◌else◌, same_bytes,
}
use mmwcli.Producer.Protocol.{
  Command, ready, arm, start, stop, cancel, other_command, same_command, Control, AckMetadata,
  Record, ack_frame, session_frame, item_frame, end_frame, error_frame, eof_frame, max_error_bytes,
  ProducerFault, bad_identity, bad_order, frame_in_phase, command_in_phase, still_pending,
  ack_unsolicited, ack_order, ack_command, bad_error, no_transition, eof_in_phase, rejected,
  is_protocol_error, GoLibrary, validate_id, validate_record, decode_ack, protocol_version,
}

pub data Phase : Type 0 where
  init_phase ready_phase armed_phase started_phase streaming_phase stopped_phase : Phase
  canceled_phase ended_phase failed_phase eof_phase complete_phase : Phase

abbrev pub phase_code : Phase → ℕ
phase_code init_phase = 0
phase_code ready_phase = 1
phase_code armed_phase = 2
phase_code started_phase = 3
phase_code streaming_phase = 4
phase_code stopped_phase = 5
phase_code canceled_phase = 6
phase_code ended_phase = 7
phase_code failed_phase = 8
phase_code eof_phase = 9
phase_code complete_phase = 10

abbrev pub is_phase : Phase → Phase → Bool
is_phase a b = phase_code a == phase_code b

pub record State : Type 0 where
  pub session_id : List ℕ
  pub source_id : List ℕ
  pub phase : Phase
  pub next_seq : ℕ
  pub pending : Option Control
  pub last_data : ℕ
  pub cause : Option ProducerFault

unfoldable pub new_state : List ℕ → List ℕ → Result ProducerFault State
unfolding validate_id
new_state session_id source_id = do
  validate_id session_id
  validate_id source_id
  ok (record {
    session_id = session_id;
    source_id = source_id;
    phase = init_phase;
    next_seq = 1;
    pending = none;
    last_data = 0;
    cause = none;
  })

-- The cause that `fail` leaves: an earlier one stays, unless it is a protocol error.
unfoldable pub next_cause : Option ProducerFault → ProducerFault → Option ProducerFault
next_cause none e = some e
next_cause (some old) e = if is_protocol_error old then some e else some old

unfoldable pub fail : State → ProducerFault → State
unfolding next_cause
fail state e = record state { cause = next_cause state.cause e; phase = failed_phase }

-- A method gives the new state and the error, if there is one. `fail_cause` is `fail` and
-- `return state.cause`, `protocol_failure` returns the new error.
unfoldable pub fail_cause : State → ProducerFault → State × Option ProducerFault
unfolding fail
fail_cause state e = (fail state e, (fail state e).cause)

unfoldable pub protocol_failure : State → ProducerFault → State × Option ProducerFault
unfolding fail
protocol_failure state e = (fail state e, some e)

unfoldable pub command_in : Phase → Command → Bool
command_in init_phase ready = true
command_in ready_phase arm = true
command_in armed_phase start = true
command_in started_phase stop = true
command_in streaming_phase stop = true
command_in _ _ = false

-- commandAllowed.
unfoldable pub command_allowed : Phase → Command → Bool
unfolding command_in
command_allowed phase command =
    if same_command command cancel then ltb (phase_code phase) 5 else command_in phase command

unfoldable pub control_of : State → Command → Control
control_of state command = record {
  version = protocol_version;
  command = command;
  session_id = state.session_id;
  source_id = state.source_id;
  seq = state.next_seq;
}

unfoldable pub prepare : State → Command → State × Result ProducerFault Control
unfolding command_allowed control_of
prepare state command = elim state.pending [
  | some control ↦ (state, err still_pending)
  | none ↦ if not (command_allowed state.phase command) then (state, err command_in_phase) else (
    record state {
      next_seq = (state.next_seq + 1) % 18446744073709551616;
      pending = some (control_of state command);
    },
    ok (control_of state command),
  )
]

-- The phase that an accepted command leads to.
unfoldable pub phase_after : Command → Option Phase
phase_after ready = some ready_phase
phase_after arm = some armed_phase
phase_after start = some started_phase
phase_after stop = some stopped_phase
phase_after cancel = some canceled_phase
phase_after other_command = none

-- acceptACK from the decoded acknowledgement on; the command is no longer pending.
unfoldable pub settle_ack : State → Control → AckMetadata → State × Option ProducerFault
unfolding fail protocol_failure phase_after
settle_ack state pending ack =
    if not ack.accepted
    then (
      fail state (rejected (some pending.command) ack.error_text),
      some (rejected (some pending.command) ack.error_text),
    )
    else elim (phase_after pending.command) [
      | none ↦ protocol_failure state no_transition
      | some phase ↦ (record state { phase = phase }, none)
    ]

-- The switch of Accept on the type of a data frame that has the next sequence number.
unfoldable pub take_session : State → State × Option ProducerFault
unfolding protocol_failure
take_session state =
    if not (is_phase state.phase started_phase) || (state.last_data != 1)
    then protocol_failure state frame_in_phase
    else (record state { phase = streaming_phase }, none)

unfoldable pub take_item : State → State × Option ProducerFault
unfolding protocol_failure
take_item state =
    if not (is_phase state.phase streaming_phase)
    then protocol_failure state frame_in_phase
    else (state, none)

unfoldable pub take_end : State → State × Option ProducerFault
unfolding protocol_failure
take_end state =
    if not (is_phase state.phase stopped_phase)
    then protocol_failure state frame_in_phase
    else (record state { phase = ended_phase }, none)

abbrev pub or_failure : Option ProducerFault → ProducerFault → Option ProducerFault
or_failure none e = some e
or_failure (some old) e = some old

-- The case of an ERROR frame, with the message that its metadata decodes to.
unfoldable pub take_error : State → Option (List ℕ) → State × Option ProducerFault
unfolding protocol_failure
take_error state none = protocol_failure state bad_error
take_error state (some message) =
    if (length message == 0) || ltb max_error_bytes (length message)
    then protocol_failure state bad_error
    else (
      record state { cause = or_failure state.cause (rejected none message); phase = failed_phase },
      none,
    )

unfoldable pub take_eof : State → State × Option ProducerFault
unfolding protocol_failure
take_eof state =
    if not (is_phase state.phase ended_phase)
      && (not (is_phase state.phase canceled_phase) && not (is_phase state.phase failed_phase))
    then protocol_failure state frame_in_phase
    else (record state { phase = eof_phase }, none)

-- AcceptTransportEOF.
unfoldable pub accept_transport_eof : State → State × Option ProducerFault
unfolding fail_cause
accept_transport_eof state =
    if not (is_phase state.phase eof_phase)
    then fail_cause state eof_in_phase
    else (record state { phase = complete_phase }, state.cause)

module _ (go : GoLibrary) where
  unfoldable pub accept_ack : State → Record → State × Option ProducerFault
  unfolding fail protocol_failure settle_ack decode_ack
  accept_ack state frame = elim state.pending [
    | none ↦ protocol_failure state ack_unsolicited
    | some pending ↦
        if frame.seq != pending.seq
        then protocol_failure state ack_order
        else elim (decode_ack go frame) [
          | err e ↦ (fail state e, some e)
          | ok ack ↦
              if not (same_command ack.command pending.command)
              then protocol_failure state ack_command
              else settle_ack (record state { pending = none }) pending ack
        ]
  ]

  unfoldable pub take_data : State → Record → State × Option ProducerFault
  unfolding take_session take_item take_end take_error take_eof protocol_failure
  take_data state frame =
      if frame.kind == session_frame
      then take_session state
      else if frame.kind == item_frame
      then take_item state
      else if frame.kind == end_frame
      then take_end state
      else if frame.kind == error_frame
      then take_error state (go.decode_error_json frame.metadata)
      else if frame.kind == eof_frame
      then take_eof state
      else protocol_failure state frame_in_phase

  -- Accept behind the tests of the frame itself.
  unfoldable pub accept_valid : State → Record → State × Option ProducerFault
  unfolding accept_ack take_data fail_cause protocol_failure
  accept_valid state frame =
      if not (same_bytes frame.session_id state.session_id)
        || not (same_bytes frame.source_id state.source_id)
      then fail_cause state bad_identity
      else if frame.kind == ack_frame
      then accept_ack state frame
      else if state.last_data == 18446744073709551615
      then protocol_failure state bad_order
      else if frame.seq != state.last_data + 1
      then fail_cause state bad_order
      else take_data (record state { last_data = frame.seq }) frame

  -- Accept.
  unfoldable pub accept : State → Record → State × Option ProducerFault
  unfolding accept_valid fail_cause
  accept state frame = elim (validate_record go frame) [
    | err e ↦ fail_cause state e
    | ok u ↦ accept_valid state frame
  ]
