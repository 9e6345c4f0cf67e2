-- ===== src/Producer/State/Kept.antt =====
-- A failure that internal/sensorproducer/state.go has noted stays.
use mmwcli.Base.{
  ◌≡◌, refl, Bool, true, false, List, [], ◌∷◌, Option, none, some, arith, inl, inr, Result-cases,
  Option-cases,
}
use mmwcli.Producer.Protocol.{
  Control, AckMetadata, Record, ProducerFault, rejected, no_transition, frame_in_phase, bad_error,
  eof_in_phase, ack_unsolicited, ack_order, ack_command, bad_order, bad_identity, GoLibrary,
  validate_record, decode_ack,
}
use mmwcli.Producer.State.{
  State, next_cause, fail, fail_cause, protocol_failure, prepare, settle_ack, take_session,
  take_item, take_end, take_error, take_eof, accept_transport_eof, accept_ack, take_data,
  accept_valid, accept,
}
use mmwcli.Producer.State.Run.{
  Run, Event, command_sent, frame_arrived, transport_ended, note_frame, note_end, observe,
  observe_all, IsSoFar,
}

-- A cause is never taken back.
abbrev pub has_cause : State → Bool
has_cause state = elim state.cause [ none ↦ false | some e ↦ true ]

-- A cause was noted before, or the answer is an error.
abbrev was_bad : State → Option ProducerFault → Bool
was_bad state none = has_cause state
was_bad state (some e) = true

pub fail_keeps : (state : State) (e : ProducerFault) → has_cause (fail state e) ≡ true
unfolding fail next_cause
fail_keeps state e = ground arith

settle_keeps :
    (state : State) (pending : Control) (ack : AckMetadata)
    → was_bad state (settle_ack state pending ack).1 ≡ true
    → has_cause (settle_ack state pending ack).0 ≡ true
unfolding settle_ack protocol_failure
settle_keeps state pending ack c = ground (
  arith,
  fail_keeps state (rejected (some pending.command) ack.error_text),
  fail_keeps state no_transition,
)

data_keeps :
    (go : GoLibrary) (state : State) (frame : Record)
    → was_bad state (take_data go state frame).1 ≡ true
    → has_cause (take_data go state frame).0 ≡ true
unfolding take_data take_session take_item take_end take_error take_eof protocol_failure
data_keeps go state frame c =
    ground (arith, fail_keeps state frame_in_phase, fail_keeps state bad_error)

ack_keeps :
    (go : GoLibrary) (state : State) (frame : Record)
    → was_bad state (accept_ack go state frame).1 ≡ true
    → has_cause (accept_ack go state frame).0 ≡ true
unfolding accept_ack protocol_failure
ack_keeps go state frame c = elim (Option-cases state.pending) [
  | inl n ↦ ground (arith, fail_keeps state ack_unsolicited)
  | inr (pending, n) ↦ elim (Result-cases (decode_ack go frame)) [
    | inr (e, d) ↦ ground (arith, fail_keeps state e, fail_keeps state ack_order)
    | inl (ack, d) ↦ ground (
      arith,
      settle_keeps (record state { pending = none }) pending ack,
      fail_keeps state ack_order,
      fail_keeps state ack_command,
    )
  ]
]

accept_keeps :
    (go : GoLibrary) (state : State) (frame : Record)
    → was_bad state (accept go state frame).1 ≡ true
    → has_cause (accept go state frame).0 ≡ true
unfolding accept accept_valid fail_cause protocol_failure
accept_keeps go state frame c = elim (Result-cases (validate_record go frame)) [
  | inr (e, v) ↦ rw (v, accept) (fail_keeps state e)
  | inl (u, v) ↦ ground (
    arith,
    ack_keeps go state frame,
    data_keeps go (record state { last_data = frame.seq }) frame,
    fail_keeps state bad_identity,
    fail_keeps state bad_order,
  )
]

pub observe_keeps :
    (go : GoLibrary) (run : Run) (event : Event)
    → has_cause run.state ≡ true
    → has_cause (observe go run event).state ≡ true
unfolding observe prepare accept_transport_eof note_frame note_end fail_cause
observe_keeps go run (command_sent command) c = ground arith
observe_keeps go run (frame_arrived frame) c = ground (arith, accept_keeps go run.state frame)
observe_keeps go run transport_ended c = ground (arith, fail_keeps run.state eof_in_phase)

pub kept-IsSoFar : (run : Run) → has_cause run.state ≡ true → IsSoFar run
kept-IsSoFar run c = elim (Option-cases run.state.cause) [
  | inl n ↦ absurd (ground arith)
  | inr (e, n) ↦ rw n tt
]

pub observe_all_keeps :
    (go : GoLibrary) (run : Run) (events : List Event)
    → has_cause run.state ≡ true
    → has_cause (observe_all go run events).state ≡ true
unfolding observe_all
observe_all_keeps go run [] c = c
observe_all_keeps go run (event ∷ events) c =
    observe_all_keeps go (observe go run event) events (observe_keeps go run event c)

pub note_keeps :
    (run : Run) (frame : Record) (answer : State × Option ProducerFault)
    → (note_frame run frame answer).state ≡ answer.0
unfolding note_frame
note_keeps run frame (state, none) = ground arith
note_keeps run frame (state, some e) = refl

pub end_reports :
    (state : State) → has_cause state ≡ true → ¬ ((accept_transport_eof state).1 ≡ none)
unfolding accept_transport_eof fail_cause
end_reports state c = λ quiet. ground (arith, fail_keeps state eof_in_phase)
