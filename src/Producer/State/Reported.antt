-- ===== src/Producer/State/Reported.antt =====
-- Which failure internal/sensorproducer/state.go reports at the end.
use mmwcli.Base.{
  ◌≡◌, ◌⊎◌, ◌≢◌, refl, ◌∙◌, ap, Bool, true, false, not, List, [], ◌∷◌, Option, none, some, arith,
  inl, inr, Bool-cases, Result-cases, Option-cases,
}
use mmwcli.Producer.Protocol.{
  Control, AckMetadata, Record, ProducerFault, rejected, no_transition, frame_in_phase, bad_error,
  eof_in_phase, ack_unsolicited, ack_order, ack_command, bad_order, bad_identity, is_protocol_error,
  GoLibrary, validate_record, decode_ack,
}
use mmwcli.Producer.State.{
  State, next_cause, fail, fail_cause, protocol_failure, prepare, settle_ack, take_session,
  take_item, take_end, take_error, take_eof, accept_transport_eof, accept_ack, take_data,
  accept_valid, accept,
}
use mmwcli.Producer.State.Run.{
  Run, Event, command_sent, frame_arrived, transport_ended, note_frame, note_end, observe,
  observe_all,
}
use mmwcli.Producer.State.Kept.{has_cause, observe_all_keeps, note_keeps, end_reports}

-- The cause is one that no later failure replaces: an error that is no protocol error.
abbrev pub is_lasting : Option ProducerFault → Bool
is_lasting none = false
is_lasting (some e) = not (is_protocol_error e)

fail_lasting :
    (state : State) (e : ProducerFault)
    → is_lasting state.cause ≡ true
    → (fail state e).cause ≡ state.cause
unfolding fail next_cause
fail_lasting state e c = ground arith

fail_new :
    (state : State) (e : ProducerFault)
    → is_lasting state.cause ≡ false
    → (fail state e).cause ≡ some e
unfolding fail next_cause
fail_new state e c = ground arith

settle_lasting :
    (state : State) (pending : Control) (ack : AckMetadata)
    → is_lasting state.cause ≡ true
    → (settle_ack state pending ack).0.cause ≡ state.cause
unfolding settle_ack protocol_failure
settle_lasting state pending ack c = ground (
  arith,
  fail_lasting state (rejected (some pending.command) ack.error_text),
  fail_lasting state no_transition,
)

settle_new :
    (state : State) (pending : Control) (ack : AckMetadata) (e : ProducerFault)
    → is_lasting state.cause ≡ false
    → (settle_ack state pending ack).1 ≡ some e
    → (settle_ack state pending ack).0.cause ≡ some e
unfolding settle_ack protocol_failure
settle_new state pending ack e c failed = ground (
  arith,
  fail_new state (rejected (some pending.command) ack.error_text),
  fail_new state no_transition,
)

data_lasting :
    (go : GoLibrary) (state : State) (frame : Record)
    → is_lasting state.cause ≡ true
    → (take_data go state frame).0.cause ≡ state.cause
unfolding take_data take_session take_item take_end take_error take_eof protocol_failure
data_lasting go state frame c =
    ground (arith, fail_lasting state frame_in_phase, fail_lasting state bad_error)

data_new :
    (go : GoLibrary) (state : State) (frame : Record) (e : ProducerFault)
    → is_lasting state.cause ≡ false
    → (take_data go state frame).1 ≡ some e
    → (take_data go state frame).0.cause ≡ some e
unfolding take_data take_session take_item take_end take_error take_eof protocol_failure
data_new go state frame e c failed =
    ground (arith, fail_new state frame_in_phase, fail_new state bad_error)

ack_lasting :
    (go : GoLibrary) (state : State) (frame : Record)
    → is_lasting state.cause ≡ true
    → (accept_ack go state frame).0.cause ≡ state.cause
unfolding accept_ack protocol_failure
ack_lasting go state frame c = elim (Option-cases state.pending) [
  | inl n ↦ ground (arith, fail_lasting state ack_unsolicited)
  | inr (pending, n) ↦ elim (Result-cases (decode_ack go frame)) [
    | inr (e, d) ↦ ground (arith, fail_lasting state e, fail_lasting state ack_order)
    | inl (ack, d) ↦ ground (
      arith,
      settle_lasting (record state { pending = none }) pending ack,
      fail_lasting state ack_order,
      fail_lasting state ack_command,
    )
  ]
]

ack_new :
    (go : GoLibrary) (state : State) (frame : Record) (e : ProducerFault)
    → is_lasting state.cause ≡ false
    → (accept_ack go state frame).1 ≡ some e
    → (accept_ack go state frame).0.cause ≡ some e
unfolding accept_ack protocol_failure
ack_new go state frame e c failed = elim (Option-cases state.pending) [
  | inl n ↦ ground (arith, fail_new state ack_unsolicited)
  | inr (pending, n) ↦ elim (Result-cases (decode_ack go frame)) [
    | inr (f, d) ↦ ground (arith, fail_new state f, fail_new state ack_order)
    | inl (ack, d) ↦ ground (
      arith,
      settle_new (record state { pending = none }) pending ack e,
      fail_new state ack_order,
      fail_new state ack_command,
    )
  ]
]

accept_lasting :
    (go : GoLibrary) (state : State) (frame : Record)
    → is_lasting state.cause ≡ true
    → (accept go state frame).0.cause ≡ state.cause
unfolding accept accept_valid fail_cause protocol_failure
accept_lasting go state frame c = elim (Result-cases (validate_record go frame)) [
  | inr (e, v) ↦ rw (v, accept) (fail_lasting state e c)
  | inl (u, v) ↦ ground (
    arith,
    ack_lasting go state frame,
    data_lasting go (record state { last_data = frame.seq }) frame,
    fail_lasting state bad_identity,
    fail_lasting state bad_order,
  )
]

accept_new :
    (go : GoLibrary) (state : State) (frame : Record) (e : ProducerFault)
    → is_lasting state.cause ≡ false
    → (accept go state frame).1 ≡ some e
    → (accept go state frame).0.cause ≡ some e
unfolding accept accept_valid fail_cause protocol_failure
accept_new go state frame e c failed = elim (Result-cases (validate_record go frame)) [
  | inr (f, v) ↦ ground arith
  | inl (u, v) ↦ ground (
    arith,
    ack_new go state frame e,
    data_new go (record state { last_data = frame.seq }) frame e,
    fail_new state bad_order,
  )
]

observe_lasting :
    (go : GoLibrary) (run : Run) (event : Event)
    → is_lasting run.state.cause ≡ true
    → (observe go run event).state.cause ≡ run.state.cause
unfolding observe prepare accept_transport_eof note_frame note_end fail_cause
observe_lasting go run (command_sent command) c = ground arith
observe_lasting go run (frame_arrived frame) c = ground (arith, accept_lasting go run.state frame)
observe_lasting go run transport_ended c = ground (arith, fail_lasting run.state eof_in_phase)

observe_all_lasting :
    (go : GoLibrary) (run : Run) (events : List Event)
    → is_lasting run.state.cause ≡ true
    → (observe_all go run events).state.cause ≡ run.state.cause
unfolding observe_all
observe_all_lasting go run [] c = refl
observe_all_lasting go run (event ∷ events) c =
    let step = observe_lasting go run event c in
    observe_all_lasting go (observe go run event) events (ap is_lasting step ∙ c) ∙ step

end_lasting :
    (state : State) → is_lasting state.cause ≡ true → (accept_transport_eof state).1 ≡ state.cause
unfolding accept_transport_eof fail_cause
end_lasting state c = ground (arith, fail_lasting state eof_in_phase)

-- A lasting cause is reported at the end, whatever happens before.
reported_lasting :
    (go : GoLibrary) (run : Run) (events : List Event)
    → is_lasting run.state.cause ≡ true
    → (accept_transport_eof (observe_all go run events).state).1 ≡ run.state.cause
reported_lasting go run events c =
    let kept = observe_all_lasting go run events c in
    end_lasting (observe_all go run events).state (ap is_lasting kept ∙ c) ∙ kept

-- Once Accept has returned an error, in whatever state, and whatever happens behind it, this is what
-- AcceptTransportEOF returns at the end. An earlier cause that is no protocol error is returned as it is;
-- with no such cause, the error that Accept returned is returned itself where it is no protocol error, and
-- where it is one, some error is returned, as a later failure may have replaced it.
pub accept_error_reported :
    (go : GoLibrary) (run : Run) (frame : Record) (events : List Event) {e : ProducerFault}
    → (accept go run.state frame).1 ≡ some e
    → let reported =
        (accept_transport_eof
          (observe_all go (observe go run (frame_arrived frame)) events).state).1 in
      ((is_lasting run.state.cause ≡ true) × (reported ≡ run.state.cause))
      ⊎ (((is_lasting run.state.cause ≡ false)
            × (is_protocol_error e ≡ false)
            × (reported ≡ some e))
          ⊎ ((is_lasting run.state.cause ≡ false)
              × (is_protocol_error e ≡ true)
              × (reported ≢ none)))
unfolding observe
accept_error_reported go run frame events {e} failed =
    let answer = accept go run.state frame in
    let next = note_frame run frame answer in
    let noted = ap (λ (s : State). s.cause) (note_keeps run frame answer) in
    elim (Bool-cases (is_lasting run.state.cause)) [
      | inl c ↦
          let same = noted ∙ accept_lasting go run.state frame c in
          inl (c, reported_lasting go next events (ap is_lasting same ∙ c) ∙ same)
      | inr c ↦
          let same = noted ∙ accept_new go run.state frame e c failed in
          elim (Bool-cases (is_protocol_error e)) [
            | inr p ↦ inr (inl (c, p, reported_lasting go next events (rw (same, p) refl) ∙ same))
            | inl p ↦ inr (
                inr (
                  c,
                  p,
                  end_reports (observe_all go next events).state
                      (observe_all_keeps go next events (rw (has_cause, same) refl)),
                ))
          ]
    ]
