-- ===== src/Producer/State/Accepted.antt =====
-- What Accept of internal/sensorproducer/state.go does to a run that noted no failure.
use mmwcli.Base.{
  ℕ, suc, ◌+◌, ◌≡◌, refl, sym, true, ◌||◌, not, List, ◌∷◌, Option, none, some, ◌==◌, ◌!=◌, length,
  if◌then◌else◌, same_bytes, arith, inl, inr, Result-cases, Option-cases, Bool-cases, subst,
}
use mmwcli.Producer.Protocol.{
  Command, same_command, Control, Record, ack_frame, ack_unsolicited, ack_order, ack_command,
  bad_order, bad_identity, GoLibrary, validate_record, decode_ack,
}
use mmwcli.Producer.State.{
  State, next_cause, fail, fail_cause, command_allowed, accept_ack, accept_valid, accept,
}
use mmwcli.Producer.State.Run.{pending_command, HasShape, IsAllowed, IsAnswered}
use mmwcli.Producer.State.Answers.{
  after-ShapeAt, settle_ack_answer, take_data_answer, failure_answer,
}

accept_pending_answer :
    (go : GoLibrary) (state : State) (pending : Control) (frame : Record) (acked : List Command)
    (frames : List ℕ)
    → state.pending ≡ some pending
    → state.cause ≡ none
    → command_allowed state.phase pending.command ≡ true
    → state.last_data ≡ length frames
    → HasShape state.phase acked frames
    → IsAnswered (accept_ack go state frame) (pending.command ∷ acked) frames
unfolding accept_ack
accept_pending_answer go state pending frame acked frames n c p l s =
    let cleared : State = record state { pending = none } in
    elim (Bool-cases (frame.seq != pending.seq)) [
      | inl b ↦
          rw (n, accept_ack, b) (failure_answer state ack_order (pending.command ∷ acked) frames c)
      | inr b ↦ elim (Result-cases (decode_ack go frame)) [
        | inr (e, d) ↦
            rw (n, accept_ack, b, d) (failure_answer state e (pending.command ∷ acked) frames c)
        | inl (ack, d) ↦ elim (Bool-cases (not (same_command ack.command pending.command))) [
          | inl f ↦
              rw (n, accept_ack, b, d, f)
                (failure_answer state ack_command (pending.command ∷ acked) frames c)
          | inr f ↦
              rw (n, accept_ack, b, d, f)
                (settle_ack_answer cleared pending ack acked frames c refl l
                  (after-ShapeAt state.phase pending.command acked frames p s))
        ]
      ]
    ]

accept_ack_answer :
    (go : GoLibrary) (state : State) (frame : Record) (acked : List Command) (frames : List ℕ)
    → state.cause ≡ none
    → IsAllowed state.phase state.pending
    → state.last_data ≡ length frames
    → HasShape state.phase acked frames
    → IsAnswered (accept_ack go state frame) (pending_command state.pending acked) frames
unfolding accept_ack
accept_ack_answer go state frame acked frames c p l s = elim (Option-cases state.pending) [
  | inl n ↦ rw (n, accept_ack) (failure_answer state ack_unsolicited acked frames c)
  | inr (pending, n) ↦
      subst
        (λ (o : Option Control).
          IsAnswered (accept_ack go state frame) (pending_command o acked) frames)
        (sym n) (accept_pending_answer go state pending frame acked frames n c (rw n at p) l s)
]

-- What Accept answers to a frame that passed its own tests, with what is to be noted.
accept_valid_answer :
    (go : GoLibrary) (state : State) (frame : Record) (acked : List Command) (frames : List ℕ)
    → state.cause ≡ none
    → IsAllowed state.phase state.pending
    → state.last_data ≡ length frames
    → HasShape state.phase acked frames
    → IsAnswered
        (accept_valid go state frame)
        (if frame.kind == ack_frame then pending_command state.pending acked else acked)
        (if frame.kind == ack_frame then frames else frame.kind ∷ frames)
unfolding accept_valid fail_cause fail next_cause
accept_valid_answer go state frame acked frames c p l s =
    elim (Bool-cases (
      not (same_bytes frame.session_id state.session_id)
      || not (same_bytes frame.source_id state.source_id))) [
        | inl b ↦ rw (b, c) (bad_identity, refl)
        | inr b ↦ elim (Bool-cases (frame.kind == ack_frame)) [
          | inl d ↦ rw (b, d) (accept_ack_answer go state frame acked frames c p l s)
          | inr d ↦ elim (Bool-cases (state.last_data == 18446744073709551615)) [
            | inl e ↦ rw (b, d, e) (failure_answer state bad_order acked (frame.kind ∷ frames) c)
            | inr e ↦ elim (Bool-cases (frame.seq != state.last_data + 1)) [
              | inl f ↦ rw (b, d, e, f, c) (bad_order, refl)
              | inr f ↦
                  let next : frame.seq ≡ suc (length frames) = ground arith in
                  rw (b, d, e, f)
                    (take_data_answer go (record state { last_data = frame.seq }) frame acked frames
                      c p next s)
            ]
          ]
        ]
      ]

pub accept_answer :
    (go : GoLibrary) (state : State) (frame : Record) (acked : List Command) (frames : List ℕ)
    → state.cause ≡ none
    → IsAllowed state.phase state.pending
    → state.last_data ≡ length frames
    → HasShape state.phase acked frames
    → IsAnswered
        (accept go state frame)
        (if frame.kind == ack_frame then pending_command state.pending acked else acked)
        (if frame.kind == ack_frame then frames else frame.kind ∷ frames)
unfolding accept fail_cause fail next_cause
accept_answer go state frame acked frames c p l s = elim (Result-cases (validate_record go frame)) [
  | inr (e, v) ↦ rw (v, accept, c) (e, refl)
  | inl (u, v) ↦ rw (v, accept) (accept_valid_answer go state frame acked frames c p l s)
]
