-- ===== src/Producer/State/Answers.antt =====
-- What each kind of frame does to a run of internal/sensorproducer/state.go that noted no failure.
use mmwcli.Base.{
  ℕ, suc, ◌≡◌, refl, true, false, ◌||◌, ◌&&◌, not, List, [], ◌∷◌, Option, none, some, ltb, ◌==◌,
  ◌!=◌, length, arith, inl, inr, Option-cases, Bool-cases,
}
use mmwcli.Producer.Protocol.{
  Command, ready, arm, start, stop, cancel, other_command, Control, AckMetadata, Record,
  session_frame, item_frame, end_frame, error_frame, eof_frame, ProducerFault, rejected,
  no_transition, frame_in_phase, bad_error, max_error_bytes, GoLibrary,
}
use mmwcli.Producer.State.{
  Phase, started_phase, streaming_phase, stopped_phase, canceled_phase, ended_phase, failed_phase,
  eof_phase, is_phase, State, next_cause, fail, protocol_failure, command_allowed, phase_after,
  settle_ack, take_session, take_item, take_end, take_error, take_eof, take_data,
}
use mmwcli.Producer.State.Run.{HasShape, IsAllowed, ShapeAt, IsAnswered}

-- An acknowledged command takes the shape along.
pub after-ShapeAt :
    (phase : Phase) (command : Command) (acked : List Command) (frames : List ℕ)
    → command_allowed phase command ≡ true
    → HasShape phase acked frames
    → ShapeAt (phase_after command) (command ∷ acked) frames
unfolding command_allowed phase_after
after-ShapeAt phase ready acked frames h s = ground arith
after-ShapeAt phase arm acked frames h s = ground arith
after-ShapeAt phase start acked frames h s = ground arith
after-ShapeAt phase stop acked frames h s = ground arith
after-ShapeAt phase cancel acked frames h s = ground arith
after-ShapeAt phase other_command acked frames h s = ground arith

pub failure_answer :
    (state : State) (e : ProducerFault) (acked : List Command) (frames : List ℕ)
    → state.cause ≡ none
    → IsAnswered (protocol_failure state e) acked frames
unfolding protocol_failure fail next_cause
failure_answer state e acked frames c = (e, rw c refl)

pub settle_ack_answer :
    (state : State) (pending : Control) (ack : AckMetadata) (acked : List Command) (frames : List ℕ)
    → state.cause ≡ none
    → state.pending ≡ none
    → state.last_data ≡ length frames
    → ShapeAt (phase_after pending.command) (pending.command ∷ acked) frames
    → IsAnswered (settle_ack state pending ack) (pending.command ∷ acked) frames
unfolding settle_ack fail next_cause
settle_ack_answer state pending ack acked frames c p l s = elim (Bool-cases ack.accepted) [
  | inr b ↦ rw (b, c) (rejected (some pending.command) ack.error_text, refl)
  | inl b ↦ elim (Option-cases (phase_after pending.command)) [
    | inl k ↦ rw (b, k) (failure_answer state no_transition (pending.command ∷ acked) frames c)
    | inr (phase, k) ↦
        let shape : HasShape phase (pending.command ∷ acked) frames = rw k at s in
        rw (b, k, c, p) (shape, tt, l, refl)
  ]
]

-- What each type of data frame wants and leaves.
session_shape :
    (phase : Phase) (pending : Option Control) (last_data : ℕ) (acked : List Command)
    (frames : List ℕ)
    → (not (is_phase phase started_phase) || (last_data != 1)) ≡ false
    → IsAllowed phase pending
    → last_data ≡ suc (length frames)
    → HasShape phase acked frames
    → HasShape streaming_phase acked (session_frame ∷ frames) × IsAllowed streaming_phase pending
unfolding command_allowed
session_shape phase none last_data acked frames b p l s = ground arith
session_shape phase (some control) last_data acked frames b p l s = ground arith

item_shape :
    (phase : Phase) (acked : List Command) (frames : List ℕ)
    → not (is_phase phase streaming_phase) ≡ false
    → HasShape phase acked frames
    → HasShape phase acked (item_frame ∷ frames)
item_shape phase acked [] b s = ground arith
item_shape phase acked (kind ∷ frames) b s = ground arith

end_shape :
    (phase : Phase) (pending : Option Control) (acked : List Command) (frames : List ℕ)
    → not (is_phase phase stopped_phase) ≡ false
    → IsAllowed phase pending
    → HasShape phase acked frames
    → HasShape ended_phase acked (end_frame ∷ frames) × IsAllowed ended_phase pending
unfolding command_allowed
end_shape phase none acked frames b p s = ground arith
end_shape phase (some control) acked frames b p s = ground arith

eof_shape :
    (phase : Phase) (pending : Option Control) (acked : List Command) (frames : List ℕ)
    → (not (is_phase phase ended_phase)
        && (not (is_phase phase canceled_phase) && not (is_phase phase failed_phase)))
      ≡ false
    → IsAllowed phase pending
    → HasShape phase acked frames
    → HasShape eof_phase acked (eof_frame ∷ frames) × IsAllowed eof_phase pending
unfolding command_allowed
eof_shape phase none acked frames b p s = ground arith
eof_shape phase (some control) acked frames b p s = ground arith

take_session_answer :
    (state : State) (acked : List Command) (frames : List ℕ)
    → state.cause ≡ none
    → IsAllowed state.phase state.pending
    → state.last_data ≡ suc (length frames)
    → HasShape state.phase acked frames
    → IsAnswered (take_session state) acked (session_frame ∷ frames)
unfolding take_session
take_session_answer state acked frames c p l s =
    elim (Bool-cases (not (is_phase state.phase started_phase) || (state.last_data != 1))) [
      | inl b ↦ rw b (failure_answer state frame_in_phase acked (session_frame ∷ frames) c)
      | inr b ↦
          let (shape, allowed) =
            session_shape state.phase state.pending state.last_data acked frames b p l s in
          rw (b, c) (shape, allowed, l, refl)
    ]

take_item_answer :
    (state : State) (acked : List Command) (frames : List ℕ)
    → state.cause ≡ none
    → IsAllowed state.phase state.pending
    → state.last_data ≡ suc (length frames)
    → HasShape state.phase acked frames
    → IsAnswered (take_item state) acked (item_frame ∷ frames)
unfolding take_item
take_item_answer state acked frames c p l s =
    elim (Bool-cases (not (is_phase state.phase streaming_phase))) [
      | inl b ↦ rw b (failure_answer state frame_in_phase acked (item_frame ∷ frames) c)
      | inr b ↦ rw (b, c) (item_shape state.phase acked frames b s, p, l, refl)
    ]

take_end_answer :
    (state : State) (acked : List Command) (frames : List ℕ)
    → state.cause ≡ none
    → IsAllowed state.phase state.pending
    → state.last_data ≡ suc (length frames)
    → HasShape state.phase acked frames
    → IsAnswered (take_end state) acked (end_frame ∷ frames)
unfolding take_end
take_end_answer state acked frames c p l s =
    elim (Bool-cases (not (is_phase state.phase stopped_phase))) [
      | inl b ↦ rw b (failure_answer state frame_in_phase acked (end_frame ∷ frames) c)
      | inr b ↦
          let (shape, allowed) = end_shape state.phase state.pending acked frames b p s in
          rw (b, c) (shape, allowed, l, refl)
    ]

take_error_answer :
    (state : State) (message : Option (List ℕ)) (acked : List Command) (frames : List ℕ)
    → state.cause ≡ none
    → IsAnswered (take_error state message) acked (error_frame ∷ frames)
unfolding take_error
take_error_answer state none acked frames c =
    failure_answer state bad_error acked (error_frame ∷ frames) c
take_error_answer state (some message) acked frames c =
    elim (Bool-cases ((length message == 0) || ltb max_error_bytes (length message))) [
      | inl b ↦ rw b (failure_answer state bad_error acked (error_frame ∷ frames) c)
      | inr b ↦ rw (b, c) tt
    ]

take_eof_answer :
    (state : State) (acked : List Command) (frames : List ℕ)
    → state.cause ≡ none
    → IsAllowed state.phase state.pending
    → state.last_data ≡ suc (length frames)
    → HasShape state.phase acked frames
    → IsAnswered (take_eof state) acked (eof_frame ∷ frames)
unfolding take_eof
take_eof_answer state acked frames c p l s =
    elim (Bool-cases (
      not (is_phase state.phase ended_phase)
      && (not (is_phase state.phase canceled_phase) && not (is_phase state.phase failed_phase)))) [
        | inl b ↦ rw b (failure_answer state frame_in_phase acked (eof_frame ∷ frames) c)
        | inr b ↦
            let (shape, allowed) = eof_shape state.phase state.pending acked frames b p s in
            rw (b, c) (shape, allowed, l, refl)
      ]

pub take_data_answer :
    (go : GoLibrary) (state : State) (frame : Record) (acked : List Command) (frames : List ℕ)
    → state.cause ≡ none
    → IsAllowed state.phase state.pending
    → state.last_data ≡ suc (length frames)
    → HasShape state.phase acked frames
    → IsAnswered (take_data go state frame) acked (frame.kind ∷ frames)
unfolding take_data
take_data_answer go state frame acked frames c p l s =
    elim (Bool-cases (frame.kind == session_frame)) [
      | inl b ↦ rw (b, eq_of b) (take_session_answer state acked frames c p l s)
      | inr b ↦ elim (Bool-cases (frame.kind == item_frame)) [
        | inl d ↦ rw (b, d, eq_of d) (take_item_answer state acked frames c p l s)
        | inr d ↦ elim (Bool-cases (frame.kind == end_frame)) [
          | inl e ↦ rw (b, d, e, eq_of e) (take_end_answer state acked frames c p l s)
          | inr e ↦ elim (Bool-cases (frame.kind == error_frame)) [
            | inl f ↦
                rw (b, d, e, f, eq_of f)
                  (take_error_answer state (go.decode_error_json frame.metadata) acked frames c)
            | inr f ↦ elim (Bool-cases (frame.kind == eof_frame)) [
              | inl g ↦ rw (b, d, e, f, g, eq_of g) (take_eof_answer state acked frames c p l s)
              | inr g ↦
                  rw (b, d, e, f, g)
                    (failure_answer state frame_in_phase acked (frame.kind ∷ frames) c)
            ]
          ]
        ]
      ]
    ]
  where
    eq_of : {a b : ℕ} → (a == b) ≡ true → a ≡ b
    eq_of h = ground arith
