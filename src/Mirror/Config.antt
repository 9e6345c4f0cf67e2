-- ===== src/Mirror/Config.antt =====
-- The frame count of a mirror is set once.
use mmwcli.Base.{
  ℕ, ◌≡◌, refl, ◌∙◌, zero, suc, List, [], ◌∷◌, Option, none, some, ℤ, Option-cases, Result-cases,
  inl, inr, arith, Bool, true, ◌-◌, pos_part, length,
}
use mmwcli.Mirror.Errors.{MirrorError, sink_failed}
use mmwcli.Mirror.State.{
  Mirror, waiting, Phase, finished, fail_and_cancel, fail_locked, record_failure, abort_locked,
  cancel_both, close_queue, writable_error,
}
use mmwcli.Mirror.Write.{
  ready_frame, send_frame, enqueue_loop, enqueue_complete, admit, write_admitted, write_return,
  write_at, OutputAnswer, output_error,
}
use mmwcli.Mirror.Plan.{WritePlan, plan_write}
use mmwcli.Mirror.Written.{
  write_at_refused, write_at_unplanned, write_at_unwritten, write_at_written,
}
use mmwcli.Mirror.Seal.{
  SealContext, seal_open, seal_by_state, seal_start, seal_validate, seal_done_by, seal_done,
  seal_timeout_by, seal_timeout, abort_by, abort,
}
use mmwcli.Mirror.Steps.{
  Action, write, work, begin_seal, end_seal, expire_seal, give_up, end_seal_at, act, run,
}
use mmwcli.Mirror.Worker.{
  worker, worker_at, receive, settle, finish, after_sink_failure, after_sink_success,
}

fail_and_cancel-frame_count :
    (m : Mirror) (e : MirrorError) → (fail_and_cancel m e).frame_count ≡ m.frame_count
unfolding fail_and_cancel fail_locked record_failure abort_locked cancel_both close_queue
fail_and_cancel-frame_count m e = ground arith

enqueue_loop-frame_count :
    (fuel : ℕ) (m : Mirror) → (enqueue_loop fuel m).0.frame_count ≡ m.frame_count
unfolding enqueue_loop send_frame
enqueue_loop-frame_count zero m = refl
enqueue_loop-frame_count (suc fuel) m = elim (Option-cases (ready_frame m)) [
  | inl h ↦ rw (h, enqueue_loop) refl
  | inr (frame, h) ↦
      rw (h, enqueue_loop) (ground (arith, enqueue_loop-frame_count fuel (send_frame m frame)))
]

worker-frame_count : (m : Mirror) (fails : Bool) → (worker m fails).frame_count ≡ m.frame_count
unfolding worker worker_at receive settle finish after_sink_failure after_sink_success
worker-frame_count m fails = ground (
  arith,
  fail_and_cancel-frame_count
      (record m { phase = waiting; allocated = m.allocated - 1; discard = true }) sink_failed,
)

seal_start-frame_count :
    (m : Mirror) (context : SealContext) → (seal_start m context).0.frame_count ≡ m.frame_count
unfolding seal_start seal_by_state seal_open fail_locked record_failure abort_locked cancel_both
    close_queue
seal_start-frame_count m context = ground arith

seal_done-frame_count : (m : Mirror) → (seal_done m).0.frame_count ≡ m.frame_count
unfolding seal_done seal_done_by seal_validate fail_locked record_failure abort_locked cancel_both
    close_queue
seal_done-frame_count m = ground arith

seal_timeout-frame_count : (m : Mirror) → (seal_timeout m).0.frame_count ≡ m.frame_count
unfolding seal_timeout seal_timeout_by fail_locked record_failure abort_locked cancel_both
    close_queue
seal_timeout-frame_count m = ground arith

abort-frame_count : (m : Mirror) → (abort m).frame_count ≡ m.frame_count
unfolding abort abort_by abort_locked cancel_both close_queue
abort-frame_count m = ground arith

write_return-frame_count :
    (size : ℕ) (result : Mirror × Option MirrorError)
    → (write_return size result).0.frame_count ≡ result.0.frame_count
unfolding write_return
write_return-frame_count size (m, none) = refl
write_return-frame_count size (m, some e) = fail_and_cancel-frame_count m e

enqueue_complete-frame_count : (m : Mirror) → (enqueue_complete m).0.frame_count ≡ m.frame_count
unfolding enqueue_complete
enqueue_complete-frame_count m = enqueue_loop-frame_count (suc (length m.slots)) m

write_admitted-frame_count :
    (m : Mirror) (payload : List ℕ) (offset : ℕ) (plan : WritePlan)
    → (write_admitted m payload offset plan).0.frame_count ≡ m.frame_count
unfolding write_admitted admit
write_admitted-frame_count m payload offset plan =
    write_return-frame_count (length payload) (enqueue_complete (admit m payload offset plan))
    ∙ enqueue_complete-frame_count (admit m payload offset plan)

write_at-frame_count :
    (m : Mirror) (payload : List ℕ) (offset : ℤ) (answer : OutputAnswer)
    → (write_at m payload offset answer).0.frame_count ≡ m.frame_count
write_at-frame_count m payload offset answer = elim (Option-cases (writable_error m)) [
  | inr (e, w) ↦ rw (write_at_refused m payload offset answer e w) refl
  | inl w ↦ elim (Result-cases (plan_write m payload offset)) [
    | inr (e, p) ↦
        rw (write_at_unplanned m payload offset answer e w p) (fail_and_cancel-frame_count m e)
    | inl (plan, p) ↦ elim (Option-cases (output_error payload answer)) [
      | inr (e, o) ↦
          rw (write_at_unwritten m payload offset answer e plan w p o)
            (fail_and_cancel-frame_count m e)
      | inl o ↦
          rw (write_at_written m payload offset answer plan w p o)
            (write_admitted-frame_count m payload (pos_part offset) plan)
    ]
  ]
]

end_seal_at-frame_count :
    (phase : Phase) (m : Mirror) → (end_seal_at phase m).frame_count ≡ m.frame_count
unfolding end_seal_at
end_seal_at-frame_count finished m = seal_done-frame_count m
end_seal_at-frame_count _ m = refl

act-frame_count : (action : Action) (m : Mirror) → (act action m).frame_count ≡ m.frame_count
unfolding act
act-frame_count (write payload offset answer) m = write_at-frame_count m payload offset answer
act-frame_count (work sink_fails) m = worker-frame_count m sink_fails
act-frame_count (begin_seal context) m = seal_start-frame_count m context
act-frame_count end_seal m = end_seal_at-frame_count m.phase m
act-frame_count expire_seal m = seal_timeout-frame_count m
act-frame_count give_up m = abort-frame_count m

-- No operation changes the frame count that a mirror was made with.
pub run-frame_count :
    (actions : List Action) (m : Mirror) → (run actions m).frame_count ≡ m.frame_count
unfolding run
run-frame_count [] m = refl
run-frame_count (action ∷ actions) m =
    run-frame_count actions (act action m) ∙ act-frame_count action m
