-- ===== src/Mirror/Examples.antt =====
-- A mirror of two frames of two bytes each, and its runs.
use mmwcli.Base.{
  ℕ, ◌+◌, ◌≤◌, ◌<◌, ◌≡◌, refl, true, false, ◌||◌, ◌↔◌, leb, List, [], ◌∷◌, none, length, arith, ok,
  pos,
}
use mmwcli.Coverage.{covers, absorb, add_range, extend, preflight_range_addition, resulting_count}
use mmwcli.Mirror.Spool.{FrameSpool, new_frame_spool, preflight, apply, complete, copy_at, is_whole}
use mmwcli.Mirror.Spool.Complete.{
  IsSpool, new_frame_spool-IsSpool, apply-IsSpool, complete-iff-covered,
}
use mmwcli.Mirror.State.{
  Mirror, sealed, writable_error, initial_mirror, new_mirror, default_mirror_config, cancel_both,
  close_queue,
}
use mmwcli.Mirror.Plan.{
  WritePlan, plan_write, plan_write_at, missing_slots, lookup_slot, plan_frames, fragment_of,
  slot_or_new, made_slots,
}
use mmwcli.Mirror.Write.{
  OutputAnswer, output_error, write_at, write_admitted, admit, apply_fragment, apply_fragments,
  complete_only, delete_slot, enqueue_complete, enqueue_loop, ready_frame, send_frame, write_return,
}
use mmwcli.Mirror.Worker.{worker, worker_at, receive, settle, finish, after_sink_success}
use mmwcli.Mirror.Seal.{
  seal_count, seal_start, seal_by_state, seal_done, seal_done_by, seal_open, seal_validate,
}
use mmwcli.Mirror.Steps.{Action, write, work, begin_seal, end_seal, end_seal_at, act, run}
use mmwcli.Mirror.Invariant.{InOrder, holding, initial_mirror-Inv}
use mmwcli.Mirror.Written.{write_at_succeeds}
use mmwcli.Mirror.Reach.{sealed_delivers, run_bounded}

abbrev wrote : ℕ → OutputAnswer
wrote n = record { written = pos n; failed = false }

abbrev new_one : Mirror
new_one = initial_mirror 2 2 2 2

configured :
    new_mirror true true true (default_mirror_config (pos 2) 4) ≡ ok (initial_mirror 2 4 4 4)
unfolding new_mirror default_mirror_config
configured = refl

abbrev one_frame : List Action
one_frame =
    write (1 ∷ 2 ∷ []) (pos 0) (wrote 2)
    ∷ work false
    ∷ work false
    ∷ work false
    ∷ begin_seal (record { given = true; bounded = true; expired = false })
    ∷ work false
    ∷ end_seal
    ∷ []

abbrev sealed_one : Mirror
sealed_one = run one_frame (initial_mirror 2 1 1 1)

sent : sealed_one.sink_writes ≡ record { index = 0; payload = 1 ∷ 2 ∷ [] } ∷ []
unfolding run act end_seal_at worker seal_start write_at writable_error initial_mirror plan_write
    plan_write_at missing_slots lookup_slot plan_frames preflight fragment_of slot_or_new
    output_error write_admitted absorb add_range extend preflight_range_addition resulting_count
    made_slots seal_by_state seal_count seal_done seal_done_by seal_open seal_validate apply
    complete copy_at is_whole new_frame_spool cancel_both close_queue after_sink_success finish
    receive settle worker_at admit apply_fragment apply_fragments complete_only delete_slot
    enqueue_complete enqueue_loop ready_frame send_frame write_return
sent = refl

sealed_one-sealed : sealed_one.state ≡ sealed
unfolding run act end_seal_at worker seal_start write_at writable_error initial_mirror plan_write
    plan_write_at missing_slots lookup_slot plan_frames preflight fragment_of slot_or_new
    output_error write_admitted absorb add_range extend preflight_range_addition resulting_count
    made_slots seal_by_state seal_count seal_done seal_done_by seal_open seal_validate apply
    complete copy_at is_whole new_frame_spool cancel_both close_queue after_sink_success finish
    receive settle worker_at admit apply_fragment apply_fragments complete_only delete_slot
    enqueue_complete enqueue_loop ready_frame send_frame write_return
sealed_one-sealed = refl

sealed_delivers_example :
    InOrder sealed_one.sink_writes
    × (length sealed_one.sink_writes ≡ sealed_one.sealed_frame_count)
    × (sealed_one.delivered ≡ sealed_one.sealed_frame_count)
    × (0 < sealed_one.sealed_frame_count)
    × (sealed_one.sealed_frame_count ≡ 1)
sealed_delivers_example = sealed_delivers 2 1 1 1 one_frame sealed_one refl sealed_one-sealed

run_bounded_example :
    (sealed_one.allocated
      ≡ length sealed_one.slots + length sealed_one.queue + holding sealed_one.phase)
    × (sealed_one.allocated ≤ sealed_one.max_slots)
    × (length sealed_one.queue ≤ sealed_one.max_slots)
    × InOrder sealed_one.sink_writes
run_bounded_example = run_bounded 2 1 1 1 one_frame sealed_one refl

abbrev one_plan : WritePlan
one_plan = record {
  fragments = record { frame = 0; frame_offset = 0; payload_start = 0; payload_end = 2 } ∷ [];
  new_slots = new_frame_spool 0 2 ∷ [];
}

one_plan-planned : plan_write new_one (1 ∷ 2 ∷ []) (pos 0) ≡ ok one_plan
unfolding plan_write plan_write_at initial_mirror missing_slots lookup_slot plan_frames preflight
    fragment_of slot_or_new made_slots
one_plan-planned = refl

write_at_succeeds_example : (write_at new_one (1 ∷ 2 ∷ []) (pos 0) (wrote 2)).1 ≡ (pos 2, none)
write_at_succeeds_example =
    write_at_succeeds new_one (1 ∷ 2 ∷ []) (pos 0) (wrote 2) one_plan (initial_mirror-Inv 2 2 2 2)
      (unfold writable_error initial_mirror in refl) one_plan-planned (unfold output_error in refl)

abbrev empty_spool : FrameSpool
empty_spool = new_frame_spool 0 4

empty_spool-admits : preflight empty_spool (pos 1) (pos 3) ≡ ok tt
unfolding preflight new_frame_spool
empty_spool-admits = refl

apply-IsSpool_example :
    IsSpool (apply empty_spool 1 (7 ∷ 8 ∷ []))
    × (length (apply empty_spool 1 (7 ∷ 8 ∷ [])).payload ≡ length empty_spool.payload)
apply-IsSpool_example =
    apply-IsSpool empty_spool 1 (7 ∷ 8 ∷ []) (new_frame_spool-IsSpool 0 4) empty_spool-admits

complete-iff-covered_example :
    (complete empty_spool ≡ true)
    ↔ ((x : ℕ) → (leb (length empty_spool.payload) x || covers empty_spool.ranges x) ≡ true)
complete-iff-covered_example =
    complete-iff-covered empty_spool (new_frame_spool-IsSpool 0 4)
      (unfold new_frame_spool in omega arith)
