-- ===== src/Mirror/Write.antt =====
-- WriteAt and enqueueCompleteLocked of internal/capturestream/mirror.go.
use mmwcli.Base.{
  ℕ, zero, suc, ◌+◌, Bool, false, List, [], ◌∷◌, ◌++◌, Option, none, some, ltb, ◌==◌, if◌then◌else◌,
  ok, err, ℤ, pos, negsuc, length, slice, map, pos_part,
}
use mmwcli.Mirror.Errors.{MirrorError, output_failed, short_write, queue_full}
use mmwcli.Mirror.Spool.{FrameSpool, apply, complete}
use mmwcli.Mirror.State.{Mirror, fail_and_cancel, writable_error}
use mmwcli.Mirror.Plan.{lookup_slot, MirrorFragment, WritePlan, plan_write}

-- What `output.WriteAt` answers: how many bytes it wrote, and whether it gave an error.
pub record OutputAnswer : Type 0 where
  pub written : ℤ
  pub failed : Bool

abbrev pub is_full : ℤ → ℕ → Bool
is_full (negsuc _) size = false
is_full (pos n) size = n == size

-- `fragment.frame.apply(...)`: only the frame that the fragment names changes.
unfoldable pub apply_fragment : List ℕ → MirrorFragment → FrameSpool → FrameSpool
unfolding apply
apply_fragment payload fragment frame =
    if frame.index == fragment.frame
    then apply frame fragment.frame_offset
        (slice fragment.payload_start fragment.payload_end payload)
    else frame

unfoldable pub apply_fragments : List ℕ → List MirrorFragment → List FrameSpool → List FrameSpool
unfolding apply_fragment
apply_fragments payload [] slots = slots
apply_fragments payload (fragment ∷ fragments) slots =
    apply_fragments payload fragments (map (apply_fragment payload fragment) slots)

-- `delete(mirror.slots, index)`.
unfoldable pub delete_slot : ℕ → List FrameSpool → List FrameSpool
delete_slot index [] = []
delete_slot index (frame ∷ slots) =
    let rest = frame ∷ delete_slot index slots in if frame.index == index then slots else rest

unfoldable pub complete_only : Option FrameSpool → Option FrameSpool
unfolding complete
complete_only none = none
complete_only (some frame) = if complete frame then some frame else none

-- The frame that is to be sent next, if it is complete.
unfoldable pub ready_frame : Mirror → Option FrameSpool
unfolding lookup_slot complete_only
ready_frame mirror =
    if ltb mirror.next_emit mirror.frame_limit
    then complete_only (lookup_slot mirror.next_emit mirror.slots)
    else none

-- The send on the channel, the deletion of the slot and `nextEmit++`.
unfoldable pub send_frame : Mirror → FrameSpool → Mirror
unfolding delete_slot
send_frame mirror frame = record mirror {
  queue = mirror.queue ++ (record { index = mirror.next_emit; payload = frame.payload } ∷ []);
  slots = delete_slot mirror.next_emit mirror.slots;
  next_emit = mirror.next_emit + 1;
}

-- The loop of enqueueCompleteLocked. The channel's buffer holds `maxSlots` frames, and a send with
-- `default` fails where it is full. Each round but the last deletes a slot, so one round more than
-- there are slots is enough (see Enqueue).
unfoldable pub enqueue_loop : ℕ → Mirror → Mirror × Option MirrorError
unfolding ready_frame send_frame
enqueue_loop zero mirror = (mirror, none)
enqueue_loop (suc fuel) mirror = elim (ready_frame mirror) [
  | none ↦ (mirror, none)
  | some frame ↦
      let sent = enqueue_loop fuel (send_frame mirror frame) in
      if ltb (length mirror.queue) mirror.max_slots then sent else (mirror, some queue_full)
]

unfoldable pub enqueue_complete : Mirror → Mirror × Option MirrorError
unfolding enqueue_loop
enqueue_complete mirror = enqueue_loop (suc (length mirror.slots)) mirror

-- The new slots and the fragments, behind the write to the output.
unfoldable pub admit : Mirror → List ℕ → ℕ → WritePlan → Mirror
unfolding apply_fragments
admit mirror payload offset plan = record mirror {
  slots = apply_fragments payload plan.fragments (mirror.slots ++ plan.new_slots);
  allocated = mirror.allocated + length plan.new_slots;
  output_writes = record { offset = offset; payload = payload } ∷ mirror.output_writes;
}

-- What WriteAt returns: the byte count and the error.
abbrev pub WriteReturn : Type 0
WriteReturn = ℤ × Option MirrorError

-- The failure of the output, if it failed.
unfoldable pub output_error : List ℕ → OutputAnswer → Option MirrorError
output_error payload answer =
    if answer.failed
    then some output_failed
    else if is_full answer.written (length payload)
    then none
    else some short_write

-- The return behind enqueueCompleteLocked.
unfoldable pub write_return : ℕ → Mirror × Option MirrorError → Mirror × WriteReturn
unfolding fail_and_cancel
write_return size (mirror, none) = (mirror, (pos size, none))
write_return size (mirror, some e) = (fail_and_cancel mirror e, (pos size, some e))

unfoldable pub write_admitted : Mirror → List ℕ → ℕ → WritePlan → Mirror × WriteReturn
write_admitted mirror payload offset plan =
    write_return (length payload) (enqueue_complete (admit mirror payload offset plan))

-- WriteAt on a mirror that is there; `answer` is what the output gives if it is called. It is called
-- only where the plan passes, at an offset that is not negative.
unfoldable pub write_at : Mirror → List ℕ → ℤ → OutputAnswer → Mirror × WriteReturn
write_at mirror payload offset answer = elim (writable_error mirror) [
  | some e ↦ (mirror, (pos 0, some e))
  | none ↦ elim (plan_write mirror payload offset) [
    | err e ↦ (fail_and_cancel mirror e, (pos 0, some e))
    | ok plan ↦ elim (output_error payload answer) [
      | some e ↦ (fail_and_cancel mirror e, (answer.written, some e))
      | none ↦ write_admitted mirror payload (pos_part offset) plan
    ]
  ]
]
