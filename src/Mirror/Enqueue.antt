-- ===== src/Mirror/Enqueue.antt =====
-- enqueueCompleteLocked: it never meets a full channel, and it leaves no frame that could be sent.
use mmwcli.Base.{
  ℕ, zero, suc, ◌+◌, ◌<◌, ◌≡◌, refl, Bool, true, false, List, [], ◌∷◌, ◌++◌, Option, none, some,
  length, length-append, Option-cases, inl, inr, arith, lt→ltb,
}
use mmwcli.Mirror.Errors.{MirrorError}
use mmwcli.Mirror.Spool.{FrameSpool}
use mmwcli.Mirror.State.{Mirror, MirrorState, opened, QueuedFrame}
use mmwcli.Mirror.Plan.{lookup_slot}
use mmwcli.Mirror.Write.{
  delete_slot, complete_only, ready_frame, send_frame, enqueue_loop, enqueue_complete,
}
use mmwcli.Mirror.Invariant.{Inv, Numbered}

length-delete_slot :
    (index : ℕ) (slots : List FrameSpool) {frame : FrameSpool}
    → lookup_slot index slots ≡ some frame
    → length (delete_slot index slots) + 1 ≡ length slots
unfolding lookup_slot delete_slot
length-delete_slot index [] h = ground arith
length-delete_slot index (first ∷ slots) {frame} h =
    ground (arith, length-delete_slot index slots {frame = frame})

-- The frame to be sent has a slot.
ready_frame-slot :
    (m : Mirror) {frame : FrameSpool}
    → ready_frame m ≡ some frame
    → lookup_slot m.next_emit m.slots ≡ some frame
unfolding ready_frame complete_only
ready_frame-slot m h = ground arith

Numbered-append :
    (next : ℕ) (queue : List QueuedFrame) (frame : QueuedFrame)
    → frame.index ≡ next
    → Numbered next queue
    → Numbered (next + 1) (queue ++ (frame ∷ []))
Numbered-append next [] frame e h = (omega arith, tt)
Numbered-append next (first ∷ queue) frame e (p, h) =
    (rw length-append (omega arith), Numbered-append next queue frame e h)

abbrev is_opened : MirrorState → Bool
is_opened opened = true
is_opened _ = false

send_frame-Inv :
    (m : Mirror) (frame : FrameSpool)
    → is_opened m.state ≡ true
    → ready_frame m ≡ some frame
    → Inv m
    → Inv (send_frame m frame)
unfolding send_frame
send_frame-Inv m frame s r h = ground (
  arith,
  length-delete_slot m.next_emit m.slots (ready_frame-slot m r),
  length-append m.queue (record { index = m.next_emit; payload = frame.payload } ∷ []),
  Numbered-append m.next_emit m.queue (record { index = m.next_emit; payload = frame.payload }) refl
      h.queued,
)

-- A frame that can be sent finds room in the channel.
pub room :
    (m : Mirror) {frame : FrameSpool}
    → ready_frame m ≡ some frame
    → Inv m
    → length m.queue < m.max_slots
room m r h =
    omega
      (arith, length-delete_slot m.next_emit m.slots (ready_frame-slot m r), h.accounted, h.within)

-- What enqueueCompleteLocked leaves behind on an open mirror.
record Enqueued (result : Mirror × Option MirrorError) : Type 0 where
  inv : Inv result.0
  open_still : is_opened result.0.state ≡ true
  no_error : result.1 ≡ none

enqueue_loop_stop :
    (fuel : ℕ) (m : Mirror) → ready_frame m ≡ none → enqueue_loop (suc fuel) m ≡ (m, none)
unfolding enqueue_loop
enqueue_loop_stop fuel m e = rw (e, enqueue_loop)

enqueue_loop_step :
    (fuel : ℕ) (m : Mirror) {frame : FrameSpool}
    → ready_frame m ≡ some frame
    → Inv m
    → enqueue_loop (suc fuel) m ≡ enqueue_loop fuel (send_frame m frame)
unfolding enqueue_loop
enqueue_loop_step fuel m e h = rw (e, enqueue_loop) (rw (lt→ltb _ _ (room m e h)))

enqueue_loop-Enqueued :
    (fuel : ℕ) (m : Mirror) → is_opened m.state ≡ true → Inv m → Enqueued (enqueue_loop fuel m)
enqueue_loop-Enqueued zero m s h =
    unfold enqueue_loop in record { inv = h; open_still = s; no_error = refl }
enqueue_loop-Enqueued (suc fuel) m s h = elim (Option-cases (ready_frame m)) [
  | inl nothing ↦
      rw (enqueue_loop_stop fuel m nothing) (record { inv = h; open_still = s; no_error = refl })
  | inr (frame, r) ↦ rw (enqueue_loop_step fuel m r h) (
      enqueue_loop-Enqueued fuel (send_frame m frame) (unfold send_frame in s)
        (send_frame-Inv m frame s r h))
]

send_frame_shorter :
    (m : Mirror) {frame : FrameSpool}
    → ready_frame m ≡ some frame
    → length (send_frame m frame).slots + 1 ≡ length m.slots
unfolding send_frame
send_frame_shorter m r = length-delete_slot m.next_emit m.slots (ready_frame-slot m r)

enqueue_loop_done :
    (fuel : ℕ) (m : Mirror)
    → length m.slots < fuel
    → is_opened m.state ≡ true
    → Inv m
    → ready_frame (enqueue_loop fuel m).0 ≡ none
enqueue_loop_done zero m l s h = absurd (omega arith)
enqueue_loop_done (suc fuel) m l s h = elim (Option-cases (ready_frame m)) [
  | inl nothing ↦ rw (enqueue_loop_stop fuel m nothing) nothing
  | inr (frame, r) ↦ rw (enqueue_loop_step fuel m r h) (
      enqueue_loop_done fuel (send_frame m frame) (omega (arith, send_frame_shorter m r))
        (unfold send_frame in s) (send_frame-Inv m frame s r h))
]

-- On an open mirror that satisfies the invariant, enqueueCompleteLocked ends with no error, so the
-- branch for a full queue is never taken, it keeps the invariant, and where it ends no complete
-- frame is left that could be sent.
pub enqueue_complete_total :
    (m : Mirror)
    → m.state ≡ opened
    → Inv m
    → ((enqueue_complete m).1 ≡ none)
      × (ready_frame (enqueue_complete m).0 ≡ none)
      × Inv (enqueue_complete m).0
unfolding enqueue_complete
enqueue_complete_total m s h =
    let o : is_opened m.state ≡ true = rw s in
    let e = enqueue_loop-Enqueued (suc (length m.slots)) m o h in
    (e.no_error, enqueue_loop_done (suc (length m.slots)) m (omega arith) o h, e.inv)
