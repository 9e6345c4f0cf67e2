-- ===== src/Mirror/Plan.antt =====
-- planWriteLocked of internal/capturestream/mirror.go: how a write splits into frames, and the tests
-- that it has to pass. Nothing is changed here.
use mmwcli.Base.{
  ℕ, zero, suc, ◌+◌, ◌-◌, ◌*◌, ◌/◌, min, max, List, [], ◌∷◌, ◌++◌, Option, none, some, ltb, leb,
  ◌==◌, if◌then◌else◌, Result, ok, err, ◌>>=◌, ◌>>◌, reject_if, ℤ, pos, negsuc, length,
}
use mmwcli.Mirror.Errors.{
  MirrorError, empty_payload, offset_outside, write_too_long, already_emitted, outside_window,
  slots_exhausted,
}
use mmwcli.Mirror.Spool.{FrameSpool, new_frame_spool, preflight}
use mmwcli.Mirror.State.{Mirror}

-- `mirror.slots[index]`, where nil is `none`.
unfoldable pub lookup_slot : ℕ → List FrameSpool → Option FrameSpool
lookup_slot index [] = none
lookup_slot index (frame ∷ slots) =
    if frame.index == index then some frame else lookup_slot index slots

-- A fragment names its frame by the index; the code holds the pointer.
pub record MirrorFragment : Type 0 where
  pub frame : ℕ
  pub frame_offset : ℕ
  pub payload_start : ℕ
  pub payload_end : ℕ

pub record WritePlan : Type 0 where
  pub fragments : List MirrorFragment
  pub new_slots : List FrameSpool

-- How many of the `count` frames from `index` on have no slot.
unfoldable pub missing_slots : List FrameSpool → ℕ → ℕ → ℕ
missing_slots slots zero index = 0
missing_slots slots (suc count) index =
    let rest = missing_slots slots count (index + 1) in
    elim (lookup_slot index slots) [ none ↦ rest + 1 | some _ ↦ rest ]

-- The spool that the write to the frame `index` goes to, and the slots that are made for it.
unfoldable pub slot_or_new : ℕ → ℕ → List FrameSpool → FrameSpool
unfolding new_frame_spool lookup_slot
slot_or_new frame_bytes index slots = elim (lookup_slot index slots) [
  | none ↦ new_frame_spool index frame_bytes
  | some frame ↦ frame
]

unfoldable pub made_slots : ℕ → ℕ → List FrameSpool → List FrameSpool
unfolding new_frame_spool lookup_slot
made_slots frame_bytes index slots = elim (lookup_slot index slots) [
  | none ↦ new_frame_spool index frame_bytes ∷ []
  | some _ ↦ []
]

-- One round of the last loop: the part of [offset, end) that lies in the frame `index`. The part is
-- not empty, so the differences are not negative and the truncated `-` is exact.
unfoldable pub fragment_of : ℕ → ℕ → ℕ → ℕ → MirrorFragment
fragment_of frame_bytes offset end index =
    let frame_start : ℕ = index * frame_bytes in
    let fragment_start : ℕ = max offset frame_start in
    let fragment_end : ℕ = min end (frame_start + frame_bytes) in
    record {
      frame = index;
      frame_offset = fragment_start - frame_start;
      payload_start = fragment_start - offset;
      payload_end = fragment_end - offset;
    }

unfoldable pub plan_frames : ℕ → List FrameSpool → ℕ → ℕ → ℕ → ℕ → Result MirrorError WritePlan
plan_frames frame_bytes slots offset end zero index = ok (record { fragments = []; new_slots = [] })
plan_frames frame_bytes slots offset end (suc count) index = do
  let fragment = fragment_of frame_bytes offset end index
  preflight (slot_or_new frame_bytes index slots) (pos fragment.frame_offset)
      (pos (fragment.frame_offset + (fragment.payload_end - fragment.payload_start)))
  rest ← plan_frames frame_bytes slots offset end count (index + 1)
  ok (record {
    fragments = fragment ∷ rest.fragments;
    new_slots = made_slots frame_bytes index slots ++ rest.new_slots;
  })

-- planWriteLocked at an offset that is not negative. `lastFrame - nextEmit` is a uint64 difference of
-- numbers in order, and `missing > maxSlots - allocated` is written without the difference.
unfoldable pub plan_write_at : Mirror → List ℕ → ℕ → Result MirrorError WritePlan
plan_write_at mirror payload offset = do
  reject_if (length payload == 0) empty_payload
  reject_if (ltb mirror.expected_bytes offset) offset_outside
  reject_if (ltb (mirror.expected_bytes - offset) (length payload)) write_too_long
  let end = offset + length payload
  let first_frame = offset / mirror.frame_bytes
  let last_frame = (end - 1) / mirror.frame_bytes
  reject_if (ltb first_frame mirror.next_emit) already_emitted
  reject_if (leb mirror.max_slots (last_frame - mirror.next_emit)) outside_window
  let count = last_frame - first_frame + 1
  reject_if (ltb mirror.max_slots (missing_slots mirror.slots count first_frame + mirror.allocated))
      slots_exhausted
  plan_frames mirror.frame_bytes mirror.slots offset end count first_frame

unfoldable pub plan_write : Mirror → List ℕ → ℤ → Result MirrorError WritePlan
plan_write mirror [] offset = err empty_payload
plan_write mirror (b ∷ payload) (negsuc _) = err offset_outside
plan_write mirror (b ∷ payload) (pos offset) = plan_write_at mirror (b ∷ payload) offset
