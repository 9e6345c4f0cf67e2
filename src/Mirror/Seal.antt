-- ===== src/Mirror/Seal.antt =====
-- Seal and Abort of internal/capturestream/mirror.go.
use mmwcli.Base.{ℕ, Bool, true, not, ◌||◌, Option, none, some, ◌==◌, ◌!=◌, if◌then◌else◌, length}
use mmwcli.Mirror.Errors.{
  MirrorError, incomplete, undelivered, context_nil, unbounded, context_done, invalid_state,
}
use mmwcli.Mirror.State.{
  Mirror, MirrorState, opened, sealing, sealed, aborted, close_queue, fail_locked, abort_locked,
  cancel_both, aborted_error,
}

-- What Seal asks its context: whether there is one, whether it has a deadline, and whether it is done.
pub record SealContext : Type 0 where
  pub given : Bool
  pub bounded : Bool
  pub expired : Bool

-- Seal returned, or waits for the worker.
pub data SealResult : Type 0 where
  returned : Option MirrorError → SealResult
  waits : SealResult

-- The declared frame count, or what was sent where none is declared.
unfoldable pub seal_count : Mirror → ℕ
seal_count mirror = if mirror.frame_count == 0 then mirror.next_emit else mirror.frame_count

-- The case `mirrorOpen` with no failure on record.
unfoldable pub seal_open : Mirror → Mirror × SealResult
unfolding seal_count fail_locked cancel_both close_queue
seal_open mirror =
    if seal_count mirror == 0
      || ((mirror.next_emit != seal_count mirror) || (length mirror.slots != 0))
    then (cancel_both (fail_locked mirror incomplete), returned (some incomplete))
    else (
      close_queue (record mirror { sealed_frame_count = seal_count mirror; state = sealing }),
      waits,
    )

unfoldable pub seal_by_state : MirrorState → Mirror → Mirror × SealResult
unfolding seal_open abort_locked cancel_both aborted_error
seal_by_state sealed mirror = (mirror, returned none)
seal_by_state aborted mirror = (mirror, returned (some (aborted_error mirror)))
seal_by_state opened mirror = elim mirror.failure [
  | some e ↦ (cancel_both (abort_locked mirror), returned (some e))
  | none ↦ seal_open mirror
]
seal_by_state sealing mirror = (mirror, waits)

-- Seal up to the wait.
unfoldable pub seal_start : Mirror → SealContext → Mirror × SealResult
unfolding seal_by_state
seal_start mirror context =
    if not context.given
    then (mirror, returned (some context_nil))
    else if not context.bounded
    then (mirror, returned (some unbounded))
    else if context.expired
    then (mirror, returned (some context_done))
    else seal_by_state mirror.state mirror

-- Behind the wait, with the lock taken in the state `sealing` and no failure on record.
unfoldable pub seal_validate : Mirror → Mirror × Option MirrorError
unfolding fail_locked cancel_both
seal_validate mirror =
    if (mirror.delivered != mirror.sealed_frame_count) || (mirror.allocated != 0)
    then (cancel_both (fail_locked mirror undelivered), some undelivered)
    else (record mirror { state = sealed; sink_cancelled = true }, none)

-- The branch of the worker's end. A waiting Seal never sees the state `opened`: the code answers
-- that the state is invalid and leaves the mirror as it is.
unfoldable pub seal_done_by : MirrorState → Mirror → Mirror × Option MirrorError
unfolding seal_validate aborted_error
seal_done_by aborted mirror = (mirror, some (aborted_error mirror))
seal_done_by sealed mirror = (mirror, none)
seal_done_by opened mirror = (mirror, some invalid_state)
seal_done_by sealing mirror = elim mirror.failure [
  | some e ↦ (record mirror { state = aborted; sink_cancelled = true }, some e)
  | none ↦ seal_validate mirror
]

unfoldable pub seal_done : Mirror → Mirror × Option MirrorError
unfolding seal_done_by
seal_done mirror = seal_done_by mirror.state mirror

-- The branch of the context's end.
unfoldable pub seal_timeout_by : MirrorState → Mirror → Mirror × Option MirrorError
unfolding aborted_error fail_locked cancel_both
seal_timeout_by sealed mirror = (mirror, none)
seal_timeout_by aborted mirror = (mirror, some (aborted_error mirror))
seal_timeout_by _ mirror = (cancel_both (fail_locked mirror context_done), some context_done)

unfoldable pub seal_timeout : Mirror → Mirror × Option MirrorError
unfolding seal_timeout_by
seal_timeout mirror = seal_timeout_by mirror.state mirror

unfoldable pub abort_by : MirrorState → Mirror → Mirror
unfolding cancel_both abort_locked
abort_by sealed mirror = mirror
abort_by aborted mirror = cancel_both mirror
abort_by _ mirror = cancel_both (abort_locked mirror)

-- Abort.
unfoldable pub abort : Mirror → Mirror
unfolding abort_by
abort mirror = abort_by mirror.state mirror
