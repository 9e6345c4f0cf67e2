-- ===== src/Mirror/State.antt =====
-- What a Mirror of internal/capturestream/mirror.go keeps, and NewMirror.
-- The channel is the list of the frames that wait in its buffer, the map of slots a list of spools
-- with different indices, and the goroutine's place in its loop a phase. The calls of the output
-- and of the sink that succeeded are kept, the newest first, as the effects of the mirror.
use mmwcli.Base.{
  ℕ, ◌-◌, ◌*◌, ◌/◌, ◌%◌, Bool, true, false, ◌||◌, List, [], Option, none, some, ltb, ◌==◌, ◌!=◌,
  if◌then◌else◌, Result, ok, err, ◌>>=◌, ◌>>◌, reject_if, ℤ, pos, negsuc, not, ◌&&◌, length,
}
use mmwcli.Mirror.Errors.{
  MirrorError, output_unavailable, sink_nil, cancel_nil, frame_size, frame_too_large,
  frame_limit_missing, frame_limit_twice, frame_limit_overflow, buffer_too_small, buffer_too_large,
  no_slots, is_sealed, is_aborted,
}
use mmwcli.Mirror.Spool.{FrameSpool}

abbrev pub max_int64 : ℕ
max_int64 = 9223372036854775807

abbrev pub max_frame_payload_bytes : ℕ
max_frame_payload_bytes = 67108864

abbrev pub default_mirror_buffer_bytes : ℕ
default_mirror_buffer_bytes = 16777216

abbrev pub max_mirror_buffer_bytes : ℕ
max_mirror_buffer_bytes = 134217728

abbrev pub max_mirror_frame_slots : ℕ
max_mirror_frame_slots = 4096

pub record MirrorConfig : Type 0 where
  pub frame_bytes : ℤ
  pub frame_count : ℕ
  pub max_frame_count : ℕ
  pub buffer_bytes : ℤ

-- An int64 above the default buffer is positive.
unfoldable pub default_mirror_config : ℤ → ℕ → MirrorConfig
default_mirror_config (negsuc n) frame_count = record {
  frame_bytes = negsuc n;
  frame_count = frame_count;
  max_frame_count = 0;
  buffer_bytes = pos default_mirror_buffer_bytes;
}
default_mirror_config (pos n) frame_count = record {
  frame_bytes = pos n;
  frame_count = frame_count;
  max_frame_count = 0;
  buffer_bytes = pos (if ltb default_mirror_buffer_bytes n then n else default_mirror_buffer_bytes);
}

unfoldable pub bounded_open_ended_mirror_config : ℤ → ℤ → MirrorConfig
unfolding default_mirror_config
bounded_open_ended_mirror_config (pos frame_bytes) (pos maximum_bytes) =
    let config = default_mirror_config (pos frame_bytes) 0 in
    if ltb 0 frame_bytes && not (ltb maximum_bytes frame_bytes)
    then record config { max_frame_count = maximum_bytes / frame_bytes }
    else config
bounded_open_ended_mirror_config frame_bytes maximum_bytes = default_mirror_config frame_bytes 0

pub data MirrorState : Type 0 where
  opened sealing sealed aborted : MirrorState

pub record QueuedFrame : Type 0 where
  pub index : ℕ
  pub payload : List ℕ

-- Where the goroutine of `runSink` stands: at the receive, with a frame received, with a frame and
-- `discard` settled for it, or behind the loop.
pub data Phase : Type 0 where
  waiting : Phase
  received : QueuedFrame → Phase
  settled : QueuedFrame → Phase
  finished : Phase

-- A call `output.WriteAt(payload, offset)` that succeeded.
pub record OutputWrite : Type 0 where
  pub offset : ℕ
  pub payload : List ℕ

pub record Mirror : Type 0 where
  pub frame_bytes : ℕ
  pub frame_count : ℕ
  pub expected_bytes : ℕ
  pub frame_limit : ℕ
  pub max_slots : ℕ
  pub sealed_frame_count : ℕ
  pub queue : List QueuedFrame
  pub state : MirrorState
  pub failure : Option MirrorError
  pub slots : List FrameSpool
  pub allocated : ℕ
  pub next_emit : ℕ
  pub delivered : ℕ
  pub queue_closed : Bool
  pub phase : Phase
  pub discard : Bool
  pub sink_cancelled : Bool
  pub capture_cancelled : Bool
  pub output_writes : List OutputWrite
  pub sink_writes : List QueuedFrame

-- The frame limit of NewMirror.
unfoldable pub frame_limit_of : ℕ → ℕ → Result MirrorError ℕ
frame_limit_of frame_count max_frame_count =
    if frame_count == 0
    then (if max_frame_count == 0 then err frame_limit_missing else ok max_frame_count)
    else (if max_frame_count != 0 then err frame_limit_twice else ok frame_count)

-- The number of slots of NewMirror. `frame_limit` fits an int64 where this runs.
unfoldable pub slot_count : ℕ → ℕ → ℕ → ℕ
slot_count buffer_bytes frame_bytes frame_limit =
    let by_buffer : ℕ = buffer_bytes / frame_bytes in
    let by_cap : ℕ =
      if ltb max_mirror_frame_slots by_buffer then max_mirror_frame_slots else by_buffer in
    if ltb frame_limit by_cap then frame_limit else by_cap

unfoldable pub initial_mirror : ℕ → ℕ → ℕ → ℕ → Mirror
initial_mirror frame_bytes frame_count frame_limit max_slots = record {
  frame_bytes = frame_bytes;
  frame_count = frame_count;
  expected_bytes = frame_limit * frame_bytes;
  frame_limit = frame_limit;
  max_slots = max_slots;
  sealed_frame_count = 0;
  queue = [];
  state = opened;
  failure = none;
  slots = [];
  allocated = 0;
  next_emit = 0;
  delivered = 0;
  queue_closed = false;
  phase = waiting;
  discard = false;
  sink_cancelled = false;
  capture_cancelled = false;
  output_writes = [];
  sink_writes = [];
}

-- `config.BufferBytes < config.FrameBytes`.
unfoldable pub buffer_of : ℕ → ℤ → Result MirrorError ℕ
buffer_of frame_bytes (negsuc _) = err buffer_too_small
buffer_of frame_bytes (pos n) = if ltb n frame_bytes then err buffer_too_small else ok n

-- NewMirror behind the tests of its first three arguments, at a frame size that is not negative.
unfoldable pub new_mirror_sized : ℕ → MirrorConfig → Result MirrorError Mirror
unfolding frame_limit_of slot_count initial_mirror buffer_of
new_mirror_sized frame_bytes config = do
  reject_if (frame_bytes == 0 || (frame_bytes % 2) != 0) frame_size
  reject_if (ltb max_frame_payload_bytes frame_bytes) frame_too_large
  frame_limit ← frame_limit_of config.frame_count config.max_frame_count
  reject_if (ltb (max_int64 / frame_bytes) frame_limit) frame_limit_overflow
  buffer_bytes ← buffer_of frame_bytes config.buffer_bytes
  reject_if (ltb max_mirror_buffer_bytes buffer_bytes) buffer_too_large
  let max_slots = slot_count buffer_bytes frame_bytes frame_limit
  reject_if (max_slots == 0) no_slots
  ok (initial_mirror frame_bytes config.frame_count frame_limit max_slots)

unfoldable pub new_mirror_signed : ℤ → MirrorConfig → Result MirrorError Mirror
unfolding new_mirror_sized
new_mirror_signed (negsuc _) config = err frame_size
new_mirror_signed (pos frame_bytes) config = new_mirror_sized frame_bytes config

-- The three flags say whether the output is usable and the sink and the cancel function are given.
unfoldable pub new_mirror : Bool → Bool → Bool → MirrorConfig → Result MirrorError Mirror
unfolding new_mirror_signed
new_mirror output_usable sink_given cancel_given config = do
  reject_if (not output_usable) output_unavailable
  reject_if (not sink_given) sink_nil
  reject_if (not cancel_given) cancel_nil
  new_mirror_signed config.frame_bytes config

-- The locked helpers that every operation shares.

unfoldable pub close_queue : Mirror → Mirror
close_queue mirror = record mirror { queue_closed = true }

abbrev pub is_terminal : MirrorState → Bool
is_terminal sealed = true
is_terminal aborted = true
is_terminal _ = false

abbrev pub is_aborted_state : MirrorState → Bool
is_aborted_state aborted = true
is_aborted_state _ = false

-- `allocated` counts the slots too, so the truncated `-` is exact (see Invariant).
unfoldable pub abort_locked : Mirror → Mirror
unfolding close_queue
abort_locked mirror =
    if is_terminal mirror.state
    then mirror
    else close_queue (record mirror {
      state = aborted;
      allocated = mirror.allocated - length mirror.slots;
      slots = [];
    })

unfoldable pub record_failure : Mirror → MirrorError → Mirror
record_failure mirror e = elim mirror.failure [
  | none ↦ record mirror { failure = some e }
  | some _ ↦ mirror
]

unfoldable pub fail_locked : Mirror → MirrorError → Mirror
unfolding record_failure abort_locked
fail_locked mirror e = abort_locked (record_failure mirror e)

-- sinkCancel and cancelCapture, which run behind the lock where an operation fails.
unfoldable pub cancel_both : Mirror → Mirror
cancel_both mirror = record mirror { sink_cancelled = true; capture_cancelled = true }

abbrev pub state_error : MirrorState → Option MirrorError
state_error opened = none
state_error sealing = some is_sealed
state_error sealed = some is_sealed
state_error aborted = some is_aborted

-- The ends of WriteAt and runSink that fail: only the first failure cancels.
unfoldable pub fail_and_cancel : Mirror → MirrorError → Mirror
unfolding fail_locked cancel_both
fail_and_cancel mirror e = elim mirror.failure [
  | none ↦ cancel_both (fail_locked mirror e)
  | some _ ↦ fail_locked mirror e
]

unfoldable pub writable_error : Mirror → Option MirrorError
writable_error mirror = elim mirror.failure [ some e ↦ some e | none ↦ state_error mirror.state ]

unfoldable pub aborted_error : Mirror → MirrorError
aborted_error mirror = elim mirror.failure [ some e ↦ e | none ↦ is_aborted ]

-- Mirror.Err.
unfoldable pub mirror_err : Mirror → Option MirrorError
mirror_err mirror = elim mirror.failure [
  | some e ↦ some e
  | none ↦ if is_aborted_state mirror.state then some is_aborted else none
]
