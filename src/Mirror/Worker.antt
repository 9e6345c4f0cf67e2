-- ===== src/Mirror/Worker.antt =====
-- runSink of internal/capturestream/mirror.go, in the atomic steps between which the lock is free.
use mmwcli.Base.{
  ◌+◌, ◌-◌, Bool, true, false, ◌||◌, List, [], ◌∷◌, Option, none, some, if◌then◌else◌,
}
use mmwcli.Mirror.Errors.{sink_failed}
use mmwcli.Mirror.State.{
  Mirror, QueuedFrame, Phase, waiting, received, settled, finished, is_aborted_state,
  fail_and_cancel,
}

abbrev pub is_some {ℓ} : {A : Type ℓ} → Option A → Bool
is_some none = false
is_some (some _) = true

-- The receive on the channel: a frame, or the end of the loop where the channel is closed and empty.
-- Where it is open and empty the goroutine waits.
unfoldable pub receive : Mirror → List QueuedFrame → Mirror
receive mirror (frame ∷ queue) = record mirror { phase = received frame; queue = queue }
receive mirror [] = if mirror.queue_closed then record mirror { phase = finished } else mirror

-- The first critical section, which settles `discard`.
unfoldable pub settle : Mirror → QueuedFrame → Mirror
settle mirror frame = record mirror {
  phase = settled frame;
  discard =
      mirror.discard
      || (is_some mirror.failure || (is_aborted_state mirror.state || mirror.sink_cancelled));
}

-- The second critical section behind a call of the sink, which failed or not, and behind none.
unfoldable pub after_sink_failure : Mirror → Mirror
unfolding fail_and_cancel
after_sink_failure mirror =
    let m = record mirror { discard = true } in
    if is_aborted_state m.state then m else fail_and_cancel m sink_failed

unfoldable pub after_sink_success : Mirror → QueuedFrame → Mirror
after_sink_success mirror frame =
    let m = record mirror { sink_writes = frame ∷ mirror.sink_writes } in
    if is_aborted_state m.state then m else record m { delivered = m.delivered + 1 }

-- The sink is called exactly where `discard` is not set. A frame is counted in `allocated` until
-- here, so the truncated `-` is exact (see Invariant).
unfoldable pub finish : Mirror → QueuedFrame → Bool → Mirror
unfolding after_sink_failure after_sink_success
finish mirror frame sink_fails =
    let m = record mirror { phase = waiting; allocated = mirror.allocated - 1 } in
    if mirror.discard
    then m
    else if sink_fails
    then after_sink_failure m
    else after_sink_success m frame

unfoldable pub worker_at : Phase → Mirror → Bool → Mirror
unfolding receive settle finish
worker_at waiting mirror sink_fails = receive mirror mirror.queue
worker_at (received frame) mirror sink_fails = settle mirror frame
worker_at (settled frame) mirror sink_fails = finish mirror frame sink_fails
worker_at finished mirror sink_fails = mirror

-- One step of the goroutine; `sink_fails` is the answer of the sink, if the step calls it.
unfoldable pub worker : Mirror → Bool → Mirror
unfolding worker_at
worker mirror sink_fails = worker_at mirror.phase mirror sink_fails
