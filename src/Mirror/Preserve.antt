-- ===== src/Mirror/Preserve.antt =====
-- Every operation but WriteAt keeps the invariant.
use mmwcli.Base.{◌≡◌, Bool, false, List, [], ◌∷◌, arith, refl}
use mmwcli.Mirror.Errors.{MirrorError}
use mmwcli.Mirror.State.{
  Mirror, QueuedFrame, Phase, waiting, received, settled, finished, MirrorState, opened, sealing,
  sealed, aborted, fail_locked, abort_locked, cancel_both, fail_and_cancel,
}
use mmwcli.Mirror.Worker.{receive, settle, finish, worker_at, worker}
use mmwcli.Mirror.Seal.{
  SealContext, seal_open, seal_by_state, seal_start, seal_validate, seal_done_by, seal_done,
  seal_timeout_by, seal_timeout, abort_by, abort,
}
use mmwcli.Mirror.Invariant.{Inv, is_sealed_state}

abort_locked-Inv : (m : Mirror) → Inv m → Inv (abort_locked m)
unfolding abort_locked
abort_locked-Inv m h = ground arith

cancel_abort-Inv :
    (m : Mirror) → is_sealed_state m.state ≡ false → Inv m → Inv (cancel_both (abort_locked m))
unfolding abort_locked cancel_both
cancel_abort-Inv m s h = ground arith

fail_locked-Inv :
    (m : Mirror) (e : MirrorError) → is_sealed_state m.state ≡ false → Inv m → Inv (fail_locked m e)
unfolding fail_locked
fail_locked-Inv m e s h = ground arith

cancel_fail-Inv :
    (m : Mirror) (e : MirrorError)
    → is_sealed_state m.state ≡ false
    → Inv m
    → Inv (cancel_both (fail_locked m e))
unfolding fail_locked cancel_both
cancel_fail-Inv m e s h = ground arith

pub fail_and_cancel-Inv :
    (m : Mirror) (e : MirrorError)
    → is_sealed_state m.state ≡ false
    → Inv m
    → Inv (fail_and_cancel m e)
unfolding fail_and_cancel
fail_and_cancel-Inv m e s h = ground (arith, cancel_fail-Inv m e s h, fail_locked-Inv m e s h)

receive-Inv :
    (m : Mirror) (queue : List QueuedFrame)
    → m.phase ≡ waiting
    → m.queue ≡ queue
    → Inv m
    → Inv (receive m queue)
unfolding receive
receive-Inv m [] p q h = ground arith
receive-Inv m (frame ∷ queue) p q h = ground arith

settle-Inv :
    (m : Mirror) (frame : QueuedFrame) → m.phase ≡ received frame → Inv m → Inv (settle m frame)
unfolding settle
settle-Inv m frame p h = ground arith

finish-Inv :
    (m : Mirror) (frame : QueuedFrame) (sink_fails : Bool)
    → m.phase ≡ settled frame
    → Inv m
    → Inv (finish m frame sink_fails)
unfolding finish
finish-Inv m frame sink_fails p h = ground arith

worker_at-Inv :
    (phase : Phase) (m : Mirror) (sink_fails : Bool)
    → m.phase ≡ phase
    → Inv m
    → Inv (worker_at phase m sink_fails)
unfolding worker_at
worker_at-Inv waiting m sink_fails p h = receive-Inv m m.queue p refl h
worker_at-Inv (received frame) m sink_fails p h = settle-Inv m frame p h
worker_at-Inv (settled frame) m sink_fails p h = finish-Inv m frame sink_fails p h
worker_at-Inv finished m sink_fails p h = h

-- Each step of the worker keeps the invariant.
pub worker-Inv : (m : Mirror) (sink_fails : Bool) → Inv m → Inv (worker m sink_fails)
unfolding worker
worker-Inv m sink_fails h = worker_at-Inv m.phase m sink_fails refl h

seal_open-Inv : (m : Mirror) → m.state ≡ opened → Inv m → Inv (seal_open m).0
unfolding seal_open
seal_open-Inv m s h = ground arith

seal_by_state-Inv :
    (state : MirrorState) (m : Mirror) → m.state ≡ state → Inv m → Inv (seal_by_state state m).0
unfolding seal_by_state
seal_by_state-Inv opened m s h = ground (arith, cancel_abort-Inv m, seal_open-Inv m)
seal_by_state-Inv sealing m s h = h
seal_by_state-Inv sealed m s h = h
seal_by_state-Inv aborted m s h = h

pub seal_start-Inv : (m : Mirror) (context : SealContext) → Inv m → Inv (seal_start m context).0
unfolding seal_start
seal_start-Inv m context h = ground (arith, seal_by_state-Inv m.state m refl h)

seal_validate-Inv : (m : Mirror) → m.state ≡ sealing → Inv m → Inv (seal_validate m).0
unfolding seal_validate
seal_validate-Inv m s h = ground arith

seal_done_by-Inv :
    (state : MirrorState) (m : Mirror) → m.state ≡ state → Inv m → Inv (seal_done_by state m).0
unfolding seal_done_by
seal_done_by-Inv opened m s h = h
seal_done_by-Inv sealing m s h = ground (arith, seal_validate-Inv m)
seal_done_by-Inv sealed m s h = h
seal_done_by-Inv aborted m s h = h

pub seal_done-Inv : (m : Mirror) → Inv m → Inv (seal_done m).0
unfolding seal_done
seal_done-Inv m h = seal_done_by-Inv m.state m refl h

seal_timeout_by-Inv :
    (state : MirrorState) (m : Mirror) → m.state ≡ state → Inv m → Inv (seal_timeout_by state m).0
unfolding seal_timeout_by
seal_timeout_by-Inv opened m s h = cancel_fail-Inv m _ (ground arith) h
seal_timeout_by-Inv sealing m s h = cancel_fail-Inv m _ (ground arith) h
seal_timeout_by-Inv sealed m s h = h
seal_timeout_by-Inv aborted m s h = h

pub seal_timeout-Inv : (m : Mirror) → Inv m → Inv (seal_timeout m).0
unfolding seal_timeout
seal_timeout-Inv m h = seal_timeout_by-Inv m.state m refl h

abort_by-Inv : (state : MirrorState) (m : Mirror) → m.state ≡ state → Inv m → Inv (abort_by state m)
unfolding abort_by
abort_by-Inv opened m s h = cancel_abort-Inv m (ground arith) h
abort_by-Inv sealing m s h = cancel_abort-Inv m (ground arith) h
abort_by-Inv sealed m s h = h
abort_by-Inv aborted m s h = unfold cancel_both in ground arith

pub abort-Inv : (m : Mirror) → Inv m → Inv (abort m)
unfolding abort
abort-Inv m h = abort_by-Inv m.state m refl h
