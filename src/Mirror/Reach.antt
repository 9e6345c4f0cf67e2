-- ===== src/Mirror/Reach.antt =====
-- Every interleaving of the operations of a mirror and of its worker keeps the invariant.
use mmwcli.Base.{if◌then◌else◌, ◌==◌, ℕ, ◌+◌, ◌≤◌, ◌<◌, ◌≡◌, List, [], ◌∷◌, length, arith}
use mmwcli.Mirror.State.{Mirror, sealed, Phase, finished, initial_mirror}
use mmwcli.Mirror.Seal.{seal_count}
use mmwcli.Mirror.Steps.{
  Action, write, work, begin_seal, end_seal, expire_seal, give_up, end_seal_at, act, run,
}
use mmwcli.Mirror.Invariant.{Inv, holding, InOrder, initial_mirror-Inv}
use mmwcli.Mirror.Preserve.{worker-Inv, seal_start-Inv, seal_done-Inv, seal_timeout-Inv, abort-Inv}
use mmwcli.Mirror.Config.{run-frame_count}
use mmwcli.Mirror.Written.{write_at-Inv}

end_seal_at-Inv : (phase : Phase) (m : Mirror) → Inv m → Inv (end_seal_at phase m)
unfolding end_seal_at
end_seal_at-Inv finished m h = seal_done-Inv m h
end_seal_at-Inv _ m h = h

act-Inv : (action : Action) (m : Mirror) → Inv m → Inv (act action m)
unfolding act
act-Inv (write payload offset answer) m h = write_at-Inv m payload offset answer h
act-Inv (work sink_fails) m h = worker-Inv m sink_fails h
act-Inv (begin_seal context) m h = seal_start-Inv m context h
act-Inv end_seal m h = end_seal_at-Inv m.phase m h
act-Inv expire_seal m h = seal_timeout-Inv m h
act-Inv give_up m h = abort-Inv m h

-- Every interleaving of WriteAt, Seal, Abort and the worker keeps the invariant, whatever the output,
-- the sink and the contexts answer.
pub run-Inv : (actions : List Action) (m : Mirror) → Inv m → Inv (run actions m)
unfolding run
run-Inv [] m h = h
run-Inv (action ∷ actions) m h = run-Inv actions (act action m) (act-Inv action m h)

-- However a new mirror was driven, once it is sealed the sink got exactly the frames 0, 1, ... below
-- the count it was sealed at, each once and in order. That count is not 0; it is the number
-- delivered; and it is the declared frame count, or the number of frames sent where that is 0.
pub sealed_delivers :
    (frame_bytes frame_count frame_limit max_slots : ℕ) (actions : List Action) (m : Mirror)
    → run actions (initial_mirror frame_bytes frame_count frame_limit max_slots) ≡ m
    → m.state ≡ sealed
    → InOrder m.sink_writes
      × (length m.sink_writes ≡ m.sealed_frame_count)
      × (m.delivered ≡ m.sealed_frame_count)
      × (0 < m.sealed_frame_count)
      × (m.sealed_frame_count ≡ (if frame_count == 0 then m.next_emit else frame_count))
unfolding seal_count
sealed_delivers frame_bytes frame_count frame_limit max_slots actions m r s =
    let start = initial_mirror-Inv frame_bytes frame_count frame_limit max_slots in
    let h : Inv m = rw r at (run-Inv actions _ start) in
    let declared =
      run-frame_count actions (initial_mirror frame_bytes frame_count frame_limit max_slots) in
    let kept : m.frame_count ≡ frame_count = unfold initial_mirror in (rw r at declared) in
    (h.logged, ground arith, ground arith, ground arith, ground arith)

-- However a new mirror was driven, a buffer is either a slot under assembly, in the channel or with the
-- worker, and there are never more of them than the mirror has slots, nor than the channel can hold;
-- and the sink got the frames 0, 1, ... in order with none left out.
pub run_bounded :
    (frame_bytes frame_count frame_limit max_slots : ℕ) (actions : List Action) (m : Mirror)
    → run actions (initial_mirror frame_bytes frame_count frame_limit max_slots) ≡ m
    → (m.allocated ≡ length m.slots + length m.queue + holding m.phase)
      × (m.allocated ≤ m.max_slots)
      × (length m.queue ≤ m.max_slots)
      × InOrder m.sink_writes
run_bounded frame_bytes frame_count frame_limit max_slots actions m r =
    let start = initial_mirror-Inv frame_bytes frame_count frame_limit max_slots in
    let h : Inv m = rw r at (run-Inv actions _ start) in
    (h.accounted, h.within, omega (arith, h.accounted, h.within), h.logged)
