-- ===== src/Mirror/Steps.antt =====
-- Every interleaving of the callers of a mirror and of its worker, as a list of actions. Each action
-- is one critical section; what the output, the sink and the contexts answer is in the action.
use mmwcli.Base.{ℕ, Bool, true, false, List, [], ◌∷◌, ℤ}
use mmwcli.Mirror.State.{Mirror, Phase, finished}
use mmwcli.Mirror.Write.{OutputAnswer, write_at}
use mmwcli.Mirror.Worker.{worker}
use mmwcli.Mirror.Seal.{SealContext, seal_start, seal_done, seal_timeout, abort}

pub data Action : Type 0 where
  -- A call of WriteAt, with the output's answer.
  write : List ℕ → ℤ → OutputAnswer → Action
  -- A step of runSink, with the sink's answer.
  work : Bool → Action
  -- Seal up to its wait, and the two ways out of it. A Seal whose wait was begun earlier, by this
  -- call or another, may go on at any time.
  begin_seal : SealContext → Action
  end_seal : Action
  expire_seal : Action
  give_up : Action

-- `<-done` is ready only behind the worker's loop.
abbrev pub is_finished : Phase → Bool
is_finished finished = true
is_finished _ = false

unfoldable pub end_seal_at : Phase → Mirror → Mirror
end_seal_at finished mirror = (seal_done mirror).0
end_seal_at _ mirror = mirror

unfoldable pub act : Action → Mirror → Mirror
act (write payload offset answer) mirror = (write_at mirror payload offset answer).0
act (work sink_fails) mirror = worker mirror sink_fails
act (begin_seal context) mirror = (seal_start mirror context).0
act end_seal mirror = end_seal_at mirror.phase mirror
act expire_seal mirror = (seal_timeout mirror).0
act give_up mirror = abort mirror

unfoldable pub run : List Action → Mirror → Mirror
run [] mirror = mirror
run (action ∷ actions) mirror = run actions (act action mirror)
