-- ===== src/Mirror/Invariant.antt =====
-- What holds of a mirror between any two critical sections.
use mmwcli.Base.{ℕ, suc, ◌+◌, ◌≤◌, ◌<◌, ◌≡◌, Bool, true, false, List, [], ◌∷◌, length, arith, ◌==◌}
use mmwcli.Mirror.State.{
  Mirror, MirrorState, sealing, sealed, QueuedFrame, Phase, received, settled, is_aborted_state,
  is_terminal, initial_mirror,
}
use mmwcli.Mirror.Worker.{is_some}

abbrev pub holding : Phase → ℕ
holding (received _) = 1
holding (settled _) = 1
holding _ = 0

abbrev pub is_sealing : MirrorState → Bool
is_sealing sealing = true
is_sealing _ = false

abbrev pub is_sealed_state : MirrorState → Bool
is_sealed_state sealed = true
is_sealed_state _ = false

-- The frames in the channel are the last ones below `next`, in order.
abbrev pub Numbered : ℕ → List QueuedFrame → Type 0
Numbered next [] = Unit {0}
Numbered next (frame ∷ queue) = (frame.index + suc (length queue) ≡ next) × Numbered next queue

-- The sink got the frames 0, 1, 2, ... in this order; the list has the newest first.
abbrev pub InOrder : List QueuedFrame → Type 0
InOrder [] = Unit {0}
InOrder (frame ∷ frames) = (frame.index ≡ length frames) × InOrder frames

-- The frame that the worker holds, by number of frames behind it.
abbrev pub HeldBefore : Phase → ℕ → ℕ → Type 0
HeldBefore (received frame) behind next = frame.index + 1 + behind ≡ next
HeldBefore (settled frame) behind next = frame.index + 1 + behind ≡ next
HeldBefore _ behind next = Unit {0}

pub record Inv (m : Mirror) : Type 0 where
  -- Each allocated buffer is a slot, waits in the channel, or is with the worker.
  pub accounted : m.allocated ≡ length m.slots + length m.queue + holding m.phase
  pub within : m.allocated ≤ m.max_slots
  pub queued : Numbered m.next_emit m.queue
  pub held : HeldBefore m.phase (length m.queue) m.next_emit
  pub logged : InOrder m.sink_writes
  -- While nothing is discarded, what was sent is with the sink, the worker or the channel.
  pub progress :
      m.discard ≡ false → length m.sink_writes + holding m.phase + length m.queue ≡ m.next_emit
  pub keeps : is_aborted_state m.state ≡ false → m.discard ≡ false
  pub counted : is_aborted_state m.state ≡ false → m.delivered ≡ length m.sink_writes
  pub failed : is_some m.failure ≡ true → is_aborted_state m.state ≡ true
  pub cancelled : m.sink_cancelled ≡ true → is_terminal m.state ≡ true
  pub sealing_empty : is_sealing m.state ≡ true → m.slots ≡ []
  pub sealing_at : is_sealing m.state ≡ true → m.next_emit ≡ m.sealed_frame_count
  pub sealed_empty : is_sealed_state m.state ≡ true → m.allocated ≡ 0
  pub sealed_at : is_sealed_state m.state ≡ true → m.delivered ≡ m.sealed_frame_count
  -- The count that a mirror is sealed at is the declared one, if there is one, and not 0.
  pub sealed_some :
      is_aborted_state m.state ≡ false → is_terminal m.state ≡ true → 0 < m.sealed_frame_count
  pub sealing_some : is_sealing m.state ≡ true → 0 < m.sealed_frame_count
  pub sealing_declared :
      is_sealing m.state ≡ true
      → (m.frame_count == 0) ≡ false
      → m.sealed_frame_count ≡ m.frame_count
  pub sealed_declared :
      is_sealed_state m.state ≡ true
      → (m.frame_count == 0) ≡ false
      → m.sealed_frame_count ≡ m.frame_count

-- A new mirror with at least one slot satisfies the invariant.
pub initial_mirror-Inv :
    (frame_bytes frame_count frame_limit max_slots : ℕ)
    → Inv (initial_mirror frame_bytes frame_count frame_limit max_slots)
unfolding initial_mirror
initial_mirror-Inv frame_bytes frame_count frame_limit max_slots = ground arith
