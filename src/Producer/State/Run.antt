-- ===== src/Producer/State/Run.antt =====
-- Runs of the states of internal/sensorproducer/state.go, and what they look like while no failure is noted.
use mmwcli.Base.{
  ℕ, ◌+◌, ◌<◌, ◌≡◌, true, List, [], ◌∷◌, Option, none, some, ◌==◌, length, if◌then◌else◌, ◌⊎◌,
}
use mmwcli.Producer.Protocol.{
  Command, ready, arm, start, stop, cancel, Control, Record, ack_frame, session_frame, item_frame,
  end_frame, eof_frame, ProducerFault, GoLibrary,
}
use mmwcli.Producer.State.{
  Phase, init_phase, ready_phase, armed_phase, started_phase, streaming_phase, stopped_phase,
  canceled_phase, ended_phase, failed_phase, eof_phase, complete_phase, State, command_allowed,
  prepare, accept_transport_eof, accept,
}

-- A state with what was accepted on the way to it, the newest first: the commands that the producer
-- acknowledged and the types of the data frames. `failures` counts the errors that Accept and
-- AcceptTransportEOF returned.
pub record Run : Type 0 where
  pub state : State
  pub acked : List Command
  pub frames : List ℕ
  pub failures : ℕ

-- Something happens: a command is prepared, a frame arrives or the transport ends.
pub data Event : Type 0 where
  command_sent : Command → Event
  frame_arrived : Record → Event
  transport_ended : Event

abbrev pub pending_command : Option Control → List Command → List Command
pending_command none acked = acked
pending_command (some control) acked = control.command ∷ acked

-- What Accept answered is noted.
unfoldable pub note_frame : Run → Record → State × Option ProducerFault → Run
note_frame run frame (state, some e) = record run { state = state; failures = run.failures + 1 }
note_frame run frame (state, none) =
    if frame.kind == ack_frame
    then record run { state = state; acked = pending_command run.state.pending run.acked }
    else record run { state = state; frames = frame.kind ∷ run.frames }

unfoldable pub note_end : Run → State × Option ProducerFault → Run
note_end run (state, some e) = record run { state = state; failures = run.failures + 1 }
note_end run (state, none) = record run { state = state }

unfoldable pub first_run : State → Run
first_run state = record { state = state; acked = []; frames = []; failures = 0 }

module _ (go : GoLibrary) where
  unfoldable pub observe : Run → Event → Run
  unfolding note_frame note_end prepare accept accept_transport_eof
  observe run (command_sent command) = record run { state = (prepare run.state command).0 }
  observe run (frame_arrived frame) = note_frame run frame (accept go run.state frame)
  observe run transport_ended = note_end run (accept_transport_eof run.state)

  unfoldable pub observe_all : Run → List Event → Run
  unfolding observe
  observe_all run [] = run
  observe_all run (event ∷ events) = observe_all (observe run event) events

-- Nothing, or a session frame and items behind it.
abbrev pub IsBody : List ℕ → Type 0
IsBody [] = Unit {0}
IsBody (kind ∷ []) = kind ≡ session_frame
IsBody (kind ∷ (below ∷ rest)) = (kind ≡ item_frame) × IsBody (below ∷ rest)

-- The data frames of a producer that was stopped and reported its end.
abbrev pub IsEnded : List ℕ → Type 0
IsEnded [] = ⊥
IsEnded (kind ∷ rest) = (kind ≡ end_frame) × IsBody rest

abbrev pub IsHandshake : List Command → Type 0
IsHandshake [] = Unit {0}
IsHandshake (ready ∷ rest) = rest ≡ []
IsHandshake (arm ∷ rest) = rest ≡ ready ∷ []
IsHandshake (start ∷ rest) = rest ≡ arm ∷ (ready ∷ [])
IsHandshake (_ ∷ rest) = ⊥

abbrev pub IsStopped : List Command → Type 0
IsStopped acked = acked ≡ stop ∷ (start ∷ (arm ∷ (ready ∷ [])))

abbrev pub IsCanceled : List Command → Type 0
IsCanceled [] = ⊥
IsCanceled (command ∷ rest) = (command ≡ cancel) × IsHandshake rest

-- Either all four commands were acknowledged and the data is a session with its items, an end and the
-- explicit EOF; or a cancel was acknowledged behind some of READY, ARM and START, and the EOF follows the
-- session's items with no end.
abbrev pub IsClosed : List Command → List ℕ → Type 0
IsClosed acked [] = ⊥
IsClosed acked (kind ∷ rest) =
    (kind ≡ eof_frame) × ((IsStopped acked × IsEnded rest) ⊎ (IsCanceled acked × IsBody rest))

-- What the phase says of the run, while no failure is noted.
abbrev pub HasShape : Phase → List Command → List ℕ → Type 0
HasShape init_phase acked frames = (acked ≡ []) × (frames ≡ [])
HasShape ready_phase acked frames = (acked ≡ ready ∷ []) × (frames ≡ [])
HasShape armed_phase acked frames = (acked ≡ arm ∷ (ready ∷ [])) × (frames ≡ [])
HasShape started_phase acked frames = (acked ≡ start ∷ (arm ∷ (ready ∷ []))) × (frames ≡ [])
HasShape streaming_phase acked frames =
    (acked ≡ start ∷ (arm ∷ (ready ∷ []))) × IsBody frames × (0 < length frames)
HasShape stopped_phase acked frames = IsStopped acked × IsBody frames
HasShape canceled_phase acked frames = IsCanceled acked × IsBody frames
HasShape ended_phase acked frames = IsStopped acked × IsEnded frames
HasShape failed_phase acked frames = ⊥
HasShape eof_phase acked frames = IsClosed acked frames
HasShape complete_phase acked frames = IsClosed acked frames

abbrev pub IsAllowed : Phase → Option Control → Type 0
IsAllowed phase none = Unit {0}
IsAllowed phase (some control) = command_allowed phase control.command ≡ true

abbrev pub IsClean : State → List Command → List ℕ → ℕ → Type 0
IsClean state acked frames failures =
    HasShape state.phase acked frames
    × IsAllowed state.phase state.pending
    × (state.last_data ≡ length frames)
    × (failures ≡ 0)

-- The shape behind an acknowledgement.
abbrev pub ShapeAt : Option Phase → List Command → List ℕ → Type 0
ShapeAt none acked frames = Unit {0}
ShapeAt (some phase) acked frames = HasShape phase acked frames

-- The invariant: clean, or a cause is kept.
abbrev pub IsCleanUnless : Option ProducerFault → State → List Command → List ℕ → ℕ → Type 0
IsCleanUnless none state acked frames failures = IsClean state acked frames failures
IsCleanUnless (some e) state acked frames failures = Unit {0}

abbrev pub IsSoFar : Run → Type 0
IsSoFar run = IsCleanUnless run.state.cause run.state run.acked run.frames run.failures

-- The same of the answer to a frame that was clean before.
abbrev pub IsAnswered : State × Option ProducerFault → List Command → List ℕ → Type 0
IsAnswered (state, none) acked frames = IsCleanUnless state.cause state acked frames 0
IsAnswered (state, some e) acked frames = (e' : ProducerFault) × (state.cause ≡ some e')
