-- ===== src/Dca/Receiver/Loop.antt =====
-- The rounds of `receive` of internal/dca/receiver.go. What the context, the clock, the socket and the
-- output answer in a round is given with the round.
use mmwcli.Base.{
  ℕ, ◌+◌, Bool, true, false, ◌||◌, List, [], ◌∷◌, Option, none, some, leb, ◌==◌, if◌then◌else◌, ok,
  err,
}
use mmwcli.Dca.Protocol.{parse_data_packet}
use mmwcli.Dca.Receiver.State.{
  Settings, LoopState, initial_loop, finalize_stats, Exit, Outcome, running, stopped, context_done,
  first_packet_timed_out, idle_end, receiver_closed, deadline_failed, read_failed,
}
use mmwcli.Dca.Receiver.Packet.{OutputAnswer, accept_packet, u64}

pub data ReadFault : Type 0 where
  socket_closed timed_out other_fault : ReadFault

-- What SetReadDeadline answers.
pub data DeadlineAnswer : Type 0 where
  is_set is_closed has_failed : DeadlineAnswer

-- What ReadFromUDP answers: an error, with whether the context is done by then, or a datagram, with
-- whether it came from the device, the time behind it, and what the output will answer.
pub data ReadAnswer : Type 0 where
  fault : Bool → ReadFault → ReadAnswer
  datagram : Bool → List ℕ → ℕ → OutputAnswer → ReadAnswer

-- `first_wait` is the time in the channel `firstWait`, if it is ready.
pub record Round : Type 0 where
  pub context_error : Bool
  pub now : ℕ
  pub first_wait : Option ℕ
  pub deadline : DeadlineAnswer
  pub read : ReadAnswer

abbrev pub stop_finalized : LoopState → Exit → Outcome
stop_finalized s e = stopped (finalize_stats s) s.writes e

abbrev pub pick_deadline : Option ℕ → Option ℕ → Option ℕ → ℕ → Option ℕ
pick_deadline none none (some started) timeout = some (started + timeout)
pick_deadline deadline _ _ timeout = deadline

-- The deadline of the first packet, once a caller waits for it.
unfoldable pub open_first_window : Settings → LoopState → Option ℕ → LoopState
open_first_window settings s wait = record s {
  first_packet_deadline =
      pick_deadline s.first_packet_deadline s.stats.first_packet_at wait
        settings.first_packet_timeout;
}

abbrev pub add_idle : Option ℕ → ℕ → Option ℕ
add_idle none idle = none
add_idle (some last) idle = some (last + idle)

-- The deadline of the phase that the capture is in, if it has one.
unfoldable pub phase_deadline : Settings → LoopState → Option ℕ
phase_deadline settings s = elim s.stats.first_packet_at [
  | none ↦ s.first_packet_deadline
  | some _ ↦
      if settings.expected_output_bytes == 0 || s.expected_span_reached
      then add_idle s.stats.last_packet_at settings.idle_timeout
      else none
]

abbrev pub has_passed : Option ℕ → ℕ → Bool
has_passed none now = false
has_passed (some deadline) now = leb deadline now

abbrev pub is_none {ℓ} : {A : Type ℓ} → Option A → Bool
is_none none = true
is_none (some _) = false

unfoldable pub ignore_source : LoopState → LoopState
ignore_source s = record s {
  stats = record s.stats { ignored_source_packets = u64 (s.stats.ignored_source_packets + 1) };
}

unfoldable pub count_malformed : LoopState → LoopState
count_malformed s = record s {
  stats = record s.stats { malformed_packets = u64 (s.stats.malformed_packets + 1) };
}

-- Behind ReadFromUDP.
unfoldable pub take_read : Settings → LoopState → ReadAnswer → Outcome
take_read settings s (fault true kind) = stop_finalized s context_done
take_read settings s (fault false socket_closed) = stop_finalized s receiver_closed
take_read settings s (fault false timed_out) = running s
take_read settings s (fault false other_fault) = stopped s.stats s.writes read_failed
take_read settings s (datagram false bytes received_at answer) = running (ignore_source s)
take_read settings s (datagram true bytes received_at answer) = elim (parse_data_packet bytes) [
  | err _ ↦ running (count_malformed s)
  | ok packet ↦ accept_packet settings s packet received_at answer
]

unfoldable pub take_deadline : Settings → LoopState → DeadlineAnswer → ReadAnswer → Outcome
take_deadline settings s is_set answer = take_read settings s answer
take_deadline settings s is_closed answer = stop_finalized s receiver_closed
take_deadline settings s has_failed answer = stopped s.stats s.writes deadline_failed

-- One round of the loop. The read deadline itself only bounds how long the socket may block.
unfoldable pub receive_round : Settings → LoopState → Round → Outcome
receive_round settings s round =
    let t = open_first_window settings s round.first_wait in
    if round.context_error
    then stop_finalized s context_done
    else if has_passed (phase_deadline settings t) round.now
    then stop_finalized t
        (if is_none t.stats.first_packet_at then first_packet_timed_out else idle_end)
    else take_deadline settings t round.deadline round.read

-- The rounds until the loop ends, or as many as are given.
unfoldable pub receive_rounds : Settings → Outcome → List Round → Outcome
receive_rounds settings outcome [] = outcome
receive_rounds settings (running s) (round ∷ rounds) =
    receive_rounds settings (receive_round settings s round) rounds
receive_rounds settings (stopped stats writes e) (round ∷ rounds) = stopped stats writes e

unfoldable pub receive : Settings → List Round → Outcome
receive settings rounds = receive_rounds settings (running initial_loop) rounds
