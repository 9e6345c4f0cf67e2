-- ===== src/Dca/Receiver/Rounds.antt =====
-- Every round of the receiver keeps its account, and every end of it is sound.
use mmwcli.Base.{
  ℕ, ◌<◌, ◌≡◌, refl, true, false, List, [], ◌∷◌, arith, Bool-cases, Result-cases, inl, inr,
}
use mmwcli.Dca.Protocol.{parse_data_packet}
use mmwcli.Dca.Receiver.State.{
  Settings, LoopState, initial_loop, Outcome, running, stopped, context_done, receiver_closed,
  deadline_failed, read_failed,
}
use mmwcli.Dca.Receiver.Loop.{
  Round, ReadAnswer, DeadlineAnswer, fault, datagram, is_set, is_closed, has_failed,
  open_first_window, has_passed, is_none, phase_deadline, ignore_source, count_malformed, take_read,
  take_deadline, receive_round, receive_rounds, receive, socket_closed, timed_out, other_fault,
}
use mmwcli.Dca.Receiver.Accounting.{IsAccounted, IsChecked, initial_loop-IsAccounted}
use mmwcli.Dca.Receiver.Outcomes.{
  Holds, finalize_stats-IsSound, unfinal-IsSound, IsAccounted-same, payload_nonempty, idle_some,
  accept_packet-Holds,
}

module _ (settings : Settings) (checked : IsChecked settings) where
  take_read-Holds :
      (s : LoopState) (answer : ReadAnswer)
      → IsAccounted settings s
      → Holds settings (take_read settings s answer)
  unfolding take_read ignore_source count_malformed
  take_read-Holds s (fault true kind) h = finalize_stats-IsSound settings s context_done (λ i. cc) h
  take_read-Holds s (fault false socket_closed) h =
      finalize_stats-IsSound settings s receiver_closed (λ i. cc) h
  take_read-Holds s (fault false timed_out) h = h
  take_read-Holds s (fault false other_fault) h = unfinal-IsSound settings s read_failed refl refl h
  take_read-Holds s (datagram false bytes at answer) h =
      IsAccounted-same settings s (ignore_source s) refl refl refl refl refl refl h
  take_read-Holds s (datagram true bytes at answer) h =
      elim (Result-cases (parse_data_packet bytes)) [
        | inl (packet, p) ↦
            rw (p, take_read)
              (accept_packet-Holds settings checked s packet at answer (payload_nonempty bytes p) h)
        | inr (e, p) ↦
            rw (p, take_read)
              (IsAccounted-same settings s (count_malformed s) refl refl refl refl refl refl h)
      ]

  take_deadline-Holds :
      (s : LoopState) (deadline : DeadlineAnswer) (answer : ReadAnswer)
      → IsAccounted settings s
      → Holds settings (take_deadline settings s deadline answer)
  unfolding take_deadline
  take_deadline-Holds s is_set answer h = take_read-Holds s answer h
  take_deadline-Holds s is_closed answer h =
      finalize_stats-IsSound settings s receiver_closed (λ i. cc) h
  take_deadline-Holds s has_failed answer h = unfinal-IsSound settings s deadline_failed refl refl h

  -- Once the phase is over behind the first packet, a target was reached.
  phase_filled :
      (s : LoopState) (now : ℕ)
      → is_none s.stats.first_packet_at ≡ false
      → has_passed (phase_deadline settings s) now ≡ true
      → 0 < settings.expected_output_bytes
      → IsAccounted settings s
      → s.highest ≡ settings.expected_output_bytes
  unfolding phase_deadline
  phase_filled s now some_packet over target h = ground (arith, h.spanned, checked.target target)

  receive_round-Holds :
      (s : LoopState) (round : Round)
      → IsAccounted settings s
      → Holds settings (receive_round settings s round)
  unfolding receive_round
  receive_round-Holds s round h =
      let t = open_first_window settings s round.first_wait in
      let k : IsAccounted settings t =
        unfold open_first_window in IsAccounted-same settings s t refl refl refl refl refl refl h in
      elim (Bool-cases round.context_error) [
        | inl done ↦ rw done (finalize_stats-IsSound settings s context_done (λ i. cc) h)
        | inr go ↦ rw go (elim (Bool-cases (has_passed (phase_deadline settings t) round.now)) [
          | inl over ↦ rw over (
              finalize_stats-IsSound settings t _
                (λ i target. phase_filled t round.now (idle_some t i) over target k) k)
          | inr open_still ↦ rw open_still (take_deadline-Holds t round.deadline round.read k)
        ])
      ]

  receive_rounds-Holds :
      (outcome : Outcome) (rounds : List Round)
      → Holds settings outcome
      → Holds settings (receive_rounds settings outcome rounds)
  unfolding receive_rounds
  receive_rounds-Holds outcome [] h = h
  receive_rounds-Holds (running s) (round ∷ rounds) h =
      receive_rounds-Holds (receive_round settings s round) rounds (receive_round-Holds s round h)
  receive_rounds-Holds (stopped stats writes e) (round ∷ rounds) h = h

-- Under a checked configuration, and whatever the context, the clock, the socket and the output
-- answer: while the receiver runs its account is right, and when it has stopped no two calls of WriteAt
-- have a common byte, final statistics balance and stay within the bound, and a capture that ended with
-- no error reached its target, if it had one.
pub receive-Holds :
    (settings : Settings) (rounds : List Round)
    → IsChecked settings
    → Holds settings (receive settings rounds)
unfolding receive
receive-Holds settings rounds checked =
    receive_rounds-Holds settings checked (running initial_loop) rounds
      (initial_loop-IsAccounted settings)
