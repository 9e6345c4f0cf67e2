-- ===== src/Dca/Receiver/Captures.antt =====
-- What a capture of internal/dca/receiver.go comes to, from the configuration that NewReceiver took.
use mmwcli.Base.{◌+◌, ◌≤◌, ◌<◌, ◌≡◌, true, List, ok, arith, pos_part}
use mmwcli.Dca.Receiver.State.{
  ReceiverConfig, check_config, Settings, CaptureStats, OutputWrite, Exit, idle_end, stopped,
  max_int64,
}
use mmwcli.Dca.Receiver.Loop.{Round, receive}
use mmwcli.Dca.Receiver.Accounting.{Disjoint, IsChecked}
use mmwcli.Dca.Receiver.Outcomes.{IsSound, is_finalized}
use mmwcli.Dca.Receiver.Rounds.{receive-Holds}

check_config-IsChecked :
    (config : ReceiverConfig) (settings : Settings)
    → pos_part config.max_output_bytes ≤ max_int64
    → check_config config ≡ ok settings
    → IsChecked settings × (settings.max_output_bytes ≤ pos_part config.max_output_bytes)
unfolding check_config
check_config-IsChecked config settings fits h = ground arith

module _ (config : ReceiverConfig) (settings : Settings) (rounds : List Round)
    {stats : CaptureStats} {writes : List OutputWrite} {e : Exit}
    (fits : pos_part config.max_output_bytes ≤ max_int64)
    (checked : check_config config ≡ ok settings)
    (end : receive settings rounds ≡ stopped stats writes e) where
  sound : IsSound settings stats writes e
  sound =
      rw end at
        (receive-Holds settings rounds (check_config-IsChecked config settings fits checked).0)

  -- From a configuration that passes the tests of NewReceiver, with an int64 as its bound: however a
  -- capture went and ended, no two of its calls of WriteAt were given a common byte of the output; the
  -- calls that failed or wrote less than they were given count with every byte that they were given.
  pub capture_writes_once : Disjoint writes
  capture_writes_once = sound.once

  -- From a configuration that passes the tests of NewReceiver, with an int64 as its bound: where a
  -- capture ended in a way that makes its statistics final, received and missing bytes add up to the
  -- extent of the output, which is within the bound that the configuration sets.
  pub capture_balanced :
      is_finalized e ≡ true
      → (stats.missing + stats.payload_bytes_received ≡ stats.output_bytes)
        × (stats.output_bytes ≤ pos_part config.max_output_bytes)
  capture_balanced final = (
    sound.balanced final,
    omega (arith, sound.bounded final, (check_config-IsChecked config settings fits checked).1),
  )

  -- From a configuration that passes the tests of NewReceiver, with an int64 as its bound: where a
  -- capture with a positive target ended with no error, its output reaches exactly to the target.
  pub capture_filled :
      e ≡ idle_end
      → 0 < settings.expected_output_bytes
      → stats.output_bytes ≡ settings.expected_output_bytes
  capture_filled idle target = sound.filled (rw idle) target
