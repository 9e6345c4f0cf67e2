-- ===== src/Dca/Receiver/Examples.antt =====
-- A capture of one datagram with four bytes.
use mmwcli.Base.{
  ℕ, ◌+◌, ◌≤◌, ◌≡◌, refl, true, false, List, [], ◌∷◌, none, some, ok, pos, le_value, arith,
  pos_part, ◌-ℤ◌, int64_of,
}
use mmwcli.Coverage.{
  absorb, add_range, extend, preflight_range_addition, resulting_count, missing_bytes, missing_from,
}
use mmwcli.Dca.Protocol.{parse_data_packet, offset_loop}
use mmwcli.Dca.Receiver.State.{
  ReceiverConfig, check_config, check_cadence, Settings, CaptureStats, empty_stats, OutputWrite,
  finalize_stats, idle_end, stopped,
}
use mmwcli.Dca.Receiver.Packet.{
  track_sequence, track_cadence, count_packet, store_packet, write_packet, place_packet, accept_at,
  set_base, accept_packet,
}
use mmwcli.Dca.Receiver.Loop.{
  Round, is_set, datagram, open_first_window, phase_deadline, take_read, take_deadline,
  receive_round, receive_rounds, receive,
}
use mmwcli.Dca.Receiver.Accounting.{Disjoint}
use mmwcli.Dca.Receiver.Captures.{capture_writes_once, capture_balanced, capture_filled}

abbrev first_datagram : List ℕ
first_datagram = 1 ∷ 0 ∷ 0 ∷ 0 ∷ 0 ∷ 0 ∷ 0 ∷ 0 ∷ 0 ∷ 0 ∷ 5 ∷ 6 ∷ 7 ∷ 8 ∷ []

abbrev small_config : ReceiverConfig
small_config = record {
  data_bind_address_valid = true;
  device_ip_valid = true;
  data_bind_port = pos 4098;
  first_packet_timeout = pos 100;
  idle_timeout = pos 10;
  receive_buffer_bytes = pos 0;
  max_output_bytes = pos 1000;
  expected_output_bytes = pos 4;
  cadence_frame_bytes = pos 2;
  cadence_frame_period = pos 5;
}

abbrev small_settings : Settings
small_settings = record {
  first_packet_timeout = 100;
  idle_timeout = 10;
  max_output_bytes = 4;
  expected_output_bytes = 4;
  cadence_frame_bytes = 2;
  cadence_frame_period = 5;
}

small_config-checked : check_config small_config ≡ ok small_settings
unfolding check_config check_cadence
small_config-checked = refl

abbrev small_rounds : List Round
small_rounds =
    record {
      context_error = false;
      now = 0;
      first_wait = none;
      deadline = is_set;
      read = datagram true first_datagram 20 (record { written = pos 4; failed = false });
    }
    ∷ record {
      context_error = false;
      now = 40;
      first_wait = none;
      deadline = is_set;
      read = datagram false [] 50 (record { written = pos 0; failed = false });
    }
    ∷ []

abbrev small_stats : CaptureStats
small_stats = record empty_stats {
  packets_received = 1;
  payload_bytes_received = 4;
  output_bytes = 4;
  first_packet_at = some 20;
  last_packet_at = some 20;
  earliest_implied_start_at = some (pos 15);
  cadence_anchor_at = some 20;
  cadence_anchor_end_offset = 4;
  cadence_anchor_frame = 1;
}

abbrev small_writes : List OutputWrite
small_writes = record { offset = 0; payload = 5 ∷ 6 ∷ 7 ∷ 8 ∷ [] } ∷ []

small_capture : receive small_settings small_rounds ≡ stopped small_stats small_writes idle_end
unfolding receive receive_rounds receive_round open_first_window phase_deadline take_read
    take_deadline parse_data_packet offset_loop le_value accept_packet set_base accept_at
    place_packet preflight_range_addition resulting_count write_packet store_packet add_range absorb
    extend track_sequence count_packet track_cadence finalize_stats missing_bytes missing_from ◌-ℤ◌
    int64_of
small_capture = refl

capture_writes_once_example : Disjoint small_writes
capture_writes_once_example =
    capture_writes_once small_config small_settings small_rounds (omega arith) small_config-checked
      small_capture

capture_balanced_example :
    (small_stats.missing + small_stats.payload_bytes_received ≡ small_stats.output_bytes)
    × (small_stats.output_bytes ≤ pos_part small_config.max_output_bytes)
capture_balanced_example =
    capture_balanced small_config small_settings small_rounds (omega arith) small_config-checked
      small_capture refl

capture_filled_example : small_stats.output_bytes ≡ small_settings.expected_output_bytes
capture_filled_example =
    capture_filled small_config small_settings small_rounds (omega arith) small_config-checked
      small_capture refl (omega arith)
