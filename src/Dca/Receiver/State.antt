-- ===== src/Dca/Receiver/State.antt =====
-- ReceiverConfig with the tests of NewReceiver, CaptureStats, and the variables of `receive`.
-- Points in time and durations are nanoseconds. A `time.Time` that may be zero is an Option.
use mmwcli.Base.{
  ℕ, ◌-◌, ◌/◌, Bool, true, false, ◌||◌, ◌&&◌, not, List, [], Option, none, ltb, ◌==◌, if◌then◌else◌,
  Result, ok, ◌>>◌, reject_if, ℤ, pos, negsuc, pos_part,
}
use mmwcli.Coverage.{ByteRange, missing_bytes}

abbrev pub max_int64 : ℕ
max_int64 = 9223372036854775807

abbrev pub max_tracked_output_ranges : ℕ
max_tracked_output_ranges = 4096

-- The two flags say that the addresses pass `requireIPv4`, which stands on the package net.
pub record ReceiverConfig : Type 0 where
  pub data_bind_address_valid : Bool
  pub device_ip_valid : Bool
  pub data_bind_port : ℤ
  pub first_packet_timeout : ℤ
  pub idle_timeout : ℤ
  pub receive_buffer_bytes : ℤ
  pub max_output_bytes : ℤ
  pub expected_output_bytes : ℤ
  pub cadence_frame_bytes : ℤ
  pub cadence_frame_period : ℤ

pub data ConfigError : Type 0 where
  bind_address device_address bind_port first_timeout idle receive_buffer : ConfigError
  max_output expected_negative expected_exceeds_max : ConfigError
  cadence_pair cadence_bytes cadence_period cadence_unbounded cadence_overflow : ConfigError

-- The numbers that the loop reads, behind NewReceiver.
pub record Settings : Type 0 where
  pub first_packet_timeout : ℕ
  pub idle_timeout : ℕ
  pub max_output_bytes : ℕ
  pub expected_output_bytes : ℕ
  pub cadence_frame_bytes : ℕ
  pub cadence_frame_period : ℕ

abbrev pub is_negative : ℤ → Bool
is_negative (pos _) = false
is_negative (negsuc _) = true

abbrev pub is_zero : ℤ → Bool
is_zero (pos n) = n == 0
is_zero (negsuc _) = false

abbrev pub is_positive : ℤ → Bool
is_positive x = not (is_negative x || is_zero x)

abbrev pub differ : Bool → Bool → Bool
differ true b = not b
differ false b = b

-- The tests of the cadence; what is divided by is positive where it is read.
unfoldable pub check_cadence : ReceiverConfig → Result ConfigError (Unit {0})
check_cadence config = do
  reject_if (differ (is_zero config.cadence_frame_bytes) (is_zero config.cadence_frame_period))
      cadence_pair
  reject_if (is_negative config.cadence_frame_bytes) cadence_bytes
  reject_if (is_negative config.cadence_frame_period) cadence_period
  reject_if
      (is_positive config.cadence_frame_bytes && not (is_positive config.expected_output_bytes))
      cadence_unbounded
  reject_if
      (is_positive config.cadence_frame_bytes
        && ltb (max_int64 / pos_part config.cadence_frame_period)
            ((pos_part config.expected_output_bytes - 1) / pos_part config.cadence_frame_bytes))
      cadence_overflow

-- The tests of NewReceiver in front of the socket; a positive target becomes the output's bound.
unfoldable pub check_config : ReceiverConfig → Result ConfigError Settings
check_config config = do
  reject_if (not config.data_bind_address_valid) bind_address
  reject_if (not config.device_ip_valid) device_address
  reject_if (is_negative config.data_bind_port || ltb 65535 (pos_part config.data_bind_port))
      bind_port
  reject_if (not (is_positive config.first_packet_timeout)) first_timeout
  reject_if (not (is_positive config.idle_timeout)) idle
  reject_if (is_negative config.receive_buffer_bytes) receive_buffer
  reject_if (not (is_positive config.max_output_bytes)) max_output
  reject_if (is_negative config.expected_output_bytes) expected_negative
  reject_if (ltb (pos_part config.max_output_bytes) (pos_part config.expected_output_bytes))
      expected_exceeds_max
  check_cadence config
  ok (record {
    first_packet_timeout = pos_part config.first_packet_timeout;
    idle_timeout = pos_part config.idle_timeout;
    max_output_bytes =
        if is_positive config.expected_output_bytes
        then pos_part config.expected_output_bytes
        else pos_part config.max_output_bytes;
    expected_output_bytes = pos_part config.expected_output_bytes;
    cadence_frame_bytes = pos_part config.cadence_frame_bytes;
    cadence_frame_period = pos_part config.cadence_frame_period;
  })

pub record CaptureStats : Type 0 where
  pub packets_received : ℕ
  pub payload_bytes_received : ℕ
  pub output_bytes : ℕ
  pub sequence_gaps : ℕ
  pub out_of_order_packets : ℕ
  pub missing : ℕ  -- MissingBytes
  pub discarded_before_base_packets : ℕ
  pub ignored_source_packets : ℕ
  pub malformed_packets : ℕ
  pub overlapping_packets : ℕ
  pub base_byte_offset : ℕ
  pub first_packet_at : Option ℕ
  pub last_packet_at : Option ℕ
  pub earliest_implied_start_at : Option ℤ
  pub cadence_anchor_at : Option ℕ
  pub cadence_anchor_end_offset : ℕ
  pub cadence_anchor_frame : ℕ

abbrev pub empty_stats : CaptureStats
empty_stats = record {
  packets_received = 0;
  payload_bytes_received = 0;
  output_bytes = 0;
  sequence_gaps = 0;
  out_of_order_packets = 0;
  missing = 0;
  discarded_before_base_packets = 0;
  ignored_source_packets = 0;
  malformed_packets = 0;
  overlapping_packets = 0;
  base_byte_offset = 0;
  first_packet_at = none;
  last_packet_at = none;
  earliest_implied_start_at = none;
  cadence_anchor_at = none;
  cadence_anchor_end_offset = 0;
  cadence_anchor_frame = 0;
}

-- A call of `output.WriteAt`, with the bytes and the offset that it was given.
pub record OutputWrite : Type 0 where
  pub offset : ℕ
  pub payload : List ℕ

-- The variables of `receive`. The base is none while `baseSet` is false, and so for the sequence.
-- `writes` are all calls of WriteAt so far, the newest first, those that fail or fall short included.
-- The statistics that publishStats hands
-- to the other goroutines at the end of a round are `stats`.
pub record LoopState : Type 0 where
  pub stats : CaptureStats
  pub ranges : List ByteRange
  pub base : Option ℕ
  pub highest : ℕ  -- highestOutputOffset
  pub last_sequence : Option ℕ
  pub expected_span_reached : Bool
  pub first_packet_deadline : Option ℕ
  pub writes : List OutputWrite

abbrev pub initial_loop : LoopState
initial_loop = record {
  stats = empty_stats;
  ranges = [];
  base = none;
  highest = 0;
  last_sequence = none;
  expected_span_reached = false;
  first_packet_deadline = none;
  writes = [];
}

-- The uint64 sum of the holes is at most the extent, so it does not wrap (see Coverage.Missing).
unfoldable pub finalize_stats : LoopState → CaptureStats
finalize_stats s = record s.stats {
  output_bytes = s.highest;
  missing = missing_bytes s.ranges s.highest;
}

-- How the loop ended. `idle_end` is the end with no error.
pub data Exit : Type 0 where
  context_done first_packet_timed_out idle_end receiver_closed deadline_failed read_failed : Exit
  offset_limit end_limit output_limit overlapped too_sparse write_failed short_write : Exit

pub data Outcome : Type 0 where
  running : LoopState → Outcome
  stopped : CaptureStats → List OutputWrite → Exit → Outcome
