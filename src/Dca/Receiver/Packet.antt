-- ===== src/Dca/Receiver/Packet.antt =====
-- What `receive` of internal/dca/receiver.go does with a datagram of the device that parsed.
use mmwcli.Base.{
  ℕ, ◌+◌, ◌-◌, ◌*◌, ◌/◌, ◌%◌, Bool, true, false, ◌||◌, ◌&&◌, not, List, ◌∷◌, Option, none, some,
  ltb, ◌==◌, if◌then◌else◌, ok, err, ℤ, pos, negsuc, length, ◌-ℤ◌, int64_of, ltb_ℤ,
}
use mmwcli.Coverage.{
  ByteRange, RangeError, overlap, sparse_limit, add_range, preflight_range_addition,
}
use mmwcli.Dca.Protocol.{DataPacket}
use mmwcli.Dca.Receiver.State.{
  Settings, CaptureStats, OutputWrite, LoopState, finalize_stats, Outcome, running, stopped,
  max_int64, max_tracked_output_ranges, offset_limit, end_limit, output_limit, overlapped,
  too_sparse, write_failed, short_write,
}

abbrev pub u32 : ℕ → ℕ
u32 n = n % 4294967296

abbrev pub u64 : ℕ → ℕ
u64 n = n % 18446744073709551616

-- What `output.WriteAt` answers.
pub record OutputAnswer : Type 0 where
  pub written : ℤ
  pub failed : Bool

-- The sequence numbers are uint32, and so is their difference.
unfoldable pub track_sequence : LoopState → ℕ → LoopState
track_sequence s sequence = elim s.last_sequence [
  | none ↦ record s { last_sequence = some sequence }
  | some last ↦
      let expected : ℕ = u32 (last + 1) in
      let delta : ℕ = u32 (sequence + 4294967296 - expected) in
      if sequence == expected
      then record s { last_sequence = some sequence }
      else if ltb delta 0x80000000
      then record s {
        last_sequence = some sequence;
        stats = record s.stats { sequence_gaps = u64 (s.stats.sequence_gaps + delta) };
      }
      else record s {
        stats = record s.stats { out_of_order_packets = u64 (s.stats.out_of_order_packets + 1) };
      }
]

-- `EarliestImpliedStartAt.IsZero() || impliedStart.Before(EarliestImpliedStartAt)`.
abbrev pub is_earlier : ℤ → Option ℤ → Bool
is_earlier implied none = true
is_earlier implied (some earliest) = ltb_ℤ implied earliest

unfoldable pub track_cadence : Settings → CaptureStats → ℕ → ℕ → CaptureStats
track_cadence settings stats packet_end received_at =
    let frame : ℕ = (packet_end - 1) / settings.cadence_frame_bytes in
    let implied : ℤ = pos received_at -ℤ int64_of (u64 (frame * settings.cadence_frame_period)) in
    if ltb 0 settings.cadence_frame_bytes && is_earlier implied stats.earliest_implied_start_at
    then record stats {
      earliest_implied_start_at = some implied;
      cadence_anchor_at = some received_at;
      cadence_anchor_end_offset = packet_end;
      cadence_anchor_frame = frame;
    }
    else stats

abbrev pub or_first : Option ℕ → ℕ → Option ℕ
or_first none at = some at
or_first (some first) at = some first

-- The counters and times behind the write.
unfoldable pub count_packet : Settings → LoopState → ℕ → ℕ → ℕ → LoopState
unfolding track_cadence
count_packet settings s size packet_end received_at =
    let counted = record s.stats {
      packets_received = u64 (s.stats.packets_received + 1);
      payload_bytes_received = u64 (s.stats.payload_bytes_received + size);
      first_packet_at = or_first s.stats.first_packet_at received_at;
    } in
    record s {
      stats = record (track_cadence settings counted packet_end received_at) {
        last_packet_at = some received_at;
        output_bytes = s.highest;
      };
      expected_span_reached =
          s.expected_span_reached
          || (ltb 0 settings.expected_output_bytes && s.highest == settings.expected_output_bytes);
    }

-- The call of WriteAt for a packet, in front of the earlier calls.
abbrev pub with_call : List OutputWrite → ByteRange → List ℕ → List OutputWrite
with_call writes addition payload = record { offset = addition.start; payload = payload } ∷ writes

-- The range list, the extent and the calls behind a write that succeeded.
unfoldable pub store_packet : LoopState → ByteRange → List ℕ → LoopState
store_packet s addition payload = record s {
  ranges = add_range s.ranges addition;
  highest = if ltb s.highest addition.end then addition.end else s.highest;
  writes = with_call s.writes addition payload;
}

abbrev pub is_full : ℤ → ℕ → Bool
is_full (negsuc _) size = false
is_full (pos n) size = n == size

-- The write to the output, behind the preflight; the call is kept however it ends.
unfoldable pub write_packet :
    Settings → LoopState → DataPacket → ByteRange → ℕ → OutputAnswer → Outcome
write_packet settings s packet addition received_at answer =
    if answer.failed
    then stopped s.stats (with_call s.writes addition packet.payload) write_failed
    else if not (is_full answer.written (length packet.payload))
    then stopped s.stats (with_call s.writes addition packet.payload) short_write
    else running (
        count_packet settings
          (track_sequence (store_packet s addition packet.payload) packet.sequence)
          (length packet.payload) addition.end received_at)

unfoldable pub count_overlap : LoopState → LoopState
count_overlap s = record s {
  stats = record s.stats { overlapping_packets = u64 (s.stats.overlapping_packets + 1) };
}

-- What a failed preflight leads to.
unfoldable pub refuse_range : LoopState → RangeError → Outcome
refuse_range s overlap = stopped (finalize_stats (count_overlap s)) s.writes overlapped
refuse_range s sparse_limit = stopped (finalize_stats s) s.writes too_sparse

unfoldable pub place_packet :
    Settings → LoopState → DataPacket → ByteRange → ℕ → OutputAnswer → Outcome
place_packet settings s packet addition received_at answer =
    elim (preflight_range_addition max_tracked_output_ranges s.ranges addition) [
      | err e ↦ refuse_range s e
      | ok _ ↦ write_packet settings s packet addition received_at answer
    ]

-- Behind the tests on the base, at the offset relative to it.
unfoldable pub accept_at : Settings → LoopState → DataPacket → ℕ → ℕ → OutputAnswer → Outcome
accept_at settings s packet relative received_at answer =
    if ltb max_int64 relative
    then stopped s.stats s.writes offset_limit
    else if ltb (max_int64 - relative) (length packet.payload)
    then stopped s.stats s.writes end_limit
    else if ltb settings.max_output_bytes (relative + length packet.payload)
    then stopped s.stats s.writes output_limit
    else place_packet settings s packet
        (record { start = relative; end = relative + length packet.payload }) received_at answer

-- The first packet sets the base.
unfoldable pub set_base : LoopState → ℕ → LoopState
set_base s byte_offset = elim s.base [
  | none ↦ record s {
    base = some byte_offset;
    stats = record s.stats { base_byte_offset = byte_offset };
  }
  | some _ ↦ s
]

abbrev pub base_or : Option ℕ → ℕ → ℕ
base_or none byte_offset = byte_offset
base_or (some base) byte_offset = base

unfoldable pub discard_packet : LoopState → LoopState
discard_packet s = record s {
  stats = record s.stats {
    out_of_order_packets = u64 (s.stats.out_of_order_packets + 1);
    discarded_before_base_packets = u64 (s.stats.discarded_before_base_packets + 1);
  };
}

unfoldable pub accept_packet : Settings → LoopState → DataPacket → ℕ → OutputAnswer → Outcome
accept_packet settings s packet received_at answer =
    let based = set_base s packet.byte_offset in
    let base : ℕ = base_or s.base packet.byte_offset in
    if ltb packet.byte_offset base
    then running (discard_packet based)
    else accept_at settings based packet (packet.byte_offset - base) received_at answer
