-- ===== src/Dca/Receiver/Outcomes.antt =====
-- What holds of every capture, however the rounds went.
use mmwcli.Base.{
  ℕ, ◌+◌, ◌-◌, ◌≤◌, ◌<◌, ◌≡◌, refl, sym, ◌∙◌, ap, Bool, true, false, List, ltb, length, length-drop,
  arith, ok, Bool-cases, Result-cases, Option-cases, inl, inr, if◌then◌else◌,
}
use mmwcli.Coverage.{
  ByteRange, RangeError, overlap, sparse_limit, covered_bytes, preflight_range_addition,
}
use mmwcli.Coverage.Missing.{missing_bytes-covered}
use mmwcli.Dca.Protocol.{DataPacket, parse_data_packet}
use mmwcli.Dca.Receiver.State.{
  Settings, CaptureStats, OutputWrite, LoopState, finalize_stats, Exit, Outcome, running, stopped,
  max_int64, max_tracked_output_ranges, context_done, first_packet_timed_out, idle_end,
  receiver_closed, overlapped, too_sparse, write_failed, short_write, offset_limit, end_limit,
  output_limit,
}
use mmwcli.Dca.Receiver.Packet.{
  OutputAnswer, set_base, discard_packet, write_packet, refuse_range, count_overlap, place_packet,
  accept_at, accept_packet, is_full, base_or, with_call,
}
use mmwcli.Dca.Receiver.Loop.{is_none}
use mmwcli.Dca.Receiver.Accounting.{
  IsAccounted, IsChecked, Disjoint, counted-IsAccounted, stored_once,
}

-- The exits that run finalizeStats.
abbrev pub is_finalized : Exit → Bool
is_finalized context_done = true
is_finalized first_packet_timed_out = true
is_finalized idle_end = true
is_finalized receiver_closed = true
is_finalized overlapped = true
is_finalized too_sparse = true
is_finalized _ = false

abbrev pub is_idle_end : Exit → Bool
is_idle_end idle_end = true
is_idle_end _ = false

-- What the result of a capture satisfies: no two calls of WriteAt touch a common byte; where the
-- statistics are final, received and missing bytes make up the output, which is within its bound;
-- and a capture that ended with no error reached its target, if it had one.
pub record IsSound (settings : Settings) (stats : CaptureStats) (writes : List OutputWrite)
    (e : Exit) : Type 0 where
  pub once : Disjoint writes
  pub balanced :
      is_finalized e ≡ true → stats.missing + stats.payload_bytes_received ≡ stats.output_bytes
  pub bounded : is_finalized e ≡ true → stats.output_bytes ≤ settings.max_output_bytes
  pub filled :
      is_idle_end e ≡ true
      → 0 < settings.expected_output_bytes
      → stats.output_bytes ≡ settings.expected_output_bytes

abbrev pub Holds : Settings → Outcome → Type 0
Holds settings (running s) = IsAccounted settings s
Holds settings (stopped stats writes e) = IsSound settings stats writes e

pub finalize_stats-IsSound :
    (settings : Settings) (s : LoopState) (e : Exit)
    → (is_idle_end e ≡ true
        → 0 < settings.expected_output_bytes
        → s.highest ≡ settings.expected_output_bytes)
    → IsAccounted settings s
    → IsSound settings (finalize_stats s) s.writes e
unfolding finalize_stats
finalize_stats-IsSound settings s e filled h = record {
  once = h.once;
  balanced = λ f. omega (
    arith,
    h.received,
    h.reach,
    missing_bytes-covered s.ranges s.highest h.separated (omega (arith, h.reach)),
  );
  bounded = λ f. h.bounded;
  filled = filled;
}

pub unfinal-IsSound :
    (settings : Settings) (s : LoopState) (e : Exit)
    → is_finalized e ≡ false
    → is_idle_end e ≡ false
    → IsAccounted settings s
    → IsSound settings s.stats s.writes e
unfinal-IsSound settings s e f i h = record {
  once = h.once;
  balanced = λ g. cc (f, g);
  bounded = λ g. cc (f, g);
  filled = λ g. cc (i, g);
}

-- The calls of WriteAt, the last of which failed or was short.
called-IsSound :
    (settings : Settings) (stats : CaptureStats) (writes : List OutputWrite)
    → Disjoint writes
    → (e : Exit) → is_finalized e ≡ false
    → is_idle_end e ≡ false
    → IsSound settings stats writes e
called-IsSound settings stats writes once e f i = record {
  once = once;
  balanced = λ g. cc (f, g);
  bounded = λ g. cc (f, g);
  filled = λ g. cc (i, g);
}

-- A state with the same output, ranges and byte counts.
pub IsAccounted-same :
    (settings : Settings) (s t : LoopState)
    → t.ranges ≡ s.ranges
    → t.highest ≡ s.highest
    → t.writes ≡ s.writes
    → t.expected_span_reached ≡ s.expected_span_reached
    → t.stats.payload_bytes_received ≡ s.stats.payload_bytes_received
    → t.stats.output_bytes ≡ s.stats.output_bytes
    → IsAccounted settings s
    → IsAccounted settings t
IsAccounted-same settings s t r g w p n o h = record {
  separated = rw r h.separated;
  few = rw r h.few;
  reach = rw (g, r) h.reach;
  bounded = rw g h.bounded;
  received = n ∙ (h.received ∙ sym (ap covered_bytes r));
  extended = o ∙ (h.extended ∙ sym g);
  recorded = λ x. rw (r, w) (h.recorded x);
  once = rw w h.once;
  spanned = λ e. g ∙ h.spanned (sym p ∙ e);
}

refuse_range-Holds :
    (settings : Settings) (s : LoopState) (e : RangeError)
    → IsAccounted settings s
    → Holds settings (refuse_range s e)
unfolding refuse_range count_overlap
refuse_range-Holds settings s overlap h =
    finalize_stats-IsSound settings (count_overlap s) overlapped (λ i. cc)
      (IsAccounted-same settings s (count_overlap s) refl refl refl refl refl refl h)
refuse_range-Holds settings s sparse_limit h =
    finalize_stats-IsSound settings s too_sparse (λ i. cc) h

pub payload_nonempty :
    (bytes : List ℕ) {packet : DataPacket}
    → parse_data_packet bytes ≡ ok packet
    → 0 < length packet.payload
unfolding parse_data_packet
payload_nonempty bytes h = ground (arith, length-drop 10 bytes)

pub idle_some :
    (t : LoopState)
    → is_idle_end (if is_none t.stats.first_packet_at then first_packet_timed_out else idle_end)
      ≡ true
    → is_none t.stats.first_packet_at ≡ false
idle_some t i = ground arith

module _ (settings : Settings) (checked : IsChecked settings) where
  write_packet-Holds :
      (s : LoopState) (packet : DataPacket) (addition : ByteRange) (at : ℕ) (answer : OutputAnswer)
      → addition.start < addition.end
      → addition.end ≡ addition.start + length packet.payload
      → addition.end ≤ settings.max_output_bytes
      → preflight_range_addition max_tracked_output_ranges s.ranges addition ≡ ok tt
      → IsAccounted settings s
      → Holds settings (write_packet settings s packet addition at answer)
  unfolding write_packet
  write_packet-Holds s packet addition at answer full size within passed h =
      let once = stored_once settings s addition packet.payload checked h full size within passed in
      let called =
        called-IsSound settings s.stats (with_call s.writes addition packet.payload) once in
      elim (Bool-cases answer.failed) [
        | inl bad ↦ rw bad (called write_failed refl refl)
        | inr good ↦ rw good (elim (Bool-cases (is_full answer.written (length packet.payload))) [
          | inl whole ↦ rw whole (
              counted-IsAccounted settings s addition packet.payload checked h full size within
                passed packet.sequence at)
          | inr part ↦ rw part (called short_write refl refl)
        ])
      ]

  place_packet-Holds :
      (s : LoopState) (packet : DataPacket) (addition : ByteRange) (at : ℕ) (answer : OutputAnswer)
      → addition.start < addition.end
      → addition.end ≡ addition.start + length packet.payload
      → addition.end ≤ settings.max_output_bytes
      → IsAccounted settings s
      → Holds settings (place_packet settings s packet addition at answer)
  unfolding place_packet
  place_packet-Holds s packet addition at answer full size within h =
      elim (Result-cases (preflight_range_addition max_tracked_output_ranges s.ranges addition)) [
        | inl (tt, p) ↦
            rw (p, place_packet)
              (write_packet-Holds s packet addition at answer full size within p h)
        | inr (e, p) ↦ rw (p, place_packet) (refuse_range-Holds settings s e h)
      ]

  accept_at-Holds :
      (s : LoopState) (packet : DataPacket) (relative at : ℕ) (answer : OutputAnswer)
      → 0 < length packet.payload
      → IsAccounted settings s
      → Holds settings (accept_at settings s packet relative at answer)
  unfolding accept_at
  accept_at-Holds s packet relative at answer some_bytes h =
      elim (Bool-cases (ltb max_int64 relative)) [
        | inl far ↦ rw far (unfinal-IsSound settings s offset_limit refl refl h)
        | inr near ↦
            rw near (elim (Bool-cases (ltb (max_int64 - relative) (length packet.payload))) [
              | inl long ↦ rw long (unfinal-IsSound settings s end_limit refl refl h)
              | inr fits ↦
                  rw fits
                    (elim (Bool-cases
                      (ltb settings.max_output_bytes (relative + length packet.payload))) [
                        | inl over ↦ rw over (unfinal-IsSound settings s output_limit refl refl h)
                        | inr under ↦ rw under (
                            place_packet-Holds s packet _ at answer (omega arith) refl
                              (ground arith) h)
                      ])
            ])
      ]

  set_base-IsAccounted :
      (s : LoopState) (byte_offset : ℕ)
      → IsAccounted settings s
      → IsAccounted settings (set_base s byte_offset)
  unfolding set_base
  set_base-IsAccounted s byte_offset h = elim (Option-cases s.base) [
    | inl unset ↦
        IsAccounted-same settings s (set_base s byte_offset) (rw (unset, set_base))
          (rw (unset, set_base)) (rw (unset, set_base)) (rw (unset, set_base))
          (rw (unset, set_base)) (rw (unset, set_base)) h
    | inr (base, old) ↦ rw (old, set_base) h
  ]

  pub accept_packet-Holds :
      (s : LoopState) (packet : DataPacket) (at : ℕ) (answer : OutputAnswer)
      → 0 < length packet.payload
      → IsAccounted settings s
      → Holds settings (accept_packet settings s packet at answer)
  unfolding accept_packet
  accept_packet-Holds s packet at answer some_bytes h =
      let based = set_base s packet.byte_offset in
      let k = set_base-IsAccounted s packet.byte_offset h in
      elim (Bool-cases (ltb packet.byte_offset (base_or s.base packet.byte_offset))) [
        | inl early ↦ rw early (
            unfold discard_packet in
            IsAccounted-same settings based (discard_packet based) refl refl refl refl refl refl k)
        | inr later ↦ rw later (accept_at-Holds based packet _ at answer some_bytes k)
      ]
