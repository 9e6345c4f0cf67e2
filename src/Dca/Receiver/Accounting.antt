-- ===== src/Dca/Receiver/Accounting.antt =====
-- What the statistics, the ranges and the writes of a capture have to do with one another.
use mmwcli.Base.{
  ℕ, ◌+◌, ◌≤◌, ◌<◌, ◌≡◌, refl, sym, ◌∙◌, ap, Bool, true, false, ◌||◌, ◌&&◌, ◌==◌, List, [], ◌∷◌,
  ltb, length, arith, ok, if◌then◌else◌,
}
use mmwcli.Coverage.{
  ByteRange, IsSeparated, covers, covered_bytes, extent, add_range, in_range, meets_any,
  preflight_range_addition,
}
use mmwcli.Coverage.Separated.{add_range-IsSeparated, covers-add_range}
use mmwcli.Coverage.Bytes.{covered_bytes-add_range}
use mmwcli.Coverage.Extent.{extent-add_range, covered_bytes-le}
use mmwcli.Coverage.Admission.{preflight_range_addition_exact}
use mmwcli.Dca.Receiver.State.{
  Settings, OutputWrite, LoopState, initial_loop, max_int64, max_tracked_output_ranges,
}
use mmwcli.Dca.Receiver.Packet.{track_sequence, count_packet, store_packet, u64}

-- The byte at offset `x` of the output was given to one of the calls.
unfoldable pub written : List OutputWrite → ℕ → Bool
written [] x = false
written (w ∷ writes) x =
    in_range (record { start = w.offset; end = w.offset + length w.payload }) x || written writes x

-- No two of the calls share a byte.
abbrev pub Disjoint : List OutputWrite → Type 0
Disjoint [] = Unit {0}
Disjoint (w ∷ writes) =
    ((x : ℕ)
      → (in_range (record { start = w.offset; end = w.offset + length w.payload }) x
          && written writes x)
        ≡ false)
    × Disjoint writes

-- What holds between two rounds.
pub record IsAccounted (settings : Settings) (s : LoopState) : Type 0 where
  pub separated : IsSeparated s.ranges
  pub few : length s.ranges ≤ max_tracked_output_ranges
  pub reach : s.highest ≡ extent 0 s.ranges
  pub bounded : s.highest ≤ settings.max_output_bytes
  pub received : s.stats.payload_bytes_received ≡ covered_bytes s.ranges
  pub extended : s.stats.output_bytes ≡ s.highest
  pub recorded : (x : ℕ) → covers s.ranges x ≡ written s.writes x
  pub once : Disjoint s.writes
  pub spanned : s.expected_span_reached ≡ true → s.highest ≡ settings.max_output_bytes

-- What NewReceiver leaves of its configuration: the bound of the output is an int64, and a target is
-- the bound.
pub record IsChecked (settings : Settings) : Type 0 where
  pub fits : settings.max_output_bytes ≤ max_int64
  pub target :
      0 < settings.expected_output_bytes
      → settings.max_output_bytes ≡ settings.expected_output_bytes

pub initial_loop-IsAccounted : (settings : Settings) → IsAccounted settings initial_loop
unfolding covers covered_bytes extent written
initial_loop-IsAccounted settings = record {
  separated = tt;
  few = omega arith;
  reach = refl;
  bounded = omega arith;
  received = refl;
  extended = refl;
  recorded = λ x. refl;
  once = tt;
  spanned = λ e. cc;
}

covers_apart :
    (ranges : List ByteRange) (addition : ByteRange) (x : ℕ)
    → meets_any ranges addition ≡ false
    → addition.start ≤ x
    → x < addition.end
    → covers ranges x ≡ false
unfolding covers meets_any
covers_apart [] addition x m l h = refl
covers_apart (current ∷ ranges) addition x m l h = ground (arith, covers_apart ranges addition x)

-- The sequence numbers touch nothing else.
record SameOutput (s t : LoopState) : Type 0 where
  ranges : s.ranges ≡ t.ranges
  highest : s.highest ≡ t.highest
  writes : s.writes ≡ t.writes
  span : s.expected_span_reached ≡ t.expected_span_reached
  received : s.stats.payload_bytes_received ≡ t.stats.payload_bytes_received

track_sequence-SameOutput :
    (s : LoopState) (sequence : ℕ) → SameOutput (track_sequence s sequence) s
unfolding track_sequence
track_sequence-SameOutput s sequence = ground arith

-- What the preflight of a packet's range gives, at the bound on the number of ranges.
preflight-fits :
    (ranges : List ByteRange) (addition : ByteRange)
    → addition.start < addition.end
    → IsSeparated ranges
    → preflight_range_addition max_tracked_output_ranges ranges addition ≡ ok tt
    → (meets_any ranges addition ≡ false)
      × (length (add_range ranges addition) ≤ max_tracked_output_ranges)
preflight-fits ranges addition q s p =
    ground (arith, preflight_range_addition_exact max_tracked_output_ranges ranges addition q s)

-- The fields of the account behind the counters.
record Counted (settings : Settings) (t s : LoopState) (size : ℕ) : Type 0 where
  ranges : t.ranges ≡ s.ranges
  highest : t.highest ≡ s.highest
  writes : t.writes ≡ s.writes
  received : t.stats.payload_bytes_received ≡ u64 (s.stats.payload_bytes_received + size)
  extended : t.stats.output_bytes ≡ s.highest
  span : t.expected_span_reached ≡ (
      s.expected_span_reached
      || (ltb 0 settings.expected_output_bytes && s.highest == settings.expected_output_bytes))

count_packet-Counted :
    (settings : Settings) (s : LoopState) (size packet_end received_at : ℕ)
    → Counted settings (count_packet settings s size packet_end received_at) s size
unfolding count_packet
count_packet-Counted settings s size packet_end received_at = ground arith

module _ (settings : Settings) (s : LoopState) (addition : ByteRange) (payload : List ℕ)
    (checked : IsChecked settings) (h : IsAccounted settings s)
    (full : addition.start < addition.end) (size : addition.end ≡ addition.start + length payload)
    (within : addition.end ≤ settings.max_output_bytes)
    (passed : preflight_range_addition max_tracked_output_ranges s.ranges addition ≡ ok tt) where
  apart : meets_any s.ranges addition ≡ false
  apart = (preflight-fits s.ranges addition full h.separated passed).0

  stored_bytes :
      covered_bytes (add_range s.ranges addition) ≡ covered_bytes s.ranges + length payload
  stored_bytes =
      omega (arith, size, covered_bytes-add_range s.ranges addition full h.separated apart)

  stored_reach :
      (if ltb s.highest addition.end then addition.end else s.highest)
      ≡ extent 0 (add_range s.ranges addition)
  stored_reach = ground (arith, extent-add_range 0 s.ranges addition, h.reach)

  stored_recorded :
      (x : ℕ)
      → covers (add_range s.ranges addition) x
        ≡ written (record { offset = addition.start; payload = payload } ∷ s.writes) x
  unfolding written
  stored_recorded x = rw (← size) (
      covers-add_range s.ranges addition x h.separated
      ∙ ap (λ (b : Bool). in_range addition x || b) (h.recorded x))

  -- No call so far has touched a byte of this packet's range.
  pub stored_once : Disjoint (record { offset = addition.start; payload = payload } ∷ s.writes)
  stored_once = (
    λ x. rw (← h.recorded x) (ground (arith, covers_apart s.ranges addition x apart, size)),
    h.once,
  )

  no_wrap :
      u64 (s.stats.payload_bytes_received + length payload)
      ≡ covered_bytes s.ranges + length payload
  no_wrap = omega (
    arith,
    h.received,
    stored_bytes,
    checked.fits,
    covered_bytes-le 0 0 (add_range s.ranges addition) (omega arith)
        (add_range-IsSeparated s.ranges addition full h.separated),
    extent-add_range 0 s.ranges addition,
    h.reach,
    h.bounded,
  )

  stored_span :
      (reached : Bool)
      → reached ≡ (
          s.expected_span_reached
          || (ltb 0 settings.expected_output_bytes
              && (if ltb s.highest addition.end then addition.end else s.highest)
                == settings.expected_output_bytes))
      → reached ≡ true
      → (if ltb s.highest addition.end then addition.end else s.highest) ≡ settings.max_output_bytes
  stored_span reached e r = ground (arith, h.spanned, checked.target)

  -- A packet that was written whole keeps the account.
  pub counted-IsAccounted :
      (sequence received_at : ℕ)
      → IsAccounted settings (
          count_packet settings
            (track_sequence (store_packet s addition payload) sequence)
            (length payload)
            addition.end
            received_at)
  unfolding store_packet
  counted-IsAccounted sequence received_at =
      let k = track_sequence-SameOutput (store_packet s addition payload) sequence in
      let t = track_sequence (store_packet s addition payload) sequence in
      let c = count_packet-Counted settings t (length payload) addition.end received_at in
      record {
        separated =
            rw (c.ranges ∙ k.ranges) (add_range-IsSeparated s.ranges addition full h.separated);
        few = rw (c.ranges ∙ k.ranges) (preflight-fits s.ranges addition full h.separated passed).1;
        reach = rw (c.highest ∙ k.highest, c.ranges ∙ k.ranges) stored_reach;
        bounded = rw (c.highest ∙ k.highest) (ground (arith, h.bounded));
        received =
            c.received
            ∙ (ap (λ (n : ℕ). u64 (n + length payload)) k.received
                ∙ (no_wrap ∙ (sym stored_bytes ∙ sym (ap covered_bytes (c.ranges ∙ k.ranges)))));
        extended = c.extended ∙ sym c.highest;
        recorded = λ x. rw (c.ranges ∙ k.ranges, c.writes ∙ k.writes) (stored_recorded x);
        once = rw (c.writes ∙ k.writes) stored_once;
        spanned = λ r. c.highest ∙ (k.highest ∙ stored_span _ (c.span ∙ rw (k.span, k.highest)) r);
      }
