-- ===== src/Mirror/Errors.antt =====
-- The errors of internal/capturestream/mirror.go and coverage.go, one constructor for each place
-- where one is made. The texts are left out.
use mmwcli.Base.{Bool, true, false}

pub data MirrorError : Type 0 where
  -- NewMirror
  output_unavailable sink_nil cancel_nil frame_size frame_too_large : MirrorError
  frame_limit_missing frame_limit_twice frame_limit_overflow : MirrorError
  buffer_too_small buffer_too_large no_slots : MirrorError
  -- ErrMirrorIntegrity
  empty_payload offset_outside write_too_long already_emitted : MirrorError
  invalid_range range_overlap incomplete undelivered : MirrorError
  -- ErrMirrorBackpressure
  outside_window slots_exhausted range_limit queue_full : MirrorError
  -- The output, the sink, the states and the deadline of Seal
  output_failed short_write sink_failed : MirrorError
  is_sealed is_aborted context_nil unbounded context_done invalid_state : MirrorError

-- `errors.Is(err, ErrMirrorBackpressure)`.
abbrev pub is_backpressure : MirrorError → Bool
is_backpressure outside_window = true
is_backpressure slots_exhausted = true
is_backpressure range_limit = true
is_backpressure queue_full = true
is_backpressure _ = false
