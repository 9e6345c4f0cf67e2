-- ===== src/SensorStream/Sample.antt =====
-- A session of one radar, in the terms of internal/multisensorstream/model.go.
use mmwcli.Base.{
  ℕ, ◌≡◌, refl, ap, arith, Bool, true, false, ◌&&◌, List, [], ◌∷◌, ◌==◌, same_bytes, same_bytes→eq,
}
use mmwcli.Multisensor.Clock.{
  Clock, TimestampSemantics, exposure_midpoint, host_monotonic, frame_start, delivery_observed,
  other_semantics,
}
use mmwcli.SensorStream.Model.{Source, Session, radar, is_session_id}
use mmwcli.SensorStream.Wire.{is_radar}

-- "01234567-89ab-4cde-8f01-23456789abcd".
abbrev pub some_session_id : List ℕ
some_session_id =
    48
    ∷ (49
        ∷ (50
            ∷ (51
                ∷ (52
                    ∷ (53
                        ∷ (54
                            ∷ (55
                                ∷ (45
                                    ∷ (56
                                        ∷ (57
                                            ∷ (97
                                                ∷ (98
                                                    ∷ (45
                                                        ∷ (52
                                                            ∷ (99
                                                            ∷ (100
                                                            ∷ (101
                                                            ∷ (45
                                                            ∷ (56
                                                            ∷ (102
                                                            ∷ (48
                                                            ∷ (49
                                                            ∷ (45
                                                            ∷ (50
                                                            ∷ (51
                                                            ∷ (52
                                                            ∷ (53
                                                            ∷ (54
                                                            ∷ (55
                                                            ∷ (56
                                                            ∷ (57
                                                            ∷ (97
                                                            ∷ (98
                                                            ∷ (99
                                                            ∷ (100
                                                            ∷ [])))))))))))))))))))))))))))))))))))

session_id_fits : is_session_id some_session_id ≡ true
unfolding is_session_id
session_id_fits = refl

abbrev some_source : Source
some_source = record {
  source_id = 99 ∷ [];
  kind = radar;
  required = true;
  payload = record { filename = 102 ∷ []; format = 114 ∷ [] };
  clock = record {
    clock_id = 107 ∷ [];
    tick_hz = 1000;
    wrap_ticks = 0;
    timestamp_semantics = frame_start;
  };
  limits = record { max_items = 4; max_item_bytes = 8; max_payload_bytes = 16 };
}

abbrev pub some_session : Session
some_session = record {
  session_id = some_session_id;
  is_software_barrier = true;
  sources = some_source ∷ [];
}

abbrev semantics_code : TimestampSemantics → ℕ
semantics_code host_monotonic = 0
semantics_code frame_start = 1
semantics_code exposure_midpoint = 2
semantics_code delivery_observed = 3
semantics_code other_semantics = 4

unfoldable is_some_clock : Clock → Bool
is_some_clock clock =
    same_bytes clock.clock_id (107 ∷ [])
    && ((clock.tick_hz == 1000)
        && ((clock.wrap_ticks == 0) && (semantics_code clock.timestamp_semantics == 1)))

is_some_clock→eq : (clock : Clock) → is_some_clock clock ≡ true → clock ≡ some_source.clock
unfolding is_some_clock
is_some_clock→eq clock h = ground (arith, same_bytes→eq clock.clock_id (107 ∷ []))

unfoldable pub is_some_source : Source → Bool
unfolding is_some_clock
is_some_source source =
    same_bytes source.source_id (99 ∷ [])
    && (is_radar source.kind
        && (source.required
            && (same_bytes source.payload.filename (102 ∷ [])
                && (same_bytes source.payload.format (114 ∷ [])
                    && (is_some_clock source.clock
                        && ((source.limits.max_items == 4)
                            && ((source.limits.max_item_bytes == 8)
                                && (source.limits.max_payload_bytes == 16))))))))

is_some_source→eq : (source : Source) → is_some_source source ≡ true → source ≡ some_source
unfolding is_some_source
is_some_source→eq source h = ground (
  arith,
  same_bytes→eq source.source_id (99 ∷ []),
  same_bytes→eq source.payload.filename (102 ∷ []),
  same_bytes→eq source.payload.format (114 ∷ []),
  is_some_clock→eq source.clock,
)

abbrev pub is_one : List Source → Bool
is_one [] = false
is_one (source ∷ []) = is_some_source source
is_one (source ∷ (next ∷ rest)) = false

pub is_one→eq : (sources : List Source) → is_one sources ≡ true → sources ≡ some_source ∷ []
is_one→eq [] h = cc
is_one→eq (source ∷ []) h = ap (λ (s : Source). s ∷ []) (is_some_source→eq source h)
is_one→eq (source ∷ (next ∷ rest)) h = cc
