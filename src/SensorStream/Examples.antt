-- ===== src/SensorStream/Examples.antt =====
-- A stream of one radar, of internal/multisensorstream, at small inputs.
use mmwcli.Base.{
  ℕ, ◌+◌, ◌≡◌, ◌≢◌, refl, true, List, [], ◌∷◌, Option, none, ok, replicate, same_bytes,
}
use mmwcli.SensorStream.Model.{complete, validate_leaf, all_bytes, is_format}
use mmwcli.SensorStream.Model.Leaf.{validate_leaf_refuses}
use mmwcli.SensorStream.Wire.{Record, first_progress, set_source, SessionArtifact, StreamFault}
use mmwcli.SensorStream.Encoder.{
  Encoder, Operation, write_radar_config, write_radar_start, write_item, end_source_with,
  commit_session, operate, operate_all, require_active, plan, emit, plan_eof, active, terminal,
}
use mmwcli.SensorStream.Digest.{digest_string}
use mmwcli.SensorStream.Sample.{some_session}
use mmwcli.SensorStream.SampleJson.{
  item_text, config_text, start_text, end_text, commit_text, eof_text, some_json,
}

-- "a\0" is a leaf, and "a0" is none.
nul_accepted : validate_leaf (λ text. true) (97 ∷ (0 ∷ [])) ≡ ok tt
unfolding validate_leaf same_bytes all_bytes
nul_accepted = refl

validate_leaf_refuses_example : validate_leaf (λ text. true) (97 ∷ (48 ∷ [])) ≢ ok tt
validate_leaf_refuses_example = validate_leaf_refuses (λ text. true) (97 ∷ []) [] 48 refl

abbrev some_digest : List ℕ → List ℕ
some_digest bytes = replicate 32 7

-- A writer that takes every record, and counts them.
abbrev count_records : ℕ → Record → ℕ × Option StreamFault
count_records n taken = (n + 1, none)

abbrev some_artifact : SessionArtifact
some_artifact = record { size_bytes = 5; sha256 = replicate 32 7 }

-- All records of a radar that is complete, and the commit.
abbrev some_operations : List Operation
some_operations =
    write_radar_config (99 ∷ []) (114 ∷ []) (1 ∷ [])
    ∷ (write_radar_start (record { source_id = 99 ∷ []; host_lower_ns = 10; host_upper_ns = 20 })
        ∷ (write_item
              (record {
                source_id = 99 ∷ [];
                item_index = 0;
                tick = 5;
                wrap_count = 0;
                duration_ticks = 2;
                sync_event_id = 18446744073709551615;
              })
              (8 ∷ (9 ∷ []))
            ∷ (end_source_with (99 ∷ []) complete ∷ (commit_session some_artifact ∷ []))))

abbrev opened : Encoder ℕ
opened = record {
  world = 1;
  progress = first_progress some_session;
  next_record = 1;
  state = active;
  failure = none;
  sent = record { kind = 1; record_seq = 0; metadata = 123 ∷ (125 ∷ []); payload = [] } ∷ [];
}

abbrev closed : Encoder ℕ
closed = (operate_all some_json some_digest count_records opened some_operations).0

closed_terminal : closed.state ≡ terminal
unfolding operate_all operate require_active plan first_progress same_bytes item_text emit
    config_text start_text end_text commit_text digest_string is_format set_source plan_eof eof_text
closed_terminal = refl
