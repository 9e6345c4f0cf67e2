-- ===== src/Producer/State/Handshake.antt =====
-- A run of internal/sensorproducer/state.go that ends with no failure followed the protocol.
use mmwcli.Base.{ℕ, List, none}
use mmwcli.Producer.State.{init_phase, State}
use mmwcli.Producer.State.Run.{Run}

abbrev first_state : List ℕ → List ℕ → State
first_state session_id source_id = record {
  session_id = session_id;
  source_id = source_id;
  phase = init_phase;
  next_seq = 1;
  pending = none;
  last_data = 0;
  cause = none;
}
