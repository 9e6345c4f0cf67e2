-- ===== src/Multisensor.antt =====
-- internal/multisensor: the model of a session with several sensors.
-- Clock (limits and clocks of a source, from model.go) and Index (the binary index of a source's
-- payload, index.go), with their proofs.
pub mod Clock
pub mod Index
mod Examples
