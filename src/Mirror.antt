-- ===== src/Mirror.antt =====
-- internal/capturestream/mirror.go and coverage.go: every write goes to the authoritative capture
-- output first and then into provisional frames, which a worker hands to the frame sink in order.
-- The modules: Errors and State (what a mirror keeps), Spool (one frame under assembly), Plan and
-- Write (WriteAt), Seal (Seal and Abort), Worker (runSink), Steps (all interleavings), and the
-- proofs behind them.
pub mod Errors
pub mod Spool
pub mod State
pub mod Plan
pub mod Write
pub mod Seal
pub mod Worker
pub mod Steps
pub mod Invariant
pub mod Preserve
pub mod Enqueue
pub mod Written
pub mod Config
pub mod Reach
mod Examples
