-- ===== src/Stream.antt =====
-- internal/capturestream/protocol.go and encoder.go: the capture stream on the wire.
-- Writer (io.Writer and writeAll), Record (one record), Encoder (the state machine), and the proofs.
pub mod Writer
pub mod Record
pub mod Encoder
pub mod Emitted
pub mod Delivered
pub mod Committed
mod Examples
