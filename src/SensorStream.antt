-- ===== src/SensorStream.antt =====
-- The aggregate stream of several sensors, of internal/multisensorstream.
pub mod Model
pub mod Digest
pub mod Wire
pub mod Encoder
pub mod Decoder
pub mod Records
mod Sample
mod SampleJson
mod Examples
