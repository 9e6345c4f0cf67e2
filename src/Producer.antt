-- ===== src/Producer.antt =====
-- The protocol between mmwcli and a sensor producer, of internal/sensorproducer.
pub mod Protocol
pub mod Frames
pub mod State
mod Examples
