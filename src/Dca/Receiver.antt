-- ===== src/Dca/Receiver.antt =====
-- internal/dca/receiver.go: the receiver of the raw ADC datagrams.
-- State (the configuration, the statistics and the variables of the loop), Packet (what an accepted
-- datagram does), Loop (one round of the loop and all rounds), and the proofs behind them.
pub mod State
pub mod Packet
pub mod Loop
pub mod Accounting
pub mod Outcomes
pub mod Rounds
pub mod Captures
mod Examples
