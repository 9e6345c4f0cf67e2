-- ===== src/Dca.antt =====
-- internal/dca: the host side of the DCA1000's control and data protocols.
pub mod Protocol
pub mod Receiver
mod Examples
