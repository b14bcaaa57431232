-- ===== src/Azt.antt =====
-- The AZT 2.0 dispenser protocol, crates/azt: framing, commands, decoded types and parsers.
pub mod Codec
pub mod Frame
pub mod Commands
pub mod Parser
mod Tests
