-- ===== src/Shelf.antt =====
-- The SHELF V2.2 protocol, crates/shelf-v22: CRC framing, commands, and decoded replies.
pub mod Codec
pub mod Frame
pub mod Commands
pub mod Parser
mod Tests
