-- ===== src/Wayne.antt =====
-- The Wayne Europump protocol, crates/wayne-europump: CRC frames, builders, and the frame parser.
pub mod Crc
pub mod Builder
pub mod Frame
pub mod Bytes
pub mod Fill
pub mod Parser
pub mod Accumulator
mod Tests
