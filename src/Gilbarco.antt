-- ===== src/Gilbarco.antt =====
-- The Gilbarco Two-Wire protocol, crates/gilbarco: checksum, commands and response parsers.
pub mod Lrc
pub mod Commands
pub mod Parser
pub mod Totals
mod Tests
