-- ===== src/Bluesky.antt =====
-- The TexnoUz BlueSky protocol, crates/texnouz-bluesky: framing, BCD numbers, commands, parsers.
pub mod Codec
pub mod Commands
pub mod Frame
pub mod Parser
mod Tests
use fuel_station_controller.Base.{ℕ, ◌+◌, ◌%◌}

-- crates/texnouz-bluesky/src/lib.rs: `wrapping_add` on bytes.
unfoldable pub hose_address : ℕ → ℕ → ℕ
hose_address base hose_number = (base + hose_number) % 256
