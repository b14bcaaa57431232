-- ===== src/Bluesky/Frame.antt =====
-- crates/texnouz-bluesky/src/frame.rs: the bits of the status byte, and decoded payloads.
pub mod Flags
use fuel_station_controller.Base.{ℕ, bit_and, Bool, true, false, not, ◌&&◌, ◌==◌}

abbrev flag : ℕ → ℕ → Bool
flag mask s = not (bit_and s mask == 0)

unfoldable pub nozzle_holstered : ℕ → Bool
nozzle_holstered s = flag 0x80 s

unfoldable pub paused : ℕ → Bool
paused s = flag 0x40 s

unfoldable pub dispensing : ℕ → Bool
dispensing s = flag 0x20 s

unfoldable pub remote_control : ℕ → Bool
remote_control s = flag 0x08 s

unfoldable pub keypad_preset_ready : ℕ → Bool
keypad_preset_ready s = flag 0x02 s

unfoldable pub error : ℕ → Bool
error s = flag 0x01 s

unfoldable pub nozzle_lifted : ℕ → Bool
unfolding nozzle_holstered
nozzle_lifted s = not (nozzle_holstered s)

unfoldable pub idle : ℕ → Bool
unfolding dispensing paused keypad_preset_ready
idle s = not (dispensing s) && not (paused s) && not (keypad_preset_ready s)

pub record FillData : Type 0 where
  pub volume_centilitres : ℕ
  pub amount_wire : ℕ

pub record Totals : Type 0 where
  pub volume_centilitres : ℕ
  pub amount_wire : ℕ

pub record PresetReadback : Type 0 where
  pub kind : ℕ
  pub value : ℕ
