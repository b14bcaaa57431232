-- ===== src/Bluesky/Frame/Flags.antt =====
-- The status byte as its six flags and its two unassigned bits.
use fuel_station_controller.Base.{ℕ, ◌+◌, ◌≡◌, refl, bit_and, Bool, true, ◌==◌, if◌then◌else◌}
use fuel_station_controller.Base.Bits.{IsByte, all_below, agree_below}
use fuel_station_controller.Bluesky.Frame.{
  nozzle_holstered, paused, dispensing, remote_control, keypad_preset_ready, error,
}

abbrev weight : Bool → ℕ → ℕ
weight b n = if b then n else 0

-- The flags of a status byte, put together again with the unassigned bits 2 and 4.
abbrev pub from_flags : ℕ → ℕ
from_flags s =
    weight (nozzle_holstered s) 0x80
    + weight (paused s) 0x40
    + weight (dispensing s) 0x20
    + weight (remote_control s) 0x08
    + weight (keypad_preset_ready s) 0x02
    + weight (error s) 0x01
    + bit_and s 0x14

flags_table : all_below 256 (λ s. from_flags s == s) ≡ true
unfolding all_below nozzle_holstered paused dispensing remote_control keypad_preset_ready error
flags_table = refl

-- The six flags are independent and, with the two unassigned bits, give the status byte back.
from_flags_lem : (s : ℕ) → IsByte s → from_flags s ≡ s
from_flags_lem s h = agree_below 256 from_flags (λ x. x) flags_table s h
