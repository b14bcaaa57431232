-- ===== src/Gilbarco/Lrc.antt =====
-- crates/gilbarco/src/lrc.rs: the 4-bit checksum.
pub mod Laws
use fuel_station_controller.Base.{ℕ, ◌+◌, ◌%◌, bit_and, bit_or, bit_xor, Bool, List, foldl, ◌==◌}

unfoldable pub lrc_step : ℕ → ℕ → ℕ
lrc_step acc b = bit_and ((acc + b) % 256) 0x0f

unfoldable pub gilbarco_lrc : List ℕ → ℕ
unfolding lrc_step
gilbarco_lrc bytes =
    let sum = foldl lrc_step 0 bytes in
    let lrc = bit_and ((bit_xor sum 0x0f + 1) % 256) 0x0f in bit_or 0xe0 lrc

unfoldable pub gilbarco_lrc_valid : List ℕ → ℕ → Bool
unfolding gilbarco_lrc
gilbarco_lrc_valid payload lrc = gilbarco_lrc payload == lrc
