-- ===== src/Wayne/Crc.antt =====
-- crates/wayne-europump/src/crc.rs: the CRC by its table, and the frame around a payload.
pub mod Frames
use fuel_station_controller.Base.{
  ℕ, zero, suc, ◌+◌, ◌/◌, ◌%◌, bit_and, bit_xor, List, [], ◌∷◌, ◌++◌, foldl, not, ◌==◌,
  if◌then◌else◌,
}

-- The inner loop of `build_crc_table`: `j` rounds are left.
unfoldable pub table_loop : ℕ → ℕ → ℕ → ℕ
table_loop zero value temp = value
table_loop (suc j) value temp =
    let shifted = value / 2 in
    let next =
      if not (bit_and (bit_xor value temp) 1 == 0) then bit_xor shifted 0xa001 else shifted in
    table_loop j next (temp / 2)

-- `CRC_TABLE[i]`.
unfoldable pub crc_table : ℕ → ℕ
unfolding table_loop
crc_table i = table_loop 8 0 i

unfoldable pub crc16_step : ℕ → ℕ → ℕ
unfolding crc_table
crc16_step crc byte = bit_xor (crc / 256) (crc_table (bit_xor (crc % 256) byte))

unfoldable pub crc16 : List ℕ → ℕ
unfolding crc16_step
crc16 data_bytes = foldl crc16_step 0 data_bytes

-- `(crc & 0xFF) as u8` and `(crc >> 8) as u8`.
unfoldable pub build_frame : List ℕ → List ℕ
unfolding crc16
build_frame data_bytes =
    let crc = crc16 data_bytes in
    data_bytes ++ (bit_and crc 0xff ∷ crc / 256 % 256 ∷ 0x03 ∷ 0xfa ∷ [])
