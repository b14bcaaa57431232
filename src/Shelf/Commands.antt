-- ===== src/Shelf/Commands.antt =====
-- crates/shelf-v22/src/commands.rs: command builders. A builder that the source closes with `expect`
-- is an option here, and `none` is its panic.
pub mod ReadBack
use fuel_station_controller.Base.{
  ℕ, ◌*◌, ◌/◌, ◌%◌, ◌||◌, not, ◌&&◌, leb, ltb, ◌==◌, if◌then◌else◌, Option, none, some, List, [],
  ◌∷◌, ◌++◌,
}
use fuel_station_controller.Shelf.Codec.{build_request}

abbrev pub code_status : ℕ
code_status = 0x01

abbrev pub code_read_price : ℕ
code_read_price = 0x02

abbrev pub code_write_price : ℕ
code_write_price = 0x03

abbrev pub code_amount_info : ℕ
code_amount_info = 0x04

abbrev pub code_write_volume : ℕ
code_write_volume = 0x05

abbrev pub code_write_money : ℕ
code_write_money = 0x09

abbrev pub code_stop : ℕ
code_stop = 0x0c

abbrev pub code_total_counters : ℕ
code_total_counters = 0x15

abbrev pub code_current_counters : ℕ
code_current_counters = 0x16

abbrev pub code_pressure : ℕ
code_pressure = 0x19

abbrev pub max_price : ℕ
max_price = 65535

abbrev pub min_volume_steps : ℕ
min_volume_steps = 1

abbrev pub max_dose : ℕ
max_dose = 999999

unfoldable pub bare : ℕ → ℕ → ℕ → Option (List ℕ)
bare addr index command = build_request addr index command []

unfoldable pub status : ℕ → ℕ → Option (List ℕ)
unfolding bare
status addr index = bare addr index code_status

unfoldable pub read_price : ℕ → ℕ → Option (List ℕ)
unfolding bare
read_price addr index = bare addr index code_read_price

unfoldable pub amount_info : ℕ → ℕ → Option (List ℕ)
unfolding bare
amount_info addr index = bare addr index code_amount_info

unfoldable pub stop : ℕ → ℕ → Option (List ℕ)
unfolding bare
stop addr index = bare addr index code_stop

unfoldable pub total_counters : ℕ → ℕ → Option (List ℕ)
unfolding bare
total_counters addr index = bare addr index code_total_counters

unfoldable pub current_counters : ℕ → ℕ → Option (List ℕ)
unfolding bare
current_counters addr index = bare addr index code_current_counters

unfoldable pub pressure : ℕ → ℕ → Option (List ℕ)
unfolding bare
pressure addr index = bare addr index code_pressure

-- `(price as u16).to_le_bytes()`, and the three low bytes of a `u32`.
unfoldable pub u16_le : ℕ → List ℕ
u16_le value = value % 256 ∷ value / 256 % 256 ∷ []

unfoldable pub u24_le : ℕ → List ℕ
u24_le value = value % 256 ∷ value / 256 % 256 ∷ value / 65536 % 256 ∷ []

unfoldable pub write_price : ℕ → ℕ → ℕ → Option (List ℕ)
unfolding u16_le
write_price addr index price =
    if ltb max_price price then none else build_request addr index code_write_price (u16_le price)

unfoldable pub write_volume : ℕ → ℕ → ℕ → ℕ → Option (List ℕ)
unfolding u24_le u16_le
write_volume addr index volume price =
    if not (leb min_volume_steps volume && leb volume max_dose) || price == 0 || ltb max_price price
    then none
    else build_request addr index code_write_volume (0 ∷ 0 ∷ (u24_le volume ++ u16_le price))

unfoldable pub write_money : ℕ → ℕ → ℕ → Option (List ℕ)
unfolding u24_le
write_money addr index amount =
    if amount == 0 || ltb max_dose amount
    then none
    else build_request addr index code_write_money (u24_le amount)
