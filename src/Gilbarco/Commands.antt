-- ===== src/Gilbarco/Commands.antt =====
-- crates/gilbarco/src/commands.rs: single-byte commands and the price and preset frames. An array of
-- bytes is a list.
use fuel_station_controller.Base.{ℕ, ◌+◌, ◌/◌, ◌%◌, bit_and, bit_or, List, [], ◌∷◌, ◌++◌}
use fuel_station_controller.Gilbarco.Lrc.{gilbarco_lrc}

unfoldable pub status : ℕ → List ℕ
status addr = addr ∷ []

unfoldable pub get_display : ℕ → List ℕ
get_display addr = bit_or 0x60 (bit_and addr 0x0f) ∷ []

unfoldable pub get_transaction : ℕ → List ℕ
get_transaction addr = bit_or 0x40 (bit_and addr 0x0f) ∷ []

unfoldable pub get_transaction2 : ℕ → List ℕ
get_transaction2 addr = bit_or 0x50 (bit_and addr 0x0f) ∷ []

unfoldable pub get_totals : ℕ → List ℕ
unfolding get_transaction2
get_totals addr = get_transaction2 addr

unfoldable pub get_nozzle : ℕ → List ℕ
get_nozzle addr = bit_or 0x20 (bit_and addr 0x0f) ∷ 0xff ∷ []

unfoldable pub get_nozzle_frame : List ℕ
get_nozzle_frame = 0xff ∷ 0xe9 ∷ 0xfe ∷ 0xe0 ∷ 0xe1 ∷ 0xe0 ∷ 0xfb ∷ 0xee ∷ []

unfoldable pub command_mode : ℕ → List ℕ
command_mode addr = bit_or 0x20 (bit_and addr 0x0f) ∷ []

unfoldable pub get_all : List ℕ
get_all = 0xf0 ∷ []

unfoldable pub authorize : ℕ → List ℕ
authorize addr = bit_or 0x10 (bit_and addr 0x0f) ∷ []

unfoldable pub halt : ℕ → List ℕ
halt addr = bit_or 0x30 (bit_and addr 0x0f) ∷ []

-- `0xE0 | digit`.
unfoldable pub e_digit : ℕ → ℕ
e_digit v = bit_or 0xe0 (v % 10)

unfoldable pub encode_4digit : ℕ → List ℕ
unfolding e_digit
encode_4digit val =
    e_digit val ∷ e_digit (val / 10) ∷ e_digit (val / 100) ∷ e_digit (val / 1000) ∷ []

unfoldable pub encode_5digit : ℕ → List ℕ
unfolding e_digit
encode_5digit val =
    e_digit val
    ∷ e_digit (val / 10)
    ∷ e_digit (val / 100)
    ∷ e_digit (val / 1000)
    ∷ e_digit (val / 10000)
    ∷ []

unfoldable pub encode_6digit : ℕ → List ℕ
unfolding e_digit
encode_6digit val =
    e_digit val
    ∷ e_digit (val / 10)
    ∷ e_digit (val / 100)
    ∷ e_digit (val / 1000)
    ∷ e_digit (val / 10000)
    ∷ e_digit (val / 100000)
    ∷ []

unfoldable pub set_price : ℕ → ℕ → List ℕ
unfolding encode_4digit
set_price nozzle_index price_raw =
    let nozzle_id = (0xdf + nozzle_index) % 256 in
    let frame =
      0xff ∷ 0xe5 ∷ 0xf4 ∷ 0xf6 ∷ nozzle_id ∷ 0xf7 ∷ (encode_4digit price_raw ++ (0xfb ∷ [])) in
    frame ++ (gilbarco_lrc frame ∷ 0xf0 ∷ [])

unfoldable pub preset_amount : ℕ → List ℕ
unfolding encode_6digit
preset_amount amount_raw =
    let frame = 0xff ∷ 0xe5 ∷ 0xf2 ∷ 0xf8 ∷ (encode_6digit amount_raw ++ (0xfb ∷ [])) in
    frame ++ (gilbarco_lrc frame ∷ 0xf0 ∷ [])
