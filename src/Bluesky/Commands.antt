-- ===== src/Bluesky/Commands.antt =====
-- crates/texnouz-bluesky/src/commands.rs: command codes and request builders. A builder that the
-- source closes with `expect` is an option here, and `none` is its panic.
pub mod ReadBack
use fuel_station_controller.Base.{ℕ, ltb, if◌then◌else◌, Option, none, some, List, [], ◌∷◌, ◌>>=◌}
use fuel_station_controller.Bluesky.Codec.{build_request, encode_bcd}

abbrev pub code_read_status : ℕ
code_read_status = 0xd5

abbrev pub code_read_fill : ℕ
code_read_fill = 0xd9

abbrev pub code_read_price : ℕ
code_read_price = 0xb6

abbrev pub code_write_price : ℕ
code_write_price = 0xb2

abbrev pub code_dose_by_amount : ℕ
code_dose_by_amount = 0xb5

abbrev pub code_dose_by_volume : ℕ
code_dose_by_volume = 0xb9

abbrev pub code_start : ℕ
code_start = 0xc3

abbrev pub code_stop : ℕ
code_stop = 0xca

abbrev pub code_pause : ℕ
code_pause = 0xba

abbrev pub code_resume : ℕ
code_resume = 0xb3

abbrev pub code_read_total : ℕ
code_read_total = 0xc5

abbrev pub code_read_shift : ℕ
code_read_shift = 0xc7

abbrev pub code_clear_shift : ℕ
code_clear_shift = 0xea

abbrev pub code_take_control : ℕ
code_take_control = 0xe5

abbrev pub code_release_control : ℕ
code_release_control = 0xe7

abbrev pub code_select_hose : ℕ
code_select_hose = 0xa1

abbrev pub code_read_preset : ℕ
code_read_preset = 0xa7

abbrev pub code_read_card_id : ℕ
code_read_card_id = 0xa8

abbrev pub code_read_error : ℕ
code_read_error = 0xa9

abbrev pub code_read_device_id : ℕ
code_read_device_id = 0xd7

abbrev pub code_clear_keypad_preset : ℕ
code_clear_keypad_preset = 0xaa

abbrev pub code_clear_error : ℕ
code_clear_error = 0xab

abbrev pub price_bytes : ℕ
price_bytes = 3

abbrev pub fill_bytes : ℕ
fill_bytes = 4

abbrev pub totals_bytes : ℕ
totals_bytes = 6

abbrev pub max_price : ℕ
max_price = 99999

abbrev pub max_dose : ℕ
max_dose = 99999999

unfoldable pub bare : ℕ → ℕ → Option (List ℕ)
bare addr cmd = build_request addr cmd []

unfoldable pub read_status : ℕ → Option (List ℕ)
unfolding bare
read_status addr = bare addr code_read_status

unfoldable pub read_fill : ℕ → Option (List ℕ)
unfolding bare
read_fill addr = bare addr code_read_fill

unfoldable pub read_price : ℕ → Option (List ℕ)
unfolding bare
read_price addr = bare addr code_read_price

unfoldable pub start : ℕ → Option (List ℕ)
unfolding bare
start addr = bare addr code_start

unfoldable pub stop : ℕ → Option (List ℕ)
unfolding bare
stop addr = bare addr code_stop

unfoldable pub pause : ℕ → Option (List ℕ)
unfolding bare
pause addr = bare addr code_pause

unfoldable pub resume : ℕ → Option (List ℕ)
unfolding bare
resume addr = bare addr code_resume

unfoldable pub read_total : ℕ → Option (List ℕ)
unfolding bare
read_total addr = bare addr code_read_total

unfoldable pub read_shift : ℕ → Option (List ℕ)
unfolding bare
read_shift addr = bare addr code_read_shift

unfoldable pub clear_shift : ℕ → Option (List ℕ)
unfolding bare
clear_shift addr = bare addr code_clear_shift

unfoldable pub take_control : ℕ → Option (List ℕ)
unfolding bare
take_control addr = bare addr code_take_control

unfoldable pub release_control : ℕ → Option (List ℕ)
unfolding bare
release_control addr = bare addr code_release_control

unfoldable pub read_preset : ℕ → Option (List ℕ)
unfolding bare
read_preset addr = bare addr code_read_preset

unfoldable pub read_error : ℕ → Option (List ℕ)
unfolding bare
read_error addr = bare addr code_read_error

unfoldable pub clear_error : ℕ → Option (List ℕ)
unfolding bare
clear_error addr = bare addr code_clear_error

unfoldable pub clear_keypad_preset : ℕ → Option (List ℕ)
unfolding bare
clear_keypad_preset addr = bare addr code_clear_keypad_preset

unfoldable pub read_device_id : ℕ → Option (List ℕ)
unfolding bare
read_device_id addr = bare addr code_read_device_id

unfoldable pub read_card_id : ℕ → Option (List ℕ)
unfolding bare
read_card_id addr = bare addr code_read_card_id

unfoldable pub write_price : ℕ → ℕ → Option (List ℕ)
write_price addr value =
    if ltb max_price value
    then none
    else (encode_bcd value price_bytes >>= build_request addr code_write_price)

unfoldable pub dose_by_amount : ℕ → ℕ → Option (List ℕ)
dose_by_amount addr value =
    if ltb max_dose value
    then none
    else (encode_bcd value fill_bytes >>= build_request addr code_dose_by_amount)

unfoldable pub dose_by_volume : ℕ → ℕ → Option (List ℕ)
dose_by_volume addr value =
    if ltb max_dose value
    then none
    else (encode_bcd value fill_bytes >>= build_request addr code_dose_by_volume)

unfoldable pub select_hose : ℕ → ℕ → Option (List ℕ)
select_hose addr hose_addr = build_request addr code_select_hose (hose_addr ∷ [])
