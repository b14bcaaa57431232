-- ===== src/Azt/Commands.antt =====
-- crates/azt/src/commands.rs: one builder for each request of the control system.
pub mod ReadBack
use fuel_station_controller.Base.{ℕ, List, [], ◌∷◌, ◌++◌, bit_and, bit_or}
use fuel_station_controller.Azt.Codec.{build_request, build_broadcast}
use fuel_station_controller.Azt.Frame.{encode_digits}

abbrev pub cmd_status : ℕ
cmd_status = 0x31

abbrev pub cmd_authorize : ℕ
cmd_authorize = 0x32

abbrev pub cmd_reset : ℕ
cmd_reset = 0x33

abbrev pub cmd_current_data : ℕ
cmd_current_data = 0x34

abbrev pub cmd_full_data : ℕ
cmd_full_data = 0x35

abbrev pub cmd_totals : ℕ
cmd_totals = 0x36

abbrev pub cmd_trk_type : ℕ
cmd_trk_type = 0x37

abbrev pub cmd_confirm_totals : ℕ
cmd_confirm_totals = 0x38

abbrev pub cmd_protocol_version : ℕ
cmd_protocol_version = 0x50

abbrev pub cmd_set_price : ℕ
cmd_set_price = 0x51

abbrev pub cmd_set_decel_threshold : ℕ
cmd_set_decel_threshold = 0x52

abbrev pub cmd_set_dose_rubles : ℕ
cmd_set_dose_rubles = 0x53

abbrev pub cmd_set_dose_litres : ℕ
cmd_set_dose_litres = 0x54

abbrev pub cmd_topup_dose : ℕ
cmd_topup_dose = 0x55

abbrev pub cmd_unconditional_start : ℕ
cmd_unconditional_start = 0x56

abbrev pub cmd_transaction_number : ℕ
cmd_transaction_number = 0x59

abbrev pub cmd_read_set_dose : ℕ
cmd_read_set_dose = 0x58

abbrev pub cmd_set_price_general : ℕ
cmd_set_price_general = 0x57

unfoldable pub status : ℕ → List ℕ
status addr = build_request addr cmd_status []

unfoldable pub authorize : ℕ → List ℕ
authorize addr = build_request addr cmd_authorize []

unfoldable pub reset : ℕ → List ℕ
reset addr = build_request addr cmd_reset []

unfoldable pub current_data : ℕ → List ℕ
current_data addr = build_request addr cmd_current_data []

unfoldable pub full_data : ℕ → List ℕ
full_data addr = build_request addr cmd_full_data []

unfoldable pub totals : ℕ → List ℕ
totals addr = build_request addr cmd_totals []

unfoldable pub trk_type : ℕ → List ℕ
trk_type addr = build_request addr cmd_trk_type []

unfoldable pub confirm_totals : ℕ → List ℕ
confirm_totals addr = build_request addr cmd_confirm_totals []

unfoldable pub protocol_version : ℕ → List ℕ
protocol_version addr = build_request addr cmd_protocol_version []

unfoldable pub topup_dose : ℕ → List ℕ
topup_dose addr = build_request addr cmd_topup_dose []

unfoldable pub unconditional_start : ℕ → List ℕ
unconditional_start addr = build_request addr cmd_unconditional_start []

unfoldable pub transaction_number : ℕ → List ℕ
transaction_number addr = build_request addr cmd_transaction_number []

unfoldable pub read_set_dose : ℕ → List ℕ
read_set_dose addr = build_request addr cmd_read_set_dose []

unfoldable pub set_price : ℕ → ℕ → List ℕ
set_price addr value = build_request addr cmd_set_price (encode_digits value 4)

unfoldable pub set_decel_threshold : ℕ → ℕ → List ℕ
set_decel_threshold addr value = build_request addr cmd_set_decel_threshold (encode_digits value 3)

unfoldable pub set_dose_rubles : ℕ → ℕ → List ℕ
set_dose_rubles addr value = build_request addr cmd_set_dose_rubles (encode_digits value 6)

unfoldable pub set_dose_litres : ℕ → ℕ → List ℕ
set_dose_litres addr value = build_request addr cmd_set_dose_litres (encode_digits value 5)

-- The digits with the full-tank flag `'1'` pushed behind them.
unfoldable pub set_dose_litres_full_tank : ℕ → ℕ → List ℕ
set_dose_litres_full_tank addr centilitres =
    build_request addr cmd_set_dose_litres (encode_digits centilitres 5 ++ (0x31 ∷ []))

unfoldable pub set_general_param : ℕ → ℕ → List ℕ
set_general_param param value =
    build_broadcast cmd_set_price_general
      (bit_or 0x30 (bit_and param 0x0f) ∷ bit_or 0x30 (bit_and value 0x0f) ∷ [])
