-- ===== src/Bluesky/Tests.antt =====
-- Runs of the codec on concrete bytes, and the theorems of this folder at concrete inputs.
use fuel_station_controller.Base.{
  ℕ, ◌^◌, ◌≤◌, ◌<◌, ◌≡◌, refl, arith, some, none, List, [], ◌∷◌, length, Within, ◌⊎◌,
}
use fuel_station_controller.Bluesky.Codec.{
  crc, build_request, response_of, decode_response, encode_bcd, decode_bcd, cmd_of, data_of,
}
use fuel_station_controller.Bluesky.Codec.Bcd.{IsField, encode_bcd_cases}
use fuel_station_controller.Bluesky.Codec.RoundTrip.{build_request_cases}
use fuel_station_controller.Bluesky.Codec.Sound.{build_request-decode_response}
use fuel_station_controller.Bluesky.Commands.{
  write_price, dose_by_amount, dose_by_volume, code_write_price, code_dose_by_amount,
  code_dose_by_volume, max_price, max_dose, price_bytes, fill_bytes,
}
use fuel_station_controller.Bluesky.Commands.ReadBack.{Carries, numeric_requests_cases}

abbrev status_frame : List ℕ
status_frame = 0xf5 ∷ 0x01 ∷ 0xa2 ∷ 0x10 ∷ 0x46 ∷ []

abbrev price_payload : List ℕ
price_payload = 0x12 ∷ 0x50 ∷ []

abbrev line_noise : List ℕ
line_noise = 0x00 ∷ 0x55 ∷ []

status_frame_test : build_request 1 0x10 [] ≡ some status_frame
unfolding build_request crc
status_frame_test = refl

encode_bcd_cases_example :
    ((1250 < 100 ^ 3) × IsField 1250 3) ⊎ ((100 ^ 3 ≤ 1250) × (encode_bcd 1250 3 ≡ none))
encode_bcd_cases_example = encode_bcd_cases 1250 3 (omega arith)

field_1250 : decode_bcd (0x00 ∷ 0x12 ∷ 0x50 ∷ []) ≡ some 1250
unfolding decode_bcd
field_1250 = refl

build_request_cases_example :
    Within
      (length price_payload)
      13
      ((frame : List ℕ) × (build_request 1 0x32 price_payload ≡ some frame)
        × (decode_response 1 frame ≡ some (response_of 0x32 price_payload)))
      (build_request 1 0x32 price_payload ≡ none)
build_request_cases_example = build_request_cases 1 0x32 price_payload

status_reply : decode_response 1 status_frame ≡ some (response_of 0x10 [])
unfolding decode_response crc
status_reply = refl

build_request-decode_response_example :
    build_request 1 (cmd_of (response_of 0x10 [])) (data_of (response_of 0x10 []))
    ≡ some status_frame
build_request-decode_response_example =
    build_request-decode_response 1 status_frame (response_of 0x10 [])
      (omega arith, (omega arith, (omega arith, (omega arith, (omega arith, tt))))) status_reply

numeric_requests_cases_example :
    Within 1250 max_price
      (Carries (write_price 1 1250) 1 code_write_price price_bytes 1250)
      (write_price 1 1250 ≡ none)
    × Within 1250 max_dose
        (Carries (dose_by_amount 1 1250) 1 code_dose_by_amount fill_bytes 1250)
        (dose_by_amount 1 1250 ≡ none)
    × Within 1250 max_dose
        (Carries (dose_by_volume 1 1250) 1 code_dose_by_volume fill_bytes 1250)
        (dose_by_volume 1 1250 ≡ none)
numeric_requests_cases_example = numeric_requests_cases 1 1250
