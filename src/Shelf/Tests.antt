-- ===== src/Shelf/Tests.antt =====
-- Runs of the codec on concrete bytes, and the theorems of this folder at concrete inputs.
use fuel_station_controller.Base.{
  ℕ, ◌≤◌, ◌<◌, ◌≡◌, ◌≢◌, ◌↔◌, refl, arith, true, some, none, List, [], ◌∷◌, ◌++◌, length, is_some,
  Within, ◌⊎◌,
}
use fuel_station_controller.Shelf.Codec.{build_request, Response, decode_response, crc_ccitt}
use fuel_station_controller.Shelf.Codec.Crc.{crc_ccitt_single_byte}
use fuel_station_controller.Shelf.Codec.RoundTrip.{
  build_indexed_request_cases, IsAccepted, decode_response_sound,
}
use fuel_station_controller.Shelf.Codec.Scan.{decode_response_corrupted}
use fuel_station_controller.Shelf.Commands.{write_volume, max_dose, max_price, u24_le, u16_le}
use fuel_station_controller.Shelf.Commands.ReadBack.{VolumeOrder, write_volume_cases}
use fuel_station_controller.Shelf.Parser.{parse_live_status, parse_final_sale}
use fuel_station_controller.Shelf.Parser.RoundTrip.{parse_live_status_iff, parse_final_sale_wire}

-- The test vector of the protocol description.
abbrev status_frame : List ℕ
status_frame = 0x2d ∷ 0x0f ∷ 0x67 ∷ 0x07 ∷ 0x01 ∷ 0x6d ∷ 0x6a ∷ []

status_frame_test : build_request 0x0f 0x67 1 [] ≡ some status_frame
unfolding build_request
status_frame_test = refl

abbrev one_byte : List ℕ
one_byte = 0x12 ∷ []

abbrev status_response : Response
status_response = record { address = 0x0f; index = 0x67; command = 1; payload = [] }

status_reply : decode_response 0x0f 0x67 status_frame ≡ some status_response
unfolding decode_response
status_reply = refl

crc_ccitt_single_byte_example :
    crc_ccitt ((0x2d ∷ 0x0f ∷ []) ++ (0x67 ∷ 0x07 ∷ 0x01 ∷ []))
    ≢ crc_ccitt ((0x2d ∷ 0x0f ∷ []) ++ (0x66 ∷ 0x07 ∷ 0x01 ∷ []))
crc_ccitt_single_byte_example =
    crc_ccitt_single_byte (0x2d ∷ 0x0f ∷ []) 0x67 0x66 (0x07 ∷ 0x01 ∷ [])
      (omega arith, (omega arith, (omega arith, (omega arith, (omega arith, tt))))) (omega arith)
      (omega arith)

build_indexed_request_cases_example :
    Within
      (length one_byte)
      248
      ((frame : List ℕ) × (build_request 0x0f 0x67 1 one_byte ≡ some frame)
        × (decode_response 0x0f 0x67 frame
            ≡ some (record { address = 0x0f; index = 0x67; command = 1; payload = one_byte })))
      (build_request 0x0f 0x67 1 one_byte ≡ none)
build_indexed_request_cases_example = build_indexed_request_cases 0x0f 0x67 1 one_byte

decode_response_sound_example : IsAccepted 0x0f 0x67 status_frame status_response
decode_response_sound_example =
    decode_response_sound 0x0f 0x67 status_frame status_response status_reply

decode_response_corrupted_example :
    decode_response 0x0f 0x67 ((0x2d ∷ 0x0f ∷ 0x67 ∷ 0x07 ∷ []) ++ (0x02 ∷ 0x6d ∷ 0x6a ∷ [])) ≡ none
decode_response_corrupted_example =
    decode_response_corrupted 0x0f 0x67 (0x2d ∷ 0x0f ∷ 0x67 ∷ 0x07 ∷ []) 0x01 0x02
      (0x6d ∷ 0x6a ∷ []) status_response
      (
        omega arith,
        (
          omega arith,
          (omega arith, (omega arith, (omega arith, (omega arith, (omega arith, tt))))),
        ),
      )
      (omega arith) (omega arith) status_reply

abbrev volume : ℕ
volume = 2050

abbrev price : ℕ
price = 12500

write_volume_cases_example :
    ((1 ≤ volume)
      × (volume ≤ max_dose)
      × (1 ≤ price)
      × (price ≤ max_price)
      × VolumeOrder 0x0f 0x67 volume price)
    ⊎ (((volume ≡ 0) ⊎ ((max_dose < volume) ⊎ ((price ≡ 0) ⊎ (max_price < price))))
        × (write_volume 0x0f 0x67 volume price ≡ none))
write_volume_cases_example = write_volume_cases 0x0f 0x67 volume price

abbrev money : ℕ
money = 50000

abbrev live_response : Response
live_response = record { address = 0x0f; index = 0x67; command = 0x84; payload = 0x01 ∷ 0x20 ∷ [] }

parse_live_status_iff_example :
    (is_some (parse_live_status live_response) ≡ true) ↔ ((0x81 ≤ 0x84) × (0x84 ≤ 0x85) × (2 ≤ 2))
parse_live_status_iff_example = parse_live_status_iff live_response

parse_final_sale_wire_example :
    parse_final_sale (record {
      address = 0x0f;
      index = 0x67;
      command = 0x93;
      payload = 1 ∷ 2 ∷ (u24_le 2050 ++ (u24_le 256250 ++ (u16_le 12500 ++ (0x00 ∷ []))));
    })
    ≡ some (record { guns = 1; dispenser = 2; volume_steps = 2050; amount = 256250; price = 12500 })
parse_final_sale_wire_example =
    parse_final_sale_wire 0x0f 0x67 1 2 2050 256250 12500 (0x00 ∷ []) (omega arith) (omega arith)
      (omega arith)
