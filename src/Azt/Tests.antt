-- ===== src/Azt/Tests.antt =====
-- Runs of the codec on concrete bytes, and the theorems of this folder at concrete inputs.
use fuel_station_controller.Base.{
  ℕ, ◌^◌, ◌%◌, ◌-◌, ◌≡◌, ◌≢◌, ◌↔◌, refl, arith, some, none, List, [], ◌∷◌, ◌++◌,
}
use fuel_station_controller.Azt.Codec.{
  is_start_byte, build_request, build_broadcast, pop_request, decode_response, encode_data_response,
  short, payload, complement,
}
use fuel_station_controller.Azt.Codec.Bytes.{complement_lem}
use fuel_station_controller.Azt.Codec.Decode.{
  Answers, decode_response_iff, decode_response-encode_data_response,
}
use fuel_station_controller.Azt.Codec.Requests.{
  pop_request-build_request, pop_request-build_broadcast,
}
use fuel_station_controller.Azt.Codec.Partial.{pop_request_waits}
use fuel_station_controller.Azt.Codec.Sound.{IsPopped, pop_request_total, pop_request_sound}
use fuel_station_controller.Azt.Commands.{
  cmd_set_price, cmd_set_decel_threshold, cmd_set_dose_rubles, cmd_set_dose_litres, set_price,
  set_decel_threshold, set_dose_rubles, set_dose_litres,
}
use fuel_station_controller.Azt.Commands.ReadBack.{IsRead, numeric_requests-IsRead}
use fuel_station_controller.Azt.Frame.{encode_digits, decode_digits, TrkType, from_identifier}
use fuel_station_controller.Azt.Frame.Digits.{decode_digits-encode_digits}
use fuel_station_controller.Azt.Parser.{parse_full_data}
use fuel_station_controller.Azt.Parser.RoundTrip.{parse_full_data-encode_digits}

-- The status request of the first dispenser, byte for byte.
status_request_bytes :
    build_request 1 0x31 [] ≡ 0x7f ∷ 0x02 ∷ 0x21 ∷ 0x5e ∷ 0x31 ∷ 0x4e ∷ 0x03 ∷ 0x03 ∷ 0x53 ∷ []
unfolding build_request complement
status_request_bytes = refl

-- A request that is cut after its first pair stays in the buffer.
cut_request_waits :
    pop_request (0x7f ∷ 0x02 ∷ 0x21 ∷ 0x5e ∷ []) ≡ some (none, 0x7f ∷ 0x02 ∷ 0x21 ∷ 0x5e ∷ [])
unfolding pop_request
cut_request_waits = refl

-- A start byte above the range that the reader accepts: the address 226 is sent with `0x15`.
address_226_unread :
    pop_request (build_request 226 0x31 []) ≡ some (none, build_request 226 0x31 [])
unfolding pop_request build_request
address_226_unread = refl

abbrev two_frames : List ℕ
two_frames = 0x00 ∷ 0x55 ∷ (build_request 16 0x31 [] ++ build_request 1 0x34 [])

pop_request-build_request_example :
    pop_request ((0x00 ∷ 0x55 ∷ []) ++ (build_request 16 0x31 [] ++ build_request 1 0x34 []))
    ≡ some (some (record { addr = some 16; cmd = 0x31; payload = [] }), build_request 1 0x34 [])
unfolding is_start_byte
pop_request-build_request_example =
    pop_request-build_request (0x00 ∷ 0x55 ∷ []) 16 0x31 [] (build_request 1 0x34 [])
      (refl, (refl, tt)) (omega arith) (omega arith) (omega arith, tt)

pop_request-build_broadcast_example :
    pop_request ((0x00 ∷ []) ++ (build_broadcast 0x57 (0x31 ∷ 0x30 ∷ []) ++ (0x7f ∷ [])))
    ≡ some (some (record { addr = none; cmd = 0x57; payload = 0x31 ∷ 0x30 ∷ [] }), 0x7f ∷ [])
unfolding is_start_byte
pop_request-build_broadcast_example =
    pop_request-build_broadcast (0x00 ∷ []) 0x57 (0x31 ∷ 0x30 ∷ []) (0x7f ∷ []) (refl, tt) refl
      (omega arith, (omega arith, (omega arith, tt)))

pop_request_waits_example :
    pop_request (0x7f ∷ 0x02 ∷ 0x21 ∷ 0x5e ∷ 0x31 ∷ [])
    ≡ some (none, 0x7f ∷ 0x02 ∷ 0x21 ∷ 0x5e ∷ 0x31 ∷ [])
pop_request_waits_example =
    pop_request_waits 1 0x31 [] (0x7f ∷ 0x02 ∷ 0x21 ∷ 0x5e ∷ 0x31 ∷ []) 0x4e
      (0x03 ∷ 0x03 ∷ 0x53 ∷ []) (omega arith) (omega arith) (omega arith, tt) status_request_bytes
      (omega arith)

pop_request_total_example : pop_request two_frames ≢ none
pop_request_total_example = pop_request_total two_frames

popped_two_frames :
    pop_request two_frames
    ≡ some (some (record { addr = some 16; cmd = 0x31; payload = [] }), build_request 1 0x34 [])
unfolding pop_request build_request
popped_two_frames = refl

pop_request_sound_example :
    IsPopped two_frames
      (record { addr = some 16; cmd = 0x31; payload = [] })
      (build_request 1 0x34 [])
pop_request_sound_example =
    pop_request_sound two_frames (record { addr = some 16; cmd = 0x31; payload = [] })
      (build_request 1 0x34 []) popped_two_frames

decode_response_iff_example :
    (decode_response (0x00 ∷ 0x7f ∷ 0x06 ∷ []) ≡ some (short 0x06))
    ↔ Answers (0x00 ∷ 0x7f ∷ 0x06 ∷ []) (short 0x06)
decode_response_iff_example = decode_response_iff (0x00 ∷ 0x7f ∷ 0x06 ∷ []) (short 0x06)

decode_response-encode_data_response_example :
    decode_response ((0x00 ∷ []) ++ (encode_data_response (0x31 ∷ 0x32 ∷ []) ++ (0x55 ∷ [])))
    ≡ some (payload (0x31 ∷ 0x32 ∷ []))
decode_response-encode_data_response_example =
    decode_response-encode_data_response (0x00 ∷ []) (0x31 ∷ 0x32 ∷ []) (0x55 ∷ [])
      (refl, λ e. absurd (omega arith), tt) (omega arith, (omega arith, tt))

complement_lem_example : complement 0x31 ≡ 127 - 0x31 % 128
complement_lem_example = complement_lem 0x31 (omega arith)

abbrev type_b : TrkType
type_b = record { identifier = 0x42; volume_digits = 6; price_digits = 6; cost_digits = 8 }

type_b_listed : from_identifier 0x42 ≡ some type_b
unfolding from_identifier
type_b_listed = refl

decode_digits-encode_digits_example :
    decode_digits (encode_digits 1234567 6) ≡ some (1234567 % 10 ^ 6)
decode_digits-encode_digits_example = decode_digits-encode_digits 1234567 6 (omega arith)

numeric_requests-IsRead_example :
    IsRead (set_price 16 1250) 16 cmd_set_price 4 1250 (0x00 ∷ []) (0x7f ∷ [])
    × IsRead (set_decel_threshold 16 1250) 16 cmd_set_decel_threshold 3 1250 (0x00 ∷ []) (0x7f ∷ [])
    × IsRead (set_dose_rubles 16 1250) 16 cmd_set_dose_rubles 6 1250 (0x00 ∷ []) (0x7f ∷ [])
    × IsRead (set_dose_litres 16 1250) 16 cmd_set_dose_litres 5 1250 (0x00 ∷ []) (0x7f ∷ [])
unfolding is_start_byte
numeric_requests-IsRead_example =
    numeric_requests-IsRead (0x00 ∷ []) (0x7f ∷ []) 16 1250 (refl, tt) (omega arith) (omega arith)

parse_full_data-encode_digits_example :
    parse_full_data
      (encode_digits 2050 6 ++ (encode_digits 256250 8 ++ (encode_digits 12500 6 ++ (0x39 ∷ []))))
      type_b
    ≡ some (record { volume_centilitres = 2050; cost_kopecks = 256250; price_kopecks = 12500 })
parse_full_data-encode_digits_example =
    parse_full_data-encode_digits 0x42 type_b 2050 256250 12500 (0x39 ∷ []) type_b_listed
