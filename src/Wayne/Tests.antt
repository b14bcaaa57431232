-- ===== src/Wayne/Tests.antt =====
-- Runs of the protocol on concrete bytes, and the theorems of this folder at concrete inputs.
use fuel_station_controller.Base.{
  ℕ, ◌≡◌, refl, bit_and, true, false, some, List, [], ◌∷◌, get_or, min,
}
use fuel_station_controller.Wayne.Crc.{build_frame, crc16}
use fuel_station_controller.Wayne.Crc.Frames.{verify_crc-build_frame}
use fuel_station_controller.Wayne.Builder.{busy, encode_bcd_3}
use fuel_station_controller.Wayne.Builder.ReadBack.{decode_amount-encode_bcd_3}
use fuel_station_controller.Wayne.Bytes.{at, trim_garbage_prefix, verify_crc, is_short_frame}
use fuel_station_controller.Wayne.Fill.{decode_amount}
use fuel_station_controller.Wayne.Frame.{idle}
use fuel_station_controller.Wayne.Parser.{parse_frame}
use fuel_station_controller.Wayne.Parser.Verified.{
  is_harmless, parse_frame_unverified, IsFrom, parse_frame-IsFrom,
}
use fuel_station_controller.Wayne.Accumulator.{push_bytes}
use fuel_station_controller.Wayne.Accumulator.Bounds.{IsBounded, push_bytes-IsBounded}

busy_matches_doc : busy 0x52 ≡ 0x52 ∷ 0x30 ∷ 0x01 ∷ 0x01 ∷ 0x04 ∷ 0xe7 ∷ 0x5f ∷ 0x03 ∷ 0xfa ∷ []
unfolding busy build_frame crc16
busy_matches_doc = refl

-- A turnaround byte before an idle frame.
turnaround_before_idle : parse_frame (0xd2 ∷ 0x52 ∷ 0x70 ∷ 0xfa ∷ []) ≡ idle 0x52
unfolding parse_frame is_short_frame
turnaround_before_idle = refl

two_idles :
    push_bytes [] (0xd2 ∷ 0x52 ∷ 0x70 ∷ 0xfa ∷ 0xd3 ∷ 0x53 ∷ 0x70 ∷ 0xfa ∷ [])
    ≡ some ((0x52 ∷ 0x70 ∷ 0xfa ∷ []) ∷ (0x53 ∷ 0x70 ∷ 0xfa ∷ []) ∷ [], [])
unfolding push_bytes
two_idles = refl

-- A nozzle report whose second CRC byte is wrong.
abbrev spoiled : List ℕ
spoiled = 0x53 ∷ 0x3a ∷ 0x03 ∷ 0x04 ∷ 0x01 ∷ 0x05 ∷ 0x00 ∷ 0x12 ∷ 0xbf ∷ 0x28 ∷ 0x03 ∷ 0xfa ∷ []

spoiled_crc : verify_crc (trim_garbage_prefix spoiled) ≡ false
unfolding verify_crc trim_garbage_prefix
spoiled_crc = refl

parse_frame_unverified_example : is_harmless (parse_frame spoiled) ≡ true
parse_frame_unverified_example = parse_frame_unverified spoiled spoiled_crc

parse_frame-IsFrom_example :
    IsFrom (bit_and (at (trim_garbage_prefix spoiled) 0) 0x7f) (parse_frame spoiled)
parse_frame-IsFrom_example = parse_frame-IsFrom spoiled

push_bytes-IsBounded_example : IsBounded (push_bytes (0x52 ∷ []) (0x70 ∷ 0xfa ∷ 0x53 ∷ []))
push_bytes-IsBounded_example = push_bytes-IsBounded (0x52 ∷ []) (0x70 ∷ 0xfa ∷ 0x53 ∷ [])

verify_crc-build_frame_example :
    verify_crc (build_frame (0x52 ∷ 0x30 ∷ 0x01 ∷ 0x01 ∷ 0x04 ∷ [])) ≡ true
verify_crc-build_frame_example = verify_crc-build_frame (0x52 ∷ 0x30 ∷ 0x01 ∷ 0x01 ∷ 0x04 ∷ [])

decode_amount-encode_bcd_3_example :
    decode_amount 0
      (get_or (encode_bcd_3 50000) 0 0)
      (get_or (encode_bcd_3 50000) 1 0)
      (get_or (encode_bcd_3 50000) 2 0)
    ≡ min 50000 999999
decode_amount-encode_bcd_3_example = decode_amount-encode_bcd_3 50000
