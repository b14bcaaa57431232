-- ===== src/Bluesky/Parser.antt =====
-- crates/texnouz-bluesky/src/parser.rs: payload widths are checked before a field is decoded.
use fuel_station_controller.Base.{
  ℕ, ◌*◌, ◌+◌, Option, none, some, List, [], ◌∷◌, ◌==◌, if◌then◌else◌, length, take, drop, get_or,
  ◌>>=◌,
}
use fuel_station_controller.Bluesky.Codec.{decode_bcd}
use fuel_station_controller.Bluesky.Commands.{price_bytes, fill_bytes, totals_bytes}
use fuel_station_controller.Bluesky.Frame.{FillData, Totals, PresetReadback}

-- `BlueSkyStatus` is its byte.
unfoldable pub parse_status : List ℕ → Option ℕ
parse_status [] = none
parse_status (b ∷ []) = some b
parse_status (b ∷ c ∷ bs) = none

unfoldable pub parse_fill : List ℕ → Option FillData
parse_fill bytes =
    let fields : Option FillData = (do
      volume ← decode_bcd (take fill_bytes bytes)
      amount ← decode_bcd (drop fill_bytes bytes)
      some (record { volume_centilitres = volume; amount_wire = amount })) in
    if length bytes == fill_bytes * 2 then fields else none

unfoldable pub parse_price : List ℕ → Option ℕ
parse_price bytes = if length bytes == price_bytes then decode_bcd bytes else none

unfoldable pub parse_totals : List ℕ → Option Totals
parse_totals bytes =
    let fields : Option Totals = (do
      volume ← decode_bcd (take totals_bytes bytes)
      amount ← decode_bcd (drop totals_bytes bytes)
      some (record { volume_centilitres = volume; amount_wire = amount })) in
    if length bytes == totals_bytes * 2 then fields else none

unfoldable pub parse_preset : List ℕ → Option PresetReadback
parse_preset bytes =
    let fields : Option PresetReadback =
      (decode_bcd (drop 1 bytes) >>= λ v. some (record { kind = get_or bytes 0 0; value = v })) in
    if length bytes == 1 + fill_bytes then fields else none

unfoldable pub parse_error_code : List ℕ → Option ℕ
parse_error_code [] = none
parse_error_code (b ∷ []) = some b
parse_error_code (b ∷ c ∷ bs) = none

unfoldable pub parse_id : List ℕ → Option (List ℕ)
parse_id bytes = if length bytes == 4 then some bytes else none
