-- ===== src/Azt/Parser.antt =====
-- crates/azt/src/parser.rs: typed values out of the payload of a reply.
pub mod RoundTrip
use fuel_station_controller.Base.{
  ℕ, zero, suc, ◌+◌, ◌-◌, ◌*◌, ◌/◌, ◌%◌, ◌^◌, Bool, true, false, ◌||◌, not, Option, none, some,
  List, [], ◌∷◌, ◌++◌, ltb, ◌==◌, if◌then◌else◌, length, take, drop, get_elem?, ◌>>=◌,
}
use fuel_station_controller.Azt.Frame.{
  AztStatus, from_bytes, CurrentData, FullData, TrkType, from_identifier, decode_digits,
}

unfoldable pub parse_status : List ℕ → Option AztStatus
parse_status bytes = do status ← get_elem? bytes 0; some (from_bytes status (get_elem? bytes 1))

unfoldable pub parse_current_data : List ℕ → Option CurrentData
parse_current_data bytes =
    if ltb (length bytes) 6
    then none
    else (decode_digits (take 6 bytes) >>= λ v. some (record { volume_centilitres = v }))

-- `volume_digits` digits, `cost_digits` digits, `price_digits` digits.
unfoldable pub parse_full_data : List ℕ → TrkType → Option FullData
parse_full_data bytes trk =
    let l = trk.volume_digits in
    let t = trk.cost_digits in
    let m = trk.price_digits in
    let fields : Option FullData = (do
      volume ← decode_digits (take l bytes)
      cost ← decode_digits (take t (drop l bytes))
      price ← decode_digits (take m (drop (l + t) bytes))
      some (record { volume_centilitres = volume; cost_kopecks = cost; price_kopecks = price })) in
    if ltb (length bytes) (l + t + m) then none else fields

unfoldable pub parse_totals : List ℕ → Option (ℕ × ℕ)
parse_totals bytes =
    let n = length bytes / 2 in
    let halves : Option (ℕ × ℕ) = (do
      litres ← decode_digits (take n bytes)
      kopecks ← decode_digits (drop n bytes)
      some (litres, kopecks)) in
    if length bytes == 0 || not (length bytes % 2 == 0) then none else halves

unfoldable pub parse_trk_type : List ℕ → Option TrkType
parse_trk_type bytes = get_elem? bytes 0 >>= from_identifier

-- `v as u32` keeps the low 32 bits.
unfoldable pub parse_protocol_version : List ℕ → Option ℕ
parse_protocol_version bytes =
    if ltb (length bytes) 8 then none else (decode_digits (take 8 bytes) >>= λ v. some (v % 2 ^ 32))

unfoldable pub parse_transaction_number : List ℕ → Option ℕ
parse_transaction_number bytes = if ltb (length bytes) 8 then none else decode_digits (take 8 bytes)
