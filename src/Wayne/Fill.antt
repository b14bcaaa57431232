-- ===== src/Wayne/Fill.antt =====
-- crates/wayne-europump/src/parser.rs: the meter block inside a frame and the hose status beside it.
use fuel_station_controller.Base.{
  ℕ, zero, suc, ◌+◌, ◌-◌, ◌*◌, ◌/◌, ◌%◌, Bool, false, ◌&&◌, ◌||◌, Option, none, some, List, [], ◌∷◌,
  length, drop, ltb, leb, ◌==◌, if◌then◌else◌, ◌>>=◌,
}
use fuel_station_controller.Wayne.Bytes.{at}
use fuel_station_controller.Wayne.Frame.{is_nozzle_holster_code, is_nozzle_lift_code}

pub record FillDataFields : Type 0 where
  pub volume_x1 : ℕ
  pub volume_x2 : ℕ
  pub volume_l : ℕ
  pub volume_h : ℕ
  pub amount : List ℕ
  pub sale_complete : Bool
  pub hose_product : Option ℕ
  pub hose_code : Option ℕ

-- `for off in 2..len - 9`, from `off` on with `left` offsets to go.
unfoldable pub scan_meter : List ℕ → ℕ → ℕ → Option (ℕ × Bool)
scan_meter inner off zero = none
scan_meter inner off (suc left) =
    let next = scan_meter inner (off + 1) left in
    let config_echo =
      leb 6 off && (at inner 2 == 0x03 && (at inner 3 == 0x04 && at inner 4 == 0x00)) in
    if at inner off == 0x02 && at inner (off + 1) == 0x08 then some (off, config_echo) else next

unfoldable pub find_fill_data_offset : List ℕ → Option (ℕ × Bool)
unfolding scan_meter
find_fill_data_offset inner =
    let n = length inner in
    if leb 12 n && (at inner 2 == 0x02 && at inner 3 == 0x08)
    then some (2, false)
    else if leb 15 n
        && (at inner 2 == 0x01
            && (at inner 3 == 0x01
                && (at inner 4 == 0x04 && (at inner 5 == 0x02 && at inner 6 == 0x08))))
    then some (5, false)
    else scan_meter inner 2 (n - 9 - 2)

-- The loop of `scan_embedded_hose_status` from the position `i`, with `left` positions to go; the
-- last match counts.
unfoldable pub scan_hose : List ℕ → ℕ → ℕ → Option (ℕ × ℕ) → Option (ℕ × ℕ)
unfolding is_nozzle_holster_code
scan_hose body i zero found = found
scan_hose body i (suc left) found =
    let product = if at body (i + 4) == 0x00 then at body (i + 3) else at body (i + 4) in
    let found_here =
      if at body i == 0x03 && at body (i + 1) == 0x04
      then (if at body (i + 2) == 0x01
          then some (at body (i + 3), at body (i + 5))
          else if at body (i + 2) == 0x00 && is_nozzle_holster_code (at body (i + 5))
          then some (product, at body (i + 5))
          else found)
      else found in
    scan_hose body (i + 1) left found_here

unfoldable pub scan_embedded_hose_status : List ℕ → Option (ℕ × ℕ)
unfolding scan_hose
scan_embedded_hose_status body =
    if ltb (length body) 6 then none else scan_hose body 0 (length body - 6 + 1) none

unfoldable pub embedded_hose_from_fill : List ℕ → ℕ → Bool → Option ℕ × Option ℕ
unfolding scan_embedded_hose_status is_nozzle_lift_code
embedded_hose_from_fill inner off config_echo = elim (scan_embedded_hose_status inner) [
  | some (p, h) ↦ (some p, some h)
  | none ↦
      if config_echo && leb 6 off && is_nozzle_lift_code (at inner (off - 1))
      then (some (at inner (off - 2)), some (at inner (off - 1) - 0x10))
      else (none, none)
]

-- `windows(3)` with a window `01 01 XX` whose last byte is 01, 05 or 06.
unfoldable pub any_done : List ℕ → Bool
any_done [] = false
any_done (a ∷ []) = false
any_done (a ∷ b ∷ []) = false
any_done (a ∷ b ∷ c ∷ rest) =
    (a == 0x01 && (b == 0x01 && (c == 0x01 || (c == 0x05 || c == 0x06)))) || any_done (b ∷ c ∷ rest)

unfoldable pub parse_fill_data_block : List ℕ → Option FillDataFields
unfolding find_fill_data_offset any_done embedded_hose_from_fill
parse_fill_data_block inner = do
  (off, config_echo) ← find_fill_data_offset inner
  let hose = embedded_hose_from_fill inner off config_echo
  if ltb (length inner) (off + 10)
      then none
      else some (record {
        volume_x1 = at inner (off + 2);
        volume_x2 = at inner (off + 3);
        volume_l = at inner (off + 4);
        volume_h = at inner (off + 5);
        amount =
            at inner (off + 6) ∷ at inner (off + 7) ∷ at inner (off + 8) ∷ at inner (off + 9) ∷ [];
        sale_complete = any_done (drop (off + 10) inner);
        hose_product = hose.0;
        hose_code = hose.1;
      })

-- The digits of `format!("{:02X}")`, two for each byte; a letter makes `parse` fail.
unfoldable pub hex_digits : List ℕ → ℕ → Option ℕ
hex_digits [] acc = some acc
hex_digits (b ∷ rest) acc =
    let more = hex_digits rest (acc * 100 + b / 16 * 10 + b % 16) in
    if ltb 9 (b / 16) || ltb 9 (b % 16) then none else more

unfoldable pub unwrap_or : Option ℕ → ℕ → ℕ
unwrap_or none d = d
unwrap_or (some v) d = v

-- Eight digits at most, so `u64` holds the number.
unfoldable pub decode_amount : ℕ → ℕ → ℕ → ℕ → ℕ
unfolding hex_digits unwrap_or
decode_amount p0 a1 a2 a3 = unwrap_or (hex_digits (p0 ∷ a1 ∷ a2 ∷ a3 ∷ []) 0) 0
