-- ===== src/Gilbarco/Parser.antt =====
-- crates/gilbarco/src/parser.rs: status bytes, live display, nozzle and transaction frames.
pub mod Digits
pub mod Status
pub mod Transaction
use fuel_station_controller.Base.{
  ℕ, zero, suc, ◌+◌, ◌-◌, ◌*◌, ◌/◌, ◌%◌, ◌^◌, bit_and, bit_or, Bool, true, false, ◌&&◌, ◌||◌, not,
  Option, none, some, List, [], ◌∷◌, ◌++◌, length, get_or, take, drop, ltb, leb, ◌==◌, position,
  if◌then◌else◌, ◌>>=◌,
}
use fuel_station_controller.Gilbarco.Lrc.{gilbarco_lrc_valid}

pub data GilbarcoStatus : Type 0 where
  idle nozzle_lifted ready delivering transaction_complete stopped listen_mode : GilbarcoStatus
  offline : GilbarcoStatus

pub record TransactionData : Type 0 where
  pub unit_price_raw : ℕ
  pub volume_raw : ℕ
  pub amount_raw : ℕ

pub record TotalsData : Type 0 where
  pub nozzle_index : ℕ
  pub volume_total_raw : ℕ
  pub amount_total_raw : ℕ
  pub unit_price_raw : ℕ

unfoldable pub parse_status_byte : ℕ → ℕ → GilbarcoStatus
parse_status_byte addr b =
    let high = bit_and b 0xf0 in
    if not (bit_and b 0x0f == bit_and addr 0x0f)
    then offline
    else if high == 0x60
    then idle
    else if high == 0x70
    then nozzle_lifted
    else if high == 0x80
    then ready
    else if high == 0x90
    then delivering
    else if high == 0xa0 || high == 0xb0
    then transaction_complete
    else if high == 0xc0
    then stopped
    else if high == 0xd0
    then listen_mode
    else offline

-- `try_fold` over the bytes with their index. No field has more than eight digits, so `u64` holds
-- every sum.
unfoldable pub decode_e_digits_from : ℕ → ℕ → List ℕ → Option ℕ
decode_e_digits_from i acc [] = some acc
decode_e_digits_from i acc (b ∷ bs) =
    let more = decode_e_digits_from (i + 1) (acc + bit_and b 0x0f * 10 ^ i) bs in
    if not (bit_and b 0xf0 == 0xe0) || ltb 9 (bit_and b 0x0f) then none else more

unfoldable pub decode_e_digits : List ℕ → Option ℕ
unfolding decode_e_digits_from
decode_e_digits bytes = decode_e_digits_from 0 0 bytes

unfoldable pub decode_le_bcd : List ℕ → Option ℕ
unfolding decode_e_digits
decode_le_bcd bytes = decode_e_digits bytes

abbrev pub or_else {ℓ} : {A : Type ℓ} → Option A → Option A → Option A
or_else none other = other
or_else (some a) other = some a

-- `buf.windows(6).find_map(decode_e_digits)`
unfoldable pub parse_display_response : List ℕ → Option ℕ
unfolding decode_e_digits
parse_display_response [] = none
parse_display_response (b ∷ bs) =
    let next = parse_display_response bs in
    if ltb (length (b ∷ bs)) 6 then none else or_else (decode_e_digits (take 6 (b ∷ bs))) next

abbrev pub live_amount_scale_soum : ℕ
live_amount_scale_soum = 10

-- The raw amount has six digits at most, so the product does not wrap.
unfoldable pub live_amount_raw_to_soum : ℕ → ℕ
live_amount_raw_to_soum amount_raw = amount_raw * live_amount_scale_soum

unfoldable pub parse_nozzle_response : List ℕ → Option ℕ
parse_nozzle_response buf = do
  start ← position (λ b. b == 0xe9 || b == 0xe5) buf
  let payload = drop start buf
  if ltb (length payload) 7 then none else some 1

unfoldable pub decode_b_no : ℕ → Option ℕ
decode_b_no b =
    let value = bit_and b 0x0f in
    if not (bit_and b 0xf0 == 0xb0) then none else if ltb 0 value then some value else none

-- `buf.windows(2).position(|w| w == [0xF0, 0xBA])`
unfoldable pub find_f0_ba : List ℕ → Option ℕ
find_f0_ba [] = none
find_f0_ba (a ∷ []) = none
find_f0_ba (a ∷ b ∷ bs) =
    let next = find_f0_ba (b ∷ bs) >>= λ i. some (i + 1) in
    if a == 0xf0 && b == 0xba then some 0 else next

unfoldable pub all_nozzle_frame : List ℕ → Option (List ℕ)
unfolding find_f0_ba
all_nozzle_frame buf = elim (find_f0_ba buf) [
  | some pos ↦ some (drop (pos + 1) buf)
  | none ↦ position (λ b. b == 0xba) buf >>= λ pos. some (drop pos buf)
]

unfoldable pub parse_all_nozzle_response : List ℕ → Option (ℕ × ℕ)
unfolding all_nozzle_frame decode_b_no
parse_all_nozzle_response buf = do
  frame ← all_nozzle_frame buf
  if leb (length frame) 14 then none else (do
    pump ← decode_b_no (get_or frame 3 0)
    nozzle ← decode_b_no (get_or frame 14 0)
    some (pump, nozzle))

abbrev pub at : List ℕ → ℕ → ℕ
at buf i = get_or buf i 0

-- The markers of the transaction frame.
unfoldable pub has_markers : List ℕ → Bool
has_markers buf =
    at buf 0 == 0xff
    && (at buf 1 == 0xf1
        && (at buf 2 == 0xf8
            && (at buf 3 == 0xeb
                && (at buf 8 == 0xf6
                    && (at buf 10 == 0xf4
                        && (at buf 11 == 0xf7
                            && (at buf 16 == 0xf9
                                && (at buf 23 == 0xfa
                                    && (at buf 30 == 0xfb && at buf 32 == 0xf0)))))))))

unfoldable pub transaction_fields : List ℕ → Option TransactionData
unfolding decode_le_bcd
transaction_fields buf = do
  price ← decode_le_bcd (take 4 (drop 12 buf))
  volume ← decode_le_bcd (take 6 (drop 17 buf))
  amount ← decode_le_bcd (take 6 (drop 24 buf))
  some (record { unit_price_raw = price; volume_raw = volume; amount_raw = amount })

unfoldable pub parse_transaction_frame : List ℕ → Option TransactionData
unfolding has_markers transaction_fields
parse_transaction_frame buf =
    if ltb (length buf) 33
    then none
    else if not (has_markers buf)
    then none
    else if not (gilbarco_lrc_valid (take 31 buf) (at buf 31))
    then none
    else transaction_fields buf

-- The first position that holds `0xFF` and a valid frame.
unfoldable pub parse_transaction_response : List ℕ → Option TransactionData
unfolding parse_transaction_frame
parse_transaction_response [] = none
parse_transaction_response (b ∷ bs) =
    let next = parse_transaction_response bs in
    if b == 0xff then or_else (parse_transaction_frame (b ∷ bs)) next else next
