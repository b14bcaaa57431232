-- ===== src/Wayne/Builder.antt =====
-- crates/wayne-europump/src/builder.rs and dart.rs: the frames that the controller sends, without
-- the preset from litres, which is floating point. Prices and amounts are u32 and u64.
pub mod ReadBack
use fuel_station_controller.Base.{
  ℕ, zero, suc, ◌+◌, ◌*◌, ◌-◌, ◌/◌, ◌%◌, bit_or, Bool, true, false, Option, none, some, List, [],
  ◌∷◌, ◌++◌, length, take, get_elem?, get_or, ltb, ◌==◌, if◌then◌else◌, min,
}
use fuel_station_controller.Wayne.Crc.{build_frame}

unfoldable pub poll : ℕ → List ℕ
poll addr = addr ∷ 0x20 ∷ 0xfa ∷ []

unfoldable pub ack : ℕ → List ℕ
ack addr = addr ∷ 0xc0 ∷ 0xfa ∷ []

unfoldable pub busy : ℕ → List ℕ
busy addr = build_frame (addr ∷ 0x30 ∷ 0x01 ∷ 0x01 ∷ 0x04 ∷ [])

unfoldable pub stop : ℕ → List ℕ
stop addr = build_frame (addr ∷ 0x30 ∷ 0x01 ∷ 0x01 ∷ 0x08 ∷ [])

unfoldable pub stop_pre_frame : ℕ → List ℕ
stop_pre_frame addr = build_frame (addr ∷ 0x31 ∷ 0x01 ∷ 0x01 ∷ 0x08 ∷ [])

unfoldable pub done : ℕ → List ℕ
done addr = build_frame (addr ∷ 0x30 ∷ 0x01 ∷ 0x01 ∷ 0x05 ∷ [])

unfoldable pub authorize_initial : ℕ → List ℕ
authorize_initial addr = build_frame (addr ∷ 0x30 ∷ 0x01 ∷ 0x01 ∷ 0x04 ∷ 0x01 ∷ 0x01 ∷ 0x05 ∷ [])

-- Two decimal digits of `val` in one byte, the unit of the lower one given.
unfoldable pub digit_pair : ℕ → ℕ → ℕ
digit_pair val unit = bit_or (val / (10 * unit) % 10 * 16) (val / unit % 10)

-- `format!("{:06}", val.min(999_999))`, packed two digits a byte.
unfoldable pub encode_bcd_3 : ℕ → List ℕ
unfolding digit_pair
encode_bcd_3 val =
    let shown = min val 999999 in
    digit_pair shown 10000 ∷ digit_pair shown 100 ∷ digit_pair shown 1 ∷ []

unfoldable pub encode_price : ℕ → List ℕ
encode_price price_sum_per_litre =
    let val = price_sum_per_litre % 10000 in
    let hi = bit_or (val / 1000 * 16) (val / 100 % 10) % 256 in
    let lo = bit_or (val / 10 % 10 * 16) (val % 10) % 256 in hi ∷ lo ∷ []

pub record PresetBlock : Type 0 where
  pub kind : ℕ
  pub value : List ℕ

unfoldable pub volume_or_full : List ℕ → PresetBlock
volume_or_full value = record { kind = 0x03; value = value }

unfoldable pub amount_sum : ℕ → PresetBlock
unfolding encode_bcd_3
amount_sum amount = record { kind = 0x04; value = encode_bcd_3 (min amount 999999) }

-- `clamp(1, 4)`.
unfoldable pub clamp_channels : ℕ → ℕ
clamp_channels n = if ltb n 1 then 1 else if ltb 4 n then 4 else n

-- `for i in 1..=n`, from the channel `i` on.
unfoldable pub channels : ℕ → ℕ → List ℕ
channels i zero = []
channels i (suc left) = i ∷ channels (i + 1) left

-- The price byte of the channel `i`, or else its product code.
unfoldable pub price_byte : List ℕ → List ℕ → ℕ → ℕ
unfolding encode_price
price_byte product_codes prices i = elim (get_elem? prices i) [
  | some p ↦ if ltb 0 p then get_or (encode_price p) 0 0 else get_or product_codes i 0
  | none ↦ get_or product_codes i 0
]

-- `for i in 0..n`, from the channel `i` on with `left` channels to go.
unfoldable pub product_map : List ℕ → List ℕ → ℕ → ℕ → List ℕ
unfolding price_byte
product_map product_codes prices i zero = []
product_map product_codes prices i (suc left) =
    let flag = if left == 0 then 0x30 else 0x00 in
    0x01 ∷ price_byte product_codes prices i ∷ flag ∷ product_map product_codes prices (i + 1) left

unfoldable pub authorize_config_with_preset_block : ℕ → List ℕ → List ℕ → PresetBlock → List ℕ
unfolding clamp_channels channels product_map
authorize_config_with_preset_block addr product_codes prices preset =
    let n = clamp_channels (length product_codes) in
    let payload =
      (addr ∷ 0x30 ∷ 0x01 ∷ 0x01 ∷ 0x05 ∷ 0x02 ∷ n ∷ channels 1 n)
      ++ ((0x05 ∷ n * 3 ∷ product_map product_codes prices 0 n)
          ++ ((preset.kind ∷ 0x04 ∷ 0x00 ∷ preset.value) ++ (0x01 ∷ 0x01 ∷ 0x06 ∷ []))) in
    build_frame payload

unfoldable pub authorize_config : ℕ → List ℕ → List ℕ → List ℕ → List ℕ
unfolding authorize_config_with_preset_block volume_or_full
authorize_config addr product_codes prices limit_bcd =
    authorize_config_with_preset_block addr product_codes prices (volume_or_full limit_bcd)

unfoldable pub stop_frame : ℕ → List ℕ
unfolding stop
stop_frame addr =
    if addr == 0x50
    then 0x50 ∷ 0x30 ∷ 0x01 ∷ 0x01 ∷ 0x08 ∷ 0x9e ∷ 0x9a ∷ 0x03 ∷ 0xfa ∷ []
    else if addr == 0x51
    then 0x51 ∷ 0x30 ∷ 0x01 ∷ 0x01 ∷ 0x08 ∷ 0xa3 ∷ 0x5a ∷ 0x03 ∷ 0xfa ∷ []
    else if addr == 0x52
    then 0x52 ∷ 0x30 ∷ 0x01 ∷ 0x01 ∷ 0x08 ∷ 0xe7 ∷ 0x5a ∷ 0x03 ∷ 0xfa ∷ []
    else if addr == 0x53
    then 0x53 ∷ 0x30 ∷ 0x01 ∷ 0x01 ∷ 0x08 ∷ 0xda ∷ 0x9a ∷ 0x03 ∷ 0xfa ∷ []
    else stop addr

-- `format!("{:04}", price.min(9999))`, packed two digits a byte.
unfoldable pub encode_dart_price : ℕ → List ℕ
unfolding digit_pair
encode_dart_price price =
    let shown = min price 9999 in digit_pair shown 100 ∷ digit_pair shown 1 ∷ []

unfoldable pub dart_prices : List ℕ → List ℕ
unfolding encode_dart_price
dart_prices [] = []
dart_prices (price ∷ prices) = (0x00 ∷ encode_dart_price price) ++ dart_prices prices

unfoldable pub pre_authorise_price : ℕ → List ℕ → ℕ → List ℕ
unfolding clamp_channels dart_prices
pre_authorise_price addr nozzle_prices active_nozzle =
    let n = clamp_channels (length nozzle_prices) in
    build_frame (
      (addr ∷ 0x30 ∷ 0x05 ∷ n * 3 ∷ dart_prices (take n nozzle_prices))
      ++ (0x02 ∷ 0x01 ∷ active_nozzle ∷ 0x01 ∷ 0x01 ∷ 0x05 ∷ []))

unfoldable pub authorise_cmd : ℕ → ℕ → ℕ → ℕ → ℕ → List ℕ
authorise_cmd addr active_nozzle limit_0 limit_1 limit_2 = build_frame (
    addr ∷ 0x30 ∷ 0x04 ∷ 0x04 ∷ 0x00 ∷ limit_0 ∷ limit_1 ∷ limit_2 ∷ 0x02 ∷ 0x01 ∷ active_nozzle
    ∷ 0x01 ∷ 0x01 ∷ 0x06 ∷ [])
