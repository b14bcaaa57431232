-- ===== src/Engine/Types.antt =====
-- crates/types/src/lib.rs and the catalogue of crates/config/src/lib.rs: the data that the engine
-- keeps and reports. `V` is the type of volumes, and a time is in milliseconds.
use Prim.Native.String.{String, ◌++◌ as append}
use Prim.Native.Char.{code}
use fuel_station_controller.Base.{
  ℕ, zero, suc, ◌+◌, ◌/◌, ◌%◌, Bool, true, false, ◌&&◌, Option, none, some, List, [], ◌∷◌, leb, ltb,
  ◌==◌, if◌then◌else◌,
}
use fuel_station_controller.Engine.Float.{Float}

pub data StopSource : Type 0 where
  app app_final external : StopSource

pub data FpStatus (V : Type 0) : Type 0 where
  offline idle pre_authorized nozzle_up authorizing delivering finalizing done : FpStatus V
  stopped : V → ℕ → String → StopSource → FpStatus V

pub data PreAuthCancelWait : Type 0 where
  awaiting_status keypad_preset : PreAuthCancelWait

pub data Preset (V : Type 0) : Type 0 where
  str : String → Preset V
  amount : ℕ → Preset V
  volume : V → Preset V

pub data TxStatus : Type 0 where
  completed aborted tx_stopped : TxStatus
  continued_from : String → TxStatus

pub record Transaction (V : Type 0) : Type 0 where
  pub id : String
  pub fp_id : String
  pub label : String
  pub address_byte : ℕ
  pub started_at : ℕ
  pub completed_at : Option ℕ
  pub volume : V
  pub amount : ℕ
  pub price : ℕ
  pub nozzle_index : ℕ
  pub product_id : ℕ
  pub product_name : String
  pub preset_type : Option String
  pub preset_value : Option V
  pub preset_label : Option String
  pub status : TxStatus
  pub shift_id : Option String
  pub operator_name : Option String
  pub parent_tx_id : Option String
  pub combined_volume : V
  pub combined_amount : ℕ

-- Without the lifetime totals and the protocol error, which the other drivers fill in.
pub record FpState (V : Type 0) : Type 0 where
  pub fp_id : String
  pub label : String
  pub address_byte : ℕ
  pub status : FpStatus V
  pub volume : V
  pub amount : ℕ
  pub price : ℕ
  pub nozzle_index : Option ℕ
  pub product_id : Option ℕ
  pub product_name : Option String
  pub product_color : Option String
  pub nozzle_count : ℕ
  pub seq : ℕ
  pub missed_polls : ℕ
  pub updated_at : ℕ
  pub stopped_tx_id : Option String
  pub base_volume : Option V
  pub base_amount : Option ℕ
  pub segment_volume : Option V
  pub segment_amount : Option ℕ
  pub pre_auth_preset : Option String
  pub pre_auth_cancel_wait : Option PreAuthCancelWait
  pub stop_source : Option StopSource

pub record NozzleConfig : Type 0 where
  pub index : ℕ
  pub product_id : ℕ
  pub price : ℕ
  pub active : Bool
  pub wayne_code : ℕ
  pub wayne_product_code : ℕ

pub record FuelingPositionConfig : Type 0 where
  pub id : String
  pub label : String
  pub address_byte : ℕ
  pub active : Bool
  pub nozzles : List NozzleConfig

pub record ProductConfig : Type 0 where
  pub id : ℕ
  pub name : String
  pub color : String

-- The part of the site's configuration that the engine reads.
pub record SiteConfig : Type 0 where
  pub products : List ProductConfig
  pub fueling_positions : List FuelingPositionConfig
  pub reconnect_settle_rounds : ℕ

unfoldable pub is_stopped : {V : Type 0} → FpStatus V → Bool
is_stopped (stopped v a i s) = true
is_stopped _ = false

-- The bytes of a text in lower case, for `eq_ignore_ascii_case`.
unfoldable pub lower_codes : String → List ℕ
lower_codes String.[] = []
lower_codes (String.◌∷◌ c s) =
    (if leb 65 (code c) && leb (code c) 90 then code c + 32 else code c) ∷ lower_codes s

unfoldable pub same_codes : List ℕ → List ℕ → Bool
same_codes [] [] = true
same_codes [] (b ∷ bs) = false
same_codes (a ∷ as_) [] = false
same_codes (a ∷ as_) (b ∷ bs) = a == b && same_codes as_ bs

-- `s.eq_ignore_ascii_case("full")`
unfoldable pub is_full_text : String → Bool
unfolding lower_codes same_codes
is_full_text s = same_codes (lower_codes s) (lower_codes "full")

unfoldable pub is_full : {V : Type 0} → Preset V → Bool
unfolding is_full_text
is_full (str s) = is_full_text s
is_full (amount a) = false
is_full (volume v) = false

abbrev digit_text : ℕ → String
digit_text n =
    if n == 0
    then "0"
    else if n == 1
    then "1"
    else if n == 2
    then "2"
    else if n == 3
    then "3"
    else if n == 4
    then "4"
    else if n == 5
    then "5"
    else if n == 6
    then "6"
    else if n == 7
    then "7"
    else if n == 8
    then "8"
    else "9"

-- `format!("{n}")` of a number with `fuel + 1` digits at most; a `u64` has twenty.
unfoldable pub show_nat : ℕ → ℕ → String
show_nat zero n = digit_text (n % 10)
show_nat (suc fuel) n =
    let rest = show_nat fuel (n / 10) in
    if ltb n 10 then digit_text n else append rest (digit_text (n % 10))

module _ (F : Float) where
  open F use {Carrier, of_nat, at_most, show_2}

  unfoldable pub preset_label : Preset Carrier → String
  unfolding is_full_text show_nat
  preset_label (str s) = if is_full_text s then "Full tank" else "Preset"
  preset_label (volume v) = append (show_2 v) " L"
  preset_label (amount a) = append (show_nat 19 a) " sum"

  unfoldable pub preset_metadata : Preset Carrier → Option String × (Option Carrier × Option String)
  unfolding preset_label is_full_text
  preset_metadata (str s) =
      if is_full_text s
      then (some "full", (none, some (preset_label (str s))))
      else (none, (none, none))
  preset_metadata (volume v) = (some "volume", (some v, some (preset_label (volume v))))
  preset_metadata (amount a) = (some "amount", (some (of_nat a), some (preset_label (amount a))))

  -- `TxStatus::resolve`
  unfoldable pub resolve : Carrier → Bool → TxStatus
  resolve v completed_normally =
      if at_most v (of_nat 0) then aborted else if completed_normally then completed else tx_stopped

unfoldable pub counts_toward_revenue : TxStatus → Bool
counts_toward_revenue aborted = false
counts_toward_revenue completed = true
counts_toward_revenue tx_stopped = true
counts_toward_revenue (continued_from parent) = true

abbrev pub find_first {ℓ} : {A : Type ℓ} → (A → Bool) → List A → Option A
find_first p [] = none
find_first p (x ∷ xs) = let next = find_first p xs in if p x then some x else next

abbrev pub keep_if {ℓ} : {A : Type ℓ} → (A → Bool) → List A → List A
keep_if p [] = []
keep_if p (x ∷ xs) = let rest = keep_if p xs in if p x then x ∷ rest else rest

abbrev pub map_option {ℓ κ} : {A : Type ℓ} {B : Type κ} → (A → B) → Option A → Option B
map_option f none = none
map_option f (some a) = some (f a)

abbrev pub first {ℓ} : {A : Type ℓ} → List A → Option A
first [] = none
first (x ∷ xs) = some x

abbrev pub active_nozzles : FuelingPositionConfig → List NozzleConfig
active_nozzles fp = keep_if (λ n. n.active) fp.nozzles

unfoldable pub default_price : FuelingPositionConfig → Option ℕ
default_price fp = map_option (λ n. n.price) (first (active_nozzles fp))

unfoldable pub product : SiteConfig → ℕ → Option ProductConfig
product site id = find_first (λ p. p.id == id) site.products

unfoldable pub position_by_addr : SiteConfig → ℕ → Option FuelingPositionConfig
position_by_addr site addr =
    find_first (λ p. p.address_byte == addr && p.active) site.fueling_positions

unfoldable pub price_for : SiteConfig → ℕ → ℕ → Option ℕ
unfolding position_by_addr
price_for site addr nozzle_index = elim (position_by_addr site addr) [
  | none ↦ none
  | some pos ↦
      map_option (λ n. n.price) (find_first (λ n. n.index == nozzle_index && n.active) pos.nozzles)
]
