-- ===== src/Engine/Nozzles.antt =====
-- services/dispenser-service/src/engine/state.rs: from hose codes to the nozzles of the configuration.
use Prim.Native.String.{String}
use fuel_station_controller.Base.{
  ℕ, ◌+◌, ◌-◌, Bool, true, false, ◌&&◌, ◌||◌, not, Option, none, some, List, [], ◌∷◌, length, ltb,
  ◌==◌, if◌then◌else◌,
}
use fuel_station_controller.Engine.Types.{
  NozzleConfig, FuelingPositionConfig, SiteConfig, ProductConfig, product, find_first, keep_if,
  first, active_nozzles,
}
use fuel_station_controller.Wayne.Frame.{is_nozzle_lift_code}
pub mod Resolved

-- Name, product and colour.
abbrev pub Product : Type 0
Product = String × (ℕ × String)

unfoldable pub unknown_product : ℕ → Product
unknown_product id = ("Unknown", (id, "#888888"))

unfoldable pub product_of : SiteConfig → NozzleConfig → Product
unfolding unknown_product product
product_of site n = elim (product site n.product_id) [
  | some p ↦ (p.name, (n.product_id, p.color))
  | none ↦ unknown_product n.product_id
]

unfoldable pub lookup_nozzle : SiteConfig → FuelingPositionConfig → ℕ → Product
unfolding product_of unknown_product
lookup_nozzle site fp nozzle_index = elim (find_first (λ n. n.index == nozzle_index) fp.nozzles) [
  | some n ↦ product_of site n
  | none ↦ elim (first fp.nozzles) [ some n ↦ product_of site n | none ↦ unknown_product 0 ]
]

-- `hose_code.saturating_add(0x10)` for a holster code.
unfoldable pub lift_code_of : ℕ → ℕ
unfolding is_nozzle_lift_code
lift_code_of hose_code = if is_nozzle_lift_code hose_code then hose_code else hose_code + 0x10

unfoldable pub both_match : ℕ → ℕ → NozzleConfig → Bool
both_match lift_code product_code n =
    not (n.wayne_code == 0)
    && (n.wayne_code == lift_code
        && (n.wayne_product_code == 0 || n.wayne_product_code == product_code))

unfoldable pub code_matches : ℕ → NozzleConfig → Bool
code_matches lift_code n = not (n.wayne_code == 0) && n.wayne_code == lift_code

-- The only nozzle with this product byte.
unfoldable pub only_product : ℕ → List NozzleConfig → Option NozzleConfig
only_product product_code active =
    if product_code == 0
    then none
    else elim (keep_if (λ n. n.wayne_product_code == product_code) active) [
      | [] ↦ none
      | n ∷ rest ↦ elim rest [ [] ↦ some n | m ∷ more ↦ none ]
    ]

unfoldable pub legacy_index : ℕ → List NozzleConfig → Option NozzleConfig
unfolding is_nozzle_lift_code
legacy_index hose_code active =
    if is_nozzle_lift_code hose_code
    then find_first (λ n. n.index == hose_code - 0x10) active
    else none

abbrev pub or_else {ℓ} : {A : Type ℓ} → Option A → Option A → Option A
or_else none other = other
or_else (some a) other = some a

-- The five rules in their order.
unfoldable pub wayne_nozzle : FuelingPositionConfig → ℕ → ℕ → Option NozzleConfig
unfolding lift_code_of both_match code_matches only_product legacy_index
wayne_nozzle fp product_code hose_code =
    let lift_code = lift_code_of hose_code in
    let active = active_nozzles fp in
    or_else (find_first (both_match lift_code product_code) active) (
      or_else (find_first (code_matches lift_code) active) (
        or_else (only_product product_code active)
          (or_else (legacy_index hose_code active) (first active))))

unfoldable pub resolve_wayne_nozzle : SiteConfig → FuelingPositionConfig → ℕ → ℕ → ℕ × Product
unfolding wayne_nozzle lookup_nozzle unknown_product
resolve_wayne_nozzle site fp product_code hose_code =
    elim (wayne_nozzle fp product_code hose_code) [
      | some n ↦ (n.index, lookup_nozzle site fp n.index)
      | none ↦ (1, unknown_product 0)
    ]

unfoldable pub wire_transaction_nozzle :
    SiteConfig → FuelingPositionConfig → Option ℕ → Option ℕ → Option ℕ
unfolding resolve_wayne_nozzle is_nozzle_lift_code
wire_transaction_nozzle site fp none hose_code = none
wire_transaction_nozzle site fp (some pp) none = none
wire_transaction_nozzle site fp (some pp) (some hh) =
    if not (is_nozzle_lift_code hh) then none else some (resolve_wayne_nozzle site fp pp hh).0
