-- ===== src/Engine/Prices.antt =====
-- services/dispenser-service/src/engine/state.rs, `sync_nozzles_from_config` and `set_nozzle_price`: the
-- price that a lane charges.
use fuel_station_controller.Base.{
  ℕ, Bool, true, false, Option, none, some, List, [], ◌∷◌, ◌≡◌, refl, ap, ◌∙◌, ◌==◌, arith,
  if◌then◌else◌,
}
use fuel_station_controller.Engine.Float.{Float}
use fuel_station_controller.Engine.Types.{NozzleConfig, active_nozzles}
use fuel_station_controller.Engine.Runtime.{RuntimeFp, Call, lookup, insert, prices_of, or_other}
use fuel_station_controller.Engine.Commands.{same_index}
use fuel_station_controller.Engine.Operator.{set_nozzle_price, show_price, sync_nozzles_from_config}

-- The price of the last nozzle with this index.
abbrev pub last_price : ℕ → List NozzleConfig → Option ℕ
last_price i [] = none
last_price i (n ∷ ns) = or_other (last_price i ns) (if n.index == i then some (n.price) else none)

lookup-insert :
    (i k v : ℕ) (m : List (ℕ × ℕ))
    → lookup i (insert k v m) ≡ (if k == i then some v else lookup i m)
lookup-insert i k v [] = refl
lookup-insert i k v ((j, w) ∷ rest) = let rest_law = lookup-insert i k v rest in grind arith

or_other_if :
    (o : Option ℕ) (b : Bool) (v : ℕ) (m : Option ℕ)
    → or_other o (if b then some v else m) ≡ or_other (or_other o (if b then some v else none)) m
or_other_if none true v m = refl
or_other_if none false v m = refl
or_other_if (some x) b v m = refl

lookup-prices_of :
    (i : ℕ) (ns : List NozzleConfig) (m : List (ℕ × ℕ))
    → lookup i (prices_of ns m) ≡ or_other (last_price i ns) (lookup i m)
lookup-prices_of i [] m = refl
lookup-prices_of i (n ∷ ns) m =
    lookup-prices_of i ns (insert n.index n.price m)
    ∙ ap (or_other (last_price i ns)) (lookup-insert i n.index n.price m)
    ∙ or_other_if (last_price i ns) (n.index == i) n.price (lookup i m)

-- The price in the display is not among the prices of the nozzles.
priced_list :
    (F : Float) (i price : ℕ) (s : RuntimeFp F.Carrier) (j : ℕ)
    → lookup j (show_price F i price s).nozzle_prices ≡ lookup j s.nozzle_prices
unfolding show_price
priced_list F i price s j = list_of (same_index F s.state.nozzle_index i)
  where
    list_of :
        (b : Bool)
        → lookup j
            (if b then record s { state = record s.state { price = price } } else s).nozzle_prices
          ≡ lookup j s.nozzle_prices
    list_of true = refl
    list_of false = refl

or_other-none : (o : Option ℕ) → or_other o none ≡ o
or_other-none none = refl
or_other-none (some v) = refl

-- After the nozzles are read from the configuration and a price is then set for a nozzle, the lane holds
-- that price for this nozzle, and for every other index the price of the last active nozzle of the
-- configuration with the index.
pub set_nozzle_price-sync :
    (F : Float) (c c' : Call) (s : RuntimeFp F.Carrier) (i price j : ℕ)
    → lookup j (set_nozzle_price F c' i price (sync_nozzles_from_config F c s)).1.nozzle_prices
      ≡ (if i == j then some price else last_price j (active_nozzles c.fp_cfg))
unfolding set_nozzle_price sync_nozzles_from_config show_price
set_nozzle_price-sync F c c' s i price j =
    let ns = active_nozzles c.fp_cfg in
    let synced = sync_nozzles_from_config F c s in
    priced_list F i price (record synced { nozzle_prices = insert i price synced.nozzle_prices }) j
    ∙ lookup-insert j i price (prices_of ns [])
    ∙ ap (λ o. if i == j then some price else o)
        (lookup-prices_of j ns [] ∙ or_other-none (last_price j ns))
