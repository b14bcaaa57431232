-- ===== src/Engine/Nozzles/Resolved.antt =====
-- services/dispenser-service/src/engine/state.rs, `resolve_wayne_nozzle`: which nozzle it names.
use fuel_station_controller.Base.{
  ℕ, ◌-◌, Bool, true, false, ◌||◌, Option, none, some, List, [], ◌∷◌, ◌≡◌, refl, ◌⊎◌, inl, inr,
  ◌==◌, ==_self, if◌then◌else◌,
}
use mathlib.Core.Path.{subst, sym}
use fuel_station_controller.Engine.Types.{
  NozzleConfig, FuelingPositionConfig, SiteConfig, find_first, keep_if, first, active_nozzles,
}
use fuel_station_controller.Engine.Nozzles.{
  lift_code_of, both_match, code_matches, only_product, legacy_index, or_else, wayne_nozzle,
  resolve_wayne_nozzle, lookup_nozzle, unknown_product,
}
use fuel_station_controller.Wayne.Frame.{is_nozzle_lift_code}

abbrev pub has_index : ℕ → List NozzleConfig → Bool
has_index i [] = false
has_index i (n ∷ ns) = n.index == i || has_index i ns

-- A nozzle of the list, or none.
data IsIndexed (xs : List NozzleConfig) : Option NozzleConfig → Type 0 where
  nothing : IsIndexed xs none
  one : {n : NozzleConfig} → has_index n.index xs ≡ true → IsIndexed xs (some n)

data IsFound (xs : List NozzleConfig) : Option NozzleConfig → Type 0 where
  empty : xs ≡ [] → IsFound xs none
  found : {n : NozzleConfig} → has_index n.index xs ≡ true → IsFound xs (some n)

IsIndexed-if :
    {xs : List NozzleConfig} (b : Bool) {o p : Option NozzleConfig}
    → IsIndexed xs o
    → IsIndexed xs p
    → IsIndexed xs (if b then o else p)
IsIndexed-if true ho hp = ho
IsIndexed-if false ho hp = hp

or_true : (b : Bool) → (b || true) ≡ true
or_true true = refl
or_true false = refl

here_index : (n : NozzleConfig) (ns : List NozzleConfig) → has_index n.index (n ∷ ns) ≡ true
here_index n ns = let e = ==_self n.index in rw e refl

later :
    (x : NozzleConfig) {xs : List NozzleConfig} {o : Option NozzleConfig}
    → IsIndexed xs o
    → IsIndexed (x ∷ xs) o
later x nothing = nothing
later x (one {n = n} h) = one (rw h (or_true (x.index == n.index)))

find_first-IsIndexed :
    (p : NozzleConfig → Bool) (xs : List NozzleConfig) → IsIndexed xs (find_first p xs)
find_first-IsIndexed p [] = nothing
find_first-IsIndexed p (x ∷ xs) =
    IsIndexed-if (p x) (one (here_index x xs)) (later x (find_first-IsIndexed p xs))

first-keep_if :
    (p : NozzleConfig → Bool) (xs : List NozzleConfig) → first (keep_if p xs) ≡ find_first p xs
first-keep_if p [] = refl
first-keep_if p (x ∷ xs) = first_of (p x) x (keep_if p xs) (first-keep_if p xs)
  where
    first_of :
        (b : Bool) (x : NozzleConfig) (ys : List NozzleConfig) {o : Option NozzleConfig}
        → first ys ≡ o
        → first (if b then x ∷ ys else ys) ≡ (if b then some x else o)
    first_of true x ys e = refl
    first_of false x ys e = e

only_one-IsIndexed :
    {xs : List NozzleConfig} (ys : List NozzleConfig)
    → IsIndexed xs (first ys)
    → IsIndexed xs (elim ys [ [] ↦ none | n ∷ rest ↦ elim rest [ [] ↦ some n | m ∷ more ↦ none ] ])
only_one-IsIndexed [] h = nothing
only_one-IsIndexed (n ∷ []) h = h
only_one-IsIndexed (n ∷ m ∷ more) h = nothing

only_product-IsIndexed : (code : ℕ) (xs : List NozzleConfig) → IsIndexed xs (only_product code xs)
unfolding only_product
only_product-IsIndexed code xs =
    let p = λ (n : NozzleConfig). n.wayne_product_code == code in
    IsIndexed-if (code == 0) nothing (
      only_one-IsIndexed (keep_if p xs)
        (subst (IsIndexed xs) (sym (first-keep_if p xs)) (find_first-IsIndexed p xs)))

legacy_index-IsIndexed : (code : ℕ) (xs : List NozzleConfig) → IsIndexed xs (legacy_index code xs)
unfolding legacy_index
legacy_index-IsIndexed code xs =
    IsIndexed-if (is_nozzle_lift_code code) (find_first-IsIndexed (λ n. n.index == code - 0x10) xs)
      nothing

or_else-IsFound :
    {xs : List NozzleConfig} {o p : Option NozzleConfig}
    → IsIndexed xs o
    → IsFound xs p
    → IsFound xs (or_else o p)
or_else-IsFound nothing hp = hp
or_else-IsFound (one h) hp = found h

first-IsFound : (xs : List NozzleConfig) → IsFound xs (first xs)
first-IsFound [] = empty refl
first-IsFound (x ∷ xs) = found (here_index x xs)

wayne_nozzle-IsFound :
    (fp : FuelingPositionConfig) (prod hose : ℕ)
    → IsFound (active_nozzles fp) (wayne_nozzle fp prod hose)
unfolding wayne_nozzle
wayne_nozzle-IsFound fp prod hose =
    let active = active_nozzles fp in
    let lift = lift_code_of hose in
    or_else-IsFound (find_first-IsIndexed (both_match lift prod) active) (
      or_else-IsFound (find_first-IsIndexed (code_matches lift) active) (
        or_else-IsFound (only_product-IsIndexed prod active)
          (or_else-IsFound (legacy_index-IsIndexed hose active) (first-IsFound active))))

resolved :
    {A : Type 0} {xs : List NozzleConfig} {o : Option NozzleConfig} (shown : NozzleConfig → A)
    (other : A)
    → IsFound xs o
    → (has_index (elim o as (λ x. ℕ × A) [ some n ↦ (n.index, shown n) | none ↦ (1, other) ]).0 xs
        ≡ true)
      ⊎ ((xs ≡ [])
          × ((elim o as (λ x. ℕ × A) [ some n ↦ (n.index, shown n) | none ↦ (1, other) ]).0 ≡ 1))
resolved shown other (empty e) = inr (e, refl)
resolved shown other (found h) = inl h

-- Whatever the product and hose bytes, the resolved index is the one of an active nozzle of the position,
-- unless the position has no active nozzle: then it is 1.
pub resolve_wayne_nozzle-active :
    (site : SiteConfig) (fp : FuelingPositionConfig) (prod hose : ℕ)
    → (has_index (resolve_wayne_nozzle site fp prod hose).0 (active_nozzles fp) ≡ true)
      ⊎ ((active_nozzles fp ≡ []) × ((resolve_wayne_nozzle site fp prod hose).0 ≡ 1))
unfolding resolve_wayne_nozzle
resolve_wayne_nozzle-active site fp prod hose =
    resolved (λ n. lookup_nozzle site fp n.index) (unknown_product 0)
      (wayne_nozzle-IsFound fp prod hose)
