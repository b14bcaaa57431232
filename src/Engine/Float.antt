-- ===== src/Engine/Float.antt =====
-- The floating-point operations that the engine uses, as a parameter: volumes are `f64`.
use Prim.Native.String.{String}
use fuel_station_controller.Base.{ℕ, Bool}

pub record Float : Type 1 where
  pub Carrier : Type 0
  -- `x as f64`, and the value of a text of digits.
  pub of_nat : ℕ → Carrier
  -- The literal `n / 10^k`.
  pub decimal : ℕ → ℕ → Carrier
  -- The value of a text `{m}E{e}`.
  pub scientific : ℕ → ℕ → Carrier
  pub add : Carrier → Carrier → Carrier
  pub sub : Carrier → Carrier → Carrier
  pub mul : Carrier → Carrier → Carrier
  pub div : Carrier → Carrier → Carrier
  pub abs : Carrier → Carrier
  -- `x < y` and `x <= y`.
  pub less : Carrier → Carrier → Bool
  pub at_most : Carrier → Carrier → Bool
  -- `x.round() as u64`.
  pub round : Carrier → ℕ
  -- `format!("{x:.2}")`.
  pub show_2 : Carrier → String
