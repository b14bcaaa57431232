-- ===== src/Base/Powers.antt =====
-- A number cut to its lowest digits in a base.
use Prim.Native.Nat.{ℕ, suc, ◌+◌, ◌*◌, ◌/◌, ◌%◌, ◌^◌, ◌≤◌, ◌<◌}
use mathlib.Core.Path.{◌≡◌, ap, ◌∙◌}
use native.Mathlib.Nat.{
  pow-suc, pow-le-pow_right, one-le-pow, mod-eq_of_lt, add-mul-mod_self_left, div-add-mod, mod-lt,
  le_trans,
}
use native.Mathlib.Omega.{arith}

module _ (b p v : ℕ) (hb : 0 < b) (hp : 0 < p) where
  low_part : ℕ
  low_part = v / b % p * b + v % b

  low_part_fits : low_part < b * p
  unfolding low_part
  low_part_fits =
      let r : v / b % p < p = mod-lt (v / b) hp in
      let s : v % b < b = mod-lt v hb in go (v / b % p) (v % b) r s
    where
      go : (r s : ℕ) → r < p → s < b → r * b + s < b * p
      go r s h k = grind arith

  regroup : v ≡ low_part + b * p * (v / b / p)
  unfolding low_part
  regroup = omega (arith, div-add-mod v b, ap (λ (t : ℕ). b * t) (div-add-mod (v / b) p))

  -- The lowest digit, and the digits above it.
  pub mod-mul : v % (b * p) ≡ v / b % p * b + v % b
  unfolding low_part
  mod-mul =
      ap (λ t. t % (b * p)) regroup
      ∙ add-mul-mod_self_left low_part (b * p) (v / b / p)
      ∙ mod-eq_of_lt low_part_fits

pub mod-pow-suc : (b n v : ℕ) → 0 < b → v % b ^ suc n ≡ v / b % b ^ n * b + v % b
mod-pow-suc b n v h =
    ap (λ t. v % t) (omega (arith, pow-suc b n)) ∙ mod-mul b (b ^ n) v h (one-le-pow n b h)

pub pow_bound : (b n m k : ℕ) → 0 < b → n ≤ m → b ^ m ≤ k → b ^ n ≤ k
pow_bound b n m k h le top = le_trans (pow-le-pow_right h le) top
