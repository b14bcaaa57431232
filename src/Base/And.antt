-- ===== src/Base/And.antt =====
-- Laws of `bit_and` at every number, from the binary digits.
use Prim.Native.Nat.{
  ℕ, zero, suc, ◌+◌, ◌*◌, ◌/◌, ◌%◌, ◌^◌, ◌≤◌, ◌<◌, min, bit_and, digits, bit_and-bitwise,
}
use mathlib.Core.Path.{◌≡◌, refl, ap, sym, ◌∙◌}
use native.Mathlib.Nat.{le_refl, pow-suc, pow-succ', div-div-eq-div-mul}
use native.Mathlib.Omega.{arith}

abbrev shared_digits : ℕ → ℕ → ℕ → ℕ
shared_digits n a b = digits (λ b. zero) min n a b

-- Digits to go beyond those of the first number change nothing.
shared_digits_fuel :
    (fuel more x y : ℕ) → x ≤ fuel → x ≤ more → shared_digits fuel x y ≡ shared_digits more x y
shared_digits_fuel zero zero x y enough also = refl
shared_digits_fuel zero (suc more) zero y enough also = refl
shared_digits_fuel zero (suc more) (suc x) y enough also = absurd (omega arith)
shared_digits_fuel (suc fuel) zero zero y enough also = refl
shared_digits_fuel (suc fuel) zero (suc x) y enough also = absurd (omega arith)
shared_digits_fuel (suc fuel) (suc more) zero y enough also = refl
shared_digits_fuel (suc fuel) (suc more) (suc x) y enough also =
    rw (shared_digits_fuel fuel more (suc x / 2) (y / 2) (omega arith) (omega arith))

pub bit_and_low : (a b : ℕ) → bit_and a b ≡ bit_and (a / 2) (b / 2) * 2 + min (a % 2) (b % 2)
bit_and_low zero b = simp bit_and-bitwise (omega arith)
bit_and_low (suc a) b =
    simp bit_and-bitwise (
      omega (arith, shared_digits_fuel a (suc a / 2) (suc a / 2) (b / 2) (omega arith) (le_refl _)))

and_zero_upto : (n a : ℕ) → a ≤ n → bit_and a 0 ≡ 0
and_zero_upto n zero h = refl
and_zero_upto zero (suc a) h = absurd (omega arith)
and_zero_upto (suc n) (suc a) h =
    omega (arith, bit_and_low (suc a) 0, and_zero_upto n (suc a / 2) (omega arith))

pub bit_and-zero : (a : ℕ) → bit_and a 0 ≡ 0
bit_and-zero a = and_zero_upto a a (omega arith)

-- A mask of one bit.
pub bit_and-pow : (k a : ℕ) → bit_and a (2 ^ k) ≡ a / 2 ^ k % 2 * 2 ^ k
bit_and-pow zero a = omega (arith, bit_and_low a 1, bit_and-zero (a / 2))
bit_and-pow (suc k) a =
    let half : 2 ^ suc k / 2 ≡ 2 ^ k = omega (arith, pow-suc 2 k) in
    let even : 2 ^ suc k % 2 ≡ 0 = omega (arith, pow-suc 2 k) in
    let deep : a / 2 / 2 ^ k ≡ a / 2 ^ suc k =
      div-div-eq-div-mul a 2 (2 ^ k) ∙ ap (λ t. a / t) (sym (pow-succ' 2 k)) in
    let ih : bit_and (a / 2) (2 ^ k) ≡ a / 2 ^ suc k % 2 * 2 ^ k =
      bit_and-pow k (a / 2) ∙ ap (λ t. t % 2 * 2 ^ k) deep in
    let low = rw (half, even) at (bit_and_low a (2 ^ suc k)) in
    omega (arith, low, ih, ap (λ (t : ℕ). a / 2 ^ suc k % 2 * t) (pow-suc 2 k))

-- The top bit of a 16-bit word.
pub bit_and-top16 : (a : ℕ) → a < 65536 → bit_and a 0x8000 ≡ a / 32768 * 32768
bit_and-top16 a h = omega (arith, bit_and-pow 15 a)
