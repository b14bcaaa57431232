-- ===== src/Base/Xor.antt =====
-- Laws of `bit_xor` at every number, from the binary digits.
use Prim.Native.Nat.{
  ℕ, zero, suc, ◌+◌, ◌*◌, ◌/◌, ◌%◌, ◌^◌, ◌≤◌, ◌<◌, bit_xor, digits, differ, bit_xor-bitwise,
}
use mathlib.Core.Path.{◌≡◌, refl}
use native.Mathlib.Nat.{le_refl, pow-suc}
use native.Mathlib.Omega.{arith}

abbrev xor_digits : ℕ → ℕ → ℕ → ℕ
xor_digits n a b = digits (λ b. b) differ n a b

-- The count of digits to go does not matter once it is large enough.
xor_digits_fuel :
    (fuel more x y : ℕ) → x ≤ fuel → x ≤ more → xor_digits fuel x y ≡ xor_digits more x y
xor_digits_fuel zero zero x y enough also = refl
xor_digits_fuel zero (suc more) zero y enough also = refl
xor_digits_fuel zero (suc more) (suc x) y enough also = absurd (omega arith)
xor_digits_fuel (suc fuel) zero zero y enough also = refl
xor_digits_fuel (suc fuel) zero (suc x) y enough also = absurd (omega arith)
xor_digits_fuel (suc fuel) (suc more) zero y enough also = refl
xor_digits_fuel (suc fuel) (suc more) (suc x) y enough also =
    rw (xor_digits_fuel fuel more (suc x / 2) (y / 2) (omega arith) (omega arith))

differ_lem : (x y : ℕ) → x < 2 → y < 2 → differ x y ≡ (x + y) % 2
differ_lem zero zero p q = refl
differ_lem zero (suc zero) p q = refl
differ_lem (suc zero) zero p q = refl
differ_lem (suc zero) (suc zero) p q = refl
differ_lem zero (suc (suc y)) p q = absurd (omega arith)
differ_lem (suc zero) (suc (suc y)) p q = absurd (omega arith)
differ_lem (suc (suc x)) y p q = absurd (omega arith)

xor_raw :
    (a b : ℕ) → bit_xor (suc a) b ≡ bit_xor (suc a / 2) (b / 2) * 2 + differ (suc a % 2) (b % 2)
xor_raw a b =
    simp bit_xor-bitwise
      (omega (arith, xor_digits_fuel a (suc a / 2) (suc a / 2) (b / 2) (omega arith) (le_refl _)))

-- The lowest digit, and the rest.
pub bit_xor_step : (a b : ℕ) → bit_xor a b ≡ bit_xor (a / 2) (b / 2) * 2 + (a + b) % 2
bit_xor_step zero b = simp bit_xor-bitwise (omega arith)
bit_xor_step (suc a) b =
    omega (arith, xor_raw a b, differ_lem (suc a % 2) (b % 2) (omega arith) (omega arith))

pub bit_xor_bound : (k a b : ℕ) → a < 2 ^ k → b < 2 ^ k → bit_xor a b < 2 ^ k
bit_xor_bound zero zero zero p q = omega arith
bit_xor_bound zero zero (suc b) p q = absurd (omega arith)
bit_xor_bound zero (suc a) b p q = absurd (omega arith)
bit_xor_bound (suc k) a b p q = omega (
  arith,
  bit_xor_step a b,
  pow-suc 2 k,
  bit_xor_bound k (a / 2) (b / 2) (omega (arith, pow-suc 2 k)) (omega (arith, pow-suc 2 k)),
)

comm_upto : (n a b : ℕ) → a ≤ n → b ≤ n → bit_xor a b ≡ bit_xor b a
comm_upto zero zero zero p q = refl
comm_upto zero zero (suc b) p q = absurd (omega arith)
comm_upto zero (suc a) b p q = absurd (omega arith)
comm_upto (suc n) a b p q = omega (
  arith,
  bit_xor_step a b,
  bit_xor_step b a,
  comm_upto n (a / 2) (b / 2) (omega arith) (omega arith),
)

pub bit_xor_comm : (a b : ℕ) → bit_xor a b ≡ bit_xor b a
bit_xor_comm a b = comm_upto (a + b) a b (omega arith) (omega arith)

cancel_upto : (n a b c : ℕ) → a ≤ n → b ≤ n → c ≤ n → bit_xor a b ≡ bit_xor a c → b ≡ c
cancel_upto zero a b c p q r h = omega arith
cancel_upto (suc n) a b c p q r h =
    let s = bit_xor_step a b in
    let t = bit_xor_step a c in
    let half : b / 2 ≡ c / 2 =
      cancel_upto n (a / 2) (b / 2) (c / 2) (omega arith) (omega arith) (omega arith)
        (omega arith) in
    omega arith

-- Exclusive or with a fixed number loses nothing.
pub bit_xor_cancel : (a b c : ℕ) → bit_xor a b ≡ bit_xor a c → b ≡ c
bit_xor_cancel a b c h = cancel_upto (a + b + c) a b c (omega arith) (omega arith) (omega arith) h

pub bit_xor_cancel_right : (a b c : ℕ) → bit_xor a c ≡ bit_xor b c → a ≡ b
bit_xor_cancel_right a b c h =
    bit_xor_cancel c a b (omega (arith, bit_xor_comm a c, bit_xor_comm b c))
