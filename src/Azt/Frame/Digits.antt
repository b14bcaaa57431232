-- ===== src/Azt/Frame/Digits.antt =====
-- Digits written by `encode_digits` and read by `decode_digits`.
use fuel_station_controller.Base.{
  ℕ, zero, suc, ◌+◌, ◌*◌, ◌/◌, ◌%◌, ◌^◌, ◌≤◌, ◌<◌, ◌≡◌, refl, sym, ap, ◌∙◌, arith, bit_or, true,
  some, List, [], ◌∷◌, ◌++◌, ◌==◌, All, All-append, length, length-append,
}
use fuel_station_controller.Base.Bits.{all_below, agree_below}
use fuel_station_controller.Azt.Frame.{encode_digits, decode_digits, decode_digits_from, push_digit}
use native.Mathlib.Nat.{mod-lt, one-le-pow}
use fuel_station_controller.Base.Powers.{mod-pow-suc, pow_bound}

digit_table : all_below 10 (λ d. bit_or 0x30 d == 0x30 + d) ≡ true
unfolding all_below
digit_table = refl

pub digit_lem : (d : ℕ) → d < 10 → bit_or 0x30 d ≡ 0x30 + d
digit_lem d h = agree_below 10 (bit_or 0x30) (λ x. 0x30 + x) digit_table d h

abbrev pub IsDigit : ℕ → Type 0
IsDigit b = (0x30 ≤ b) × (b ≤ 0x39)

pub encode_digits-IsDigit : (value n : ℕ) → All IsDigit (encode_digits value n)
unfolding encode_digits
encode_digits-IsDigit value zero = tt
encode_digits-IsDigit value (suc n) =
    All-append IsDigit (encode_digits (value / 10) n) _ (encode_digits-IsDigit (value / 10) n)
      (omega (arith, digit_lem (value % 10) (omega arith)))

pub length-encode_digits : (value n : ℕ) → length (encode_digits value n) ≡ n
unfolding encode_digits
length-encode_digits value zero = refl
length-encode_digits value (suc n) = omega (
  arith,
  length-append (encode_digits (value / 10) n) (bit_or 0x30 (value % 10) ∷ []),
  length-encode_digits (value / 10) n,
)

decode_digits_from-append :
    (acc mid : ℕ) (xs ys : List ℕ)
    → decode_digits_from acc xs ≡ some mid
    → decode_digits_from acc (xs ++ ys) ≡ decode_digits_from mid ys
unfolding decode_digits_from
decode_digits_from-append acc mid [] ys h = ground arith
decode_digits_from-append acc mid (b ∷ xs) ys h =
    ground (arith, decode_digits_from-append (push_digit acc b) mid xs ys)

last_digit :
    (acc d : ℕ)
    → acc < 10 ^ 18
    → d < 10
    → decode_digits_from acc (bit_or 0x30 d ∷ []) ≡ some (acc * 10 + d)
unfolding decode_digits_from
last_digit acc d ha hd = rw (digit_lem d hd) (ground arith)

-- Up to nineteen digits are read back exactly, cut to the digits that were written.
pub decode_digits-encode_digits :
    (value n : ℕ) → n ≤ 19 → decode_digits (encode_digits value n) ≡ some (value % 10 ^ n)
unfolding decode_digits encode_digits
decode_digits-encode_digits value zero h = unfold decode_digits_from in ap some (omega arith)
decode_digits-encode_digits value (suc n) h =
    decode_digits_from-append 0 (value / 10 % 10 ^ n) (encode_digits (value / 10) n) _
      (decode_digits-encode_digits (value / 10) n (omega arith))
    ∙ last_digit (value / 10 % 10 ^ n) (value % 10)
        (omega (
          arith,
          mod-lt (value / 10) (one-le-pow n 10 (omega arith)),
          pow_bound 10 n 18 (10 ^ 18) (omega arith) (omega arith) (omega arith),
        ))
        (omega arith)
    ∙ ap some (sym (mod-pow-suc 10 n value (omega arith)))
