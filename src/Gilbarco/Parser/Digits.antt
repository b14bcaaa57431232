-- ===== src/Gilbarco/Parser/Digits.antt =====
-- The digits of an encoded number read back.
use fuel_station_controller.Base.{
  ℕ, ◌+◌, ◌*◌, ◌%◌, ◌^◌, ◌≤◌, ◌≡◌, refl, arith, bit_and, bit_or, true, false, some, List, [], ◌∷◌,
  ◌==◌, ◌||◌, not, ltb, All, ◌++◌, take, length, none, ap,
}
use fuel_station_controller.Base.Bits.{all_below, agree_below}
use fuel_station_controller.Gilbarco.Commands.{e_digit, encode_4digit, encode_6digit}
use fuel_station_controller.Gilbarco.Parser.{
  decode_e_digits, decode_e_digits_from, parse_display_response,
}

e_high_table : all_below 10 (λ d. bit_and (bit_or 0xe0 d) 0xf0 == 0xe0) ≡ true
unfolding all_below
e_high_table = refl

e_low_table : all_below 10 (λ d. bit_and (bit_or 0xe0 d) 0x0f == d) ≡ true
unfolding all_below
e_low_table = refl

pub e_digit_high : (v : ℕ) → bit_and (e_digit v) 0xf0 ≡ 0xe0
unfolding e_digit
e_digit_high v =
    agree_below 10 (λ d. bit_and (bit_or 0xe0 d) 0xf0) (λ d. 0xe0) e_high_table (v % 10)
      (omega arith)

pub e_digit_low : (v : ℕ) → bit_and (e_digit v) 0x0f ≡ v % 10
unfolding e_digit
e_digit_low v =
    agree_below 10 (λ d. bit_and (bit_or 0xe0 d) 0x0f) (λ d. d) e_low_table (v % 10) (omega arith)

not_above_nine : (v : ℕ) → ltb 9 (v % 10) ≡ false
not_above_nine v = ground arith

-- One digit of the fold.
pub digit_step :
    (i acc v : ℕ) (bs : List ℕ)
    → decode_e_digits_from i acc (e_digit v ∷ bs)
      ≡ decode_e_digits_from (i + 1) (acc + v % 10 * 10 ^ i) bs
unfolding decode_e_digits_from
digit_step i acc v bs = rw (e_digit_high v, e_digit_low v, not_above_nine v) refl

pub digits_end : (i acc n : ℕ) → acc ≡ n → decode_e_digits_from i acc [] ≡ some n
unfolding decode_e_digits_from
digits_end i acc n h = ap some h

pub decode-encode_4digit : (v : ℕ) → decode_e_digits (encode_4digit v) ≡ some (v % 10000)
unfolding decode_e_digits encode_4digit
decode-encode_4digit v =
    rw (digit_step, digit_step, digit_step, digit_step) (digits_end 4 _ (v % 10000) (omega arith))

pub decode-encode_6digit : (v : ℕ) → decode_e_digits (encode_6digit v) ≡ some (v % 1000000)
unfolding decode_e_digits encode_6digit
decode-encode_6digit v =
    rw (digit_step, digit_step, digit_step, digit_step, digit_step, digit_step)
      (digits_end 6 _ (v % 1000000) (omega arith))

-- A byte that is no encoded digit: its high nibble is not 0xE, or its low nibble is above 9.
abbrev pub IsNotDigit : ℕ → Type 0
IsNotDigit b = (not (bit_and b 0xf0 == 0xe0) || ltb 9 (bit_and b 0x0f)) ≡ true

decode-not_digit : (b : ℕ) (bs : List ℕ) → IsNotDigit b → decode_e_digits (b ∷ bs) ≡ none
unfolding decode_e_digits decode_e_digits_from
decode-not_digit b bs h = rw h refl

long_enough : (n : ℕ) → 6 ≤ n → ltb n 6 ≡ false
long_enough n h = ground arith

display_length :
    (noise : List ℕ) (v : ℕ) (rest : List ℕ) → 6 ≤ length (noise ++ (encode_6digit v ++ rest))
unfolding encode_6digit
display_length [] v rest = omega arith
display_length (b ∷ bs) v rest = omega (arith, display_length bs v rest)

display_here :
    (v : ℕ) (rest : List ℕ) → parse_display_response (encode_6digit v ++ rest) ≡ some (v % 1000000)
unfolding parse_display_response encode_6digit
display_here v rest =
    rw
      (
        long_enough (length (encode_6digit v ++ rest)) (display_length [] v rest),
        decode-encode_6digit v,
      )
      refl

-- The six encoded digits of a number, behind any bytes that are no digits (0xE0 to 0xE9) and before any
-- bytes, read back as the number's last six decimal digits. The bytes before them may hold an echoed
-- command, and 0xEA to 0xEF.
pub parse_display_response-encode_6digit :
    (noise : List ℕ) (v : ℕ) (rest : List ℕ)
    → All IsNotDigit noise
    → parse_display_response (noise ++ (encode_6digit v ++ rest)) ≡ some (v % 1000000)
unfolding parse_display_response
parse_display_response-encode_6digit [] v rest h = display_here v rest
parse_display_response-encode_6digit (b ∷ bs) v rest h =
    rw
      (
        long_enough (length (b ∷ (bs ++ (encode_6digit v ++ rest))))
            (omega (arith, display_length bs v rest)),
        decode-not_digit b (take 5 (bs ++ (encode_6digit v ++ rest))) h.0,
      )
      (parse_display_response-encode_6digit bs v rest h.1)
