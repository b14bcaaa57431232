-- ===== src/Engine/Volume.antt =====
-- crates/wayne-europump/src/parser.rs, `decode_volume`: digits, and an `E` among them.
use fuel_station_controller.Base.{
  ℕ, ◌+◌, ◌*◌, ◌/◌, ◌%◌, ◌<◌, Bool, true, false, Option, none, some, List, [], ◌∷◌, ◌≡◌, refl, ap,
  sym, ltb, ◌&&◌, arith,
}
use mathlib.Core.Bool.{true≢false}
use fuel_station_controller.Engine.Float.{Float}
use fuel_station_controller.Engine.Frames.{decode_volume, parse_hex_text, exponent_of, nibbles}

abbrev pub all_decimal : List ℕ → Bool
all_decimal [] = true
all_decimal (d ∷ ds) = ltb d 10 && all_decimal ds

-- The number that decimal digits write behind `acc`.
abbrev pub digits_from : ℕ → List ℕ → ℕ
digits_from acc [] = acc
digits_from acc (d ∷ ds) = digits_from (acc * 10 + d) ds

and_true : (a b : Bool) → (a && b) ≡ true → (a ≡ true) × (b ≡ true)
and_true true b h = (refl, h)
and_true false b h = absurd (true≢false (sym h))

ltb-true : (a b : ℕ) → a < b → ltb a b ≡ true
ltb-true a b h = ground arith

module _ (F : Float) where
  open F use {Carrier, of_nat, scientific, div}

  parse_digit :
      (seen : Bool) (acc d : ℕ) (ds : List ℕ)
      → d < 10
      → parse_hex_text F seen acc (d ∷ ds) ≡ parse_hex_text F true (acc * 10 + d) ds
  unfolding parse_hex_text
  parse_digit seen acc d ds h = let e = ltb-true d 10 h in rw e refl

  parse_digits :
      (acc : ℕ) (ds : List ℕ)
      → all_decimal ds ≡ true
      → parse_hex_text F true acc ds ≡ some (of_nat (digits_from acc ds))
  unfolding parse_hex_text
  parse_digits acc [] h = refl
  parse_digits acc (d ∷ ds) h =
      let parts = and_true (ltb d 10) (all_decimal ds) h in
      let e = parts.0 in rw e (parse_digits (acc * 10 + d) ds parts.1)

  parse_first :
      (d : ℕ) (ds : List ℕ)
      → all_decimal (d ∷ ds) ≡ true
      → parse_hex_text F false 0 (d ∷ ds) ≡ some (of_nat (digits_from 0 (d ∷ ds)))
  unfolding parse_hex_text
  parse_first d ds h =
      let parts = and_true (ltb d 10) (all_decimal ds) h in
      let e = parts.0 in rw e (parse_digits (0 * 10 + d) ds parts.1)

  parse_exponent :
      (m d : ℕ)
      → m < 10
      → d < 10
      → parse_hex_text F false 0 (0 ∷ 0 ∷ 0 ∷ 0 ∷ 0 ∷ m ∷ 14 ∷ d ∷ []) ≡ some (scientific m d)
  unfolding parse_hex_text exponent_of
  parse_exponent m d hm hd =
      let em = ltb-true m 10 hm in
      let ed = ltb-true d 10 hd in
      let zm : 0 + m ≡ m = omega arith in
      let zd : 0 + d ≡ d = omega arith in rw em (rw ed (rw zm (rw zd refl)))

  exponent_bytes :
      (m d : ℕ)
      → m < 10
      → d < 10
      → parse_hex_text F false 0 (nibbles (0 ∷ 0 ∷ m ∷ (14 * 16 + d) ∷ [])) ≡ some (scientific m d)
  exponent_bytes m d hm hd =
      let a : m / 16 ≡ 0 = omega arith in
      let b : m % 16 ≡ m = omega arith in
      let e : (14 * 16 + d) / 16 ≡ 14 = omega arith in
      let f : (14 * 16 + d) % 16 ≡ d = omega arith in
      rw a (rw b (rw e (rw f (parse_exponent m d hm hd))))

  decode_value : Option Carrier → Carrier
  decode_value o = elim o [ some v ↦ div v (of_nat 100) | none ↦ div (of_nat 0) (of_nat 100) ]

-- Four bytes whose eight hexadecimal digits are decimal decode to their number over one hundred; and the
-- bytes `00 00 0m Ed` decode to `m` times ten to the `d`, over one hundred, for decimal digits `m` and
-- `d`.
pub decode_volume_cases :
    (F : Float) (vx1 vx2 v1 v2 m d : ℕ)
    → all_decimal (nibbles (vx1 ∷ vx2 ∷ v1 ∷ v2 ∷ [])) ≡ true
    → m < 10
    → d < 10
    → (decode_volume F vx1 vx2 v1 v2
        ≡ F.div (F.of_nat (digits_from 0 (nibbles (vx1 ∷ vx2 ∷ v1 ∷ v2 ∷ [])))) (F.of_nat 100))
      × (decode_volume F 0 0 m (14 * 16 + d) ≡ F.div (F.scientific m d) (F.of_nat 100))
unfolding decode_volume decode_value
decode_volume_cases F vx1 vx2 v1 v2 m d h hm hd = (
  ap (decode_value F) (parse_first F (vx1 / 16) (vx1 % 16 ∷ nibbles (vx2 ∷ v1 ∷ v2 ∷ [])) h),
  ap (decode_value F) (exponent_bytes F m d hm hd),
)
