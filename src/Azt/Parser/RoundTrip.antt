-- ===== src/Azt/Parser/RoundTrip.antt =====
-- The replies that a dispenser builds from numbers are parsed back to them.
use fuel_station_controller.Base.{
  ℕ, ◌+◌, ◌/◌, ◌%◌, ◌^◌, ◌≤◌, ◌≡◌, sym, ap, ◌∙◌, arith, false, ◌||◌, not, some, List, ◌++◌,
  append_assoc, length, length-append, take, drop, take_exact, drop_exact, ltb, ◌==◌,
}
use fuel_station_controller.Azt.Frame.{TrkType, from_identifier, encode_digits}
use fuel_station_controller.Azt.Frame.Digits.{length-encode_digits, decode_digits-encode_digits}
use fuel_station_controller.Azt.Parser.{parse_full_data, parse_totals}

-- Every identifier of the table has widths from 4 to 8 digits.
widths_small :
    (identifier : ℕ) (trk : TrkType)
    → from_identifier identifier ≡ some trk
    → (trk.volume_digits ≤ 8) × (trk.cost_digits ≤ 8) × (trk.price_digits ≤ 8)
unfolding from_identifier
widths_small identifier trk h = ground arith

module _ (l t m : ℕ) (v c p : List ℕ) (rest : List ℕ) (hl : length v ≡ l) (ht : length c ≡ t)
    (hm : length p ≡ m) where
  abbrev fields : List ℕ
  fields = v ++ (c ++ (p ++ rest))

  first_field : take l fields ≡ v
  first_field = take_exact l v (c ++ (p ++ rest)) (sym hl)

  second_field : take t (drop l fields) ≡ c
  second_field =
      rw (drop_exact l v (c ++ (p ++ rest)) (sym hl)) (take_exact t c (p ++ rest) (sym ht))

  third_field : take m (drop (l + t) fields) ≡ p
  third_field =
      ap (λ x. take m (drop (l + t) x)) (sym (append_assoc v c (p ++ rest)))
      ∙ ap (take m) (drop_exact (l + t) (v ++ c) (p ++ rest) (omega (arith, length-append v c)))
      ∙ take_exact m p rest (sym hm)

  fields_long : ltb (length fields) (l + t + m) ≡ false
  fields_long =
      ground (
        arith,
        length-append v (c ++ (p ++ rest)),
        length-append c (p ++ rest),
        length-append p rest,
      )

-- The full dispense data of a dispenser type of the table is read back from its digits: the volume,
-- the cost and the unit price, each cut to the width that the type gives it.
pub parse_full_data-encode_digits :
    (identifier : ℕ) (trk : TrkType) (volume cost price : ℕ) (rest : List ℕ)
    → from_identifier identifier ≡ some trk
    → parse_full_data
        (encode_digits volume trk.volume_digits
          ++ (encode_digits cost trk.cost_digits ++ (encode_digits price trk.price_digits ++ rest)))
        trk
      ≡ some (record {
        volume_centilitres = volume % 10 ^ trk.volume_digits;
        cost_kopecks = cost % 10 ^ trk.cost_digits;
        price_kopecks = price % 10 ^ trk.price_digits;
      })
unfolding parse_full_data
parse_full_data-encode_digits identifier trk volume cost price rest h =
    let l = trk.volume_digits in
    let t = trk.cost_digits in
    let m = trk.price_digits in
    let v = encode_digits volume l in
    let c = encode_digits cost t in
    let p = encode_digits price m in
    let hl = length-encode_digits volume l in
    let ht = length-encode_digits cost t in
    let hm = length-encode_digits price m in
    let (sl, st, sm) = widths_small identifier trk h in
    rw
      (
        fields_long l t m v c p rest hl ht hm,
        first_field l t m v c p rest hl ht hm,
        second_field l t m v c p rest hl ht hm,
        third_field l t m v c p rest hl ht hm,
      )
      (rw (
        decode_digits-encode_digits volume l (omega arith),
        decode_digits-encode_digits cost t (omega arith),
        decode_digits-encode_digits price m (omega arith),
      ))

totals_length :
    (n litres kopecks : ℕ) → length (encode_digits litres n ++ encode_digits kopecks n) ≡ n + n
totals_length n litres kopecks = omega (
  arith,
  length-append (encode_digits litres n) (encode_digits kopecks n),
  length-encode_digits litres n,
  length-encode_digits kopecks n,
)

totals_pass : (n : ℕ) → 1 ≤ n → (n + n == 0 || not ((n + n) % 2 == 0)) ≡ false
totals_pass n h = ground arith

totals_half : (n : ℕ) → (n + n) / 2 ≡ n
totals_half n = omega arith

-- Two totals of equal width, from 1 to 19 digits, are read back.
parse_totals-encode_digits :
    (n litres kopecks : ℕ)
    → 1 ≤ n
    → n ≤ 19
    → parse_totals (encode_digits litres n ++ encode_digits kopecks n)
      ≡ some (litres % 10 ^ n, kopecks % 10 ^ n)
unfolding parse_totals
parse_totals-encode_digits n litres kopecks lo hi =
    rw (totals_length n litres kopecks, totals_pass n lo, totals_half n)
      (rw
        (
          take_exact n (encode_digits litres n) (encode_digits kopecks n)
              (sym (length-encode_digits litres n)),
          drop_exact n (encode_digits litres n) (encode_digits kopecks n)
              (sym (length-encode_digits litres n)),
        )
        (rw (decode_digits-encode_digits litres n hi, decode_digits-encode_digits kopecks n hi)))
