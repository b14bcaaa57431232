-- ===== src/Bluesky/Codec/Bcd.antt =====
-- BCD fields: what `encode_bcd` writes, what it refuses, and `decode_bcd` as its inverse.
use fuel_station_controller.Base.{
  ℕ, zero, suc, ◌+◌, ◌*◌, ◌/◌, ◌%◌, ◌^◌, ◌≤◌, ◌<◌, ◌≡◌, ◌≢◌, refl, sym, ap, ◌∙◌, arith, bit_and,
  bit_or, true, none, some, List, [], ◌∷◌, ◌++◌, All, All-append, length, length-append, ◌==◌, inl,
  inr, ◌⊎◌, Option-cases, ==_ne,
}
use fuel_station_controller.Base.Bits.{IsByte, all_below, agree_below}
use fuel_station_controller.Base.Powers.{mod-pow-suc, pow_bound}
use native.Mathlib.Nat.{mod-lt, one-le-pow, pow-suc, mod-eq_of_lt}
use fuel_station_controller.Bluesky.Codec.{
  bcd_byte, encode_bcd_loop, encode_bcd, decode_bcd_from, decode_bcd, bcd_next,
}

pair_table : all_below 100 (λ x. bit_or (x % 10) (x / 10 * 16) == x / 10 * 16 + x % 10) ≡ true
unfolding all_below
pair_table = refl

pub bcd_byte_lem : (v : ℕ) → bcd_byte v ≡ v / 10 % 10 * 16 + v % 10
unfolding bcd_byte
bcd_byte_lem v =
    let t =
      agree_below 100 (λ x. bit_or (x % 10) (x / 10 * 16)) (λ x. x / 10 * 16 + x % 10) pair_table
        (v % 100) (omega arith) in
    let lo : v % 100 % 10 ≡ v % 10 = omega arith in
    let hi : v % 100 / 10 ≡ v / 10 % 10 = omega arith in rw (lo, hi) at t

low_table : all_below 256 (λ x. bit_and x 0x0f == x % 16) ≡ true
unfolding all_below
low_table = refl

pub low_nibble : (b : ℕ) → IsByte b → bit_and b 0x0f ≡ b % 16
low_nibble b h = agree_below 256 (λ x. bit_and x 0x0f) (λ x. x % 16) low_table b h

-- Both nibbles of the byte are decimal digits.
abbrev pub IsBcdByte : ℕ → Type 0
IsBcdByte b = (b / 16 ≤ 9) × (b % 16 ≤ 9)

-- Two decimal digits go behind an accumulator far enough below the limit of `u64`.
bcd_next_digits :
    (acc b : ℕ)
    → IsByte b
    → IsBcdByte b
    → acc < 10 ^ 17
    → bcd_next acc b ≡ some (acc * 100 + (b / 16 * 10 + b % 16))
unfolding bcd_next
bcd_next_digits acc b hb d ha = ground (arith, low_nibble b hb)

decode_step :
    (acc next b : ℕ) (bs : List ℕ)
    → bcd_next acc b ≡ some next
    → decode_bcd_from acc (b ∷ bs) ≡ decode_bcd_from next bs
unfolding decode_bcd_from
decode_step acc next b bs h = rw (h, decode_bcd_from)

decode_stop :
    (acc b : ℕ) (bs : List ℕ) → bcd_next acc b ≡ none → decode_bcd_from acc (b ∷ bs) ≡ none
unfolding decode_bcd_from
decode_stop acc b bs h = rw (h, decode_bcd_from)

decode_bcd_from-append :
    (acc mid : ℕ) (xs ys : List ℕ)
    → decode_bcd_from acc xs ≡ some mid
    → decode_bcd_from acc (xs ++ ys) ≡ decode_bcd_from mid ys
decode_bcd_from-append acc mid [] ys h = unfold decode_bcd_from in ground arith
decode_bcd_from-append acc mid (b ∷ xs) ys h = elim (Option-cases (bcd_next acc b)) [
  | inl e ↦ absurd (cc (decode_stop acc b xs e, h))
  | inr (next, e) ↦
      decode_step acc next b (xs ++ ys) e
      ∙ decode_bcd_from-append next mid xs ys (sym (decode_step acc next b xs e) ∙ h)
]

encode_bcd_loop-IsByte : (v n : ℕ) → All IsByte (encode_bcd_loop v n).0
unfolding encode_bcd_loop
encode_bcd_loop-IsByte v zero = tt
encode_bcd_loop-IsByte v (suc n) =
    All-append IsByte (encode_bcd_loop (v / 100) n).0 _ (encode_bcd_loop-IsByte (v / 100) n)
      (omega (arith, bcd_byte_lem v))

length-encode_bcd_loop : (v n : ℕ) → length (encode_bcd_loop v n).0 ≡ n
unfolding encode_bcd_loop
length-encode_bcd_loop v zero = refl
length-encode_bcd_loop v (suc n) = omega (
  arith,
  length-append (encode_bcd_loop (v / 100) n).0 (bcd_byte v ∷ []),
  length-encode_bcd_loop (v / 100) n,
)

encode_bcd_loop_fits : (v n : ℕ) → v < 100 ^ n → (encode_bcd_loop v n).1 ≡ 0
unfolding encode_bcd_loop
encode_bcd_loop_fits v zero h = omega arith
encode_bcd_loop_fits v (suc n) h = encode_bcd_loop_fits (v / 100) n (omega (arith, pow-suc 100 n))

encode_bcd_loop_over : (v n : ℕ) → 100 ^ n ≤ v → (encode_bcd_loop v n).1 ≢ 0
unfolding encode_bcd_loop
encode_bcd_loop_over v zero h = λ e. omega arith
encode_bcd_loop_over v (suc n) h = encode_bcd_loop_over (v / 100) n (omega (arith, pow-suc 100 n))

encode_bcd_loop_decodes :
    (v n : ℕ) → n ≤ 9 → decode_bcd_from 0 (encode_bcd_loop v n).0 ≡ some (v % 100 ^ n)
unfolding encode_bcd_loop
encode_bcd_loop_decodes v zero h = unfold decode_bcd_from in ap some (omega arith)
encode_bcd_loop_decodes v (suc n) h =
    decode_bcd_from-append 0 (v / 100 % 100 ^ n) (encode_bcd_loop (v / 100) n).0 _
      (encode_bcd_loop_decodes (v / 100) n (omega arith))
    ∙ decode_step (v / 100 % 100 ^ n) _ (bcd_byte v) [] (
        bcd_next_digits (v / 100 % 100 ^ n) (bcd_byte v) (omega (arith, bcd_byte_lem v))
          (omega (arith, bcd_byte_lem v))
          (omega (
            arith,
            mod-lt (v / 100) (one-le-pow n 100 (omega arith)),
            pow_bound 100 n 8 (10 ^ 17) (omega arith) (omega arith) (omega arith),
          )))
    ∙ (unfold decode_bcd_from in
        ap some (omega (arith, bcd_byte_lem v, mod-pow-suc 100 n v (omega arith))))

-- A field of `n` bytes that holds `value`.
pub record IsField (value n : ℕ) : Type 0 where
  pub bytes : List ℕ
  pub encoded : encode_bcd value n ≡ some bytes
  pub decoded : decode_bcd bytes ≡ some value
  pub width : length bytes ≡ n
  pub ranged : All IsByte bytes

-- A value below 100 ^ n fits a field of `n` bytes, up to nine, and is read back from it; a value
-- that needs more digits is refused.
pub encode_bcd_exact :
    (value n : ℕ)
    → n ≤ 9
    → (value < 100 ^ n → IsField value n) × (100 ^ n ≤ value → encode_bcd value n ≡ none)
unfolding encode_bcd
encode_bcd_exact value n h = (
  λ fits. record {
    bytes = (encode_bcd_loop value n).0;
    encoded = rw (encode_bcd_loop_fits value n fits);
    decoded = unfold decode_bcd in encode_bcd_loop_decodes value n h ∙ ap some (mod-eq_of_lt fits);
    width = length-encode_bcd_loop value n;
    ranged = encode_bcd_loop-IsByte value n;
  },
  λ over. rw (==_ne _ 0 (encode_bcd_loop_over value n over)),
)

-- The field filled from the front: the first byte holds what the others leave.
encode_bcd_loop_peel :
    (v n : ℕ)
    → encode_bcd_loop v (suc n)
      ≡ (bcd_byte (encode_bcd_loop v n).1 ∷ (encode_bcd_loop v n).0, (encode_bcd_loop v n).1 / 100)
unfolding encode_bcd_loop
encode_bcd_loop_peel v zero = refl
encode_bcd_loop_peel v (suc n) =
    ap {B = List ℕ × ℕ} (λ (r : List ℕ × ℕ). (r.0 ++ (bcd_byte v ∷ []), r.1))
      (encode_bcd_loop_peel (v / 100) n)

bcd_next_inv :
    (acc b next : ℕ)
    → IsByte b
    → bcd_next acc b ≡ some next
    → (next ≡ acc * 100 + (b / 16 * 10 + b % 16)) × IsBcdByte b
unfolding bcd_next
bcd_next_inv acc b next hb h = ground (arith, low_nibble b hb)

decode_bcd_from_inv :
    (acc v : ℕ) (bytes : List ℕ)
    → All IsByte bytes
    → decode_bcd_from acc bytes ≡ some v
    → encode_bcd_loop v (length bytes) ≡ (bytes, acc)
decode_bcd_from_inv acc v [] r h = unfold decode_bcd_from encode_bcd_loop in ground arith
decode_bcd_from_inv acc v (b ∷ bs) r h = elim (Option-cases (bcd_next acc b)) [
  | inl e ↦ absurd (cc (decode_stop acc b bs e, h))
  | inr (next, e) ↦
      let ih = decode_bcd_from_inv next v bs r.1 (sym (decode_step acc next b bs e) ∙ h) in
      let inv = bcd_next_inv acc b next r.0 e in
      encode_bcd_loop_peel v (length bs)
      ∙ rw ih (unpack (omega (arith, bcd_byte_lem next, inv)) (omega (arith, inv)))
]
  where
    unpack : {x y : ℕ} → x ≡ b → y ≡ acc → ◌≡◌ {A = List ℕ × ℕ} (x ∷ bs, y) (b ∷ bs, acc)
    unpack p q = cc

-- A field that decodes is the one that the encoder writes for the value: no two fields of a width
-- stand for one number.
encode_bcd-decode_bcd :
    (bytes : List ℕ) (value : ℕ)
    → All IsByte bytes
    → decode_bcd bytes ≡ some value
    → encode_bcd value (length bytes) ≡ some bytes
unfolding decode_bcd encode_bcd
encode_bcd-decode_bcd bytes value r h = rw (decode_bcd_from_inv 0 value bytes r h)

below_cases : (value bound : ℕ) → (value < bound) ⊎ (bound ≤ value)
below_cases value bound = ground arith

-- A value below 100 ^ n fits a field of `n` bytes, up to nine bytes, and is read back from it; a
-- value that needs more digits is refused.
pub encode_bcd_cases :
    (value n : ℕ)
    → n ≤ 9
    → ((value < 100 ^ n) × IsField value n) ⊎ ((100 ^ n ≤ value) × (encode_bcd value n ≡ none))
encode_bcd_cases value n h =
    let (fits, refused) = encode_bcd_exact value n h in
    elim (below_cases value (100 ^ n)) [
      | inl lt ↦ inl (lt, fits lt)
      | inr ge ↦ inr (ge, refused ge)
    ]
