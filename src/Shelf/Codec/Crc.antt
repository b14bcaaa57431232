-- ===== src/Shelf/Codec/Crc.antt =====
-- CRC-CCITT tells apart any two messages that differ in one byte.
use fuel_station_controller.Base.{
  ℕ, zero, suc, ◌-◌, ◌*◌, ◌%◌, ◌≤◌, ◌<◌, ◌≡◌, ◌≢◌, sym, ◌∙◌, arith, bit_and, bit_xor, List, [], ◌∷◌,
  ◌++◌, All, foldl,
}
use fuel_station_controller.Base.Bits.{IsByte}
use fuel_station_controller.Base.Xor.{
  bit_xor_step, bit_xor_bound, bit_xor_cancel, bit_xor_cancel_right,
}
use native.Mathlib.Decide.{dec_lt}
use fuel_station_controller.Base.{All-split}
use fuel_station_controller.Base.And.{bit_and-top16}
use fuel_station_controller.Shelf.Codec.{crc_shift, crc_bits, crc_byte, crc_ccitt}

abbrev pub IsWord : ℕ → Type 0
IsWord c = c < 65536

-- The shift without and with the feedback of the polynomial.
crc_shift_low : (c : ℕ) → c < 32768 → crc_shift c ≡ c * 2
unfolding crc_shift
crc_shift_low c h = ground (arith, bit_and-top16 c)

crc_shift_high : (c : ℕ) → 32768 ≤ c → IsWord c → crc_shift c ≡ bit_xor (c * 2 - 65536) 0x1021
unfolding crc_shift
crc_shift_high c h w =
    let top : bit_and c 0x8000 ≡ 32768 = omega (arith, bit_and-top16 c w) in
    let low : c * 2 % 65536 ≡ c * 2 - 65536 = omega arith in rw (top, low)

crc_shift-IsWord : (c : ℕ) → IsWord c → IsWord (crc_shift c)
crc_shift-IsWord c w = elim (dec_lt c 32768) [
  | yes h ↦ rw (crc_shift_low c h) (omega arith)
  | no h ↦
      rw (crc_shift_high c (omega arith) w)
        (bit_xor_bound 16 (c * 2 - 65536) 0x1021 (omega arith) (omega arith))
]

-- The feedback makes the result odd.
crc_shift_odd : (c : ℕ) → 32768 ≤ c → IsWord c → crc_shift c % 2 ≡ 1
crc_shift_odd c h w = omega (arith, crc_shift_high c h w, bit_xor_step (c * 2 - 65536) 0x1021)

crc_shift_inj : (a b : ℕ) → IsWord a → IsWord b → crc_shift a ≡ crc_shift b → a ≡ b
crc_shift_inj a b p q e = elim (dec_lt a 32768) [
  | yes ha ↦ elim (dec_lt b 32768) [
    | yes hb ↦ omega (arith, crc_shift_low a ha, crc_shift_low b hb, e)
    | no hb ↦ absurd (omega (arith, crc_shift_low a ha, crc_shift_odd b (omega arith) q, e))
  ]
  | no ha ↦ elim (dec_lt b 32768) [
    | yes hb ↦ absurd (omega (arith, crc_shift_low b hb, crc_shift_odd a (omega arith) p, e))
    | no hb ↦ omega (
      arith,
      bit_xor_cancel_right (a * 2 - 65536) (b * 2 - 65536) 0x1021
          (sym (crc_shift_high a (omega arith) p) ∙ e ∙ crc_shift_high b (omega arith) q),
    )
  ]
]

crc_bits-IsWord : (n c : ℕ) → IsWord c → IsWord (crc_bits n c)
unfolding crc_bits
crc_bits-IsWord zero c w = w
crc_bits-IsWord (suc n) c w = crc_bits-IsWord n (crc_shift c) (crc_shift-IsWord c w)

crc_bits_inj : (n a b : ℕ) → IsWord a → IsWord b → crc_bits n a ≡ crc_bits n b → a ≡ b
unfolding crc_bits
crc_bits_inj zero a b p q e = e
crc_bits_inj (suc n) a b p q e =
    crc_shift_inj a b p q
      (crc_bits_inj n (crc_shift a) (crc_shift b) (crc_shift-IsWord a p) (crc_shift-IsWord b q) e)

fed : (c x : ℕ) → IsWord c → IsByte x → IsWord (bit_xor c (x * 256))
fed c x w h = bit_xor_bound 16 c (x * 256) w (omega arith)

crc_byte-IsWord : (c x : ℕ) → IsWord c → IsByte x → IsWord (crc_byte c x)
unfolding crc_byte
crc_byte-IsWord c x w h = crc_bits-IsWord 8 (bit_xor c (x * 256)) (fed c x w h)

crc_byte_inj_register :
    (a b x : ℕ) → IsWord a → IsWord b → IsByte x → crc_byte a x ≡ crc_byte b x → a ≡ b
unfolding crc_byte
crc_byte_inj_register a b x p q h e =
    bit_xor_cancel_right a b (x * 256)
      (crc_bits_inj 8 (bit_xor a (x * 256)) (bit_xor b (x * 256)) (fed a x p h) (fed b x q h) e)

crc_byte_inj_byte :
    (c x y : ℕ) → IsWord c → IsByte x → IsByte y → crc_byte c x ≡ crc_byte c y → x ≡ y
unfolding crc_byte
crc_byte_inj_byte c x y w hx hy e = omega (
  arith,
  bit_xor_cancel c (x * 256) (y * 256)
      (crc_bits_inj 8 (bit_xor c (x * 256)) (bit_xor c (y * 256)) (fed c x w hx) (fed c y w hy) e),
)

register_inj :
    (post : List ℕ) (a b : ℕ)
    → All IsByte post
    → IsWord a
    → IsWord b
    → foldl crc_byte a post ≡ foldl crc_byte b post
    → a ≡ b
register_inj [] a b h p q e = e
register_inj (x ∷ post) a b h p q e = crc_byte_inj_register a b x p q h.0 (
    register_inj post (crc_byte a x) (crc_byte b x) h.1 (crc_byte-IsWord a x p h.0)
      (crc_byte-IsWord b x q h.0) e)

differ_at :
    (pre : List ℕ) (c x y : ℕ) (post : List ℕ)
    → All IsByte pre
    → All IsByte post
    → IsWord c
    → IsByte x
    → IsByte y
    → foldl crc_byte c (pre ++ (x ∷ post)) ≡ foldl crc_byte c (pre ++ (y ∷ post))
    → x ≡ y
differ_at [] c x y post hp hq w hx hy e = crc_byte_inj_byte c x y w hx hy (
    register_inj post (crc_byte c x) (crc_byte c y) hq (crc_byte-IsWord c x w hx)
      (crc_byte-IsWord c y w hy) e)
differ_at (z ∷ pre) c x y post hp hq w hx hy e =
    differ_at pre (crc_byte c z) x y post hp.1 hq (crc_byte-IsWord c z w hp.0) hx hy e

-- A change of one byte anywhere in a message changes its CRC.
pub crc_ccitt_single_byte :
    (pre : List ℕ) (x y : ℕ) (post : List ℕ)
    → All IsByte (pre ++ (x ∷ post))
    → IsByte y
    → x ≢ y
    → crc_ccitt (pre ++ (x ∷ post)) ≢ crc_ccitt (pre ++ (y ∷ post))
unfolding crc_ccitt
crc_ccitt_single_byte pre x y post h hy n e =
    let (hp, hx, hq) = All-split IsByte pre x post h in
    n (differ_at pre 0 x y post hp hq (omega arith) hx hy e)

pub crc_ccitt-IsWord : (bytes : List ℕ) → All IsByte bytes → IsWord (crc_ccitt bytes)
unfolding crc_ccitt
crc_ccitt-IsWord bytes h = go bytes 0 h (omega arith)
  where
    go : (l : List ℕ) (c : ℕ) → All IsByte l → IsWord c → IsWord (foldl crc_byte c l)
    go [] c h w = w
    go (x ∷ l) c h w = go l (crc_byte c x) h.1 (crc_byte-IsWord c x w h.0)
