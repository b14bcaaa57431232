-- ===== src/Wayne/Builder/ReadBack.antt =====
-- What the builder writes, read back: the stop frames and the three-byte amounts.
use fuel_station_controller.Base.{
  ℕ, ◌+◌, ◌*◌, ◌/◌, ◌%◌, ◌≡◌, ◌≤◌, ◌<◌, ◌∙◌, sym, ap, refl, arith, bit_or, true, false, some, List,
  [], ◌∷◌, ltb, ◌==◌, ==_iff, if◌then◌else◌, min, inl, inr, Bool-cases, get_or,
}
use fuel_station_controller.Base.Bits.{all_below, all_below_sound, agree_below}
use fuel_station_controller.Wayne.Crc.{crc16, build_frame}
use fuel_station_controller.Wayne.Builder.{stop, stop_frame, encode_bcd_3, digit_pair}
use fuel_station_controller.Wayne.Fill.{hex_digits, unwrap_or, decode_amount}

stop_50 : stop 0x50 ≡ 0x50 ∷ 0x30 ∷ 0x01 ∷ 0x01 ∷ 0x08 ∷ 0x9e ∷ 0x9a ∷ 0x03 ∷ 0xfa ∷ []
unfolding stop build_frame crc16
stop_50 = refl

stop_51 : stop 0x51 ≡ 0x51 ∷ 0x30 ∷ 0x01 ∷ 0x01 ∷ 0x08 ∷ 0xa3 ∷ 0x5a ∷ 0x03 ∷ 0xfa ∷ []
unfolding stop build_frame crc16
stop_51 = refl

stop_52 : stop 0x52 ≡ 0x52 ∷ 0x30 ∷ 0x01 ∷ 0x01 ∷ 0x08 ∷ 0xe7 ∷ 0x5a ∷ 0x03 ∷ 0xfa ∷ []
unfolding stop build_frame crc16
stop_52 = refl

stop_53 : stop 0x53 ≡ 0x53 ∷ 0x30 ∷ 0x01 ∷ 0x01 ∷ 0x08 ∷ 0xda ∷ 0x9a ∷ 0x03 ∷ 0xfa ∷ []
unfolding stop build_frame crc16
stop_53 = refl

agree_if :
    (addr code : ℕ) (hard other : List ℕ)
    → stop code ≡ hard
    → other ≡ stop addr
    → (if addr == code then hard else other) ≡ stop addr
agree_if addr code hard other h k = elim (Bool-cases (addr == code)) [
  | inl e ↦ rw e (sym h ∙ ap stop (sym ((==_iff addr code).0 e)))
  | inr e ↦ rw e k
]

-- The stop frames that are written out byte by byte are the ones that the CRC gives, at every
-- address.
stop_frame-stop : (addr : ℕ) → stop_frame addr ≡ stop addr
unfolding stop_frame
stop_frame-stop addr = agree_if addr 0x50 _ _ stop_50 (
    agree_if addr 0x51 _ _ stop_51
      (agree_if addr 0x52 _ _ stop_52 (agree_if addr 0x53 _ _ stop_53 refl)))

pair_table : all_below 10 (λ h. all_below 10 (λ l. bit_or (h * 16) l == h * 16 + l)) ≡ true
unfolding all_below
pair_table = refl

digit_pair_lem :
    (val unit : ℕ) → digit_pair val unit ≡ val / (10 * unit) % 10 * 16 + val / unit % 10
unfolding digit_pair
digit_pair_lem val unit =
    let row = all_below_sound 10 _ (val / (10 * unit) % 10) pair_table (omega arith) in
    agree_below 10 (λ l. bit_or (val / (10 * unit) % 10 * 16) l)
      (λ l. val / (10 * unit) % 10 * 16 + l) row (val / unit % 10) (omega arith)

not_above_nine : (d : ℕ) → d < 10 → ltb 9 d ≡ false
not_above_nine d h = ground arith

pair_step :
    (h l : ℕ) (rest : List ℕ) (acc : ℕ)
    → h < 10
    → l < 10
    → hex_digits ((h * 16 + l) ∷ rest) acc ≡ hex_digits rest (acc * 100 + h * 10 + l)
unfolding hex_digits
pair_step h l rest acc p q =
    let high : (h * 16 + l) / 16 ≡ h = omega arith in
    let low : (h * 16 + l) % 16 ≡ l = omega arith in
    rw (high, low, not_above_nine h p, not_above_nine l q) refl

hex_digits-end : (acc n : ℕ) → acc ≡ n → hex_digits [] acc ≡ some n
unfolding hex_digits
hex_digits-end acc n h = ap some h

six_digits :
    (a b c d e f : ℕ)
    → a < 10
    → b < 10
    → c < 10
    → d < 10
    → e < 10
    → f < 10
    → hex_digits (0 ∷ (a * 16 + b) ∷ (c * 16 + d) ∷ (e * 16 + f) ∷ []) 0
      ≡ some (a * 100000 + b * 10000 + c * 1000 + d * 100 + e * 10 + f)
six_digits a b c d e f p q r s t u =
    pair_step 0 0 ((a * 16 + b) ∷ (c * 16 + d) ∷ (e * 16 + f) ∷ []) 0 (omega arith) (omega arith)
    ∙ pair_step a b ((c * 16 + d) ∷ (e * 16 + f) ∷ []) 0 p q
    ∙ pair_step c d ((e * 16 + f) ∷ []) (0 * 100 + a * 10 + b) r s
    ∙ pair_step e f [] ((0 * 100 + a * 10 + b) * 100 + c * 10 + d) t u
    ∙ hex_digits-end _ (a * 100000 + b * 10000 + c * 1000 + d * 100 + e * 10 + f) (omega arith)

decode_pairs :
    (a b c d e f : ℕ)
    → a < 10
    → b < 10
    → c < 10
    → d < 10
    → e < 10
    → f < 10
    → decode_amount 0 (a * 16 + b) (c * 16 + d) (e * 16 + f)
      ≡ a * 100000 + b * 10000 + c * 1000 + d * 100 + e * 10 + f
unfolding decode_amount
decode_pairs a b c d e f p q r s t u = ap (λ o. unwrap_or o 0) (six_digits a b c d e f p q r s t u)

decimal :
    (shown : ℕ)
    → shown ≤ 999999
    → shown / 100000 % 10 * 100000
        + shown / 10000 % 10 * 10000
        + shown / 1000 % 10 * 1000
        + shown / 100 % 10 * 100
        + shown / 10 % 10 * 10
        + shown / 1 % 10
      ≡ shown
decimal shown h = omega arith

min_bound : (a b : ℕ) → min a b ≤ b
min_bound a b = ground arith

-- The amount that the builder packs into three bytes is read back by the meter's decoder, cut to
-- 999 999.
pub decode_amount-encode_bcd_3 :
    (val : ℕ)
    → decode_amount 0
        (get_or (encode_bcd_3 val) 0 0)
        (get_or (encode_bcd_3 val) 1 0)
        (get_or (encode_bcd_3 val) 2 0)
      ≡ min val 999999
unfolding encode_bcd_3
decode_amount-encode_bcd_3 val =
    let shown = min val 999999 in
    rw (digit_pair_lem shown 10000, digit_pair_lem shown 100, digit_pair_lem shown 1)
      (decode_pairs (shown / 100000 % 10) (shown / 10000 % 10) (shown / 1000 % 10)
          (shown / 100 % 10) (shown / 10 % 10) (shown / 1 % 10) (omega arith) (omega arith)
          (omega arith) (omega arith) (omega arith) (omega arith)
        ∙ decimal shown (min_bound val 999999))
