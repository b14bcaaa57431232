-- ===== src/Gilbarco/Lrc/Laws.antt =====
-- The checksum as arithmetic on the sum of the bytes.
use fuel_station_controller.Base.{
  ℕ, ◌+◌, ◌-◌, ◌%◌, ◌<◌, ◌≡◌, refl, arith, bit_and, bit_or, bit_xor, true, List, [], ◌∷◌, foldl,
  ◌==◌, ◌∙◌, ap,
}
use fuel_station_controller.Base.Bits.{all_below, agree_below}
use fuel_station_controller.Gilbarco.Lrc.{lrc_step, gilbarco_lrc}

pub sum : List ℕ → ℕ
sum [] = 0
sum (b ∷ bs) = b + sum bs

low_table : all_below 256 (λ x. bit_and x 0x0f == x % 16) ≡ true
unfolding all_below
low_table = refl

close_table :
    all_below 16
      (λ s. bit_or 0xe0 (bit_and ((bit_xor s 0x0f + 1) % 256) 0x0f) == 0xe0 + (16 - s) % 16)
    ≡ true
unfolding all_below
close_table = refl

lrc_step_lem : (acc b : ℕ) → lrc_step acc b ≡ (acc + b) % 16
unfolding lrc_step
lrc_step_lem acc b =
    agree_below 256 (λ x. bit_and x 0x0f) (λ x. x % 16) low_table ((acc + b) % 256) (omega arith)
    ∙ omega arith

fold_lem : (bytes : List ℕ) (acc : ℕ) → acc < 16 → foldl lrc_step acc bytes ≡ (acc + sum bytes) % 16
unfolding sum
fold_lem [] acc h = omega arith
fold_lem (b ∷ bs) acc h =
    fold_lem bs (lrc_step acc b) (omega (arith, lrc_step_lem acc b))
    ∙ omega (arith, lrc_step_lem acc b)

-- The checksum is `0xE0` with the low nibble that completes the sum of all bytes to a multiple of 16.
pub gilbarco_lrc_lem :
    (bytes : List ℕ)
    → (gilbarco_lrc bytes ≡ 0xe0 + (16 - sum bytes % 16) % 16)
      × ((sum bytes + gilbarco_lrc bytes) % 16 ≡ 0)
unfolding gilbarco_lrc
gilbarco_lrc_lem bytes =
    let s = sum bytes % 16 in
    let closed =
      agree_below 16 (λ x. bit_or 0xe0 (bit_and ((bit_xor x 0x0f + 1) % 256) 0x0f))
        (λ x. 0xe0 + (16 - x) % 16) close_table s (omega arith) in
    let e : gilbarco_lrc bytes ≡ 0xe0 + (16 - s) % 16 =
      ap (λ x. bit_or 0xe0 (bit_and ((bit_xor x 0x0f + 1) % 256) 0x0f))
        (fold_lem bytes 0 (omega arith) ∙ omega arith)
      ∙ closed in
    (e, omega (arith, e))
