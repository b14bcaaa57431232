-- ===== src/Shelf/Commands/ReadBack.antt =====
-- The requests with a number: what they accept, and what the other end reads out of them.
use fuel_station_controller.Base.{
  ℕ, ◌+◌, ◌*◌, ◌^◌, ◌≤◌, ◌<◌, ◌≡◌, refl, arith, false, not, ◌||◌, ◌&&◌, leb, ltb, ◌==◌, Option,
  none, some, List, ◌∷◌, ◌++◌, length, drop, ◌⊎◌, inl, inr,
}
use fuel_station_controller.Shelf.Codec.{build_request, decode_response, at}
use fuel_station_controller.Shelf.Codec.RoundTrip.{decode_response-build_request}
use fuel_station_controller.Shelf.Commands.{
  write_volume, write_money, u16_le, u24_le, code_write_volume, code_write_money, max_price,
  max_dose,
}
use fuel_station_controller.Shelf.Parser.{read_u24}

pub u24_le_lem : (value : ℕ) → value < 2 ^ 24 → read_u24 (u24_le value) ≡ value
unfolding read_u24 u24_le
u24_le_lem value h = omega arith

-- A request that reaches the other end under `command` with this payload.
pub record Carries (request : Option (List ℕ)) (addr index command : ℕ) (payload : List ℕ)
    : Type 0 where
  pub frame : List ℕ
  pub built : request ≡ some frame
  pub answered :
      decode_response addr index frame
      ≡ some (record { address = addr; index = index; command = command; payload = payload })

carries :
    (addr index command : ℕ) (payload : List ℕ)
    → length payload ≤ 248
    → Carries (build_request addr index command payload) addr index command payload
carries addr index command payload h =
    let (frame, built, back) = (decode_response-build_request addr index command payload).0 h in
    record { frame = frame; built = built; answered = back }

volume_passes :
    (volume price : ℕ)
    → 1 ≤ volume
    → volume ≤ max_dose
    → 1 ≤ price
    → price ≤ max_price
    → (not (leb 1 volume && leb volume max_dose) || price == 0 || ltb max_price price) ≡ false
volume_passes volume price a b c d = ground arith

money_passes :
    (amount : ℕ) → 1 ≤ amount → amount ≤ max_dose → (amount == 0 || ltb max_dose amount) ≡ false
money_passes amount a b = ground arith

-- A volume order is built exactly for 1 to 999 999 hundredths and a price from 1 to 65 535; the other
-- end finds two zero discount bytes, the volume and the price.
pub write_volume_exact :
    (addr index volume price : ℕ)
    → ((1 ≤ volume) × (volume ≤ max_dose) × (1 ≤ price) × (price ≤ max_price)
        → (payload : List ℕ) × Carries
            (write_volume addr index volume price)
            addr
            index
            code_write_volume
            payload
          × (length payload ≡ 7)
          × (at payload 0 ≡ 0)
          × (at payload 1 ≡ 0)
          × (read_u24 (drop 2 payload) ≡ volume)
          × (at payload 5 + at payload 6 * 256 ≡ price))
      × ((volume ≡ 0) ⊎ ((max_dose < volume) ⊎ ((price ≡ 0) ⊎ (max_price < price)))
          → write_volume addr index volume price ≡ none)
unfolding write_volume read_u24
write_volume_exact addr index volume price = (
  λ (lo, hi, plo, phi). (
    0 ∷ 0 ∷ (u24_le volume ++ u16_le price),
    rw (volume_passes volume price lo hi plo phi) (
        carries addr index code_write_volume (0 ∷ 0 ∷ (u24_le volume ++ u16_le price))
          (omega arith)),
    refl,
    refl,
    refl,
    omega arith,
    omega arith,
  ),
  λ h. ground arith,
)

-- A money order is built exactly for 1 to 999 999 units, and the other end finds that amount.
pub write_money_exact :
    (addr index amount : ℕ)
    → ((1 ≤ amount) × (amount ≤ max_dose)
        → (payload : List ℕ) × Carries
            (write_money addr index amount)
            addr
            index
            code_write_money
            payload
          × (length payload ≡ 3)
          × (read_u24 payload ≡ amount))
      × ((amount ≡ 0) ⊎ (max_dose < amount) → write_money addr index amount ≡ none)
unfolding write_money read_u24
write_money_exact addr index amount = (
  λ (lo, hi). (
    u24_le amount,
    rw (money_passes amount lo hi)
        (carries addr index code_write_money (u24_le amount) (omega arith)),
    refl,
    omega arith,
  ),
  λ h. ground arith,
)

-- What the other end finds in a volume order.
abbrev pub VolumeOrder : ℕ → ℕ → ℕ → ℕ → Type 0
VolumeOrder addr index volume price =
    (payload : List ℕ) × Carries (write_volume addr index volume price) addr index code_write_volume
      payload
    × (length payload ≡ 7)
    × (at payload 0 ≡ 0)
    × (at payload 1 ≡ 0)
    × (read_u24 (drop 2 payload) ≡ volume)
    × (at payload 5 + at payload 6 * 256 ≡ price)

volume_cases :
    (volume price : ℕ)
    → ((1 ≤ volume) × (volume ≤ max_dose) × (1 ≤ price) × (price ≤ max_price))
      ⊎ ((volume ≡ 0) ⊎ ((max_dose < volume) ⊎ ((price ≡ 0) ⊎ (max_price < price))))
volume_cases volume price = ground arith

-- A volume order is built exactly for 1 to 999 999 hundredths and a price from 1 to 65 535; the other
-- end finds two zero discount bytes, the volume and the price.
pub write_volume_cases :
    (addr index volume price : ℕ)
    → ((1 ≤ volume)
        × (volume ≤ max_dose)
        × (1 ≤ price)
        × (price ≤ max_price)
        × VolumeOrder addr index volume price)
      ⊎ (((volume ≡ 0) ⊎ ((max_dose < volume) ⊎ ((price ≡ 0) ⊎ (max_price < price))))
          × (write_volume addr index volume price ≡ none))
write_volume_cases addr index volume price =
    let (fits, refused) = write_volume_exact addr index volume price in
    elim (volume_cases volume price) [
      | inl (a, b, c, d) ↦ inl (a, b, c, d, fits (a, b, c, d))
      | inr h ↦ inr (h, refused h)
    ]

money_cases :
    (amount : ℕ) → ((1 ≤ amount) × (amount ≤ max_dose)) ⊎ ((amount ≡ 0) ⊎ (max_dose < amount))
money_cases amount = ground arith

-- A money order is built exactly for 1 to 999 999 units, and the other end finds that amount.
write_money_cases :
    (addr index amount : ℕ)
    → ((1 ≤ amount)
        × (amount ≤ max_dose)
        × ((payload : List ℕ) × Carries
              (write_money addr index amount)
              addr
              index
              code_write_money
              payload
            × (length payload ≡ 3)
            × (read_u24 payload ≡ amount)))
      ⊎ (((amount ≡ 0) ⊎ (max_dose < amount)) × (write_money addr index amount ≡ none))
write_money_cases addr index amount =
    let (fits, refused) = write_money_exact addr index amount in
    elim (money_cases amount) [ inl (a, b) ↦ inl (a, b, fits (a, b)) | inr h ↦ inr (h, refused h) ]
