-- ===== src/Bluesky/Commands/ReadBack.antt =====
-- The requests with a number: what they accept, and what the other end reads out of them.
use fuel_station_controller.Base.{
  ℕ, ◌^◌, ◌≤◌, ◌<◌, ◌≡◌, refl, ap, ◌∙◌, arith, Option, none, some, List, [], ◌∷◌, ltb,
  if◌then◌else◌, length, ◌>>=◌, Within, within,
}
use fuel_station_controller.Bluesky.Codec.{
  build_request, decode_response, encode_bcd, decode_bcd, reply, response_of,
}
use fuel_station_controller.Bluesky.Codec.RoundTrip.{decode_response-build_request}
use fuel_station_controller.Bluesky.Codec.Bcd.{encode_bcd_exact}
use fuel_station_controller.Bluesky.Commands.{
  write_price, dose_by_amount, dose_by_volume, code_write_price, code_dose_by_amount,
  code_dose_by_volume, max_price, max_dose, price_bytes, fill_bytes,
}

-- A frame that carries `value` in a field of `n` bytes under the command `code`.
pub record Carries (request : Option (List ℕ)) (addr code n value : ℕ) : Type 0 where
  pub frame : List ℕ
  pub payload : List ℕ
  pub built : request ≡ some frame
  pub answered : decode_response addr frame ≡ some (reply code payload)
  pub decoded : decode_bcd payload ≡ some value
  pub width : length payload ≡ n

abbrev numeric : ℕ → ℕ → ℕ → ℕ → ℕ → Option (List ℕ)
numeric limit n code addr value =
    if ltb limit value then none else (encode_bcd value n >>= build_request addr code)

response_of_full :
    (code : ℕ) (payload : List ℕ)
    → 1 ≤ length payload
    → response_of code payload ≡ reply code payload
response_of_full code [] h = absurd (omega arith)
response_of_full code (b ∷ bs) h = refl

numeric-Carries :
    (limit n code addr value : ℕ)
    → 1 ≤ n
    → n ≤ 9
    → limit < 100 ^ n
    → value ≤ limit
    → Carries (numeric limit n code addr value) addr code n value
numeric-Carries limit n code addr value lo hi room ok =
    let f = (encode_bcd_exact value n hi).0 (omega arith) in
    let (frame, built, back) =
      (decode_response-build_request addr code f.bytes).0 (omega (arith, f.width)) in
    record {
      frame = frame;
      payload = f.bytes;
      built = ground (arith, f.encoded, built);
      answered = back ∙ ap some (response_of_full code f.bytes (omega (arith, f.width)));
      decoded = f.decoded;
      width = f.width;
    }

numeric_refuses :
    (limit n code addr value : ℕ) → limit < value → numeric limit n code addr value ≡ none
numeric_refuses limit n code addr value h = ground arith

-- Prices up to 99 999 and doses up to 99 999 999 are accepted, and the other end reads the same
-- number out of the field; anything larger is refused.
pub numeric_requests_exact :
    (addr value : ℕ)
    → ((value ≤ max_price
          → Carries (write_price addr value) addr code_write_price price_bytes value)
        × (max_price < value → write_price addr value ≡ none))
      × ((value ≤ max_dose
            → Carries (dose_by_amount addr value) addr code_dose_by_amount fill_bytes value)
          × (max_dose < value → dose_by_amount addr value ≡ none))
      × ((value ≤ max_dose
            → Carries (dose_by_volume addr value) addr code_dose_by_volume fill_bytes value)
          × (max_dose < value → dose_by_volume addr value ≡ none))
unfolding write_price dose_by_amount dose_by_volume
numeric_requests_exact addr value = (
  (
    numeric-Carries max_price price_bytes code_write_price addr value (omega arith) (omega arith)
        (omega arith),
    numeric_refuses max_price price_bytes code_write_price addr value,
  ),
  (
    numeric-Carries max_dose fill_bytes code_dose_by_amount addr value (omega arith) (omega arith)
        (omega arith),
    numeric_refuses max_dose fill_bytes code_dose_by_amount addr value,
  ),
  (
    numeric-Carries max_dose fill_bytes code_dose_by_volume addr value (omega arith) (omega arith)
        (omega arith),
    numeric_refuses max_dose fill_bytes code_dose_by_volume addr value,
  ),
)

-- Prices up to 99 999 and doses up to 99 999 999 are accepted, and the other end reads the same
-- number out of the field; anything larger is refused.
pub numeric_requests_cases :
    (addr value : ℕ)
    → Within value max_price
        (Carries (write_price addr value) addr code_write_price price_bytes value)
        (write_price addr value ≡ none)
      × Within value max_dose
          (Carries (dose_by_amount addr value) addr code_dose_by_amount fill_bytes value)
          (dose_by_amount addr value ≡ none)
      × Within value max_dose
          (Carries (dose_by_volume addr value) addr code_dose_by_volume fill_bytes value)
          (dose_by_volume addr value ≡ none)
numeric_requests_cases addr value =
    let (price, amount, volume) = numeric_requests_exact addr value in
    (
      within value max_price price.0 price.1,
      within value max_dose amount.0 amount.1,
      within value max_dose volume.0 volume.1,
    )
