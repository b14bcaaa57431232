-- ===== src/Bluesky/Codec/RoundTrip.antt =====
-- A frame that `build_request` writes is accepted by `decode_response`, and nothing else is.
use fuel_station_controller.Base.{
  ℕ, ◌+◌, ◌-◌, ◌*◌, ◌/◌, ◌%◌, ◌≤◌, ◌<◌, ◌≡◌, refl, sym, ap, ◌∙◌, arith, bit_and, bit_or, true, ◌||◌,
  not, none, some, List, [], ◌∷◌, ◌++◌, append_assoc, length, length-append, take, drop, take_exact,
  get_or_exact, ltb, ◌==◌, if◌then◌else◌, Within, within,
}
use fuel_station_controller.Base.Bits.{IsByte, all_below, agree_below}
use fuel_station_controller.Bluesky.Codec.{
  precode, len_high, crc, build_request, response_of, decode_response, at,
}

length_byte : ℕ → ℕ
length_byte k = bit_or len_high (bit_and ((k + 2) % 256) 0x0f)

length_table : all_below 14 (λ k. length_byte k == 0xa0 + (k + 2)) ≡ true
unfolding all_below length_byte
length_table = refl

low_table : all_below 256 (λ x. bit_and x 0x0f == x % 16) ≡ true
unfolding all_below
low_table = refl

high_table : all_below 256 (λ x. bit_and x 0xf0 == x / 16 * 16) ≡ true
unfolding all_below
high_table = refl

length_byte_lem : (k : ℕ) → k < 14 → length_byte k ≡ 0xa0 + (k + 2)
length_byte_lem k h = agree_below 14 length_byte (λ x. 0xa0 + (x + 2)) length_table k h

pub low_nibble : (b : ℕ) → IsByte b → bit_and b 0x0f ≡ b % 16
low_nibble b h = agree_below 256 (λ x. bit_and x 0x0f) (λ x. x % 16) low_table b h

pub high_nibble : (b : ℕ) → IsByte b → bit_and b 0xf0 ≡ b / 16 * 16
high_nibble b h = agree_below 256 (λ x. bit_and x 0xf0) (λ x. x / 16 * 16) high_table b h

-- The frame of a command with at most 13 bytes of payload.
abbrev pub frame_of : ℕ → ℕ → List ℕ → List ℕ
frame_of addr cmd payload =
    let f = precode ∷ addr ∷ (0xa0 + (length payload + 2)) ∷ (payload ++ (cmd ∷ [])) in
    f ++ (crc f ∷ [])

pub build_request_lem :
    (addr cmd : ℕ) (payload : List ℕ)
    → (length payload ≤ 13 → build_request addr cmd payload ≡ some (frame_of addr cmd payload))
      × (13 < length payload → build_request addr cmd payload ≡ none)
unfolding build_request length_byte
build_request_lem addr cmd payload =
    (λ h. rw (length_byte_lem (length payload) (omega arith)) (ground arith), λ h. ground arith)

-- The parts of a frame, at the positions at which the decoder reads them.
module _ (addr cmd : ℕ) (payload : List ℕ) where
  front : List ℕ
  front = precode ∷ addr ∷ (0xa0 + (length payload + 2)) ∷ payload

  covered : List ℕ
  covered = precode ∷ addr ∷ (0xa0 + (length payload + 2)) ∷ (payload ++ (cmd ∷ []))

  length-covered : length covered ≡ length payload + 4
  unfolding covered
  length-covered = omega (arith, length-append payload (cmd ∷ []))

  pub length-frame_of : length (frame_of addr cmd payload) ≡ length payload + 5
  unfolding covered
  length-frame_of = omega (arith, length-append covered (crc covered ∷ []), length-covered)

  crc_part : take (length payload + 4) (frame_of addr cmd payload) ≡ covered
  unfolding covered
  crc_part = take_exact (length payload + 4) covered (crc covered ∷ []) (sym length-covered)

  crc-at : at (frame_of addr cmd payload) (length payload + 4) ≡ crc covered
  unfolding covered
  crc-at = get_or_exact (length payload + 4) covered (crc covered) [] 0 (sym length-covered)

  regroup : frame_of addr cmd payload ≡ front ++ (cmd ∷ crc covered ∷ [])
  unfolding front covered
  regroup =
      ap (λ t. precode ∷ addr ∷ (0xa0 + (length payload + 2)) ∷ t)
        (append_assoc payload (cmd ∷ []) (crc covered ∷ []))

  length-front : length payload + 3 ≡ length front
  unfolding front
  length-front = omega arith

  cmd_at : at (frame_of addr cmd payload) (length payload + 3) ≡ cmd
  cmd_at =
      ap (λ t. at t (length payload + 3)) regroup
      ∙ get_or_exact (length payload + 3) front cmd (crc covered ∷ []) 0 length-front

  payload_part : drop 3 (take (length payload + 3) (frame_of addr cmd payload)) ≡ payload
  unfolding front
  payload_part =
      ap (λ t. drop 3 (take (length payload + 3) t)) regroup
      ∙ ap (drop 3) (take_exact (length payload + 3) front (cmd ∷ crc covered ∷ []) length-front)

  pub len_bits :
      length payload ≤ 13 → bit_and (0xa0 + (length payload + 2)) 0x0f ≡ length payload + 2
  len_bits h = low_nibble (0xa0 + (length payload + 2)) (omega arith) ∙ omega arith

  pub high_bits : length payload ≤ 13 → bit_and (0xa0 + (length payload + 2)) 0xf0 ≡ len_high
  high_bits h = high_nibble (0xa0 + (length payload + 2)) (omega arith) ∙ omega arith

-- What the decoder checks, from a frame cut at the places at which it reads.
decode_checks :
    (addr n len cmd : ℕ) (frame covered payload : List ℕ)
    → length frame ≡ n
    → at frame 0 ≡ precode
    → at frame 1 ≡ addr
    → bit_and (at frame 2) 0xf0 ≡ len_high
    → bit_and (at frame 2) 0x0f ≡ len
    → n ≡ len + 3
    → 2 ≤ len
    → take (n - 1) frame ≡ covered
    → at frame (n - 1) ≡ crc covered
    → at frame (n - 2) ≡ cmd
    → drop 3 (take (n - 2) frame) ≡ payload
    → decode_response addr frame ≡ some (response_of cmd payload)
unfolding decode_response
decode_checks addr n len cmd frame covered payload hn h0 h1 h2 hl he h5 ht hc hm hp =
    rw (hn, h0, h1, h2, hl) (rw (ht, hc, hm, hp) (passes (crc covered)))
  where
    passes :
        (c : ℕ)
        → (if ltb n 5 || not (precode == precode) || not (addr == addr)
            then none
            else if not (len_high == len_high)
            then none
            else if not (n == len + 3) || ltb len 2
            then none
            else if not (c == c)
            then none
            else some (response_of cmd payload))
          ≡ some (response_of cmd payload)
    passes c = ground arith

decode-frame_of :
    (addr cmd : ℕ) (payload : List ℕ)
    → length payload ≤ 13
    → decode_response addr (frame_of addr cmd payload) ≡ some (response_of cmd payload)
unfolding covered
decode-frame_of addr cmd payload h =
    decode_checks addr (length payload + 5) (length payload + 2) cmd (frame_of addr cmd payload)
      (covered addr cmd payload) payload (length-frame_of addr cmd payload) refl refl
      (high_bits addr cmd payload h) (len_bits addr cmd payload h) (omega arith) (omega arith)
      (ap (λ k. take k (frame_of addr cmd payload)) (omega arith) ∙ crc_part addr cmd payload)
      (ap (at (frame_of addr cmd payload)) (omega arith) ∙ crc-at addr cmd payload)
      (ap (at (frame_of addr cmd payload)) (omega arith) ∙ cmd_at addr cmd payload)
      (ap (λ k. drop 3 (take k (frame_of addr cmd payload))) (omega arith)
        ∙ payload_part addr cmd payload)

-- A request is built exactly when its payload has at most 13 bytes, and the other end decodes it to
-- the command and the payload.
pub decode_response-build_request :
    (addr cmd : ℕ) (payload : List ℕ)
    → (length payload ≤ 13
        → (frame : List ℕ) × (build_request addr cmd payload ≡ some frame)
          × (decode_response addr frame ≡ some (response_of cmd payload)))
      × (13 < length payload → build_request addr cmd payload ≡ none)
decode_response-build_request addr cmd payload = (
  λ h. (
    frame_of addr cmd payload,
    (build_request_lem addr cmd payload).0 h,
    decode-frame_of addr cmd payload h,
  ),
  (build_request_lem addr cmd payload).1,
)

-- A request is built exactly when its payload has at most 13 bytes, and the other end decodes it to
-- the command and the payload.
pub build_request_cases :
    (addr cmd : ℕ) (payload : List ℕ)
    → Within
        (length payload)
        13
        ((frame : List ℕ) × (build_request addr cmd payload ≡ some frame)
          × (decode_response addr frame ≡ some (response_of cmd payload)))
        (build_request addr cmd payload ≡ none)
build_request_cases addr cmd payload =
    let (fits, refused) = decode_response-build_request addr cmd payload in
    within (length payload) 13 fits refused
