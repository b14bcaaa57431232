-- ===== src/Shelf/Codec/RoundTrip.antt =====
-- A frame that `build_request` writes is accepted by `decode_response`, and nothing else is.
use mathlib.Core.Path.{subst}
use fuel_station_controller.Base.{
  ℕ, ◌+◌, ◌-◌, ◌*◌, ◌/◌, ◌%◌, ◌≤◌, ◌<◌, ◌≡◌, ◌≢◌, refl, sym, ap, ◌∙◌, arith, ◌||◌, not, Option,
  none, some, List, [], ◌∷◌, ◌++◌, append_assoc, length, length-append, take, take_exact,
  get_or_exact, ltb, ◌==◌, if◌then◌else◌, Within, within, last_two,
}
use fuel_station_controller.Shelf.Codec.{
  start_byte, crc_ccitt, build_request, Response, decode_response, at,
}

-- A frame cut into its header, its payload, and its two last bytes.
module _ (a b c d e : ℕ) (p : List ℕ) (x y : ℕ) where
  abbrev pub covered : List ℕ
  covered = a ∷ b ∷ c ∷ d ∷ e ∷ p

  abbrev pub whole : List ℕ
  whole = covered ++ (x ∷ y ∷ [])

  pub length-whole : length whole ≡ length p + 7
  length-whole = omega (arith, length-append p (x ∷ y ∷ []))

  take-covered : take (length p + 7 - 2) whole ≡ covered
  take-covered = take_exact (length p + 7 - 2) covered (x ∷ y ∷ []) (omega arith)

  at-low : at whole (length p + 7 - 2) ≡ x
  at-low = get_or_exact (length p + 7 - 2) covered x (y ∷ []) 0 (omega arith)

  at-high : at whole (length p + 7 - 2 + 1) ≡ y
  at-high =
      ap (λ t. at t (length p + 7 - 2 + 1)) (sym (append_assoc covered (x ∷ []) (y ∷ [])))
      ∙ get_or_exact (length p + 7 - 2 + 1) (covered ++ (x ∷ [])) y [] 0
          (omega (arith, length-append covered (x ∷ [])))

  abbrev tested : ℕ → ℕ → ℕ → ℕ → Option Response
  tested addr index n k =
      if ltb n 7 || not (a == start_byte) || not (b == addr) || not (c == index) || not (d == n)
      then none
      else if not (k == x + y * 256)
      then none
      else some (record { address = addr; index = index; command = e; payload = p })

  decode-whole :
      (addr index : ℕ)
      → decode_response addr index whole ≡ tested addr index (length p + 7) (crc_ccitt covered)
  unfolding decode_response
  decode-whole addr index = rw (length-whole) (rw (take-covered, at-low, at-high) refl)

abbrev pub frame_of : ℕ → ℕ → ℕ → List ℕ → List ℕ
frame_of addr index command payload =
    let crc = crc_ccitt (start_byte ∷ addr ∷ index ∷ (7 + length payload) ∷ command ∷ payload) in
    whole start_byte addr index (7 + length payload) command payload (crc % 256) (crc / 256)

pub build_request_lem :
    (addr index command : ℕ) (payload : List ℕ)
    → (length payload ≤ 248
        → build_request addr index command payload ≡ some (frame_of addr index command payload))
      × (248 < length payload → build_request addr index command payload ≡ none)
unfolding build_request
build_request_lem addr index command payload = (λ h. ground arith, λ h. ground arith)

-- A request is built exactly when its payload has at most 248 bytes, and the reply decoder reads
-- the same address, index, command and payload out of the frame.
pub decode_response-build_request :
    (addr index command : ℕ) (payload : List ℕ)
    → (length payload ≤ 248
        → (frame : List ℕ) × (build_request addr index command payload ≡ some frame)
          × (decode_response addr index frame
              ≡ some
                  (record { address = addr; index = index; command = command; payload = payload })))
      × (248 < length payload → build_request addr index command payload ≡ none)
decode_response-build_request addr index command payload = (
  λ h. (
    frame_of addr index command payload,
    (build_request_lem addr index command payload).0 h,
    decode-whole start_byte addr index (7 + length payload) command payload _ _ addr index
        ∙ accepts,
  ),
  (build_request_lem addr index command payload).1,
)
  where
    k : ℕ
    k = crc_ccitt (start_byte ∷ addr ∷ index ∷ (7 + length payload) ∷ command ∷ payload)

    accepts :
        tested start_byte addr index
          (7 + length payload)
          command
          payload
          (k % 256)
          (k / 256)
          addr
          index
          (length payload + 7)
          k
        ≡ some (record { address = addr; index = index; command = command; payload = payload })
    accepts = ground arith

-- What an accepted reply consists of.
pub record IsAccepted (addr index : ℕ) (frame : List ℕ) (r : Response) : Type 0 where
  pub low : ℕ
  pub high : ℕ
  pub shape :
      frame ≡ whole start_byte addr index (7 + length r.payload) r.command r.payload low high
  pub sum :
      crc_ccitt (start_byte ∷ addr ∷ index ∷ (7 + length r.payload) ∷ r.command ∷ r.payload)
      ≡ low + high * 256
  pub answered : (r.address ≡ addr) × (r.index ≡ index)

tested_sound :
    (a b c d e : ℕ) (p : List ℕ) (x y addr index k : ℕ) (r : Response)
    → tested a b c d e p x y addr index (length p + 7) k ≡ some r
    → (a ≡ start_byte)
      × (b ≡ addr)
      × (c ≡ index)
      × (d ≡ 7 + length p)
      × (k ≡ x + y * 256)
      × (record { address = addr; index = index; command = e; payload = p } ≡ r)
tested_sound a b c d e p x y addr index k r h = ground arith

whole_sound :
    (a b c d e : ℕ) (p : List ℕ) (x y addr index : ℕ) (r : Response)
    → decode_response addr index (whole a b c d e p x y) ≡ some r
    → IsAccepted addr index (whole a b c d e p x y) r
whole_sound a b c d e p x y addr index r h =
    let (ha, hb, hc, hd, hk, hr) =
      tested_sound a b c d e p x y addr index _ r
        (sym (decode-whole a b c d e p x y addr index) ∙ h) in
    subst (IsAccepted addr index (whole a b c d e p x y)) hr (record {
      low = x;
      high = y;
      shape = rw (ha, hb, hc, hd);
      sum = rw (ha, hb, hc, hd) at hk;
      answered = (refl, refl);
    })

too_short :
    (addr index : ℕ) (frame : List ℕ) (r : Response)
    → length frame < 7
    → decode_response addr index frame ≢ some r
unfolding decode_response
too_short addr index frame r h e = ground arith

-- A reply is accepted only if it is a whole frame for the address and the index asked for, with its
-- length in the fourth byte and the CRC of everything before in the last two.
pub decode_response_sound :
    (addr index : ℕ) (frame : List ℕ) (r : Response)
    → decode_response addr index frame ≡ some r
    → IsAccepted addr index frame r
decode_response_sound addr index (a ∷ b ∷ c ∷ d ∷ e ∷ f ∷ g ∷ tail) r h =
    let (p, x, y, same) = last_two (f ∷ g ∷ tail) (omega arith) in
    let same' : a ∷ b ∷ c ∷ d ∷ e ∷ f ∷ g ∷ tail ≡ whole a b c d e p x y =
      ap (λ t. a ∷ b ∷ c ∷ d ∷ e ∷ t) same in
    subst (λ t. IsAccepted addr index t r) (sym same')
      (whole_sound a b c d e p x y addr index r
        (subst (λ t. decode_response addr index t ≡ some r) same' h))
decode_response_sound addr index frame r h = absurd (too_short addr index frame r (omega arith) h)

-- A request is built exactly when its payload has at most 248 bytes, and the reply decoder reads the
-- same address, index, command and payload out of the frame.
pub build_indexed_request_cases :
    (addr index command : ℕ) (payload : List ℕ)
    → Within
        (length payload)
        248
        ((frame : List ℕ) × (build_request addr index command payload ≡ some frame)
          × (decode_response addr index frame
              ≡ some
                  (record { address = addr; index = index; command = command; payload = payload })))
        (build_request addr index command payload ≡ none)
build_indexed_request_cases addr index command payload =
    let (fits, refused) = decode_response-build_request addr index command payload in
    within (length payload) 248 fits refused
