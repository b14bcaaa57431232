-- ===== src/Azt/Codec/Decode.antt =====
-- `decode_response` accepts the well-formed frames and nothing else.
use mathlib.Core.Path.{subst}
use fuel_station_controller.Base.{
  ◌↔◌, eq_of_some, ℕ, ◌≡◌, refl, sym, ap, ◌∙◌, arith, Bool, true, false, ◌==◌, ==_iff, none, some,
  List, [], ◌∷◌, ◌++◌, append_assoc, append-nil, Bool-cases, inl, inr, Option-cases, ◌||◌,
}
use fuel_station_controller.Azt.Codec.{
  complement, checksum, etx, del, stx, ack, nak, can, data_trailer, data_frame_loop,
  decode_data_frame, encode_data_response, Response, short, payload, decode_response,
}
use fuel_station_controller.Azt.Codec.Frames.{
  pairs, trailer, NoEtx, decode_data_frame-pairs, encode_data_response_lem,
}

-- What a body that decodes looks like: clean pairs, the double `ETX`, and the checksum.
pub record IsBody (body bytes : List ℕ) : Type 0 where
  pub rest : List ℕ
  pub shape : body ≡ pairs bytes ++ trailer bytes rest
  pub clean : NoEtx bytes

data_trailer_sound :
    (l found d : List ℕ)
    → data_trailer l found ≡ some d
    → (rest : List ℕ) × (l ≡ etx ∷ checksum found ∷ rest) × (d ≡ found)
unfolding data_trailer
data_trailer_sound [] found d h = cc
data_trailer_sound (x ∷ []) found d h = cc
data_trailer_sound (x ∷ y ∷ rest) found d h = (rest, ground arith, ground arith)

data_frame_loop_sound :
    (body found d : List ℕ)
    → data_frame_loop body found ≡ some d
    → (bs : List ℕ) × (rest : List ℕ) × (d ≡ found ++ bs)
      × (body ≡ pairs bs ++ trailer d rest)
      × NoEtx bs
unfolding data_frame_loop
data_frame_loop_sound [] found d h = cc
data_frame_loop_sound (b ∷ []) found d h = absurd (unfold data_trailer in ground arith)
data_frame_loop_sound (b ∷ comp ∷ rest) found d h = elim (Bool-cases (b == etx)) [
  | inl e ↦
      let (r, shape, same) = data_trailer_sound (comp ∷ rest) found d (rw e at h) in
      ([], r, same ∙ sym (append-nil found), cc ((==_iff b etx).0 e), tt)
  | inr n ↦ elim (Bool-cases (comp == complement b)) [
    | inl c ↦
        let (bs, r, same, shape, clean) =
          data_frame_loop_sound rest (found ++ (b ∷ [])) d (rw (n, c) at h) in
        (
          b ∷ bs,
          r,
          same ∙ append_assoc found (b ∷ []) bs,
          cc ((==_iff comp (complement b)).0 c),
          (ground arith, clean),
        )
    | inr w ↦ absurd (cc (rw (n, w) at h))
  ]
]

pub decode_data_frame_sound :
    (body bytes : List ℕ) → decode_data_frame body ≡ some bytes → IsBody body bytes
unfolding decode_data_frame
decode_data_frame_sound body bytes h =
    let (bs, r, same, shape, clean) = data_frame_loop_sound body [] bytes h in
    record { rest = r; shape = cc; clean = subst NoEtx (sym same) clean }

pub decode_data_frame_complete :
    (body bytes : List ℕ) → IsBody body bytes → decode_data_frame body ≡ some bytes
decode_data_frame_complete body bytes w = rw w.shape (decode_data_frame-pairs bytes w.rest w.clean)

-- A byte at which the scan of `decode_response` stops to look.
abbrev pub is_short_code : ℕ → Bool
is_short_code b = b == ack || b == nak || b == can

-- Bytes that the scan passes over: no short code, and no `STX` that a valid body follows.
abbrev pub IsNoise : List ℕ → List ℕ → Type 0
IsNoise [] rest = Unit {0}
IsNoise (b ∷ bs) rest =
    (is_short_code b ≡ false) × (b ≡ stx → decode_data_frame (bs ++ rest) ≡ none) × IsNoise bs rest

decode_response_skip :
    (b : ℕ) (rest : List ℕ)
    → is_short_code b ≡ false
    → (b ≡ stx → decode_data_frame rest ≡ none)
    → decode_response (b ∷ rest) ≡ decode_response rest
unfolding decode_response
decode_response_skip b rest h k = elim (Bool-cases (b == stx)) [
  | inl e ↦ rw (h, e, k ((==_iff b stx).0 e))
  | inr n ↦ rw (h, n)
]

decode_response_noise :
    (noise rest : List ℕ)
    → IsNoise noise rest
    → decode_response (noise ++ rest) ≡ decode_response rest
decode_response_noise [] rest h = refl
decode_response_noise (b ∷ bs) rest h =
    decode_response_skip b (bs ++ rest) h.0 h.1 ∙ decode_response_noise bs rest h.2

decode_response-stx :
    (body bytes : List ℕ)
    → decode_data_frame body ≡ some bytes
    → decode_response (stx ∷ body) ≡ some (payload bytes)
unfolding decode_response
decode_response-stx body bytes h = rw h

-- A reply that `decode_response` returns, as the buffer shows it.
pub data Answers (buf : List ℕ) : Response → Type 0 where
  with_code :
      (noise : List ℕ) (code : ℕ) (rest : List ℕ)
      → buf ≡ noise ++ (code ∷ rest)
      → IsNoise noise (code ∷ rest)
      → is_short_code code ≡ true
      → Answers buf (short code)
  with_payload :
      (noise body bytes : List ℕ)
      → buf ≡ noise ++ (stx ∷ body)
      → IsNoise noise (stx ∷ body)
      → IsBody body bytes
      → Answers buf (payload bytes)

pub decode_response_complete :
    (buf : List ℕ) {r : Response} → Answers buf r → decode_response buf ≡ some r
decode_response_complete buf (with_code noise code rest e n c) =
    rw e (decode_response_noise noise (code ∷ rest) n ∙ (unfold decode_response in rw c))
decode_response_complete buf (with_payload noise body bytes e n w) = rw e (
    decode_response_noise noise (stx ∷ body) n
    ∙ decode_response-stx body bytes (decode_data_frame_complete body bytes w))

Answers-skip :
    (b : ℕ) (rest : List ℕ) {r : Response}
    → is_short_code b ≡ false
    → (b ≡ stx → decode_data_frame rest ≡ none)
    → Answers rest r
    → Answers (b ∷ rest) r
Answers-skip b rest h k (with_code noise code rest' e n c) =
    with_code (b ∷ noise) code rest' (ap (λ t. b ∷ t) e) (h, (rw e at k), n) c
Answers-skip b rest h k (with_payload noise body bytes e n w) =
    with_payload (b ∷ noise) body bytes (ap (λ t. b ∷ t) e) (h, (rw e at k), n) w

pub decode_response_sound :
    (buf : List ℕ) (r : Response) → decode_response buf ≡ some r → Answers buf r
unfolding decode_response
decode_response_sound [] r h = cc
decode_response_sound (b ∷ rest) r h = elim (Bool-cases (is_short_code b)) [
  | inl c ↦ subst (Answers (b ∷ rest)) (eq_of_some (rw c at h)) (with_code [] b rest refl tt c)
  | inr n ↦ elim (Bool-cases (b == stx)) [
    | inl e ↦ elim (Option-cases (decode_data_frame rest)) [
      | inl none_there ↦
          Answers-skip b rest n (λ _. none_there)
            (decode_response_sound rest r (rw (n, e, none_there) at h))
      | inr (bytes, found) ↦ subst (Answers (b ∷ rest)) (eq_of_some (rw (n, e, found) at h)) (
          with_payload [] rest bytes (cc ((==_iff b stx).0 e)) tt
            (decode_data_frame_sound rest bytes found))
    ]
    | inr m ↦
        Answers-skip b rest n (λ e. absurd (ground arith))
          (decode_response_sound rest r (rw (n, m) at h))
  ]
]

-- `decode_response` returns a reply exactly when the buffer holds one: behind bytes that are no
-- short code and no `STX` with a valid body, either a short code, or `STX` and clean pairs with the
-- double `ETX` and the right checksum.
pub decode_response_iff :
    (buf : List ℕ) (r : Response) → (decode_response buf ≡ some r) ↔ Answers buf r
decode_response_iff buf r = (decode_response_sound buf r, decode_response_complete buf)

-- The reply that a dispenser builds over bytes other than `ETX` decodes to them, behind any noise
-- and before any bytes that follow.
pub decode_response-encode_data_response :
    (noise bytes rest : List ℕ)
    → IsNoise noise (encode_data_response bytes ++ rest)
    → NoEtx bytes
    → decode_response (noise ++ (encode_data_response bytes ++ rest)) ≡ some (payload bytes)
decode_response-encode_data_response noise bytes rest n h =
    decode_response_noise noise (encode_data_response bytes ++ rest) n
    ∙ rw encode_data_response_lem (
        rw (append_assoc (pairs bytes) (trailer bytes []) rest) (
          decode_response_skip del (stx ∷ (pairs bytes ++ trailer bytes rest)) refl
            (λ e. absurd (omega arith))
          ∙ decode_response-stx _ bytes (decode_data_frame-pairs bytes rest h)))
