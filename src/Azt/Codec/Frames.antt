-- ===== src/Azt/Codec/Frames.antt =====
-- What the builders of AZT frames write, and what the two body loops accept.
use fuel_station_controller.Base.{
  ℕ, ◌+◌, ◌*◌, ◌≡◌, refl, sym, ap, ◌∙◌, arith, ==_self, ==_ne, ◌≢◌, none, some, List, [], ◌∷◌, ◌++◌,
  append_assoc, append-nil, length, All,
}
use fuel_station_controller.Azt.Codec.{
  complement, checksum, push_pair, push_pairs, etx, del, stx, complete, request_trailer,
  request_body_loop, data_trailer, data_frame_loop, decode_data_frame, parse_request_body,
  build_frame, encode_data_response,
}

-- Every byte followed by its complement.
abbrev pub pairs : List ℕ → List ℕ
pairs [] = []
pairs (b ∷ bs) = b ∷ complement b ∷ pairs bs

-- The end of a frame over `bytes`, and what follows it.
abbrev pub trailer : List ℕ → List ℕ → List ℕ
trailer bytes rest = etx ∷ etx ∷ checksum bytes ∷ rest

abbrev pub NoEtx : List ℕ → Type 0
NoEtx = All (λ b. b ≢ etx)

pub push_pairs_lem : (out bytes : List ℕ) → push_pairs out bytes ≡ out ++ pairs bytes
unfolding push_pairs
push_pairs_lem out [] = sym (append-nil out)
push_pairs_lem out (b ∷ bs) =
    push_pairs_lem (push_pair out b) bs ∙ append_assoc out (b ∷ complement b ∷ []) (pairs bs)

pub length-pairs : (bytes : List ℕ) → length (pairs bytes) ≡ 2 * length bytes
length-pairs [] = refl
length-pairs (b ∷ bs) = omega (arith, length-pairs bs)

-- A frame with its address, and one without.
pub build_frame_addressed :
    (start a cmd : ℕ) (bytes : List ℕ)
    → build_frame start (some a) cmd bytes
      ≡ del ∷ start ∷ (pairs (a ∷ cmd ∷ bytes) ++ trailer (a ∷ cmd ∷ bytes) [])
unfolding build_frame
build_frame_addressed start a cmd bytes = rw push_pairs_lem refl

pub build_frame_broadcast :
    (start cmd : ℕ) (bytes : List ℕ)
    → build_frame start none cmd bytes
      ≡ del ∷ start ∷ (pairs (cmd ∷ bytes) ++ trailer (cmd ∷ bytes) [])
unfolding build_frame
build_frame_broadcast start cmd bytes = rw push_pairs_lem refl

pub encode_data_response_lem :
    (bytes : List ℕ) → encode_data_response bytes ≡ del ∷ stx ∷ (pairs bytes ++ trailer bytes [])
unfolding encode_data_response
encode_data_response_lem bytes = rw push_pairs_lem refl

-- One round of each loop on a byte and its complement.
data_frame_loop_pair :
    (b : ℕ) (rest found : List ℕ)
    → b ≢ etx
    → data_frame_loop (b ∷ complement b ∷ rest) found ≡ data_frame_loop rest (found ++ (b ∷ []))
unfolding data_frame_loop
data_frame_loop_pair b rest found h = rw (==_ne b etx h, ==_self (complement b))

request_body_loop_pair :
    (b : ℕ) (rest : List ℕ) (idx : ℕ) (normal : List ℕ)
    → b ≢ etx
    → request_body_loop (b ∷ complement b ∷ rest) idx normal
      ≡ request_body_loop rest (idx + 2) (normal ++ (b ∷ []))
unfolding request_body_loop
request_body_loop_pair b rest idx normal h = rw (==_ne b etx h, ==_self (complement b))

data_frame_loop-pairs :
    (bytes tail found : List ℕ)
    → NoEtx bytes
    → data_frame_loop (pairs bytes ++ tail) found ≡ data_frame_loop tail (found ++ bytes)
data_frame_loop-pairs [] tail found h = rw append-nil
data_frame_loop-pairs (b ∷ bs) tail found h =
    data_frame_loop_pair b (pairs bs ++ tail) found h.0
    ∙ data_frame_loop-pairs bs tail (found ++ (b ∷ [])) h.1
    ∙ ap (data_frame_loop tail) (append_assoc found (b ∷ []) bs)

pub request_body_loop-pairs :
    (bytes tail : List ℕ) (idx : ℕ) (normal : List ℕ)
    → NoEtx bytes
    → request_body_loop (pairs bytes ++ tail) idx normal
      ≡ request_body_loop tail (idx + 2 * length bytes) (normal ++ bytes)
request_body_loop-pairs [] tail idx normal h =
    rw append-nil (ap (λ i. request_body_loop tail i normal) (omega arith))
request_body_loop-pairs (b ∷ bs) tail idx normal h =
    request_body_loop_pair b (pairs bs ++ tail) idx normal h.0
    ∙ request_body_loop-pairs bs tail (idx + 2) (normal ++ (b ∷ [])) h.1
    ∙ ap (request_body_loop tail (idx + 2 + 2 * length bs)) (append_assoc normal (b ∷ []) bs)
    ∙ ap (λ i. request_body_loop tail i (normal ++ (b ∷ bs))) (omega arith)

-- A complete body decodes to its bytes.
pub decode_data_frame-pairs :
    (bytes rest : List ℕ)
    → NoEtx bytes
    → decode_data_frame (pairs bytes ++ trailer bytes rest) ≡ some bytes
unfolding decode_data_frame
decode_data_frame-pairs bytes rest h =
    data_frame_loop-pairs bytes (trailer bytes rest) [] h
    ∙ (unfold data_frame_loop data_trailer in rw ==_self)

pub parse_request_body-pairs :
    (bytes rest : List ℕ)
    → NoEtx bytes
    → parse_request_body (pairs bytes ++ trailer bytes rest) ≡ complete (2 * length bytes + 3) bytes
unfolding parse_request_body
parse_request_body-pairs bytes rest h =
    request_body_loop-pairs bytes (trailer bytes rest) 0 [] h
    ∙ (unfold request_body_loop request_trailer in
        rw ==_self (ap (λ n. complete n bytes) (omega arith)))
