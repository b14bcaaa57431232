-- ===== src/Shelf/Codec/Scan.antt =====
-- A reply that was damaged in one byte is never accepted; a frame behind noise is found.
use native.Mathlib.Decide.{ℕ_discrete}
use fuel_station_controller.Base.{
  ℕ, ◌+◌, ◌-◌, ◌*◌, ◌≤◌, ◌≡◌, ◌≢◌, sym, ap, ◌∙◌, arith, none, some, List, [], ◌∷◌, ◌++◌,
  append_assoc, All, length, length-append, take, take_exact, ltb, ==_ne, Bool-cases, Option-cases,
  inl, inr, last_two, append-two_inj, All-split, eq_of_some, ltb→lt, All-append, take_snoc, drop,
  get_or,
}
use mathlib.Core.Path.{subst}
use fuel_station_controller.Base.Bits.{IsByte}
use fuel_station_controller.Shelf.Codec.{
  start_byte, crc_ccitt, build_request, Response, decode_response, at, take_frame_from, take_frame,
}
use fuel_station_controller.Shelf.Codec.Crc.{crc_ccitt_single_byte}
use fuel_station_controller.Shelf.Codec.RoundTrip.{
  decode_response_sound, frame_of, build_request_lem, length-whole,
}

-- Bytes with their CRC behind them, low byte first.
record IsSealed (frame : List ℕ) : Type 0 where
  body : List ℕ
  low : ℕ
  high : ℕ
  shape : frame ≡ body ++ (low ∷ high ∷ [])
  sum : crc_ccitt body ≡ low + high * 256

accepted-IsSealed :
    (addr index : ℕ) (frame : List ℕ) (r : Response)
    → decode_response addr index frame ≡ some r
    → IsSealed frame
accepted-IsSealed addr index frame r h =
    let w = decode_response_sound addr index frame r h in
    record { body = _; low = w.low; high = w.high; shape = w.shape; sum = w.sum }

sealed_sum :
    (body : List ℕ) (l u : ℕ) → IsSealed (body ++ (l ∷ u ∷ [])) → crc_ccitt body ≡ l + u * 256
sealed_sum body l u w =
    let (eb, el, eu) = append-two_inj body w.body l u w.low w.high w.shape in
    ap crc_ccitt eb ∙ w.sum ∙ omega (arith, el, eu)

seal_nonempty : (pre : List ℕ) (x : ℕ) → IsSealed (pre ++ (x ∷ [])) → 1 ≤ length pre
seal_nonempty pre x w = omega (
  arith,
  ap length w.shape,
  length-append pre (x ∷ []),
  length-append w.body (w.low ∷ w.high ∷ []),
)

-- The last byte is the high byte of the CRC.
agree_high :
    (pre : List ℕ) (x y : ℕ) → IsSealed (pre ++ (x ∷ [])) → IsSealed (pre ++ (y ∷ [])) → x ≡ y
agree_high pre x y s t =
    let n : ℕ = length pre - 1 in
    let cut : pre ≡ take n pre ++ (get_or pre n 0 ∷ []) =
      take_snoc n pre 0 (omega (arith, seal_nonempty pre x s)) in
    let split = λ (v : ℕ).
      ap (λ p. p ++ (v ∷ [])) cut ∙ append_assoc (take n pre) (get_or pre n 0 ∷ []) (v ∷ []) in
    omega (
      arith,
      sealed_sum (take n pre) (get_or pre n 0) x (subst IsSealed (split x) s),
      sealed_sum (take n pre) (get_or pre n 0) y (subst IsSealed (split y) t),
    )

-- A byte in front of the two last ones is under the CRC.
agree_covered :
    (pre : List ℕ) (x y : ℕ) (q : List ℕ) (l u : ℕ)
    → All IsByte pre × IsByte x × All IsByte q
    → IsByte y
    → IsSealed (pre ++ (x ∷ (q ++ (l ∷ u ∷ []))))
    → IsSealed (pre ++ (y ∷ (q ++ (l ∷ u ∷ []))))
    → x ≡ y
agree_covered pre x y q l u (hp, hx, hq) hy s t = elim (ℕ_discrete x y) [
  | yes e ↦ e
  | no n ↦
      let split = λ (v : ℕ). sym (append_assoc pre (v ∷ q) (l ∷ u ∷ [])) in
      absurd (
        crc_ccitt_single_byte pre x y q (All-append IsByte pre (x ∷ q) hp (hx, hq)) hy n (
          sealed_sum (pre ++ (x ∷ q)) l u (subst IsSealed (split x) s)
          ∙ sym (sealed_sum (pre ++ (y ∷ q)) l u (subst IsSealed (split y) t))))
]

All-front : (xs ys : List ℕ) → All IsByte (xs ++ ys) → All IsByte xs
All-front [] ys h = tt
All-front (x ∷ xs) ys h = (h.0, All-front xs ys h.1)

seals_agree :
    (pre : List ℕ) (x y : ℕ) (post : List ℕ)
    → All IsByte (pre ++ (x ∷ post))
    → IsByte y
    → IsSealed (pre ++ (x ∷ post))
    → IsSealed (pre ++ (y ∷ post))
    → x ≡ y
seals_agree pre x y [] h hy s t = agree_high pre x y s t
seals_agree pre x y (z ∷ []) h hy s t = omega (arith, sealed_sum pre x z s, sealed_sum pre y z t)
seals_agree pre x y (z ∷ u ∷ post) h hy s t =
    let (q, l, v, e) = last_two (z ∷ u ∷ post) (omega arith) in
    let (hp, hx, hpost) = All-split IsByte pre x (z ∷ u ∷ post) h in
    agree_covered pre x y q l v (hp, hx, All-front q (l ∷ v ∷ []) (subst (All IsByte) e hpost)) hy
      (subst (λ p. IsSealed (pre ++ (x ∷ p))) e s) (subst (λ p. IsSealed (pre ++ (y ∷ p))) e t)

-- A reply that was accepted is refused after a change of any one of its bytes.
pub decode_response_corrupted :
    (addr index : ℕ) (pre : List ℕ) (x y : ℕ) (post : List ℕ) (r : Response)
    → All IsByte (pre ++ (x ∷ post))
    → IsByte y
    → x ≢ y
    → decode_response addr index (pre ++ (x ∷ post)) ≡ some r
    → decode_response addr index (pre ++ (y ∷ post)) ≡ none
decode_response_corrupted addr index pre x y post r h hy n e =
    elim (Option-cases (decode_response addr index (pre ++ (y ∷ post)))) [
      | inl refused ↦ refused
      | inr (r', e') ↦ absurd (
          n (
            seals_agree pre x y post h hy (accepted-IsSealed addr index (pre ++ (x ∷ post)) r e)
              (accepted-IsSealed addr index (pre ++ (y ∷ post)) r' e')))
    ]

take_frame_from_noise :
    (start : ℕ) (noise rest : List ℕ)
    → All (λ b. b ≢ start_byte) noise
    → take_frame_from start (noise ++ rest) ≡ take_frame_from (start + length noise) rest
unfolding take_frame_from
take_frame_from_noise start [] rest h = ap (λ k. take_frame_from k rest) (omega arith)
take_frame_from_noise start (b ∷ noise) rest h = rw (==_ne b start_byte h.0) (
    take_frame_from_noise (start + 1) noise rest h.1
    ∙ ap (λ k. take_frame_from k rest) (omega arith))

scan_hit :
    (start size : ℕ) (tail : List ℕ)
    → at (start_byte ∷ tail) 3 ≡ size
    → 7 ≤ size
    → size ≤ length (start_byte ∷ tail)
    → take_frame_from start (start_byte ∷ tail) ≡ some (take size (start_byte ∷ tail), start + size)
unfolding take_frame_from
scan_hit start size tail e least room = rw e (ground arith)

-- Behind noise without a start byte, the frame that was built is taken whole, with the count of the
-- bytes up to its end; what follows stays.
take_indexed_frame-build_request :
    (noise : List ℕ) (addr index command : ℕ) (payload frame rest : List ℕ)
    → All (λ b. b ≢ start_byte) noise
    → build_request addr index command payload ≡ some frame
    → take_frame (noise ++ (frame ++ rest)) ≡ some (frame, length noise + length frame)
unfolding take_frame
take_indexed_frame-build_request noise addr index command payload frame rest n h =
    let f = frame_of addr index command payload in
    let size : length f ≡ length payload + 7 =
      length-whole start_byte addr index (7 + length payload) command payload _ _ in
    elim (Bool-cases (ltb 248 (length payload))) [
      | inl over ↦
          absurd (cc ((build_request_lem addr index command payload).1 (ltb→lt _ _ over), h))
      | inr fits ↦
          let same : f ≡ frame =
            eq_of_some
              (sym ((build_request_lem addr index command payload).0 (ground arith)) ∙ h) in
          take_frame_from_noise 0 noise (frame ++ rest) n
          ∙ subst
              (λ g.
                take_frame_from (0 + length noise) (g ++ rest) ≡ some (g, length noise + length g))
              same
              (scan_hit (0 + length noise) (length payload + 7) (drop 1 (f ++ rest)) (omega arith)
                  (omega arith) (omega (arith, length-append f rest, size))
                ∙ rw (take_exact (length payload + 7) f rest (sym size), size)
                    (ap (λ k. some (f, k)) (omega arith)))
    ]
