-- ===== src/Bluesky/Codec/Scan.antt =====
-- `take_frame` finds a frame behind noise and keeps what follows it.
use mathlib.Core.Path.{subst}
use fuel_station_controller.Base.{
  ℕ, ◌+◌, ◌≤◌, ◌≡◌, ◌≢◌, sym, ap, ◌∙◌, arith, bit_and, some, List, [], ◌∷◌, ◌++◌, All, length,
  length-append, take, take_exact, ltb, ==_ne, eq_of_some, Bool-cases, inl, inr, ltb→lt,
}
use fuel_station_controller.Bluesky.Codec.{
  precode, len_high, take_frame_from, take_frame, build_request, at,
}
use fuel_station_controller.Bluesky.Codec.RoundTrip.{
  frame_of, build_request_lem, length-frame_of, len_bits, high_bits,
}

take_frame_from_noise :
    (start : ℕ) (noise rest : List ℕ)
    → All (λ b. b ≢ precode) noise
    → take_frame_from start (noise ++ rest) ≡ take_frame_from (start + length noise) rest
unfolding take_frame_from
take_frame_from_noise start [] rest h = ap (λ k. take_frame_from k rest) (omega arith)
take_frame_from_noise start (b ∷ noise) rest h = rw (==_ne b precode h.0) (
    take_frame_from_noise (start + 1) noise rest h.1
    ∙ ap (λ k. take_frame_from k rest) (omega arith))

-- A precode with a good length byte behind it, and the whole frame there.
scan_hit :
    (start total : ℕ) (tail : List ℕ)
    → bit_and (at (precode ∷ tail) 2) 0xf0 ≡ len_high
    → bit_and (at (precode ∷ tail) 2) 0x0f + 3 ≡ total
    → 5 ≤ total
    → total ≤ length (precode ∷ tail)
    → take_frame_from start (precode ∷ tail) ≡ some (take total (precode ∷ tail), start + total)
unfolding take_frame_from
scan_hit start total tail hi lo least room = rw (hi, lo) (ground arith)

scan_frame :
    (start addr cmd : ℕ) (payload rest : List ℕ)
    → length payload ≤ 13
    → take_frame_from start (frame_of addr cmd payload ++ rest)
      ≡ some (frame_of addr cmd payload, start + length (frame_of addr cmd payload))
scan_frame start addr cmd payload rest h =
    scan_hit start (length payload + 5) _ (high_bits addr cmd payload h)
      (ap (λ k. k + 3) (len_bits addr cmd payload h) ∙ omega arith) (omega arith)
      (omega
        (arith, length-append (frame_of addr cmd payload) rest, length-frame_of addr cmd payload))
    ∙ rw (
      take_exact (length payload + 5) (frame_of addr cmd payload) rest
          (sym (length-frame_of addr cmd payload)),
      length-frame_of addr cmd payload,
    )

-- Behind noise without a precode, the frame that was built is taken whole, with the count of the
-- bytes up to its end; what follows stays.
take_frame-build_request :
    (noise : List ℕ) (addr cmd : ℕ) (payload frame rest : List ℕ)
    → All (λ b. b ≢ precode) noise
    → build_request addr cmd payload ≡ some frame
    → take_frame (noise ++ (frame ++ rest)) ≡ some (frame, length noise + length frame)
unfolding take_frame
take_frame-build_request noise addr cmd payload frame rest n h =
    elim (Bool-cases (ltb 13 (length payload))) [
      | inl over ↦ absurd (cc ((build_request_lem addr cmd payload).1 (ltb→lt _ _ over), h))
      | inr fits ↦
          let same : frame_of addr cmd payload ≡ frame =
            eq_of_some (sym ((build_request_lem addr cmd payload).0 (ground arith)) ∙ h) in
          take_frame_from_noise 0 noise (frame ++ rest) n
          ∙ subst
              (λ f.
                take_frame_from (0 + length noise) (f ++ rest) ≡ some (f, length noise + length f))
              same
              (scan_frame (0 + length noise) addr cmd payload rest (ground arith)
                ∙ ap (λ k. some (frame_of addr cmd payload, k)) (omega arith))
    ]
