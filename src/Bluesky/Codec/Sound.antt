-- ===== src/Bluesky/Codec/Sound.antt =====
-- Every reply that `decode_response` accepts is the frame that `build_request` writes for it.
use mathlib.Core.Path.{subst}
use fuel_station_controller.Base.{
  ℕ, ◌+◌, ◌-◌, ◌≤◌, ◌≡◌, refl, sym, ap, ◌∙◌, arith, bit_and, ◌||◌, not, none, some, List, [], ◌∷◌,
  ◌++◌, append_assoc, All, length, length-append, take, drop, take_exact, get_or_exact, ltb, ◌==◌,
  if◌then◌else◌, Bool-cases, inl, inr, last_two,
}
use fuel_station_controller.Base.Bits.{IsByte}
use fuel_station_controller.Bluesky.Codec.{
  precode, len_high, crc, build_request, Response, response_of, decode_response, at, cmd_of,
  data_of,
}
use fuel_station_controller.Bluesky.Codec.RoundTrip.{
  low_nibble, high_nibble, frame_of, build_request_lem,
}

-- What the chain of tests lets through.
ladder :
    (n s t hi lo k y addr : ℕ) (out r : Response)
    → (if ltb n 5 || not (s == precode) || not (t == addr)
        then none
        else if not (hi == len_high)
        then none
        else if not (n == lo + 3) || ltb lo 2
        then none
        else if not (k == y)
        then none
        else some out)
      ≡ some r
    → (s ≡ precode) × (t ≡ addr) × (hi ≡ len_high) × (n ≡ lo + 3) × (k ≡ y) × (out ≡ r)
ladder n s t hi lo k y addr out r h = ground arith

module _ (a b c : ℕ) (p : List ℕ) (x y : ℕ) where
  whole : List ℕ
  whole = a ∷ b ∷ c ∷ (p ++ (x ∷ y ∷ []))

  body : List ℕ
  body = a ∷ b ∷ c ∷ (p ++ (x ∷ []))

  length-whole : length whole ≡ length p + 5
  unfolding whole
  length-whole = omega (arith, length-append p (x ∷ y ∷ []))

  whole-body : whole ≡ body ++ (y ∷ [])
  unfolding whole body
  whole-body = ap (λ t. a ∷ b ∷ c ∷ t) (sym (append_assoc p (x ∷ []) (y ∷ [])))

  length-body : length p + 5 - 1 ≡ length body
  unfolding body
  length-body = omega (arith, length-append p (x ∷ []))

  take-body : take (length p + 5 - 1) whole ≡ body
  take-body =
      ap (take (length p + 5 - 1)) whole-body
      ∙ take_exact (length p + 5 - 1) body (y ∷ []) length-body

  at-crc : at whole (length p + 5 - 1) ≡ y
  at-crc =
      ap (λ t. at t (length p + 5 - 1)) whole-body
      ∙ get_or_exact (length p + 5 - 1) body y [] 0 length-body

  at-cmd : at whole (length p + 5 - 2) ≡ x
  unfolding whole
  at-cmd = get_or_exact (length p + 5 - 2) (a ∷ b ∷ c ∷ p) x (y ∷ []) 0 (omega arith)

  take-payload : drop 3 (take (length p + 5 - 2) whole) ≡ p
  unfolding whole
  take-payload =
      ap (drop 3) (take_exact (length p + 5 - 2) (a ∷ b ∷ c ∷ p) (x ∷ y ∷ []) (omega arith))

  record IsChecked (addr : ℕ) (r : Response) : Type 0 where
    starts : a ≡ precode
    addressed : b ≡ addr
    high : bit_and c 0xf0 ≡ len_high
    low : bit_and c 0x0f + 3 ≡ length p + 5
    closed : y ≡ crc body
    carries : r ≡ response_of x p

  checks_sound : (addr : ℕ) (r : Response) → decode_response addr whole ≡ some r → IsChecked addr r
  unfolding decode_response
  checks_sound addr r h =
      let facts =
        ladder (length p + 5) a b (bit_and c 0xf0) (bit_and c 0x0f) (crc body) y addr
          (response_of x p) r
          (unfold whole in rw (length-whole, take-body, at-crc, at-cmd, take-payload) at h) in
      record {
        starts = facts.0;
        addressed = facts.1;
        high = facts.2;
        low = sym facts.3;
        closed = sym facts.4;
        carries = sym facts.5;
      }

  frame_of_checked :
      (addr : ℕ) (r : Response) → IsByte c → IsChecked addr r → whole ≡ frame_of addr x p
  unfolding whole body
  frame_of_checked addr r hc w =
      let size : c ≡ 0xa0 + (length p + 2) =
        omega (arith, low_nibble c hc, high_nibble c hc, w.high, w.low) in
      whole-body ∙ rw (w.closed, w.starts, w.addressed, size)

  short_payload : (addr : ℕ) (r : Response) → IsByte c → IsChecked addr r → length p ≤ 13
  short_payload addr r hc w = omega (arith, low_nibble c hc, w.low)

cmd_of-response_of : (cmd : ℕ) (payload : List ℕ) → cmd_of (response_of cmd payload) ≡ cmd
cmd_of-response_of cmd [] = refl
cmd_of-response_of cmd (b ∷ bs) = refl

data_of-response_of : (cmd : ℕ) (payload : List ℕ) → data_of (response_of cmd payload) ≡ payload
data_of-response_of cmd [] = refl
data_of-response_of cmd (b ∷ bs) = refl

sound_whole :
    (a b c : ℕ) (p : List ℕ) (x y addr : ℕ) (r : Response)
    → IsByte c
    → decode_response addr (whole a b c p x y) ≡ some r
    → build_request addr (cmd_of r) (data_of r) ≡ some (whole a b c p x y)
sound_whole a b c p x y addr r hc h =
    let w = checks_sound a b c p x y addr r h in
    rw (w.carries, cmd_of-response_of x p, data_of-response_of x p)
      ((build_request_lem addr x p).0 (short_payload a b c p x y addr r hc w)
        ∙ ap some (sym (frame_of_checked a b c p x y addr r hc w)))

-- Every reply that the decoder accepts for an address is byte for byte the frame that the builder
-- writes for that address, with the command and the payload that the decoder returned.
pub build_request-decode_response :
    (addr : ℕ) (frame : List ℕ) (r : Response)
    → All IsByte frame
    → decode_response addr frame ≡ some r
    → build_request addr (cmd_of r) (data_of r) ≡ some frame
build_request-decode_response addr [] r bytes h = absurd (unfold decode_response in ground arith)
build_request-decode_response addr (a ∷ []) r bytes h =
    absurd (unfold decode_response in ground arith)
build_request-decode_response addr (a ∷ b ∷ []) r bytes h =
    absurd (unfold decode_response in ground arith)
build_request-decode_response addr (a ∷ b ∷ c ∷ tail) r bytes h =
    elim (Bool-cases (ltb (length tail) 2)) [
      | inl small ↦ absurd (unfold decode_response in ground arith)
      | inr big ↦
          let (p, x, y, e) = last_two tail (ground arith) in
          let e' : a ∷ b ∷ c ∷ tail ≡ whole a b c p x y =
            unfold whole in ap (λ t. a ∷ b ∷ c ∷ t) e in
          subst (λ f. build_request addr (cmd_of r) (data_of r) ≡ some f) (sym e')
            (sound_whole a b c p x y addr r bytes.1.1.0
              (subst (λ f. decode_response addr f ≡ some r) e' h))
    ]
