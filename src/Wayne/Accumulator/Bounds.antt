-- ===== src/Wayne/Accumulator/Bounds.antt =====
-- The loop of `push_bytes` ends, and the buffer that it leaves is bounded.
use fuel_station_controller.Base.{
  ℕ, zero, suc, ◌+◌, ◌≡◌, ◌≤◌, ◌<◌, refl, arith, Bool, true, false, ◌&&◌, not, Option, none, some,
  List, [], ◌∷◌, ◌++◌, length, length-drop, take, drop, ltb, ◌==◌, ==_ne, if◌then◌else◌, inl, inr,
  Bool-cases,
}
use fuel_station_controller.Wayne.Bytes.{
  is_high_addr, is_valid_addr_byte, next_is_addr, is_short_frame,
}
use fuel_station_controller.Wayne.Accumulator.{
  max_buf, keep_or, trim_loop, trim_leading_garbage, find_03fa, push_loop, push_bytes,
}

keep_or-step :
    (valid turnaround : Bool) (b : ℕ) (rest : List ℕ) (again : Option (List ℕ)) (buf : List ℕ)
    → length (keep_or rest again) ≤ length rest
    → length (keep_or buf again) ≤ length buf
    → length rest < length buf
    → length (b ∷ rest) ≤ length buf
    → length (
        keep_or buf (
          if not valid
          then again
          else if turnaround
          then some (keep_or rest again)
          else some (b ∷ rest)))
      ≤ length buf
unfolding keep_or
keep_or-step false turnaround b rest again buf p q r s = q
keep_or-step true true b rest again buf p q r s = omega arith
keep_or-step true false b rest again buf p q r s = s

keep_or-longer :
    (buf rest : List ℕ) (again : Option (List ℕ))
    → length (keep_or rest again) ≤ length rest
    → length rest ≤ length buf
    → length (keep_or buf again) ≤ length buf
unfolding keep_or
keep_or-longer buf rest none p q = omega arith
keep_or-longer buf rest (some t) p q = omega arith

trim_shorter : (buf : List ℕ) → length (trim_leading_garbage buf) ≤ length buf
unfolding trim_leading_garbage trim_loop keep_or
trim_shorter [] = omega arith
trim_shorter (b ∷ rest) =
    let p = trim_shorter rest in
    let q = keep_or-longer (b ∷ rest) rest (trim_loop rest) p (omega arith) in
    keep_or-step (is_valid_addr_byte b) (is_high_addr b && next_is_addr rest) b rest
      (trim_loop rest) (b ∷ rest) p q (omega arith) (omega arith)

-- The outcome of a call whose buffer stays within the bound.
pub record IsBounded (outcome : Option (List (List ℕ) × List ℕ)) : Type 0 where
  pub frames : List (List ℕ)
  pub left : List ℕ
  pub ended : outcome ≡ some (frames, left)
  pub bounded : length left ≤ max_buf

IsBounded-if :
    (b : Bool) {x y : Option (List (List ℕ) × List ℕ)}
    → IsBounded x
    → IsBounded y
    → IsBounded (if b then x else y)
IsBounded-if true hx hy = hx
IsBounded-if false hx hy = hy

IsBounded-tail :
    (out : List (List ℕ)) (buf : List ℕ)
    → IsBounded (if ltb max_buf (length buf) then some (out, []) else some (out, buf))
IsBounded-tail out buf = elim (Bool-cases (ltb max_buf (length buf))) [
  | inl h ↦ rw h (record { frames = out; left = []; ended = refl; bounded = omega arith })
  | inr h ↦ rw h (record { frames = out; left = buf; ended = refl; bounded = ground arith })
]

-- What the loop does with the position of a terminator, or without one.
IsBounded-found :
    (o : Option ℕ) (found : ℕ → Option (List (List ℕ) × List ℕ))
    (rest : Option (List (List ℕ) × List ℕ))
    → ((pos : ℕ) → IsBounded (found pos))
    → IsBounded rest
    → IsBounded (elim o [ some pos ↦ found pos | none ↦ rest ])
IsBounded-found none found rest hf hr = hr
IsBounded-found (some pos) found rest hf hr = hf pos

IsBounded-round :
    (fuel : ℕ) (out : List (List ℕ)) (t : List ℕ)
    → ((out : List (List ℕ)) (buf : List ℕ)
        → length buf < fuel
        → IsBounded (push_loop fuel out buf))
    → length t ≤ fuel
    → IsBounded (
        if length t == 0
        then some (out, t)
        else if is_short_frame t
        then push_loop fuel (out ++ (take 3 t ∷ [])) (drop 3 t)
        else elim (find_03fa t) [
          | some pos ↦ push_loop fuel (out ++ (take (pos + 1) t ∷ [])) (drop (pos + 1) t)
          | none ↦ if ltb max_buf (length t) then some (out, []) else some (out, t)
        ])
IsBounded-round fuel out [] again h = record {
  frames = out;
  left = [];
  ended = refl;
  bounded = omega arith;
}
IsBounded-round fuel out (b ∷ rest) again h =
    let t = b ∷ rest in
    rw (==_ne (length t) 0 (omega arith)) (
      IsBounded-if (is_short_frame t)
        (again (out ++ (take 3 t ∷ [])) (drop 3 t) (omega (arith, length-drop 3 t)))
        (IsBounded-found (find_03fa t)
          (λ pos. push_loop fuel (out ++ (take (pos + 1) t ∷ [])) (drop (pos + 1) t))
          (if ltb max_buf (length t) then some (out, []) else some (out, t))
          (λ pos.
            again (out ++ (take (pos + 1) t ∷ [])) (drop (pos + 1) t)
              (omega (arith, length-drop (pos + 1) t)))
          (IsBounded-tail out t)))

push_loop-IsBounded :
    (fuel : ℕ) (out : List (List ℕ)) (buf : List ℕ)
    → length buf < fuel
    → IsBounded (push_loop fuel out buf)
unfolding push_loop
push_loop-IsBounded zero out buf h = absurd (omega arith)
push_loop-IsBounded (suc fuel) out buf h =
    IsBounded-round fuel out (trim_leading_garbage buf) (push_loop-IsBounded fuel)
      (omega (arith, trim_shorter buf))

-- `push_bytes` ends on every buffer and chunk, and leaves at most 64 bytes in the buffer.
pub push_bytes-IsBounded : (buf chunk : List ℕ) → IsBounded (push_bytes buf chunk)
unfolding push_bytes
push_bytes-IsBounded buf chunk =
    push_loop-IsBounded (suc (length (buf ++ chunk))) [] (buf ++ chunk) (omega arith)
