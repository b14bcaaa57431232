-- ===== src/Azt/Codec/Sound.antt =====
-- What `pop_request` returns was in the buffer, and the loop ends on every buffer.
use mathlib.Core.Path.{subst}
use fuel_station_controller.Base.{
  ℕ, zero, suc, ◌+◌, ◌*◌, ◌<◌, ◌≡◌, refl, sym, ap, ◌∙◌, arith, true, ◌==◌, ==_iff, ◌≢◌, none, some,
  List, [], ◌∷◌, ◌++◌, append_assoc, append-nil, Bool-cases, Option-cases, inl, inr, length,
  position, position-IsFirst, drop, length-append, ltb, ltb→lt, ◌⊎◌,
}
use fuel_station_controller.Azt.Codec.{
  complement, checksum, etx, is_start_byte, start_offset, BodyParse, complete, incomplete,
  malformed, TrkRequest, request_body_loop, request_trailer, parse_request_body, pop_request_loop,
  pop_request, resolve_request,
}
use fuel_station_controller.Azt.Codec.Frames.{pairs, trailer, NoEtx}
use fuel_station_controller.Azt.Codec.Requests.{
  NoStart, pop_nothing, pop_complete, pop_incomplete, pop_overflow, pop_malformed, drop_body,
}

request_trailer_sound :
    (l : List ℕ) (idx n : ℕ) (normal bytes : List ℕ)
    → request_trailer l idx normal ≡ complete n bytes
    → (rest : List ℕ) × (l ≡ etx ∷ checksum normal ∷ rest) × (bytes ≡ normal) × (n ≡ idx + 3)
unfolding request_trailer
request_trailer_sound [] idx n normal bytes h = cc
request_trailer_sound (x ∷ []) idx n normal bytes h = absurd (ground arith)
request_trailer_sound (x ∷ y ∷ rest) idx n normal bytes h =
    (rest, ground arith, ground arith, ground arith)

-- A complete body, the bytes that it carries behind those already read, and what follows it.
record IsComplete (body : List ℕ) (idx n : ℕ) (normal bytes : List ℕ) : Type 0 where
  read : List ℕ
  rest : List ℕ
  joined : bytes ≡ normal ++ read
  shape : body ≡ pairs read ++ trailer bytes rest
  clean : NoEtx read
  count : n ≡ idx + 2 * length read + 3

request_body_loop_sound :
    (body : List ℕ) (idx n : ℕ) (normal bytes : List ℕ)
    → request_body_loop body idx normal ≡ complete n bytes
    → IsComplete body idx n normal bytes
unfolding request_body_loop
request_body_loop_sound [] idx n normal bytes h = absurd (cc)
request_body_loop_sound (b ∷ []) idx n normal bytes h =
    absurd (unfold request_trailer in ground arith)
request_body_loop_sound (b ∷ comp ∷ tail) idx n normal bytes h = elim (Bool-cases (b == etx)) [
  | inl e ↦
      let (r, shape, same, count) =
        request_trailer_sound (comp ∷ tail) idx n normal bytes (rw e at h) in
      record {
        read = [];
        rest = r;
        joined = same ∙ sym (append-nil normal);
        shape = cc ((==_iff b etx).0 e);
        clean = tt;
        count = omega arith;
      }
  | inr m ↦ elim (Bool-cases (comp == complement b)) [
    | inl c ↦
        let w =
          request_body_loop_sound tail (idx + 2) n (normal ++ (b ∷ [])) bytes (rw (m, c) at h) in
        record {
          read = b ∷ w.read;
          rest = w.rest;
          joined = w.joined ∙ append_assoc normal (b ∷ []) w.read;
          shape = cc (w.shape, (==_iff comp (complement b)).0 c);
          clean = (ground arith, w.clean);
          count = omega (arith, w.count);
        }
    | inr d ↦ absurd (cc (rw (m, d) at h))
  ]
]

BodyParse-cases :
    (p : BodyParse)
    → ((n : ℕ) × (bytes : List ℕ) × (p ≡ complete n bytes)) ⊎ ((p ≡ incomplete) ⊎ (p ≡ malformed))
BodyParse-cases (complete n bytes) = inl (n, bytes, refl)
BodyParse-cases incomplete = inr (inl refl)
BodyParse-cases malformed = inr (inr refl)

-- What one round of the loop does.
data Round (fuel : ℕ) (accum : List ℕ) : Type 0 where
  waits : pop_request_loop (suc fuel) accum ≡ some (none, accum) → Round fuel accum
  pops :
      (noise : List ℕ) (start : ℕ) (body : List ℕ) (n : ℕ) (bytes : List ℕ)
      → accum ≡ noise ++ (start ∷ body)
      → is_start_byte start ≡ true
      → parse_request_body body ≡ complete n bytes
      → pop_request_loop (suc fuel) accum
        ≡ some (resolve_request (start_offset start) bytes, drop n body)
      → Round fuel accum
  skips :
      (noise : List ℕ) (start : ℕ) (body : List ℕ)
      → accum ≡ noise ++ (start ∷ body)
      → pop_request_loop (suc fuel) accum ≡ pop_request_loop fuel body
      → Round fuel accum

Round-found :
    (fuel : ℕ) (noise : List ℕ) (start : ℕ) (body : List ℕ)
    → NoStart noise
    → is_start_byte start ≡ true
    → Round fuel (noise ++ (start ∷ body))
Round-found fuel noise start body n s = elim (BodyParse-cases (parse_request_body body)) [
  | inl (k, bytes, e) ↦
      pops noise start body k bytes refl s e (pop_complete noise start body fuel k bytes n s e)
  | inr (inl e) ↦ elim (Bool-cases (ltb 300 (length (noise ++ (start ∷ body))))) [
    | inl big ↦
        skips noise start body refl (pop_overflow noise start body fuel n s e (ltb→lt _ _ big))
    | inr small ↦ waits (pop_incomplete noise start body fuel n s e (ground arith))
  ]
  | inr (inr e) ↦ skips noise start body refl (pop_malformed noise start body fuel n s e)
]

Round-cases : (fuel : ℕ) (accum : List ℕ) → Round fuel accum
Round-cases fuel accum = elim (Option-cases (position is_start_byte accum)) [
  | inl e ↦ waits (pop_nothing fuel accum e)
  | inr (i, e) ↦
      let w = position-IsFirst is_start_byte accum i e in
      subst (Round fuel) (sym w.split)
        (Round-found fuel w.before w.element w.after w.passed w.holds)
]

-- Each round that goes on shortens the buffer, so fuel above its length never runs out.
pop_request_loop_total :
    (fuel : ℕ) (accum : List ℕ) → length accum < fuel → pop_request_loop fuel accum ≢ none
pop_request_loop_total zero accum h = absurd (omega arith)
pop_request_loop_total (suc fuel) accum h = elim (Round-cases fuel accum) [
  | waits e ↦ λ k. cc (e, k)
  | pops noise start body n bytes split s p e ↦ λ k. cc (e, k)
  | skips noise start body split e ↦ λ k.
      pop_request_loop_total fuel body
        (omega (arith, ap length split, length-append noise (start ∷ body), h)) (sym e ∙ k)
]

-- The scan ends on every buffer.
pub pop_request_total : (accum : List ℕ) → pop_request accum ≢ none
unfolding pop_request
pop_request_total accum = pop_request_loop_total (suc (length accum)) accum (omega arith)

-- A popped request: skipped bytes, a start byte, clean pairs and their trailer, and what is left.
pub record IsPopped (accum : List ℕ) (r : TrkRequest) (left : List ℕ) : Type 0 where
  pub skipped : List ℕ
  pub start : ℕ
  pub bytes : List ℕ
  pub shape : accum ≡ skipped ++ (start ∷ (pairs bytes ++ trailer bytes left))
  pub starts : is_start_byte start ≡ true
  pub clean : NoEtx bytes
  pub resolved : resolve_request (start_offset start) bytes ≡ some r

left_behind :
    (body bytes read rest : List ℕ) (n : ℕ)
    → body ≡ pairs read ++ trailer bytes rest
    → bytes ≡ read
    → n ≡ 2 * length read + 3
    → drop n body ≡ rest
left_behind body bytes read rest n shape same count = rw (shape, same, count) (drop_body read rest)

IsPopped-body :
    (noise : List ℕ) (start : ℕ) (body : List ℕ) (n : ℕ) (bytes : List ℕ) (r : TrkRequest)
    → is_start_byte start ≡ true
    → parse_request_body body ≡ complete n bytes
    → resolve_request (start_offset start) bytes ≡ some r
    → IsPopped (noise ++ (start ∷ body)) r (drop n body)
unfolding parse_request_body
IsPopped-body noise start body n bytes r s p e =
    let w = request_body_loop_sound body 0 n [] bytes p in
    let left : drop n body ≡ w.rest =
      left_behind body bytes w.read w.rest n w.shape w.joined (omega (arith, w.count)) in
    record {
      skipped = noise;
      start = start;
      bytes = bytes;
      shape = rw left (ap (λ t. noise ++ (start ∷ t)) (cc (w.shape, w.joined)));
      starts = s;
      clean = subst NoEtx (sym w.joined) w.clean;
      resolved = e;
    }

widen :
    (noise : List ℕ) (start : ℕ) (body : List ℕ) {r : TrkRequest} {left : List ℕ}
    → IsPopped body r left
    → IsPopped (noise ++ (start ∷ body)) r left
widen noise start body w = record {
  skipped = noise ++ (start ∷ w.skipped);
  start = w.start;
  bytes = w.bytes;
  shape = ap (λ t. noise ++ (start ∷ t)) w.shape ∙ sym (append_assoc noise (start ∷ w.skipped) _);
  starts = w.starts;
  clean = w.clean;
  resolved = w.resolved;
}

pop_request_loop_sound :
    (fuel : ℕ) (accum : List ℕ) (r : TrkRequest) (left : List ℕ)
    → pop_request_loop fuel accum ≡ some (some r, left)
    → IsPopped accum r left
pop_request_loop_sound zero accum r left h = absurd (unfold pop_request_loop in ground arith)
pop_request_loop_sound (suc fuel) accum r left h = elim (Round-cases fuel accum) [
  | waits e ↦ absurd (cc (e, h))
  | pops noise start body n bytes split s p e ↦
      let res : resolve_request (start_offset start) bytes ≡ some r = cc (e, h) in
      let same : drop n body ≡ left = cc (e, h) in
      subst (λ a. IsPopped a r left) (sym split)
        (subst (IsPopped (noise ++ (start ∷ body)) r) same
          (IsPopped-body noise start body n bytes r s p res))
  | skips noise start body split e ↦
      subst (λ a. IsPopped a r left) (sym split)
        (widen noise start body (pop_request_loop_sound fuel body r left (sym e ∙ h)))
]

-- A request that is returned stood in the buffer as a whole frame: a start byte, its bytes each with
-- the complement, no `ETX` among them, the double `ETX` and the right checksum; what is left in the
-- buffer is exactly what followed it.
pub pop_request_sound :
    (accum : List ℕ) (r : TrkRequest) (left : List ℕ)
    → pop_request accum ≡ some (some r, left)
    → IsPopped accum r left
unfolding pop_request
pop_request_sound accum r left h = pop_request_loop_sound (suc (length accum)) accum r left h
