-- ===== src/Azt/Codec/Requests.antt =====
-- `pop_request` reads back the requests that the builders write, waits on partial ones, and ends.
use fuel_station_controller.Base.{
  ℕ, suc, ◌+◌, ◌*◌, ◌≤◌, ◌<◌, ◌≡◌, refl, sym, ap, ◌∙◌, arith, true, false, ◌≢◌, none, some, List,
  [], ◌∷◌, ◌++◌, append_assoc, All, All-append, drop_exact, Bool-cases, inl, inr, ◌&&◌, length,
  length-append, drop, drop_past, drop-drop, get_or-middle, position_found, position, leb, ltb,
}
use fuel_station_controller.Azt.Codec.{
  etx, del, stx, is_start_byte, start_offset, complete, incomplete, malformed, parse_request_body,
  resolve_request, request_of, pop_request_loop, pop_request, split_network_address, build_request,
  build_request_with_start, build_broadcast,
}
use fuel_station_controller.Azt.Codec.Bytes.{IsResolved, split_network_address-IsResolved}
use fuel_station_controller.Azt.Codec.Frames.{
  pairs, trailer, NoEtx, parse_request_body-pairs, build_frame_addressed, build_frame_broadcast,
  length-pairs,
}

abbrev pub NoStart : List ℕ → Type 0
NoStart = All (λ b. is_start_byte b ≡ false)

pub pop_nothing :
    (fuel : ℕ) (accum : List ℕ)
    → position is_start_byte accum ≡ none
    → pop_request_loop (suc fuel) accum ≡ some (none, accum)
unfolding pop_request_loop
pop_nothing fuel accum h = rw (h, pop_request_loop)

-- One round on a buffer whose first start byte is followed by `body`.
module _ (noise : List ℕ) (start : ℕ) (body : List ℕ) where
  abbrev pub buffer : List ℕ
  buffer = noise ++ (start ∷ body)

  pub pop_complete :
      (fuel n : ℕ) (normal : List ℕ)
      → NoStart noise
      → is_start_byte start ≡ true
      → parse_request_body body ≡ complete n normal
      → pop_request_loop (suc fuel) buffer
        ≡ some (resolve_request (start_offset start) normal, drop n body)
  unfolding pop_request_loop
  pop_complete fuel n normal h k e =
      rw
        (
          position_found is_start_byte noise start body h k,
          drop_past noise start body,
          e,
          pop_request_loop,
        )
        (rw (
          get_or-middle noise start body 0,
          drop-drop (length noise + 1) n buffer,
          drop_past noise start body,
        ))

  pub pop_incomplete :
      (fuel : ℕ)
      → NoStart noise
      → is_start_byte start ≡ true
      → parse_request_body body ≡ incomplete
      → length buffer ≤ 300
      → pop_request_loop (suc fuel) buffer ≡ some (none, buffer)
  unfolding pop_request_loop
  pop_incomplete fuel h k e fits =
      rw
        (
          position_found is_start_byte noise start body h k,
          drop_past noise start body,
          e,
          pop_request_loop,
        )
        (elim (Bool-cases (ltb 300 (length buffer))) [
          | inl big ↦ absurd (ground arith)
          | inr small ↦ rw small
        ])

  pub pop_overflow :
      (fuel : ℕ)
      → NoStart noise
      → is_start_byte start ≡ true
      → parse_request_body body ≡ incomplete
      → 300 < length buffer
      → pop_request_loop (suc fuel) buffer ≡ pop_request_loop fuel body
  unfolding pop_request_loop
  pop_overflow fuel h k e big =
      rw
        (
          position_found is_start_byte noise start body h k,
          drop_past noise start body,
          e,
          pop_request_loop,
        )
        (elim (Bool-cases (ltb 300 (length buffer))) [
          | inl over ↦ rw over (ap (pop_request_loop fuel) (drop_past noise start body))
          | inr small ↦ absurd (ground arith)
        ])

  pub pop_malformed :
      (fuel : ℕ)
      → NoStart noise
      → is_start_byte start ≡ true
      → parse_request_body body ≡ malformed
      → pop_request_loop (suc fuel) buffer ≡ pop_request_loop fuel body
  unfolding pop_request_loop
  pop_malformed fuel h k e =
      rw
        (
          position_found is_start_byte noise start body h k,
          drop_past noise start body,
          e,
          pop_request_loop,
        )
        (ap (pop_request_loop fuel) (drop_past noise start body))

pub drop_body :
    (bytes rest : List ℕ) → drop (2 * length bytes + 3) (pairs bytes ++ trailer bytes rest) ≡ rest
drop_body bytes rest =
    ap (drop (2 * length bytes + 3)) (sym (append_assoc (pairs bytes) (trailer bytes []) rest))
    ∙ drop_exact (2 * length bytes + 3) (pairs bytes ++ trailer bytes []) rest
        (omega (arith, length-pairs bytes, length-append (pairs bytes) (trailer bytes [])))

-- A clean body behind a start byte is popped whole.
pop_clean :
    (noise : List ℕ) (start : ℕ) (bytes rest : List ℕ)
    → NoStart noise
    → is_start_byte start ≡ true
    → NoEtx bytes
    → pop_request (noise ++ (start ∷ (pairs bytes ++ trailer bytes rest)))
      ≡ some (resolve_request (start_offset start) bytes, rest)
unfolding pop_request
pop_clean noise start bytes rest n s clean =
    pop_complete noise start (pairs bytes ++ trailer bytes rest) _ (2 * length bytes + 3) bytes n s
      (parse_request_body-pairs bytes rest clean)
    ∙ rw (drop_body bytes rest)

-- A built frame between noise and what follows, with its `DEL` counted as noise.
place_frame :
    (noise : List ℕ) (start : ℕ) (bytes rest : List ℕ)
    → noise ++ ((del ∷ start ∷ (pairs bytes ++ trailer bytes [])) ++ rest)
      ≡ (noise ++ (del ∷ [])) ++ (start ∷ (pairs bytes ++ trailer bytes rest))
place_frame noise start bytes rest =
    ap (λ t. noise ++ (del ∷ start ∷ t)) (append_assoc (pairs bytes) (trailer bytes []) rest)
    ∙ sym (append_assoc noise (del ∷ []) (start ∷ (pairs bytes ++ trailer bytes rest)))

NoStart-del : (noise : List ℕ) → NoStart noise → NoStart (noise ++ (del ∷ []))
unfolding is_start_byte
NoStart-del noise n = All-append (λ b. is_start_byte b ≡ false) noise (del ∷ []) n (refl, tt)

resolve_addressed :
    (start local addr cmd : ℕ) (payload : List ℕ)
    → IsResolved addr start local
    → resolve_request (start_offset start) (local ∷ cmd ∷ payload)
      ≡ some (record { addr = some addr; cmd = cmd; payload = payload })
unfolding resolve_request request_of
resolve_addressed start local addr cmd payload r = rw (r.low, r.high, r.exact)

pub local-ne-etx : (start local addr : ℕ) → IsResolved addr start local → local ≢ etx
local-ne-etx start local addr r = ground arith

-- A request for a network address from 1 to 225, with no `ETX` in its command and payload, is read
-- back, whatever noise without start bytes
-- stands before it, and the bytes behind it stay in the buffer.
pub pop_request-build_request :
    (noise : List ℕ) (addr cmd : ℕ) (payload rest : List ℕ)
    → NoStart noise
    → 1 ≤ addr
    → addr ≤ 225
    → NoEtx (cmd ∷ payload)
    → pop_request (noise ++ (build_request addr cmd payload ++ rest))
      ≡ some (some (record { addr = some addr; cmd = cmd; payload = payload }), rest)
unfolding build_request build_request_with_start
pop_request-build_request noise addr cmd payload rest n lo hi clean =
    let split = split_network_address addr in
    let start : ℕ = split.0 in
    let local : ℕ = split.1 in
    let r : IsResolved addr start local = split_network_address-IsResolved addr lo hi in
    ap (λ f. pop_request (noise ++ (f ++ rest))) (build_frame_addressed start local cmd payload)
    ∙ ap pop_request (place_frame noise start (local ∷ cmd ∷ payload) rest)
    ∙ pop_clean (noise ++ (del ∷ [])) start (local ∷ cmd ∷ payload) rest (NoStart-del noise n)
        r.starts (local-ne-etx start local addr r, clean)
    ∙ rw (resolve_addressed start local addr cmd payload r)

-- A broadcast with no `ETX` in its command and payload, behind noise without start bytes, is read
-- back without an address, unless its command lies in the range of the address
-- bytes.
pub pop_request-build_broadcast :
    (noise : List ℕ) (cmd : ℕ) (payload rest : List ℕ)
    → NoStart noise
    → (leb 0x21 cmd && leb cmd 0x2f) ≡ false
    → NoEtx (cmd ∷ payload)
    → pop_request (noise ++ (build_broadcast cmd payload ++ rest))
      ≡ some (some (record { addr = none; cmd = cmd; payload = payload }), rest)
unfolding build_broadcast resolve_request request_of is_start_byte
pop_request-build_broadcast noise cmd payload rest n outside clean =
    ap (λ f. pop_request (noise ++ (f ++ rest))) (build_frame_broadcast stx cmd payload)
    ∙ ap pop_request (place_frame noise stx (cmd ∷ payload) rest)
    ∙ pop_clean (noise ++ (del ∷ [])) stx (cmd ∷ payload) rest (NoStart-del noise n) refl clean
    ∙ rw outside
