-- ===== src/Azt/Codec/Partial.antt =====
-- A request that has arrived in part: `pop_request` waits and keeps its bytes.
use fuel_station_controller.Base.{
  ℕ, ◌+◌, ◌≤◌, ◌≡◌, refl, sym, ◌∙◌, arith, true, none, some, List, [], ◌∷◌, ◌++◌, length,
  position-none,
}
use fuel_station_controller.Azt.Codec.{
  checksum, etx, del, is_start_byte, incomplete, request_body_loop, request_trailer,
  parse_request_body, pop_request_loop, pop_request, split_network_address, build_request,
  build_request_with_start,
}
use fuel_station_controller.Azt.Codec.Bytes.{IsResolved, split_network_address-IsResolved}
use fuel_station_controller.Azt.Codec.Frames.{pairs, trailer, NoEtx, build_frame_addressed}
use fuel_station_controller.Azt.Codec.Requests.{pop_nothing, pop_incomplete, local-ne-etx}

trailer_cut :
    (cs : ℕ) (body : List ℕ) (x : ℕ) (back : List ℕ) (idx : ℕ) (normal : List ℕ)
    → etx ∷ etx ∷ cs ∷ [] ≡ body ++ (x ∷ back)
    → request_body_loop body idx normal ≡ incomplete
unfolding request_body_loop request_trailer
trailer_cut cs [] x back idx normal e = refl
trailer_cut cs (b ∷ []) x back idx normal e = ground arith
trailer_cut cs (b ∷ c ∷ []) x back idx normal e = ground arith
trailer_cut cs (b ∷ c ∷ d ∷ []) x back idx normal e = absurd (ground arith)
trailer_cut cs (b ∷ c ∷ d ∷ f ∷ r) x back idx normal e = absurd (ground arith)

pairs_cut :
    (bytes : List ℕ) (cs : ℕ) (body : List ℕ) (x : ℕ) (back : List ℕ) (idx : ℕ) (normal : List ℕ)
    → NoEtx bytes
    → pairs bytes ++ (etx ∷ etx ∷ cs ∷ []) ≡ body ++ (x ∷ back)
    → request_body_loop body idx normal ≡ incomplete
unfolding request_body_loop request_trailer
pairs_cut [] cs body x back idx normal h e = trailer_cut cs body x back idx normal e
pairs_cut (a ∷ bs) cs [] x back idx normal h e = refl
pairs_cut (a ∷ bs) cs (b ∷ []) x back idx normal h e = ground arith
pairs_cut (a ∷ bs) cs (b ∷ c ∷ r) x back idx normal h e =
    ground (arith, pairs_cut bs cs r x back (idx + 2) (normal ++ (b ∷ [])) h.1)

frame_cut :
    (start : ℕ) (bytes front : List ℕ) (x : ℕ) (back : List ℕ)
    → is_start_byte start ≡ true
    → NoEtx bytes
    → del ∷ start ∷ (pairs bytes ++ trailer bytes []) ≡ front ++ (x ∷ back)
    → length front ≤ 300
    → pop_request front ≡ some (none, front)
unfolding pop_request
frame_cut start bytes [] x back s h e fits = unfold pop_request_loop in refl
frame_cut start bytes (d ∷ []) x back s h e fits =
    let same : d ≡ del = cc in
    pop_nothing 1 (d ∷ [])
      (position-none is_start_byte (d ∷ []) ((rw same (unfold is_start_byte in refl)), tt))
frame_cut start bytes (d ∷ t ∷ body) x back s h e fits =
    let same : d ≡ del = cc in
    let first : t ≡ start = cc in
    let rest : pairs bytes ++ trailer bytes [] ≡ body ++ (x ∷ back) = cc in
    pop_incomplete (d ∷ []) t body (length (d ∷ t ∷ body))
      (rw same (unfold is_start_byte in refl), tt) (rw first s)
      (unfold parse_request_body in pairs_cut bytes (checksum bytes) body x back 0 [] h rest) fits

-- Every proper prefix of a request, for an address from 1 to 225 and with no `ETX` in its command
-- and payload, leaves the buffer as it is, and yields no request, as long as it
-- stays within the 300 bytes after which the oldest bytes are dropped.
pub pop_request_waits :
    (addr cmd : ℕ) (payload front : List ℕ) (x : ℕ) (back : List ℕ)
    → 1 ≤ addr
    → addr ≤ 225
    → NoEtx (cmd ∷ payload)
    → build_request addr cmd payload ≡ front ++ (x ∷ back)
    → length front ≤ 300
    → pop_request front ≡ some (none, front)
unfolding build_request build_request_with_start
pop_request_waits addr cmd payload front x back lo hi clean e fits =
    let split = split_network_address addr in
    let r : IsResolved addr split.0 split.1 = split_network_address-IsResolved addr lo hi in
    frame_cut split.0 (split.1 ∷ cmd ∷ payload) front x back r.starts
      (local-ne-etx split.0 split.1 addr r, clean)
      (sym (build_frame_addressed split.0 split.1 cmd payload) ∙ e) fits
