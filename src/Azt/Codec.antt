-- ===== src/Azt/Codec.antt =====
-- crates/azt/src/codec.rs: complementary-byte framing and the checksum. A buffer is a list of bytes.
pub mod Bytes
pub mod Frames
pub mod Decode
pub mod Requests
pub mod Partial
pub mod Sound
use fuel_station_controller.Base.{
  ℕ, zero, suc, ◌+◌, ◌-◌, ◌*◌, ◌/◌, ◌%◌, bit_and, bit_or, bit_xor, Bool, true, false, ◌&&◌, ◌||◌,
  Option, none, some, List, [], ◌∷◌, ◌++◌, foldl, length, get_or, drop, position, ltb, leb, ◌==◌,
  if◌then◌else◌, is_some,
}

abbrev pub del : ℕ
del = 0x7f

abbrev pub stx : ℕ
stx = 0x02

abbrev pub etx : ℕ
etx = 0x03

abbrev pub ack : ℕ
ack = 0x06

abbrev pub nak : ℕ
nak = 0x15

abbrev pub can : ℕ
can = 0x18

-- `!b & 0x7F` on a byte.
unfoldable pub complement : ℕ → ℕ
complement b = bit_and (255 - b) 0x7f

unfoldable pub address_byte : ℕ → ℕ
address_byte n = bit_or 0x20 (bit_and n 0x0f)

-- The sum of two bytes stays a byte for every offset that an address gives (0 to 17).
unfoldable pub start_byte_for_offset : ℕ → ℕ
start_byte_for_offset offset_index = if offset_index == 0 then stx else 0x06 + offset_index

-- `out` with the byte and its complement pushed.
unfoldable pub push_pair : List ℕ → ℕ → List ℕ
push_pair out b = out ++ (b ∷ complement b ∷ [])

unfoldable pub checksum : List ℕ → ℕ
checksum normal_bytes = bit_or (foldl bit_xor etx normal_bytes) 0x40

-- `saturating_sub` is the truncated difference.
unfoldable pub split_network_address : ℕ → ℕ × ℕ
unfolding start_byte_for_offset address_byte
split_network_address n =
    let zero_based = n - 1 in
    let offset_index = zero_based / 15 in
    let local = zero_based % 15 + 1 in (start_byte_for_offset offset_index, address_byte local)

unfoldable pub push_pairs : List ℕ → List ℕ → List ℕ
unfolding push_pair
push_pairs out [] = out
push_pairs out (b ∷ bs) = push_pairs (push_pair out b) bs

-- `normal` in the source collects the bytes that the checksum covers.
unfoldable pub build_frame : ℕ → Option ℕ → ℕ → List ℕ → List ℕ
unfolding push_pairs push_pair checksum
build_frame start none cmd payload =
    let out = push_pairs (push_pair (del ∷ start ∷ []) cmd) payload in
    out ++ (etx ∷ etx ∷ checksum (cmd ∷ payload) ∷ [])
build_frame start (some a) cmd payload =
    let out = push_pairs (push_pair (push_pair (del ∷ start ∷ []) a) cmd) payload in
    out ++ (etx ∷ etx ∷ checksum (a ∷ cmd ∷ payload) ∷ [])

unfoldable pub build_request_with_start : ℕ → ℕ → ℕ → List ℕ → List ℕ
unfolding build_frame
build_request_with_start start addr_byte cmd payload =
    build_frame start (some addr_byte) cmd payload

unfoldable pub build_request : ℕ → ℕ → List ℕ → List ℕ
unfolding split_network_address build_request_with_start
build_request addr cmd payload =
    let (start, addr_byte) = split_network_address addr in
    build_request_with_start start addr_byte cmd payload

unfoldable pub build_broadcast : ℕ → List ℕ → List ℕ
unfolding build_frame
build_broadcast cmd payload = build_frame stx none cmd payload

unfoldable pub encode_data_response : List ℕ → List ℕ
unfolding push_pairs checksum
encode_data_response payload =
    push_pairs (del ∷ stx ∷ []) payload ++ (etx ∷ etx ∷ checksum payload ∷ [])

unfoldable pub encode_short_response : ℕ → List ℕ
encode_short_response code = del ∷ code ∷ []

pub record TrkRequest : Type 0 where
  pub addr : Option ℕ
  pub cmd : ℕ
  pub payload : List ℕ

pub data BodyParse : Type 0 where
  complete : ℕ → List ℕ → BodyParse
  incomplete : BodyParse
  malformed : BodyParse

-- The bytes at `idx + 1` and `idx + 2` behind an `ETX` at `idx`.
unfoldable pub request_trailer : List ℕ → ℕ → List ℕ → BodyParse
unfolding checksum
request_trailer [] idx normal = incomplete
request_trailer (second ∷ []) idx normal = if second == etx then incomplete else malformed
request_trailer (second ∷ cs ∷ rest) idx normal =
    if second == etx
    then (if cs == checksum normal then complete (idx + 3) normal else malformed)
    else malformed

-- The loop of `parse_request_body`; the list is the body from `idx` on.
unfoldable pub request_body_loop : List ℕ → ℕ → List ℕ → BodyParse
unfolding request_trailer complement
request_body_loop [] idx normal = incomplete
request_body_loop (b ∷ []) idx normal =
    if b == etx then request_trailer [] idx normal else incomplete
request_body_loop (b ∷ comp ∷ rest) idx normal =
    let more = request_body_loop rest (idx + 2) (normal ++ (b ∷ [])) in
    if b == etx
    then request_trailer (comp ∷ rest) idx normal
    else (if comp == complement b then more else malformed)

unfoldable pub parse_request_body : List ℕ → BodyParse
unfolding request_body_loop
parse_request_body body = request_body_loop body 0 []

-- A master start byte, which selects an address offset.
unfoldable pub is_start_byte : ℕ → Bool
is_start_byte b = b == stx || (leb 0x07 b && leb b 0x14)

unfoldable pub start_offset : ℕ → ℕ
start_offset b = if b == stx then 0 else (b - 0x06) * 15

-- `rest.split_first()?` and the result built from it.
unfoldable pub request_of : Option ℕ → List ℕ → Option TrkRequest
request_of addr [] = none
request_of addr (cmd ∷ payload) = some (record { addr = addr; cmd = cmd; payload = payload })

-- The address byte of a complete body, if it has one, and the request.
unfoldable pub resolve_request : ℕ → List ℕ → Option TrkRequest
unfolding request_of
resolve_request offset [] = request_of none []
resolve_request offset (first ∷ rest) =
    if leb 0x21 first && leb first 0x2f
    then request_of (some (offset + bit_and first 0x0f)) rest
    else request_of none (first ∷ rest)

-- The `loop` of `pop_request`, with the accumulator that it leaves; the outer `none` is the fuel.
unfoldable pub pop_request_loop : ℕ → List ℕ → Option (Option TrkRequest × List ℕ)
unfolding is_start_byte start_offset parse_request_body resolve_request
pop_request_loop zero accum = none
pop_request_loop (suc fuel) accum = elim (position is_start_byte accum) [
  | none ↦ some (none, accum)
  | some start ↦
      let body = drop (start + 1) accum in
      let again = pop_request_loop fuel body in
      elim (parse_request_body body) [
        | complete consumed normal ↦ some (
          resolve_request (start_offset (get_or accum start 0)) normal,
          drop (start + 1 + consumed) accum,
        )
        | incomplete ↦ if ltb 300 (length accum) then again else some (none, accum)
        | malformed ↦ again
      ]
]

-- Each round that goes on drops a byte at least.
unfoldable pub pop_request : List ℕ → Option (Option TrkRequest × List ℕ)
unfolding pop_request_loop
pop_request accum = pop_request_loop (suc (length accum)) accum

pub data Response : Type 0 where
  short : ℕ → Response
  payload : List ℕ → Response

-- `ETX` must stand again at `idx + 1`, and the checksum at `idx + 2`.
unfoldable pub data_trailer : List ℕ → List ℕ → Option (List ℕ)
unfolding checksum
data_trailer [] found = none
data_trailer (second ∷ []) found = none
data_trailer (second ∷ cs ∷ rest) found =
    if second == etx then (if cs == checksum found then some found else none) else none

-- The loop of `decode_data_frame`; the list is the body from `idx` on.
unfoldable pub data_frame_loop : List ℕ → List ℕ → Option (List ℕ)
unfolding data_trailer complement
data_frame_loop [] found = none
data_frame_loop (b ∷ []) found = if b == etx then data_trailer [] found else none
data_frame_loop (b ∷ comp ∷ rest) found =
    let more = data_frame_loop rest (found ++ (b ∷ [])) in
    if b == etx
    then data_trailer (comp ∷ rest) found
    else (if comp == complement b then more else none)

unfoldable pub decode_data_frame : List ℕ → Option (List ℕ)
unfolding data_frame_loop
decode_data_frame body = data_frame_loop body []

abbrev or_continue : Option (List ℕ) → Option Response → Option Response
or_continue none next = next
or_continue (some bytes) next = some (payload bytes)

-- The scan over the positions of the buffer.
unfoldable pub decode_response : List ℕ → Option Response
unfolding decode_data_frame
decode_response [] = none
decode_response (b ∷ rest) =
    let next = decode_response rest in
    if b == ack || b == nak || b == can
    then some (short b)
    else (if b == stx then or_continue (decode_data_frame rest) next else next)
