-- ===== src/Bluesky/Codec.antt =====
-- crates/texnouz-bluesky/src/codec.rs: frames `F5 ADDR A0|LEN DATA CMD CRC`, and BCD numbers.
pub mod Bcd
pub mod RoundTrip
pub mod Sound
pub mod Scan
use fuel_station_controller.Base.{
  ℕ, zero, suc, ◌+◌, ◌-◌, ◌*◌, ◌/◌, ◌%◌, ◌^◌, bit_and, bit_or, bit_xor, Bool, true, false, ◌&&◌,
  ◌||◌, not, Option, none, some, List, [], ◌∷◌, ◌++◌, foldl, length, get_or, take, drop, ltb, leb,
  ◌==◌, if◌then◌else◌, ◌>>=◌,
}

abbrev pub precode : ℕ
precode = 0xf5

abbrev pub len_high : ℕ
len_high = 0xa0

abbrev pub state_ok : ℕ
state_ok = 0x59

abbrev pub state_err : ℕ
state_err = 0x4e

abbrev pub min_frame_len : ℕ
min_frame_len = 5

abbrev pub max_data_len : ℕ
max_data_len = 13

unfoldable pub crc : List ℕ → ℕ
crc bytes = bit_and (foldl bit_xor 0 bytes) 0x7f

unfoldable pub build_request : ℕ → ℕ → List ℕ → Option (List ℕ)
build_request addr cmd payload =
    let len = length payload + 2 in
    let f = precode ∷ addr ∷ bit_or len_high (bit_and (len % 256) 0x0f) ∷ (payload ++ (cmd ∷ [])) in
    if ltb max_data_len (length payload) then none else some (f ++ (crc f ∷ []))

pub data Response : Type 0 where
  general : ℕ → Response
  reply : ℕ → List ℕ → Response

-- `Response::cmd` and `Response::data`.
abbrev pub cmd_of : Response → ℕ
cmd_of (general cmd) = cmd
cmd_of (reply cmd payload) = cmd

abbrev pub data_of : Response → List ℕ
data_of (general cmd) = []
data_of (reply cmd payload) = payload

-- `data.as_slice() == [code]`
abbrev is_single : ℕ → List ℕ → Bool
is_single code [] = false
is_single code (b ∷ []) = b == code
is_single code (b ∷ c ∷ bs) = false

unfoldable pub status_ok : Response → Bool
status_ok (general cmd) = true
status_ok (reply cmd payload) = is_single state_ok payload

unfoldable pub status_err : Response → Bool
status_err (general cmd) = false
status_err (reply cmd payload) = is_single state_err payload

abbrev pub response_of : ℕ → List ℕ → Response
response_of cmd [] = general cmd
response_of cmd (b ∷ bs) = reply cmd (b ∷ bs)

-- `frame[i]`, at an index below the length.
abbrev pub at : List ℕ → ℕ → ℕ
at frame i = get_or frame i 0

unfoldable pub decode_response : ℕ → List ℕ → Option Response
unfolding crc
decode_response addr frame =
    let n = length frame in
    let len = bit_and (at frame 2) 0x0f in
    if ltb n min_frame_len || not (at frame 0 == precode) || not (at frame 1 == addr)
    then none
    else if not (bit_and (at frame 2) 0xf0 == len_high)
    then none
    else if not (n == len + 3) || ltb len 2
    then none
    else if not (crc (take (n - 1) frame) == at frame (n - 1))
    then none
    else some (response_of (at frame (n - 2)) (drop 3 (take (n - 2) frame)))

-- The scan of `take_frame` from the position `start`; the list is the buffer from there on.
unfoldable pub take_frame_from : ℕ → List ℕ → Option (List ℕ × ℕ)
take_frame_from start [] = none
take_frame_from start (b ∷ tail) =
    let next = take_frame_from (start + 1) tail in
    let rest = b ∷ tail in
    let total = bit_and (at rest 2) 0x0f + 3 in
    if not (b == precode)
    then next
    else if ltb (length rest) min_frame_len
    then none
    else if not (bit_and (at rest 2) 0xf0 == len_high)
    then next
    else if ltb total min_frame_len
    then next
    else if ltb (length rest) total
    then none
    else some (take total rest, start + total)

unfoldable pub take_frame : List ℕ → Option (List ℕ × ℕ)
unfolding take_frame_from
take_frame buf = take_frame_from 0 buf

-- One slot of `encode_bcd`: two decimal digits in a byte.
unfoldable pub bcd_byte : ℕ → ℕ
bcd_byte v = bit_or (v % 10) (v / 10 % 10 * 16)

-- The slots are filled from the last; with them, what is left of the value.
unfoldable pub encode_bcd_loop : ℕ → ℕ → List ℕ × ℕ
encode_bcd_loop v zero = ([], v)
encode_bcd_loop v (suc n) =
    let (out, left) = encode_bcd_loop (v / 100) n in (out ++ (bcd_byte v ∷ []), left)

unfoldable pub encode_bcd : ℕ → ℕ → Option (List ℕ)
unfolding encode_bcd_loop
encode_bcd value len =
    let (out, left) = encode_bcd_loop value len in if left == 0 then some out else none

-- `checked_mul` and `checked_add` on `u64`.
abbrev checked : ℕ → Option ℕ
checked n = if ltb n (2 ^ 64) then some n else none

-- One round of `decode_bcd`: the accumulator behind the two digits of `b`.
unfoldable pub bcd_next : ℕ → ℕ → Option ℕ
bcd_next acc b =
    let hi = b / 16 in
    let lo = bit_and b 0x0f in
    if ltb 9 hi || ltb 9 lo
    then none
    else (checked (acc * 100) >>= λ scaled. checked (scaled + (hi * 10 + lo)))

unfoldable pub decode_bcd_from : ℕ → List ℕ → Option ℕ
unfolding bcd_next
decode_bcd_from acc [] = some acc
decode_bcd_from acc (b ∷ bs) = elim (bcd_next acc b) [
  | none ↦ none
  | some acc' ↦ decode_bcd_from acc' bs
]

unfoldable pub decode_bcd : List ℕ → Option ℕ
unfolding decode_bcd_from
decode_bcd bytes = decode_bcd_from 0 bytes
