-- ===== src/Shelf/Codec.antt =====
-- crates/shelf-v22/src/codec.rs: frames `2D ADDR INDEX LEN CMD DATA CRC` with CRC-CCITT.
pub mod Crc
pub mod RoundTrip
pub mod Scan
use fuel_station_controller.Base.{
  ℕ, zero, suc, ◌+◌, ◌-◌, ◌*◌, ◌/◌, ◌%◌, bit_and, bit_or, bit_xor, Bool, true, false, ◌&&◌, ◌||◌,
  not, Option, none, some, List, [], ◌∷◌, ◌++◌, foldl, length, get_or, take, drop, ltb, leb, ◌==◌,
  if◌then◌else◌, ◌>>=◌,
}

abbrev pub start_byte : ℕ
start_byte = 0x2d

abbrev pub min_frame_len : ℕ
min_frame_len = 7

-- One bit of the CRC register, a `u16`: `crc << 1` drops the top bit.
unfoldable pub crc_shift : ℕ → ℕ
crc_shift crc =
    if not (bit_and crc 0x8000 == 0) then bit_xor (crc * 2 % 65536) 0x1021 else crc * 2 % 65536

-- The inner loop, over the bits that are left.
unfoldable pub crc_bits : ℕ → ℕ → ℕ
unfolding crc_shift
crc_bits zero crc = crc
crc_bits (suc n) crc = crc_bits n (crc_shift crc)

unfoldable pub crc_byte : ℕ → ℕ → ℕ
unfolding crc_bits
crc_byte crc byte = crc_bits 8 (bit_xor crc (byte * 256))

unfoldable pub crc_ccitt : List ℕ → ℕ
unfolding crc_byte
crc_ccitt bytes = foldl crc_byte 0 bytes

-- `length` must fit a byte.
unfoldable pub build_request : ℕ → ℕ → ℕ → List ℕ → Option (List ℕ)
unfolding crc_ccitt
build_request addr index command payload =
    let size = 7 + length payload in
    let frame = start_byte ∷ addr ∷ index ∷ size ∷ command ∷ payload in
    let crc = crc_ccitt frame in
    if ltb size 256 then some (frame ++ (crc % 256 ∷ crc / 256 ∷ [])) else none

pub record Response : Type 0 where
  pub address : ℕ
  pub index : ℕ
  pub command : ℕ
  pub payload : List ℕ

abbrev pub at : List ℕ → ℕ → ℕ
at frame i = get_or frame i 0

unfoldable pub decode_response : ℕ → ℕ → List ℕ → Option Response
unfolding crc_ccitt
decode_response addr expected_index frame =
    let n = length frame in
    let payload_end = n - 2 in
    let received = at frame payload_end + at frame (payload_end + 1) * 256 in
    if ltb n min_frame_len
      || not (at frame 0 == start_byte)
      || not (at frame 1 == addr)
      || not (at frame 2 == expected_index)
      || not (at frame 3 == n)
    then none
    else if not (crc_ccitt (take payload_end frame) == received)
    then none
    else some (record {
      address = addr;
      index = expected_index;
      command = at frame 4;
      payload = drop 5 (take payload_end frame);
    })

-- The scan of `take_frame` from the position `start`; the list is the buffer from there on.
unfoldable pub take_frame_from : ℕ → List ℕ → Option (List ℕ × ℕ)
take_frame_from start [] = none
take_frame_from start (b ∷ tail) =
    let next = take_frame_from (start + 1) tail in
    let rest = b ∷ tail in
    let size = at rest 3 in
    if not (b == start_byte)
    then next
    else if ltb (length rest) 4
    then none
    else if ltb size min_frame_len
    then next
    else if ltb (length rest) size
    then none
    else some (take size rest, start + size)

unfoldable pub take_frame : List ℕ → Option (List ℕ × ℕ)
unfolding take_frame_from
take_frame buf = take_frame_from 0 buf
