-- ===== src/Wayne/Bytes.antt =====
-- crates/wayne-europump/src/parser.rs: the bytes that a frame starts with, and the CRC at its end.
use fuel_station_controller.Base.{
  ℕ, ◌-◌, ◌/◌, ◌%◌, bit_and, Bool, true, false, ◌&&◌, ◌||◌, not, List, [], ◌∷◌, length, take,
  get_or, ltb, leb, ◌==◌, if◌then◌else◌,
}
use fuel_station_controller.Wayne.Crc.{crc16}

abbrev pub at : List ℕ → ℕ → ℕ
at buf i = get_or buf i 0

unfoldable pub is_plain_addr : ℕ → Bool
is_plain_addr b = leb 0x50 b && leb b 0x6f

unfoldable pub is_high_addr : ℕ → Bool
is_high_addr b = leb 0xd0 b && leb b 0xef

unfoldable pub is_valid_addr_byte : ℕ → Bool
unfolding is_plain_addr is_high_addr
is_valid_addr_byte b = is_plain_addr b || is_high_addr b

unfoldable pub next_is_addr : List ℕ → Bool
unfolding is_plain_addr
next_is_addr [] = false
next_is_addr (next ∷ rest) = is_plain_addr next

unfoldable pub trim_garbage_prefix : List ℕ → List ℕ
unfolding is_valid_addr_byte is_high_addr next_is_addr
trim_garbage_prefix [] = []
trim_garbage_prefix (b ∷ rest) =
    let trimmed = trim_garbage_prefix rest in
    if not (is_valid_addr_byte b)
    then trimmed
    else if is_high_addr b && next_is_addr rest
    then trimmed
    else b ∷ rest

unfoldable pub crc_matches : List ℕ → ℕ → ℕ → Bool
unfolding crc16
crc_matches bytes ck1 ck2 =
    let crc = crc16 bytes in ck1 == bit_and crc 0xff && ck2 == crc / 256 % 256

unfoldable pub try_crc : List ℕ → ℕ → ℕ → Bool
unfolding crc_matches
try_crc [] ck1 ck2 = crc_matches [] ck1 ck2
try_crc (b ∷ rest) ck1 ck2 =
    if crc_matches (b ∷ rest) ck1 ck2
    then true
    else if not (bit_and b 0x80 == 0)
    then crc_matches (bit_and b 0x7f ∷ rest) ck1 ck2
    else false

unfoldable pub verify_crc : List ℕ → Bool
unfolding try_crc
verify_crc body =
    let n = length body in
    let ck1 = at body (n - 4) in
    let ck2 = at body (n - 3) in
    if ltb n 4
    then false
    else if try_crc (take (n - 4) body) ck1 ck2
    then true
    else if leb 5 n
    then try_crc (take (n - 5) body) ck1 ck2
    else false

unfoldable pub is_short_frame : List ℕ → Bool
unfolding is_valid_addr_byte
is_short_frame buf =
    if ltb (length buf) 3
    then false
    else if not (is_valid_addr_byte (at buf 0))
    then false
    else (at buf 1 == 0x20 || (at buf 1 == 0x70 || (at buf 1 == 0xc0 || at buf 1 == 0xc1)))
      && at buf 2 == 0xfa
