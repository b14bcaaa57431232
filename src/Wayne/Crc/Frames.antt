-- ===== src/Wayne/Crc/Frames.antt =====
-- The frames that the builder writes pass the check of the parser.
use fuel_station_controller.Base.{
  ℕ, suc, ◌+◌, ◌-◌, ◌/◌, ◌%◌, ◌≡◌, refl, arith, bit_and, true, false, List, [], ◌∷◌, ◌++◌, length,
  length-append, take_exact, get_or, get_or-middle, ltb, ==_self,
}
use fuel_station_controller.Wayne.Crc.{crc16, build_frame}
use fuel_station_controller.Wayne.Bytes.{crc_matches, try_crc, verify_crc}

crc_matches-crc16 :
    (bytes : List ℕ)
    → crc_matches bytes (bit_and (crc16 bytes) 0xff) (crc16 bytes / 256 % 256) ≡ true
unfolding crc_matches
crc_matches-crc16 bytes =
    rw (==_self (bit_and (crc16 bytes) 0xff), ==_self (crc16 bytes / 256 % 256)) refl

try_crc-crc16 :
    (bytes : List ℕ) → try_crc bytes (bit_and (crc16 bytes) 0xff) (crc16 bytes / 256 % 256) ≡ true
unfolding try_crc
try_crc-crc16 [] = crc_matches-crc16 []
try_crc-crc16 (b ∷ rest) = rw (crc_matches-crc16 (b ∷ rest)) refl

second_byte :
    (bytes : List ℕ) (p q : ℕ) (rest : List ℕ)
    → get_or (bytes ++ (p ∷ q ∷ rest)) (suc (length bytes)) 0 ≡ q
second_byte [] p q rest = refl
second_byte (b ∷ bytes) p q rest = second_byte bytes p q rest

not_short : (n : ℕ) → ltb (n + 4) 4 ≡ false
not_short n = ground arith

verify_trailer :
    (bytes : List ℕ) (p q r s : ℕ)
    → try_crc bytes p q ≡ true
    → verify_crc (bytes ++ (p ∷ q ∷ r ∷ s ∷ [])) ≡ true
unfolding verify_crc
verify_trailer bytes p q r s h =
    let tail : List ℕ = p ∷ q ∷ r ∷ s ∷ [] in
    let len : length (bytes ++ tail) ≡ length bytes + 4 = length-append bytes tail in
    let n_4 : length bytes + 4 - 4 ≡ length bytes = omega arith in
    let n_3 : length bytes + 4 - 3 ≡ suc (length bytes) = omega arith in
    let first : get_or (bytes ++ tail) (length bytes) 0 ≡ p =
      get_or-middle bytes p (q ∷ r ∷ s ∷ []) 0 in
    rw
      (
        len,
        not_short (length bytes),
        n_4,
        n_3,
        first,
        second_byte bytes p q (r ∷ s ∷ []),
        take_exact (length bytes) bytes tail refl,
        h,
      )
      refl

-- Every frame that the builder writes passes the CRC check of the parser.
pub verify_crc-build_frame : (bytes : List ℕ) → verify_crc (build_frame bytes) ≡ true
unfolding build_frame
verify_crc-build_frame bytes =
    verify_trailer bytes (bit_and (crc16 bytes) 0xff) (crc16 bytes / 256 % 256) 0x03 0xfa
      (try_crc-crc16 bytes)
