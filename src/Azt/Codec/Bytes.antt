-- ===== src/Azt/Codec/Bytes.antt =====
-- Laws of the single bytes of the AZT frames, for every byte and every network address.
use fuel_station_controller.Base.{
  ℕ, suc, ◌+◌, ◌-◌, ◌%◌, ◌≤◌, ◌<◌, ◌≡◌, refl, ◌∙◌, arith, bit_and, Bool, true, ◌==◌, ◌&&◌, leb,
}
use fuel_station_controller.Base.Bits.{IsByte, all_below, all_below_sound, agree_below}
use fuel_station_controller.Azt.Codec.{
  complement, split_network_address, is_start_byte, start_offset,
}

complement_table : all_below 256 (λ b. complement b == 127 - b % 128) ≡ true
unfolding all_below complement
complement_table = refl

-- The complement of a byte is its 7-bit inverse.
pub complement_lem : (b : ℕ) → IsByte b → complement b ≡ 127 - b % 128
complement_lem b h = agree_below 256 complement (λ x. 127 - x % 128) complement_table b h

-- On 7-bit bytes the complement undoes itself.
pub complement-complement : (b : ℕ) → b < 128 → complement (complement b) ≡ b
complement-complement b h =
    complement_lem (complement b) (omega (arith, complement_lem b (omega arith)))
    ∙ omega (arith, complement_lem b (omega arith))

address_ok : ℕ → Bool
unfolding split_network_address start_offset is_start_byte
address_ok k =
    let (start, local) = split_network_address (suc k) in
    is_start_byte start
    && (leb 0x21 local && (leb local 0x2f && (start_offset start + bit_and local 0x0f == suc k)))

address_table : all_below 225 address_ok ≡ true
unfolding all_below address_ok
address_table = refl

pub record IsResolved (addr start local : ℕ) : Type 0 where
  pub starts : is_start_byte start ≡ true
  pub low : leb 0x21 local ≡ true
  pub high : leb local 0x2f ≡ true
  pub exact : start_offset start + bit_and local 0x0f ≡ addr

-- The start byte and the address byte of the addresses 1 to 225 determine the address.
pub split_network_address-IsResolved :
    (addr : ℕ)
    → 1 ≤ addr
    → addr ≤ 225
    → IsResolved addr (split_network_address addr).0 (split_network_address addr).1
unfolding address_ok
split_network_address-IsResolved addr lo hi =
    let e : addr ≡ suc (addr - 1) = omega arith in
    let t = all_below_sound 225 address_ok (addr - 1) address_table (omega arith) in
    rw e (resolve t)
  where
    resolve :
        address_ok (addr - 1) ≡ true
        → IsResolved
            (suc (addr - 1))
            (split_network_address (suc (addr - 1))).0
            (split_network_address (suc (addr - 1))).1
    resolve t = ground arith
