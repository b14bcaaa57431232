-- ===== src/Azt/Commands/ReadBack.antt =====
-- What the dispenser side reads out of the requests with numbers.
use fuel_station_controller.Base.{
  ℕ, ◌+◌, ◌%◌, ◌^◌, ◌≤◌, ◌≡◌, ◌≢◌, refl, arith, none, some, List, [], ◌∷◌, ◌++◌, All, bit_and,
  bit_or, ◌==◌, true,
}
use fuel_station_controller.Base.Bits.{IsByte, all_below, agree_below}
use fuel_station_controller.Azt.Codec.{pop_request, build_request, etx}
use fuel_station_controller.Azt.Codec.Frames.{NoEtx}
use fuel_station_controller.Azt.Codec.Requests.{
  NoStart, pop_request-build_request, pop_request-build_broadcast,
}
use fuel_station_controller.Azt.Frame.{encode_digits, decode_digits}
use fuel_station_controller.Azt.Frame.Digits.{
  IsDigit, encode_digits-IsDigit, decode_digits-encode_digits,
}
use fuel_station_controller.Azt.Commands.{
  set_price, set_decel_threshold, set_dose_rubles, set_dose_litres, set_general_param,
  cmd_set_price, cmd_set_decel_threshold, cmd_set_dose_rubles, cmd_set_dose_litres,
  cmd_set_price_general,
}

digits-NoEtx : (bytes : List ℕ) → All IsDigit bytes → NoEtx bytes
digits-NoEtx [] h = tt
digits-NoEtx (b ∷ bs) h = (omega arith, digits-NoEtx bs h.1)

-- A request that carries `value` in `n` digits, as the dispenser reads it.
pub record IsRead (frame : List ℕ) (addr cmd n value : ℕ) (noise rest : List ℕ) : Type 0 where
  pub payload : List ℕ
  pub popped :
      pop_request (noise ++ (frame ++ rest))
      ≡ some (some (record { addr = some addr; cmd = cmd; payload = payload }), rest)
  pub decoded : decode_digits payload ≡ some (value % 10 ^ n)

digits-IsRead :
    (noise rest : List ℕ) (addr cmd n value : ℕ)
    → NoStart noise
    → 1 ≤ addr
    → addr ≤ 225
    → cmd ≢ etx
    → n ≤ 19
    → IsRead (build_request addr cmd (encode_digits value n)) addr cmd n value noise rest
digits-IsRead noise rest addr cmd n value s lo hi c fits = record {
  payload = encode_digits value n;
  popped =
      pop_request-build_request noise addr cmd (encode_digits value n) rest s lo hi
        (c, digits-NoEtx (encode_digits value n) (encode_digits-IsDigit value n));
  decoded = decode_digits-encode_digits value n fits;
}

-- The four requests with a number: for an address from 1 to 225, behind noise without start bytes,
-- the dispenser pops the command that was sent, and its digits give the number cut to 4, 3, 6 and 5
-- decimal places.
pub numeric_requests-IsRead :
    (noise rest : List ℕ) (addr value : ℕ)
    → NoStart noise
    → 1 ≤ addr
    → addr ≤ 225
    → IsRead (set_price addr value) addr cmd_set_price 4 value noise rest
      × IsRead (set_decel_threshold addr value) addr cmd_set_decel_threshold 3 value noise rest
      × IsRead (set_dose_rubles addr value) addr cmd_set_dose_rubles 6 value noise rest
      × IsRead (set_dose_litres addr value) addr cmd_set_dose_litres 5 value noise rest
unfolding set_price set_decel_threshold set_dose_rubles set_dose_litres
numeric_requests-IsRead noise rest addr value s lo hi = (
  digits-IsRead noise rest addr cmd_set_price 4 value s lo hi (omega arith) (omega arith),
  digits-IsRead noise rest addr cmd_set_decel_threshold 3 value s lo hi (omega arith) (omega arith),
  digits-IsRead noise rest addr cmd_set_dose_rubles 6 value s lo hi (omega arith) (omega arith),
  digits-IsRead noise rest addr cmd_set_dose_litres 5 value s lo hi (omega arith) (omega arith),
)

nibble_table : all_below 256 (λ x. bit_or 0x30 (bit_and x 0x0f) == 0x30 + x % 16) ≡ true
unfolding all_below
nibble_table = refl

nibble_lem : (x : ℕ) → IsByte x → bit_or 0x30 (bit_and x 0x0f) ≡ 0x30 + x % 16
nibble_lem x h =
    agree_below 256 (λ y. bit_or 0x30 (bit_and y 0x0f)) (λ y. 0x30 + y % 16) nibble_table x h

-- A general parameter of two bytes, behind noise without start bytes, reaches every dispenser without an address, as the low nibbles of its two
-- bytes.
set_general_param_read :
    (noise rest : List ℕ) (param value : ℕ)
    → NoStart noise
    → IsByte param
    → IsByte value
    → pop_request (noise ++ (set_general_param param value ++ rest))
      ≡ some (
        some (record {
          addr = none;
          cmd = cmd_set_price_general;
          payload = (0x30 + param % 16) ∷ (0x30 + value % 16) ∷ [];
        }),
        rest,
      )
unfolding set_general_param
set_general_param_read noise rest param value s hp hv =
    rw (nibble_lem param hp, nibble_lem value hv)
      (pop_request-build_broadcast noise cmd_set_price_general _ rest s refl (omega arith))
