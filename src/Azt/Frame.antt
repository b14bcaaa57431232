-- ===== src/Azt/Frame.antt =====
-- crates/azt/src/frame.rs: decoded types, and numbers as ASCII digits. A `u64` wraps at 2 ^ 64.
pub mod Digits
use fuel_station_controller.Base.{
  ℕ, zero, suc, ◌+◌, ◌-◌, ◌*◌, ◌/◌, ◌%◌, ◌^◌, bit_or, Bool, true, false, ◌&&◌, ◌||◌, Option, none,
  some, List, [], ◌∷◌, ◌++◌, leb, ◌==◌, if◌then◌else◌,
}

pub data FinishReason : Type 0 where
  normal overfill : FinishReason

pub data AztStatus : Type 0 where
  off_holstered off_lifted authorized dispensing : AztStatus
  finished : FinishReason → AztStatus
  local_preset unknown : AztStatus

-- The reason byte of the finished status: only `'1'` is an overfill.
unfoldable pub finish_reason : Option ℕ → FinishReason
finish_reason none = normal
finish_reason (some r) = if r == 0x31 then overfill else normal

unfoldable pub from_bytes : ℕ → Option ℕ → AztStatus
unfolding finish_reason
from_bytes status reason =
    if status == 0x30
    then off_holstered
    else if status == 0x31
    then off_lifted
    else if status == 0x32
    then authorized
    else if status == 0x33
    then dispensing
    else if status == 0x34
    then finished (finish_reason reason)
    else if status == 0x38
    then local_preset
    else unknown

pub record CurrentData : Type 0 where
  pub volume_centilitres : ℕ

pub record FullData : Type 0 where
  pub volume_centilitres : ℕ
  pub cost_kopecks : ℕ
  pub price_kopecks : ℕ

pub record TrkType : Type 0 where
  pub identifier : ℕ
  pub volume_digits : ℕ
  pub price_digits : ℕ
  pub cost_digits : ℕ

abbrev trk_widths : ℕ → ℕ → ℕ → ℕ → Option TrkType
trk_widths identifier l m t =
    some (record { identifier = identifier; volume_digits = l; price_digits = m; cost_digits = t })

-- The digit widths, in the order volume L, price M, cost T.
unfoldable pub from_identifier : ℕ → Option TrkType
from_identifier identifier =
    if identifier == b'A'
    then trk_widths identifier 6 4 6
    else if identifier == b'B'
    then trk_widths identifier 6 6 8
    else if identifier == b'C'
    then trk_widths identifier 6 4 6
    else if identifier == b'D'
    then trk_widths identifier 6 4 6
    else if identifier == b'E'
    then trk_widths identifier 6 4 6
    else if identifier == b'F'
    then trk_widths identifier 6 6 8
    else if identifier == b'G'
    then trk_widths identifier 6 6 8
    else if identifier == b'H'
    then trk_widths identifier 5 4 7
    else none

-- The slots are filled from the last: the lowest digit stands at the end.
unfoldable pub encode_digits : ℕ → ℕ → List ℕ
encode_digits value zero = []
encode_digits value (suc n) = encode_digits (value / 10) n ++ (bit_or 0x30 (value % 10) ∷ [])

-- `acc * 10 + (b - 0x30)` on `u64`.
abbrev pub push_digit : ℕ → ℕ → ℕ
push_digit acc b = (acc * 10 % 2 ^ 64 + (b - 0x30)) % 2 ^ 64

-- The `try_fold` of `decode_digits` from an accumulator.
unfoldable pub decode_digits_from : ℕ → List ℕ → Option ℕ
decode_digits_from acc [] = some acc
decode_digits_from acc (b ∷ bs) =
    let more = decode_digits_from (push_digit acc b) bs in
    if leb 0x30 b && leb b 0x39 then more else none

unfoldable pub decode_digits : List ℕ → Option ℕ
unfolding decode_digits_from
decode_digits bytes = decode_digits_from 0 bytes
