-- ===== src/Shelf/Parser/RoundTrip.antt =====
-- What the parsers of SHELF replies accept, and the numbers that they return.
use fuel_station_controller.Base.{
  ℕ, ◌^◌, ◌≤◌, ◌<◌, ◌≡◌, ◌↔◌, arith, Bool, true, false, some, List, [], ◌∷◌, ◌++◌, length, is_some,
}
use fuel_station_controller.Shelf.Codec.{Response}
use fuel_station_controller.Shelf.Frame.{
  ShelfState, from_command, idle, keypad_active, keypad_request, dispensing, synchronizing,
  final_sale, command_ok, command_rejected, unknown,
}
use fuel_station_controller.Shelf.Commands.{u24_le, u16_le}
use fuel_station_controller.Shelf.Parser.{
  parse_live_status, short_status, full_status, parse_final_sale, read_u24, status_by_state,
}

abbrev is_live : ShelfState → Bool
is_live idle = true
is_live keypad_active = true
is_live keypad_request = true
is_live dispensing = true
is_live synchronizing = true
is_live _ = false

from_command-is_live :
    (command : ℕ) → (is_live (from_command command) ≡ true) ↔ ((0x81 ≤ command) × (command ≤ 0x85))
unfolding from_command
from_command-is_live command = ground arith

short_some :
    (state : ShelfState) (bytes : List ℕ)
    → (is_some (short_status state bytes) ≡ true) ↔ (2 ≤ length bytes)
unfolding short_status
short_some state [] = ground arith
short_some state (a ∷ []) = ground arith
short_some state (a ∷ b ∷ bytes) = ground arith

full_some :
    (state : ShelfState) (bytes : List ℕ)
    → (is_some (full_status state bytes) ≡ true) ↔ (2 ≤ length bytes)
unfolding full_status
full_some state [] = ground arith
full_some state (a ∷ []) = ground arith
full_some state (a ∷ b ∷ bytes) = ground arith

by_state :
    (state : ShelfState) (bytes : List ℕ)
    → (is_some (status_by_state state bytes) ≡ true) ↔ ((is_live state ≡ true) × (2 ≤ length bytes))
by_state idle bytes = ground (arith, short_some idle bytes)
by_state keypad_active bytes = ground (arith, full_some keypad_active bytes)
by_state keypad_request bytes = ground (arith, full_some keypad_request bytes)
by_state dispensing bytes = ground (arith, full_some dispensing bytes)
by_state synchronizing bytes = ground (arith, full_some synchronizing bytes)
by_state final_sale bytes = ground arith
by_state command_ok bytes = ground arith
by_state command_rejected bytes = ground arith
by_state (unknown c) bytes = ground arith

-- A live status is read exactly from the commands 0x81 to 0x85 with two bytes of payload or more;
-- the further fields never make it fail.
pub parse_live_status_iff :
    (r : Response)
    → (is_some (parse_live_status r) ≡ true)
      ↔ ((0x81 ≤ r.command) × (r.command ≤ 0x85) × (2 ≤ length r.payload))
unfolding parse_live_status
parse_live_status_iff r =
    ground (arith, by_state (from_command r.command) r.payload, from_command-is_live r.command)

-- The final sale is read back from its wire form: volume and amount of three bytes, price of two, all
-- little endian, whatever follows them.
pub parse_final_sale_wire :
    (address index guns dispenser volume amount price : ℕ) (rest : List ℕ)
    → volume < 2 ^ 24
    → amount < 2 ^ 24
    → price < 2 ^ 16
    → parse_final_sale (record {
      address = address;
      index = index;
      command = 0x93;
      payload = guns ∷ dispenser ∷ (u24_le volume ++ (u24_le amount ++ (u16_le price ++ rest)));
    })
      ≡ some (record {
        guns = guns;
        dispenser = dispenser;
        volume_steps = volume;
        amount = amount;
        price = price;
      })
unfolding parse_final_sale read_u24 u24_le u16_le
parse_final_sale_wire address index guns dispenser volume amount price rest hv ha hp = ground arith
