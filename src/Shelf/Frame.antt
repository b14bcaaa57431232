-- ===== src/Shelf/Frame.antt =====
-- crates/shelf-v22/src/frame.rs: the states and the flag bytes of a SHELF reply.
use fuel_station_controller.Base.{
  ℕ, ◌^◌, bit_and, Bool, true, false, not, ◌&&◌, ◌||◌, Option, none, some, leb, ◌==◌, if◌then◌else◌,
}

pub data ShelfState : Type 0 where
  idle keypad_active keypad_request dispensing synchronizing final_sale command_ok : ShelfState
  command_rejected : ShelfState
  unknown : ℕ → ShelfState

-- `From<u8> for ShelfState`.
unfoldable pub from_command : ℕ → ShelfState
from_command command =
    if command == 0x81
    then idle
    else if command == 0x82
    then keypad_active
    else if command == 0x83
    then keypad_request
    else if command == 0x84
    then dispensing
    else if command == 0x85
    then synchronizing
    else if command == 0x93
    then final_sale
    else if command == 0x00
    then command_ok
    else if command == 0xff
    then command_rejected
    else unknown command

pub record LiveStatus : Type 0 where
  pub state : ShelfState
  pub guns : ℕ
  pub dispenser : ℕ
  pub fill_type : Option ℕ
  pub active_address : Option ℕ
  pub volume_steps : Option ℕ

-- `guns & (1 << gun_number)`, for gun numbers 1 to 5.
unfoldable pub gun_lifted : LiveStatus → ℕ → Bool
gun_lifted status gun_number =
    if not (leb 1 gun_number && leb gun_number 5)
    then false
    else if not (bit_and status.guns 0x3e == 0)
    then not (bit_and status.guns (2 ^ gun_number) == 0)
    else not (bit_and status.guns 1 == 0)

unfoldable pub describes_other_gun : LiveStatus → ℕ → Bool
describes_other_gun status queried_address = elim status.active_address [
  | none ↦ false
  | some active ↦ not (active == 0) && not (active == queried_address)
]

unfoldable pub any_gun_lifted : LiveStatus → Bool
any_gun_lifted status = not (bit_and status.guns 0x3f == 0)

abbrev is_dispensing : ShelfState → Bool
is_dispensing dispensing = true
is_dispensing _ = false

unfoldable pub status_dispensing : LiveStatus → Bool
status_dispensing status = is_dispensing status.state || not (bit_and status.dispenser 0x80 == 0)

unfoldable pub paused : LiveStatus → Bool
paused status = not (bit_and status.dispenser 0x10 == 0)

unfoldable pub stopped : LiveStatus → Bool
stopped status = not (bit_and status.dispenser 0x20 == 0)

pub record FinalSale : Type 0 where
  pub guns : ℕ
  pub dispenser : ℕ
  pub volume_steps : ℕ
  pub amount : ℕ
  pub price : ℕ

pub record Totalizer : Type 0 where
  pub volume_steps : ℕ
