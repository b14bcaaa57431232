-- ===== src/Shelf/Parser.antt =====
-- crates/shelf-v22/src/parser.rs: decoded replies of a SHELF controller.
pub mod RoundTrip
use fuel_station_controller.Base.{
  ℕ, ◌+◌, ◌*◌, Bool, not, ◌||◌, ltb, ◌==◌, if◌then◌else◌, Option, none, some, List, [], ◌∷◌, length,
  get_or, get_elem?, ◌>>=◌, drop,
}
use fuel_station_controller.Shelf.Codec.{Response, at}
use fuel_station_controller.Shelf.Frame.{
  ShelfState, from_command, LiveStatus, FinalSale, Totalizer, idle, keypad_active, keypad_request,
  dispensing, synchronizing,
}

-- The first three bytes of the list, little endian.
unfoldable pub read_u24 : List ℕ → ℕ
read_u24 bytes = at bytes 0 + at bytes 1 * 256 + at bytes 2 * 65536

-- `data.get(4..7).map(read_u24)`
unfoldable pub volume_at_four : List ℕ → Option ℕ
unfolding read_u24
volume_at_four bytes = if ltb (length bytes) 7 then none else some (read_u24 (drop 4 bytes))

unfoldable pub short_status : ShelfState → List ℕ → Option LiveStatus
short_status state bytes = do
  guns ← get_elem? bytes 0
  dispenser ← get_elem? bytes 1
  some (record {
    state = state;
    guns = guns;
    dispenser = dispenser;
    fill_type = none;
    active_address = none;
    volume_steps = none;
  })

unfoldable pub full_status : ShelfState → List ℕ → Option LiveStatus
unfolding volume_at_four
full_status state bytes = do
  guns ← get_elem? bytes 0
  dispenser ← get_elem? bytes 1
  some (record {
    state = state;
    guns = guns;
    dispenser = dispenser;
    fill_type = get_elem? bytes 2;
    active_address = get_elem? bytes 3;
    volume_steps = volume_at_four bytes;
  })

abbrev status_by_state : ShelfState → List ℕ → Option LiveStatus
status_by_state idle bytes = short_status idle bytes
status_by_state keypad_active bytes = full_status keypad_active bytes
status_by_state keypad_request bytes = full_status keypad_request bytes
status_by_state dispensing bytes = full_status dispensing bytes
status_by_state synchronizing bytes = full_status synchronizing bytes
status_by_state _ bytes = none

unfoldable pub parse_live_status : Response → Option LiveStatus
unfolding from_command short_status full_status
parse_live_status response = status_by_state (from_command response.command) response.payload

unfoldable pub parse_final_sale : Response → Option FinalSale
unfolding read_u24
parse_final_sale response =
    let bytes = response.payload in
    if not (response.command == 0x93) || ltb (length bytes) 10
    then none
    else some (record {
      guns = at bytes 0;
      dispenser = at bytes 1;
      volume_steps = read_u24 (drop 2 bytes);
      amount = read_u24 (drop 5 bytes);
      price = at bytes 8 + at bytes 9 * 256;
    })

unfoldable pub parse_price : Response → Option ℕ
parse_price response =
    let bytes = response.payload in
    if not (response.command == 0x91) || not (length bytes == 2)
    then none
    else some (at bytes 0 + at bytes 1 * 256)

unfoldable pub parse_totalizer : Response → Option Totalizer
parse_totalizer response =
    let bytes = response.payload in
    if not (response.command == 0xa0) || ltb (length bytes) 4
    then none
    else some (record {
      volume_steps = at bytes 0 + at bytes 1 * 256 + at bytes 2 * 65536 + at bytes 3 * 16777216;
    })
