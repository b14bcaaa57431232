-- ===== src/Wayne/Parser.antt =====
-- crates/wayne-europump/src/parser.rs: one raw buffer to a logical frame.
pub mod Verified
use fuel_station_controller.Base.{
  ℕ, zero, suc, ◌+◌, ◌-◌, bit_and, Bool, true, false, ◌&&◌, ◌||◌, not, Option, none, some, List, [],
  ◌∷◌, length, take, drop, ltb, leb, ◌==◌, if◌then◌else◌,
}
use fuel_station_controller.Wayne.Frame.{
  DataFields, Frame, poll, idle, ack_c0, data_frame, nozzle_up, nozzle_returned, dispenser_idle,
  transaction_complete, stopped, nozzle_holstered, unknown, is_nozzle_holster_code,
  is_nozzle_lift_code,
}
use fuel_station_controller.Wayne.Bytes.{at, trim_garbage_prefix, verify_crc, is_short_frame}
use fuel_station_controller.Wayne.Fill.{FillDataFields, parse_fill_data_block}

unfoldable pub is_seq : ℕ → Bool
is_seq seq = leb 0x31 seq && leb seq 0x3f

-- `Frame::Data` from the meter block.
unfoldable pub data_of_fill : ℕ → ℕ → FillDataFields → Frame
data_of_fill addr seq d = data_frame (record {
  addr = addr;
  seq = seq;
  volume_x1 = d.volume_x1;
  volume_x2 = d.volume_x2;
  volume_l = d.volume_l;
  volume_h = d.volume_h;
  amount = d.amount;
  sale_complete = d.sale_complete;
  hose_product = d.hose_product;
  hose_code = d.hose_code;
  crc_ok = true;
})

-- The same for a frame whose CRC is wrong.
unfoldable pub data_of_unverified : ℕ → ℕ → FillDataFields → Frame
data_of_unverified addr seq d = data_frame (record {
  addr = addr;
  seq = seq;
  volume_x1 = d.volume_x1;
  volume_x2 = d.volume_x2;
  volume_l = d.volume_l;
  volume_h = d.volume_h;
  amount = d.amount;
  sale_complete = false;
  hose_product = d.hose_product;
  hose_code = d.hose_code;
  crc_ok = false;
})

-- The branch of `parse_frame` for a wrong CRC.
unfoldable pub unverified_frame : ℕ → List ℕ → List ℕ → Frame
unfolding is_seq data_of_unverified
unverified_frame addr raw inner =
    if leb 2 (length inner) && is_seq (at inner 1)
    then elim (parse_fill_data_block inner) [
      | some d ↦ data_of_unverified addr (at inner 1) d
      | none ↦ unknown raw
    ]
    else unknown raw

-- `03 04 01 PP 00 HH` without a meter block.
unfoldable pub hose_frame : ℕ → ℕ → ℕ → ℕ → Frame
unfolding is_nozzle_holster_code
hose_frame addr seq product nozzle =
    if is_nozzle_holster_code nozzle
    then nozzle_returned addr seq product nozzle
    else nozzle_up addr seq product nozzle

-- `03 04 00 PP 00 HH` without a meter block.
unfoldable pub variant_hose_frame : ℕ → ℕ → List ℕ → List ℕ → Frame
unfolding is_nozzle_holster_code is_nozzle_lift_code
variant_hose_frame addr seq raw inner =
    let product = if at inner 6 == 0x00 then at inner 5 else at inner 6 in
    let nozzle = at inner 7 in
    if leb 8 (length inner) && (at inner 2 == 0x03 && (at inner 3 == 0x04 && at inner 4 == 0x00))
    then (if is_nozzle_holster_code nozzle
        then nozzle_returned addr seq product nozzle
        else if is_nozzle_lift_code nozzle
        then nozzle_up addr seq product nozzle
        else unknown raw)
    else unknown raw

-- From the generic scan for a meter block on.
unfoldable pub meter_frame : ℕ → ℕ → List ℕ → List ℕ → Frame
unfolding data_of_fill variant_hose_frame
meter_frame addr seq raw inner = elim (parse_fill_data_block inner) [
  | some d ↦ data_of_fill addr seq d
  | none ↦ variant_hose_frame addr seq raw inner
]

-- The state transitions `01 01 XX`, and what follows them.
unfoldable pub state_frame : ℕ → ℕ → List ℕ → List ℕ → Frame
unfolding meter_frame
state_frame addr seq raw inner =
    if leb 5 (length inner) && (at inner 2 == 0x01 && at inner 3 == 0x01)
    then (if at inner 4 == 0x05
        then (if length inner == 5 then dispenser_idle addr seq else transaction_complete addr seq)
        else if at inner 4 == 0x01
        then stopped addr seq
        else if at inner 4 == 0x02 || at inner 4 == 0x00
        then nozzle_holstered addr seq
        else meter_frame addr seq raw inner)
    else meter_frame addr seq raw inner

-- A frame whose CRC is right.
unfoldable pub verified_frame : ℕ → ℕ → List ℕ → List ℕ → Frame
unfolding state_frame hose_frame data_of_fill
verified_frame addr seq raw inner =
    if leb 8 (length inner) && (at inner 2 == 0x03 && (at inner 3 == 0x04 && at inner 4 == 0x01))
    then elim (parse_fill_data_block inner) [
      | some d ↦ data_of_fill addr seq d
      | none ↦ hose_frame addr seq (at inner 5) (at inner 7)
    ]
    else state_frame addr seq raw inner

unfoldable pub ends_03fa : List ℕ → Bool
ends_03fa raw =
    leb 4 (length raw) && (at raw (length raw - 2) == 0x03 && at raw (length raw - 1) == 0xfa)

unfoldable pub long_frame : ℕ → List ℕ → Frame
unfolding ends_03fa unverified_frame verified_frame is_seq
long_frame addr raw =
    let inner = take (length raw - 4) raw in
    if not (ends_03fa raw)
    then unknown raw
    else if not (verify_crc raw)
    then unverified_frame addr raw inner
    else if ltb (length inner) 2
    then unknown raw
    else if not (is_seq (at inner 1))
    then unknown raw
    else verified_frame addr (at inner 1) raw inner

-- `parse_frame` behind the garbage that was cut.
unfoldable pub trimmed_frame : List ℕ → Frame
unfolding long_frame
trimmed_frame [] = unknown []
trimmed_frame (b ∷ rest) =
    let raw = b ∷ rest in
    let addr = bit_and b 0x7f in
    if is_short_frame raw
    then (if at raw 1 == 0x20
        then poll addr
        else if at raw 1 == 0x70
        then idle addr
        else if at raw 1 == 0xc0 || at raw 1 == 0xc1
        then ack_c0 addr
        else long_frame addr raw)
    else long_frame addr raw

unfoldable pub parse_frame : List ℕ → Frame
unfolding trimmed_frame trim_garbage_prefix
parse_frame raw = trimmed_frame (trim_garbage_prefix raw)
