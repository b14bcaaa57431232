-- ===== src/Wayne/Frame.antt =====
-- crates/wayne-europump/src/frame.rs: the logical frames and what the bus driver asks of them.
use fuel_station_controller.Base.{
  ℕ, Bool, true, false, Option, none, some, List, ltb, leb, ◌==◌, ◌&&◌,
}

-- The fields of `Frame::Data`; `amount` is an array of four bytes.
pub record DataFields : Type 0 where
  pub addr : ℕ
  pub seq : ℕ
  pub volume_x1 : ℕ
  pub volume_x2 : ℕ
  pub volume_l : ℕ
  pub volume_h : ℕ
  pub amount : List ℕ
  pub sale_complete : Bool
  pub hose_product : Option ℕ
  pub hose_code : Option ℕ
  pub crc_ok : Bool

pub data Frame : Type 0 where
  poll : ℕ → Frame
  idle : ℕ → Frame
  ack_c0 : ℕ → Frame
  data_frame : DataFields → Frame
  nozzle_up : ℕ → ℕ → ℕ → ℕ → Frame
  nozzle_returned : ℕ → ℕ → ℕ → ℕ → Frame
  dispenser_idle : ℕ → ℕ → Frame
  transaction_complete : ℕ → ℕ → Frame
  stopped : ℕ → ℕ → Frame
  nozzle_holstered : ℕ → ℕ → Frame
  unknown : List ℕ → Frame

unfoldable pub response_addr : Frame → Option ℕ
response_addr (idle addr) = some addr
response_addr (nozzle_up addr seq product nozzle) = some addr
response_addr (nozzle_returned addr seq product hose) = some addr
response_addr (nozzle_holstered addr seq) = some addr
response_addr (data_frame d) = some (d.addr)
response_addr (dispenser_idle addr seq) = some addr
response_addr (transaction_complete addr seq) = some addr
response_addr (stopped addr seq) = some addr
response_addr (ack_c0 addr) = none
response_addr (poll addr) = none
response_addr (unknown bytes) = none

unfoldable pub is_dispenser_response : Frame → ℕ → Bool
is_dispenser_response (idle addr) polled_addr = addr == polled_addr
is_dispenser_response (nozzle_up addr seq product nozzle) polled_addr = addr == polled_addr
is_dispenser_response (nozzle_returned addr seq product hose) polled_addr = addr == polled_addr
is_dispenser_response (nozzle_holstered addr seq) polled_addr = addr == polled_addr
is_dispenser_response (data_frame d) polled_addr = d.addr == polled_addr
is_dispenser_response (dispenser_idle addr seq) polled_addr = addr == polled_addr
is_dispenser_response (transaction_complete addr seq) polled_addr = addr == polled_addr
is_dispenser_response (stopped addr seq) polled_addr = addr == polled_addr
is_dispenser_response (ack_c0 addr) polled_addr = false
is_dispenser_response (poll addr) polled_addr = false
is_dispenser_response (unknown bytes) polled_addr = false

unfoldable pub should_apply_before_nozzle_up : Frame → Bool
should_apply_before_nozzle_up (idle addr) = true
should_apply_before_nozzle_up (nozzle_holstered addr seq) = true
should_apply_before_nozzle_up (nozzle_returned addr seq product hose) = true
should_apply_before_nozzle_up (data_frame d) = true
should_apply_before_nozzle_up (dispenser_idle addr seq) = true
should_apply_before_nozzle_up (transaction_complete addr seq) = true
should_apply_before_nozzle_up (stopped addr seq) = true
should_apply_before_nozzle_up (nozzle_up addr seq product nozzle) = false
should_apply_before_nozzle_up (ack_c0 addr) = false
should_apply_before_nozzle_up (poll addr) = false
should_apply_before_nozzle_up (unknown bytes) = false

unfoldable pub is_nozzle_holster_code : ℕ → Bool
is_nozzle_holster_code hh = ltb 0 hh && ltb hh 0x10

unfoldable pub is_nozzle_lift_code : ℕ → Bool
is_nozzle_lift_code hh = leb 0x10 hh
