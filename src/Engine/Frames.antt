-- ===== src/Engine/Frames.antt =====
-- services/dispenser-service/src/engine/state.rs, `apply_frame`, and `decode_volume` of
-- crates/wayne-europump/src/parser.rs: what a Wayne frame does to a lane. The clock stands still
-- during a frame.
use fuel_station_controller.Base.{
  ℕ, ◌+◌, ◌*◌, ◌/◌, ◌%◌, Bool, true, false, ◌&&◌, ◌||◌, not, Option, none, some, List, [], ◌∷◌, ltb,
  ◌==◌, if◌then◌else◌, is_some,
}
use fuel_station_controller.Engine.Float.{Float}
use fuel_station_controller.Engine.Types.{
  external, FpStatus, authorizing, delivering, pre_authorized,
}
use fuel_station_controller.Engine.Runtime.{RuntimeFp, Call, in_session, is_authorizing, is_done}
use fuel_station_controller.Engine.Session.{
  note_wire_hose, in_decel_window, nozzle_physically_up, within_config_echo_grace,
  embedded_holster_is_customer_event,
}
use fuel_station_controller.Engine.Meters.{no_fuel, combined_totals}
use fuel_station_controller.Engine.Effects.{no_effect, status_changed, complete_ghost_fill}
use fuel_station_controller.Engine.Sales.{Outcome, enter_stopped_state}
use fuel_station_controller.Engine.Stopped.{commit_decel}
use fuel_station_controller.Engine.Holster.{
  reply, drop_session, close_sale, set_pending_holster_close, set_pump_sale_complete,
  holster_pre_authorized, apply_nozzle_holstered,
}
use fuel_station_controller.Engine.Idle.{
  apply_idle_response, apply_dispenser_idle, apply_done_response,
}
use fuel_station_controller.Engine.Lift.{apply_nozzle_up, set_seq}
use fuel_station_controller.Engine.Metering.{Reading, meter}
use fuel_station_controller.Engine.Outside.{recover_pre_auth, data_by_status}
use fuel_station_controller.Wayne.Frame.{Frame, DataFields, is_nozzle_holster_code}
use fuel_station_controller.Wayne.Fill.{decode_amount}

-- The two digits of each byte of `format!("{:02X}")`.
abbrev pub nibbles : List ℕ → List ℕ
nibbles [] = []
nibbles (b ∷ rest) = b / 16 ∷ b % 16 ∷ nibbles rest

-- The digits behind the `E`; there is one at least.
unfoldable pub exponent_of : Bool → ℕ → List ℕ → Option ℕ
exponent_of seen acc [] = if seen then some acc else none
exponent_of seen acc (d ∷ ds) =
    let rest = exponent_of true (acc * 10 + d) ds in if ltb d 10 then rest else none

-- `amount` of a frame is an array of four bytes.
unfoldable pub frame_amount : List ℕ → ℕ
unfolding decode_amount
frame_amount (p0 ∷ a1 ∷ a2 ∷ a3 ∷ []) = decode_amount p0 a1 a2 a3
frame_amount _ = 0

module _ (F : Float) where
  open F use {Carrier, of_nat, decimal, scientific, div, less}

  -- `parse::<f64>` of hexadecimal digits: digits, and perhaps an `E` with digits.
  unfoldable pub parse_hex_text : Bool → ℕ → List ℕ → Option Carrier
  unfolding exponent_of
  parse_hex_text seen acc [] = if seen then some (of_nat acc) else none
  parse_hex_text seen acc (d ∷ ds) =
      let rest = parse_hex_text true (acc * 10 + d) ds in
      if ltb d 10
      then rest
      else if d == 14 && seen
      then elim (exponent_of false 0 ds) [ some e ↦ some (scientific acc e) | none ↦ none ]
      else none

  unfoldable pub decode_volume : ℕ → ℕ → ℕ → ℕ → Carrier
  unfolding parse_hex_text
  decode_volume vx1 vx2 v1 v2 = elim (parse_hex_text false 0 (nibbles (vx1 ∷ vx2 ∷ v1 ∷ v2 ∷ []))) [
    | some v ↦ div v (of_nat 100)
    | none ↦ div (of_nat 0) (of_nat 100)
  ]

  unfoldable pub reading_of : DataFields → Reading Carrier
  unfolding decode_volume frame_amount
  reading_of d = record {
    raw_vol = decode_volume d.volume_x1 d.volume_x2 d.volume_l d.volume_h;
    raw_amt = frame_amount d.amount;
    sale_complete = d.sale_complete;
    hose_product = d.hose_product;
    hose_code = d.hose_code;
    crc_ok = d.crc_ok;
  }

  -- The hose code of a frame whose CRC is right and that names a product.
  unfoldable pub trusted_hose : Reading Carrier → Option ℕ
  trusted_hose r = elim r.hose_product [
    | none ↦ none
    | some pp ↦ if r.crc_ok then r.hose_code else none
  ]

  unfoldable pub embedded_holster : Call → Reading Carrier → ℕ → RuntimeFp Carrier → Outcome F
  unfolding note_wire_hose meter close_sale combined_totals no_fuel within_config_echo_grace
      apply_nozzle_holstered
  embedded_holster c r hh s =
      if r.sale_complete && in_session s.state.status
      then close_sale F c (
          set_pending_holster_close F false
            (set_pump_sale_complete F (meter F r (note_wire_hose c hh s))))
      else if less (decimal 1 2) (combined_totals F s).0
          && (in_session s.state.status && not s.wayne.pump_sale_complete)
      then reply F c (record s { wayne = record s.wayne { last_wire_hose_at_ms = c.now } })
          status_changed
      else if (no_fuel F s && in_session s.state.status)
          && ((s.wayne.preauth_config_on_wire || s.wayne.pending_authorize_config_repeat)
              && (is_authorizing s.state.status && within_config_echo_grace c s))
      then reply F c s status_changed
      else apply_nozzle_holstered F c (note_wire_hose c hh s)

  unfoldable pub apply_data : Call → ℕ → Reading Carrier → RuntimeFp Carrier → Outcome F
  unfolding trusted_hose is_nozzle_holster_code embedded_holster_is_customer_event embedded_holster
      note_wire_hose recover_pre_auth data_by_status
  apply_data c seq r s =
      let numbered = set_seq F seq s in
      elim (trusted_hose r) [
        | some hh ↦
            if is_nozzle_holster_code hh && embedded_holster_is_customer_event numbered
            then embedded_holster c r hh numbered
            else data_by_status F c r (recover_pre_auth F (note_wire_hose c hh numbered))
        | none ↦ data_by_status F c r (recover_pre_auth F numbered)
      ]

  -- A holster frame during a session.
  unfoldable pub holstered_session : Call → RuntimeFp Carrier → Outcome F
  unfolding no_fuel within_config_echo_grace nozzle_physically_up drop_session
      apply_nozzle_holstered
  holstered_session c s =
      if no_fuel F s
      then (if (within_config_echo_grace c s && is_authorizing s.state.status)
            || nozzle_physically_up c s
          then reply F c s status_changed
          else drop_session F c complete_ghost_fill s)
      else apply_nozzle_holstered F c s

  unfoldable pub holstered_by_status : Call → RuntimeFp Carrier → FpStatus Carrier → Outcome F
  unfolding holstered_session holster_pre_authorized apply_idle_response
  holstered_by_status c s authorizing = holstered_session c s
  holstered_by_status c s delivering = holstered_session c s
  holstered_by_status c s pre_authorized = holster_pre_authorized F c s
  holstered_by_status c s _ = apply_idle_response F c s

  unfoldable pub apply_holstered_frame : Call → RuntimeFp Carrier → Outcome F
  unfolding holstered_by_status
  apply_holstered_frame c s =
      holstered_by_status c (record s { wayne = record s.wayne { stopped_nozzle_up = false } })
        s.state.status

  unfoldable pub apply_stopped_frame : Call → RuntimeFp Carrier → Outcome F
  unfolding in_decel_window commit_decel no_fuel enter_stopped_state
  apply_stopped_frame c s =
      if is_done s.state.status
      then reply F c s status_changed
      else if is_some s.continuation
      then reply F c s status_changed
      else if in_decel_window s && in_session s.state.status
      then commit_decel F c s
      else if in_session s.state.status
      then (if is_authorizing s.state.status && (s.wayne.preauth_config_on_wire && no_fuel F s)
          then reply F c s status_changed
          else enter_stopped_state F c s.last_preset external s)
      else reply F c s status_changed

  -- The `match` of `apply_frame`, for a frame whose address is the lane's.
  unfoldable pub frame_effect : Call → Frame → RuntimeFp Carrier → Outcome F
  unfolding apply_idle_response apply_holstered_frame note_wire_hose apply_nozzle_holstered
      apply_nozzle_up apply_dispenser_idle reading_of apply_data apply_done_response
      apply_stopped_frame
  frame_effect c (Frame.idle addr) s = apply_idle_response F c s
  frame_effect c (Frame.nozzle_holstered addr seq) s = apply_holstered_frame c s
  frame_effect c (Frame.nozzle_returned addr seq product hose) s =
      apply_nozzle_holstered F c (note_wire_hose c hose s)
  frame_effect c (Frame.nozzle_up addr seq product nozzle) s =
      apply_nozzle_up F c seq product nozzle s
  frame_effect c (Frame.dispenser_idle addr seq) s = apply_dispenser_idle F c s
  frame_effect c (Frame.ack_c0 addr) s = reply F c s status_changed
  frame_effect c (Frame.data_frame d) s = apply_data c d.seq (reading_of d) s
  frame_effect c (Frame.transaction_complete addr seq) s = apply_done_response F c s
  frame_effect c (Frame.stopped addr seq) s = apply_stopped_frame c s
  frame_effect c (Frame.poll addr) s = (s, no_effect)
  frame_effect c (Frame.unknown bytes) s = (s, no_effect)

  abbrev pub frame_addr : Frame → Option ℕ
  frame_addr (Frame.idle addr) = some addr
  frame_addr (Frame.nozzle_holstered addr seq) = some addr
  frame_addr (Frame.nozzle_returned addr seq product hose) = some addr
  frame_addr (Frame.nozzle_up addr seq product nozzle) = some addr
  frame_addr (Frame.dispenser_idle addr seq) = some addr
  frame_addr (Frame.ack_c0 addr) = some addr
  frame_addr (Frame.data_frame d) = some (d.addr)
  frame_addr (Frame.transaction_complete addr seq) = some addr
  frame_addr (Frame.stopped addr seq) = some addr
  frame_addr (Frame.poll addr) = none
  frame_addr (Frame.unknown bytes) = none

  abbrev pub for_lane : Option ℕ → ℕ → Bool
  for_lane none b = false
  for_lane (some addr) b = addr == b

  unfoldable pub apply_frame : Call → Frame → RuntimeFp Carrier → Outcome F
  unfolding frame_effect
  apply_frame c f s =
      let effect = frame_effect c f s in
      if ltb 0 s.settle_after_reconnect
      then (s, no_effect)
      else if for_lane (frame_addr f) c.fp_cfg.address_byte
      then effect
      else (s, no_effect)
