-- ===== src/Engine/Outside.antt =====
-- services/dispenser-service/src/engine/state.rs: the meter frame of `apply_frame` outside a session.
use fuel_station_controller.Base.{
  ℕ, Bool, true, false, ◌&&◌, ◌||◌, not, Option, none, some, ltb, ◌==◌, if◌then◌else◌, is_some,
}
use fuel_station_controller.Engine.Float.{Float}
use fuel_station_controller.Engine.Types.{
  idle, pre_authorized, nozzle_up, authorizing, delivering, is_stopped,
}
use fuel_station_controller.Engine.Runtime.{
  RuntimeFp, Call, set_status, in_session, is_authorizing, is_idle, is_offline, is_pre_authorized,
  is_done, or_default, or_other,
}
use fuel_station_controller.Engine.Session.{
  nozzle_physically_up, preauth_session_armed, owns_meter_data, ghost_recovery_active,
}
use fuel_station_controller.Engine.Meters.{zero_delivery_meters}
use fuel_station_controller.Engine.Nozzles.{wire_transaction_nozzle}
use fuel_station_controller.Engine.Effects.{
  status_changed, online, complete_ghost_fill, send_authorize_config, resend_stop,
  unauthorized_delivery,
}
use fuel_station_controller.Engine.Sales.{Outcome}
use fuel_station_controller.Engine.Holster.{reply}
use fuel_station_controller.Engine.Commands.{
  check_preauth_nozzle, start_delivery_from_pre_auth, keep_pre_auth_preset, show_nozzle, new_tx,
}
use fuel_station_controller.Engine.Lift.{wire_price, set_mismatch}
use fuel_station_controller.Wayne.Frame.{is_nozzle_lift_code}
use fuel_station_controller.Engine.Metering.{Reading, data_session, flows, meter}

module _ (F : Float) where
  open F use {Carrier, of_nat, decimal, add, less, at_most}

  -- A sale for the nozzle that the frame names.
  unfoldable pub adopt_sale : Call → Reading Carrier → ℕ → RuntimeFp Carrier → RuntimeFp Carrier
  unfolding show_nozzle wire_price new_tx meter
  adopt_sale c r i s =
      let shown = show_nozzle F c i s in
      let priced = record shown { state = record shown.state { price = wire_price F c i shown } } in
      set_status delivering (
        meter F r (record priced {
          current_tx = some (new_tx F c i);
          auth_session_started_at = some c.now;
        }))

  -- Fuel on a lane that owns no authorization.
  unfoldable pub data_unowned : Call → Reading Carrier → Option ℕ → RuntimeFp Carrier → Outcome F
  unfolding ghost_recovery_active adopt_sale nozzle_physically_up
  data_unowned c r wire_nozzle s =
      let waits = not (ghost_recovery_active s) && not r.sale_complete in
      let ready = is_idle s.state.status || is_offline s.state.status in
      if not r.crc_ok
      then reply F c s status_changed
      else if ready && (waits && (is_some wire_nozzle && not s.wayne.preauth_cancel_pending))
      then reply F c (adopt_sale c r (or_default wire_nozzle 1) s) status_changed
      else if r.sale_complete && not (nozzle_physically_up c s)
      then reply F c s complete_ghost_fill
      else if is_idle s.state.status && waits
      then reply F c s (unauthorized_delivery r.raw_vol r.raw_amt)
      else reply F c s status_changed

  abbrev pub differ_index : Option ℕ → Option ℕ → Bool
  differ_index none other = false
  differ_index (some i) none = false
  differ_index (some i) (some j) = not (i == j)

  -- A stopped lane whose counter runs on asks for the stop once more.
  unfoldable pub data_stopped : Call → Reading Carrier → RuntimeFp Carrier → Outcome F
  data_stopped c r s =
      if r.crc_ok
        && (not s.wayne.stop_reflow_resent && less (add s.state.volume (decimal 15 2)) r.raw_vol)
      then reply F c (record s { wayne = record s.wayne { stop_reflow_resent = true } }) resend_stop
      else reply F c s status_changed

  unfoldable pub claim_tx : Call → ℕ → RuntimeFp Carrier → RuntimeFp Carrier
  unfolding new_tx
  claim_tx c i s = if is_some s.current_tx then s else record s { current_tx = some (new_tx F c i) }

  -- The armed lane starts to deliver.
  unfoldable pub take_over :
      Call → Reading Carrier → Option ℕ → RuntimeFp Carrier → RuntimeFp Carrier
  unfolding preauth_session_armed show_nozzle claim_tx meter
  take_over c r wire_nozzle s =
      let i =
        if preauth_session_armed s
        then or_default (or_other s.state.nozzle_index wire_nozzle) 1
        else or_default (or_other wire_nozzle s.state.nozzle_index) 1 in
      let shown = set_status authorizing (show_nozzle F c i s) in
      set_status delivering (meter F r (claim_tx c i shown))

  -- A frame outside a session.
  unfoldable pub data_outside : Call → Reading Carrier → RuntimeFp Carrier → Outcome F
  unfolding flows wire_transaction_nozzle owns_meter_data data_unowned preauth_session_armed
      is_stopped data_stopped take_over
  data_outside c r s =
      let wire_nozzle = wire_transaction_nozzle c.site c.fp_cfg r.hose_product r.hose_code in
      if not (flows F r || ltb 0 r.raw_amt)
      then reply F c s status_changed
      else if not (owns_meter_data s)
      then data_unowned c r wire_nozzle s
      else if not (preauth_session_armed s) && differ_index wire_nozzle s.state.nozzle_index
      then reply F c s status_changed
      else if is_stopped s.state.status
      then data_stopped c r s
      else if is_done s.state.status || s.completed_sale
      then reply F c s status_changed
      else reply F c (take_over c r wire_nozzle s) status_changed

  unfoldable pub data_metered : Call → Reading Carrier → RuntimeFp Carrier → Outcome F
  unfolding data_outside data_session
  data_metered c r s =
      if in_session s.state.status then data_session F c r s else data_outside c r s

  -- Product and code of a lifted hose in a frame whose CRC is right.
  unfoldable pub lifted_hose : Reading Carrier → Option (ℕ × ℕ)
  unfolding is_nozzle_lift_code
  lifted_hose r = elim r.hose_product [
    | none ↦ none
    | some pp ↦ elim r.hose_code [
      | none ↦ none
      | some hh ↦ if r.crc_ok && is_nozzle_lift_code hh then some (pp, hh) else none
    ]
  ]

  -- The lift of the expected nozzle, or of another one.
  unfoldable pub data_lifted : Call → ℕ → ℕ → RuntimeFp Carrier → Outcome F
  unfolding check_preauth_nozzle zero_delivery_meters start_delivery_from_pre_auth
  data_lifted c pp hh s = elim (check_preauth_nozzle F c pp hh s) [
    | some (cancelled, effect) ↦ reply F c (set_mismatch F true cancelled) effect
    | none ↦
        reply F c
          (start_delivery_from_pre_auth F c (
            zero_delivery_meters F (record s {
              wayne = record s.wayne {
                preauth_mismatch_active = false;
                preauth_nozzle_confirmed = true;
              };
            })))
          status_changed
  ]

  unfoldable pub data_pre_authorized : Call → Reading Carrier → RuntimeFp Carrier → Outcome F
  unfolding lifted_hose data_lifted flows start_delivery_from_pre_auth data_metered
  data_pre_authorized c r s = elim (lifted_hose r) [
    | some (pp, hh) ↦ data_lifted c pp hh s
    | none ↦
        if not s.wayne.preauth_nozzle_confirmed
        then reply F c s status_changed
        else if flows F r
        then data_metered c r (start_delivery_from_pre_auth F c s)
        else if s.wayne.preauth_mismatch_active
        then reply F c s status_changed
        else reply F c (start_delivery_from_pre_auth F c s) status_changed
  ]

  -- An offline lane with a pre-authorization waits for its customer again.
  unfoldable pub recover_pre_auth : RuntimeFp Carrier → RuntimeFp Carrier
  recover_pre_auth s =
      if is_offline s.state.status && is_some s.pre_auth
      then keep_pre_auth_preset F (set_status pre_authorized s)
      else s

  unfoldable pub data_by_status : Call → Reading Carrier → RuntimeFp Carrier → Outcome F
  unfolding data_pre_authorized data_metered
  data_by_status c r s =
      if is_offline s.state.status && (less r.raw_vol (decimal 1 2) && r.raw_amt == 0)
      then reply F c (set_status nozzle_up s) online
      else if is_offline s.state.status && r.sale_complete
      then reply F c (set_status idle s) complete_ghost_fill
      else if is_authorizing s.state.status
          && (s.wayne.pending_authorize_config && not s.wayne.preauth_config_on_wire)
      then reply F c (record s { wayne = record s.wayne { pending_authorize_config = false } })
          send_authorize_config
      else if is_pre_authorized s.state.status
      then data_pre_authorized c r s
      else data_metered c r s
