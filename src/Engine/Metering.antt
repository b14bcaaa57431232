-- ===== src/Engine/Metering.antt =====
-- services/dispenser-service/src/engine/state.rs: the meter frame of `apply_frame`, behind the hose
-- bytes that it may carry.
use fuel_station_controller.Base.{
  ℕ, ◌-◌, Bool, false, ◌&&◌, ◌||◌, not, Option, some, leb, if◌then◌else◌, is_some,
}
use fuel_station_controller.Engine.Float.{Float}
use fuel_station_controller.Engine.Types.{delivering, is_full}
use fuel_station_controller.Engine.Runtime.{
  RuntimeFp, Call, set_status, in_session, is_authorizing, is_delivering, or_default, test_some,
  count_up, decel_frozen_frame_threshold, decel_window_timeout_ms,
}
use fuel_station_controller.Engine.Session.{
  clear_deliver_caps, in_decel_window, nozzle_physically_up, startup_ghost_old_enough,
}
use fuel_station_controller.Engine.Meters.{
  apply_metering, metered_amount, set_deliver_caps_from_preset, clear_decel_window,
  startup_ghost_frozen, cancel_startup_ghost_keep_nozzle_up,
}
use fuel_station_controller.Engine.Effects.{status_changed, complete_ghost_fill_with_nozzle_up}
use fuel_station_controller.Engine.Sales.{Outcome}
use fuel_station_controller.Engine.Stopped.{commit_decel}
use fuel_station_controller.Engine.Holster.{
  reply, close_sale, set_pending_holster_close, set_pump_sale_complete,
}
use fuel_station_controller.Engine.Commands.{new_tx}

-- What a meter frame tells.
pub record Reading (V : Type 0) : Type 0 where
  pub raw_vol : V
  pub raw_amt : ℕ
  pub sale_complete : Bool
  pub hose_product : Option ℕ
  pub hose_code : Option ℕ
  pub crc_ok : Bool

module _ (F : Float) where
  open F use {Carrier, of_nat, decimal, add, less, at_most}

  -- The metered volume and amount on the display.
  unfoldable pub meter : Reading Carrier → RuntimeFp Carrier → RuntimeFp Carrier
  unfolding apply_metering metered_amount
  meter r s = apply_metering F r.raw_vol (metered_amount F r.raw_vol r.raw_amt s) s

  -- `raw_vol > 1e-6`
  unfoldable pub flows : Reading Carrier → Bool
  flows r = less (decimal 1 6) r.raw_vol

  -- The end of the handler: what `sale_complete` asks for.
  unfoldable pub data_complete : Call → Reading Carrier → RuntimeFp Carrier → Outcome F
  unfolding nozzle_physically_up close_sale
  data_complete c r s =
      if r.sale_complete && in_session s.state.status
      then (if nozzle_physically_up c s
          then reply F c (set_pump_sale_complete F s) status_changed
          else if not s.wayne.pending_holster_close
          then reply F c s status_changed
          else close_sale F c (set_pump_sale_complete F (set_pending_holster_close F false s)))
      else reply F c s status_changed

  unfoldable pub watches_startup : Call → Reading Carrier → RuntimeFp Carrier → Bool
  unfolding is_full startup_ghost_old_enough
  watches_startup c r s =
      not r.sale_complete
      && (is_some s.current_tx
          && (not (is_some s.continuation)
              && (not (is_full s.last_preset)
                  && (startup_ghost_old_enough c s && in_session s.state.status))))

  -- A tiny reading that does not move aborts the authorization.
  unfoldable pub data_startup : Call → Reading Carrier → RuntimeFp Carrier → Outcome F
  unfolding watches_startup startup_ghost_frozen cancel_startup_ghost_keep_nozzle_up data_complete
  data_startup c r s =
      let (frozen, watched) = startup_ghost_frozen F r.raw_vol r.raw_amt s in
      if watches_startup c r s
      then (if frozen
          then reply F c (cancel_startup_ghost_keep_nozzle_up F watched)
              complete_ghost_fill_with_nozzle_up
          else data_complete c r watched)
      else data_complete c r s

  -- The lane delivers, with a transaction.
  unfoldable pub begin_delivery : Call → RuntimeFp Carrier → RuntimeFp Carrier
  unfolding new_tx
  begin_delivery c s =
      let moving = set_status delivering s in
      if is_some s.current_tx
      then moving
      else record moving { current_tx = some (new_tx F c (or_default s.state.nozzle_index 1)) }

  unfoldable pub begin_if_flowing : Call → Reading Carrier → RuntimeFp Carrier → RuntimeFp Carrier
  unfolding flows begin_delivery
  begin_if_flowing c r s = if flows r then begin_delivery c s else s

  unfoldable pub cap_reached : RuntimeFp Carrier → Bool
  cap_reached s =
      test_some (λ cap. at_most cap (add s.state.volume (decimal 1 6))) s.cap_volume_liters
      || test_some (λ cap. leb cap s.state.amount) s.cap_amount

  -- Normal metering of a session.
  unfoldable pub data_delivery : Call → Reading Carrier → RuntimeFp Carrier → Outcome F
  unfolding meter begin_if_flowing cap_reached clear_deliver_caps data_startup
  data_delivery c r s =
      let metered = meter r s in
      if is_authorizing metered.state.status
      then data_startup c r (begin_if_flowing c r metered)
      else if is_delivering metered.state.status && (r.crc_ok && cap_reached metered)
      then reply F c (clear_deliver_caps metered) status_changed
      else data_startup c r metered

  abbrev pub count_frozen : RuntimeFp Carrier → RuntimeFp Carrier
  count_frozen s = record s {
    wayne = record s.wayne { decel_frozen_count = count_up s.wayne.decel_frozen_count };
  }

  -- The counter does not move in the decel window.
  unfoldable pub data_frozen : Call → Reading Carrier → RuntimeFp Carrier → Outcome F
  unfolding commit_decel meter
  data_frozen c r s =
      let counted = count_frozen s in
      if leb decel_frozen_frame_threshold counted.wayne.decel_frozen_count
        || leb decel_window_timeout_ms (c.now - or_default s.wayne.decel_stop_sent_at 0)
      then commit_decel F c counted
      else reply F c (meter r counted) status_changed

  -- A frame of a session.
  unfoldable pub data_session : Call → Reading Carrier → RuntimeFp Carrier → Outcome F
  unfolding in_decel_window commit_decel set_deliver_caps_from_preset clear_decel_window data_frozen
      data_delivery
  data_session c r s =
      if in_decel_window s
      then (if not r.crc_ok
          then reply F c s status_changed
          else if r.sale_complete
          then commit_decel F c s
          else if less (add s.wayne.decel_vol_snapshot (decimal 5 3)) r.raw_vol
          then data_delivery c r
              (clear_decel_window F (set_deliver_caps_from_preset F s.last_preset s))
          else data_frozen c r s)
      else data_delivery c r s
