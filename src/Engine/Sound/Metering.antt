-- ===== src/Engine/Sound/Metering.antt =====
-- services/dispenser-service/src/engine/state.rs: the meter frame of `apply_frame`.
use fuel_station_controller.Base.{false, none, ◌≡◌, refl, ◌&&◌, ◌||◌, not, is_some, leb, ◌-◌}
use fuel_station_controller.Engine.Float.{Float}
use fuel_station_controller.Engine.Types.{is_stopped}
use fuel_station_controller.Engine.Runtime.{
  RuntimeFp, Call, in_session, is_authorizing, is_delivering, or_default,
  decel_frozen_frame_threshold, decel_window_timeout_ms,
}
use fuel_station_controller.Engine.Session.{
  in_decel_window, nozzle_physically_up, clear_deliver_caps, clear_startup_ghost_watch,
  clear_continuation_fields, clear_unauthorized_state, enter_ghost_recovery,
}
use fuel_station_controller.Engine.Meters.{
  apply_metering, startup_ghost_frozen, cancel_startup_ghost_keep_nozzle_up, clear_decel_window,
  zero_meters, set_deliver_caps_from_preset,
}
use fuel_station_controller.Engine.Holster.{set_pending_holster_close, set_pump_sale_complete}
use fuel_station_controller.Engine.Metering.{
  Reading, meter, flows, data_complete, watches_startup, data_startup, begin_delivery,
  begin_if_flowing, cap_reached, data_delivery, count_frozen, data_frozen, data_session,
}
use fuel_station_controller.Engine.Sound.{
  unstopped, settled, continuation_none, quiet, IsConsistent, Holds, Holds-if, HoldsAt, HoldsAt-if,
  IsSound, IsSound-if,
}
use fuel_station_controller.Engine.Sound.Sales.{commit_decel-IsSound}
use fuel_station_controller.Engine.Sound.Holster.{close_sale-IsSound}
use fuel_station_controller.Engine.Sound.Commands.{caps-IsConsistent}

module _ (F : Float) where
  open F use {Carrier, decimal, add, less, at_most}

  pub meter-IsConsistent :
      (r : Reading Carrier) (s : RuntimeFp Carrier)
      → IsConsistent F s
      → IsConsistent F (meter F r s)
  unfolding meter apply_metering
  meter-IsConsistent r s h = let k : s.continuation ≡ none = continuation_none h in rw k (settled h)

  data_complete-IsSound :
      (c : Call) (r : Reading Carrier) (s : RuntimeFp Carrier)
      → IsConsistent F s
      → IsSound F (data_complete F c r s)
  unfolding data_complete
  data_complete-IsSound c r s h =
      IsSound-if F (r.sale_complete && in_session s.state.status)
        (IsSound-if F (nozzle_physically_up c s) (record { consistent = h; recorded = quiet refl })
          (IsSound-if F (not s.wayne.pending_holster_close)
            (record { consistent = h; recorded = quiet refl })
            (close_sale-IsSound F c (set_pump_sale_complete F (set_pending_holster_close F false s))
              h)))
        (record { consistent = h; recorded = quiet refl })

  watched-HoldsAt :
      (r : Reading Carrier) (s : RuntimeFp Carrier)
      → IsConsistent F s
      → HoldsAt F (λ o. o.1) (startup_ghost_frozen F r.raw_vol r.raw_amt s)
  unfolding startup_ghost_frozen clear_startup_ghost_watch
  watched-HoldsAt r s h =
      HoldsAt-if F (at_most r.raw_vol (decimal 1 6) || less (decimal 5 2) r.raw_vol)
        (record { lane_displays = h }) (record { lane_displays = h })

  data_startup-IsSound :
      (c : Call) (r : Reading Carrier) (s : RuntimeFp Carrier)
      → IsConsistent F s
      → IsSound F (data_startup F c r s)
  unfolding data_startup cancel_startup_ghost_keep_nozzle_up enter_ghost_recovery
      clear_startup_ghost_watch zero_meters clear_unauthorized_state clear_continuation_fields
      clear_decel_window clear_deliver_caps is_stopped
  data_startup-IsSound c r s h =
      let watch = startup_ghost_frozen F r.raw_vol r.raw_amt s in
      let w = (watched-HoldsAt r s h).lane_displays in
      IsSound-if F (watches_startup F c r s)
        (IsSound-if F watch.0 (record { consistent = unstopped w refl; recorded = quiet refl })
          (data_complete-IsSound c r watch.1 w))
        (data_complete-IsSound c r s h)

  begin_delivery-Holds :
      (c : Call) (s : RuntimeFp Carrier) → IsConsistent F s → Holds F (begin_delivery F c s)
  unfolding begin_delivery is_stopped
  begin_delivery-Holds c s h =
      Holds-if F (is_some s.current_tx) (record { displays = unstopped h refl })
        (record { displays = unstopped h refl })

  begin_if_flowing-Holds :
      (c : Call) (r : Reading Carrier) (s : RuntimeFp Carrier)
      → IsConsistent F s
      → Holds F (begin_if_flowing F c r s)
  unfolding begin_if_flowing
  begin_if_flowing-Holds c r s h =
      Holds-if F (flows F r) (begin_delivery-Holds c s h) (record { displays = h })

  data_delivery-IsSound :
      (c : Call) (r : Reading Carrier) (s : RuntimeFp Carrier)
      → IsConsistent F s
      → IsSound F (data_delivery F c r s)
  unfolding data_delivery clear_deliver_caps
  data_delivery-IsSound c r s h =
      let metered = meter F r s in
      let m = meter-IsConsistent r s h in
      IsSound-if F (is_authorizing metered.state.status)
        (data_startup-IsSound c r (begin_if_flowing F c r metered)
          ((begin_if_flowing-Holds c r metered m).displays))
        (IsSound-if F (is_delivering metered.state.status && (r.crc_ok && cap_reached F metered))
          (record { consistent = m; recorded = quiet refl }) (data_startup-IsSound c r metered m))

  data_frozen-IsSound :
      (c : Call) (r : Reading Carrier) (s : RuntimeFp Carrier)
      → IsConsistent F s
      → IsSound F (data_frozen F c r s)
  unfolding data_frozen
  data_frozen-IsSound c r s h =
      let counted = count_frozen F s in
      IsSound-if F
        (leb decel_frozen_frame_threshold counted.wayne.decel_frozen_count
          || leb decel_window_timeout_ms (c.now - or_default s.wayne.decel_stop_sent_at 0))
        (commit_decel-IsSound F c counted h)
        (record { consistent = meter-IsConsistent r counted h; recorded = quiet refl })

  pub data_session-IsSound :
      (c : Call) (r : Reading Carrier) (s : RuntimeFp Carrier)
      → IsConsistent F s
      → IsSound F (data_session F c r s)
  unfolding data_session clear_decel_window
  data_session-IsSound c r s h =
      let capped = set_deliver_caps_from_preset F s.last_preset s in
      IsSound-if F (in_decel_window s)
        (IsSound-if F (not r.crc_ok) (record { consistent = h; recorded = quiet refl })
          (IsSound-if F r.sale_complete (commit_decel-IsSound F c s h) (
            IsSound-if F (less (add s.wayne.decel_vol_snapshot (decimal 5 3)) r.raw_vol)
              (data_delivery-IsSound c r (clear_decel_window F capped)
                (caps-IsConsistent F s.last_preset s h))
              (data_frozen-IsSound c r s h))))
        (data_delivery-IsSound c r s h)
