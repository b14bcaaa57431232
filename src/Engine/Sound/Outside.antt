-- ===== src/Engine/Sound/Outside.antt =====
-- services/dispenser-service/src/engine/state.rs: the meter frame of `apply_frame`,
-- outside a session.
use fuel_station_controller.Base.{
  ℕ, true, false, Option, none, some, refl, ◌&&◌, ◌||◌, not, is_some, ltb, ◌==◌, if◌then◌else◌,
}
use fuel_station_controller.Engine.Float.{Float}
use fuel_station_controller.Engine.Types.{authorizing, pre_authorized, is_stopped}
use fuel_station_controller.Engine.Runtime.{
  RuntimeFp, Call, set_status, in_session, is_authorizing, is_idle, is_offline, is_pre_authorized,
  is_done, or_default, or_other,
}
use fuel_station_controller.Engine.Session.{
  nozzle_physically_up, preauth_session_armed, owns_meter_data, ghost_recovery_active,
  clear_startup_ghost_watch, clear_continuation_fields,
}
use fuel_station_controller.Engine.Meters.{zero_meters, zero_delivery_meters}
use fuel_station_controller.Engine.Nozzles.{wire_transaction_nozzle}
use fuel_station_controller.Engine.Sales.{Outcome}
use fuel_station_controller.Engine.Commands.{show_nozzle, new_tx, start_delivery_from_pre_auth}
use fuel_station_controller.Engine.Lift.{wire_price}
use fuel_station_controller.Engine.Metering.{Reading, flows}
use fuel_station_controller.Engine.Outside.{
  adopt_sale, data_unowned, differ_index, data_stopped, claim_tx, take_over, data_outside,
  data_metered, lifted_hose, data_lifted, data_pre_authorized, recover_pre_auth, data_by_status,
}
use fuel_station_controller.Engine.Sound.{
  unstopped, quiet, IsConsistent, Holds, Holds-if, IsSound, IsSound-if,
}
use fuel_station_controller.Engine.Sound.Commands.{
  keep_pre_auth_preset-IsConsistent, check_preauth_nozzle-IsChecked,
  start_delivery_from_pre_auth-IsConsistent,
}
use fuel_station_controller.Engine.Sound.Metering.{meter-IsConsistent, data_session-IsSound}
use fuel_station_controller.Engine.Sound.Lift.{IsSound-checked}

module _ (F : Float) where
  open F use {Carrier, decimal, add, less, at_most}

  adopt_sale-IsConsistent :
      (c : Call) (r : Reading Carrier) (i : ℕ) (s : RuntimeFp Carrier)
      → IsConsistent F s
      → IsConsistent F (adopt_sale F c r i s)
  unfolding adopt_sale show_nozzle is_stopped
  adopt_sale-IsConsistent c r i s h =
      let shown = show_nozzle F c i s in
      let priced = record shown { state = record shown.state { price = wire_price F c i shown } } in
      unstopped
        (meter-IsConsistent F r
          (record priced { current_tx = some (new_tx F c i); auth_session_started_at = some c.now })
          h)
        refl

  data_unowned-IsSound :
      (c : Call) (r : Reading Carrier) (o : Option ℕ) (s : RuntimeFp Carrier)
      → IsConsistent F s
      → IsSound F (data_unowned F c r o s)
  unfolding data_unowned
  data_unowned-IsSound c r o s h =
      let waits = not (ghost_recovery_active s) && not r.sale_complete in
      let ready = is_idle s.state.status || is_offline s.state.status in
      IsSound-if F (not r.crc_ok) (record { consistent = h; recorded = quiet refl })
        (IsSound-if F (ready && (waits && (is_some o && not s.wayne.preauth_cancel_pending)))
          (record {
            consistent = adopt_sale-IsConsistent c r (or_default o 1) s h;
            recorded = quiet refl;
          })
          (IsSound-if F (r.sale_complete && not (nozzle_physically_up c s))
            (record { consistent = h; recorded = quiet refl })
            (IsSound-if F (is_idle s.state.status && waits)
              (record { consistent = h; recorded = quiet refl })
              (record { consistent = h; recorded = quiet refl }))))

  data_stopped-IsSound :
      (c : Call) (r : Reading Carrier) (s : RuntimeFp Carrier)
      → IsConsistent F s
      → IsSound F (data_stopped F c r s)
  unfolding data_stopped
  data_stopped-IsSound c r s h =
      IsSound-if F
        (r.crc_ok
          && (not s.wayne.stop_reflow_resent && less (add s.state.volume (decimal 15 2)) r.raw_vol))
        (record { consistent = h; recorded = quiet refl })
        (record { consistent = h; recorded = quiet refl })

  claim_tx-Holds :
      (c : Call) (i : ℕ) (s : RuntimeFp Carrier) → IsConsistent F s → Holds F (claim_tx F c i s)
  unfolding claim_tx
  claim_tx-Holds c i s h =
      Holds-if F (is_some s.current_tx) (record { displays = h }) (record { displays = h })

  taken_nozzle : Option ℕ → RuntimeFp Carrier → ℕ
  taken_nozzle o s =
      if preauth_session_armed s
      then or_default (or_other s.state.nozzle_index o) 1
      else or_default (or_other o s.state.nozzle_index) 1

  take_over-IsConsistent :
      (c : Call) (r : Reading Carrier) (o : Option ℕ) (s : RuntimeFp Carrier)
      → IsConsistent F s
      → IsConsistent F (take_over F c r o s)
  unfolding take_over taken_nozzle show_nozzle is_stopped
  take_over-IsConsistent c r o s h =
      let i = taken_nozzle o s in
      let shown = set_status authorizing (show_nozzle F c i s) in
      unstopped
        (meter-IsConsistent F r (claim_tx F c i shown)
          ((claim_tx-Holds c i shown (unstopped h refl)).displays))
        refl

  data_outside-IsSound :
      (c : Call) (r : Reading Carrier) (s : RuntimeFp Carrier)
      → IsConsistent F s
      → IsSound F (data_outside F c r s)
  unfolding data_outside
  data_outside-IsSound c r s h =
      let o = wire_transaction_nozzle c.site c.fp_cfg r.hose_product r.hose_code in
      IsSound-if F (not (flows F r || ltb 0 r.raw_amt))
        (record { consistent = h; recorded = quiet refl })
        (IsSound-if F (not (owns_meter_data s)) (data_unowned-IsSound c r o s h) (
          IsSound-if F (not (preauth_session_armed s) && differ_index F o s.state.nozzle_index)
            (record { consistent = h; recorded = quiet refl })
            (IsSound-if F (is_stopped s.state.status) (data_stopped-IsSound c r s h) (
              IsSound-if F (is_done s.state.status || s.completed_sale)
                (record { consistent = h; recorded = quiet refl })
                (record {
                  consistent = take_over-IsConsistent c r o s h;
                  recorded = quiet refl;
                })))))

  data_metered-IsSound :
      (c : Call) (r : Reading Carrier) (s : RuntimeFp Carrier)
      → IsConsistent F s
      → IsSound F (data_metered F c r s)
  unfolding data_metered
  data_metered-IsSound c r s h =
      IsSound-if F (in_session s.state.status) (data_session-IsSound F c r s h)
        (data_outside-IsSound c r s h)

  data_lifted-IsSound :
      (c : Call) (pp hh : ℕ) (s : RuntimeFp Carrier)
      → IsConsistent F s
      → IsSound F (data_lifted F c pp hh s)
  unfolding data_lifted zero_delivery_meters zero_meters clear_continuation_fields
      clear_startup_ghost_watch
  data_lifted-IsSound c pp hh s h =
      let confirmed = record s {
        wayne = record s.wayne { preauth_mismatch_active = false; preauth_nozzle_confirmed = true };
      } in
      IsSound-checked F (check_preauth_nozzle-IsChecked F c pp hh s h)
        (λ t e k q. record { consistent = k; recorded = quiet q })
        (record {
          consistent =
              start_delivery_from_pre_auth-IsConsistent F c (zero_delivery_meters F confirmed) h;
          recorded = quiet refl;
        })

  data_hose-IsSound :
      (c : Call) (o : Option (ℕ × ℕ)) (s : RuntimeFp Carrier) {next : Outcome F}
      → IsConsistent F s
      → IsSound F next
      → IsSound F (elim o [ some (pp, hh) ↦ data_lifted F c pp hh s | none ↦ next ])
  data_hose-IsSound c none s h hn = hn
  data_hose-IsSound c (some (pp, hh)) s h hn = data_lifted-IsSound c pp hh s h

  data_pre_authorized-IsSound :
      (c : Call) (r : Reading Carrier) (s : RuntimeFp Carrier)
      → IsConsistent F s
      → IsSound F (data_pre_authorized F c r s)
  unfolding data_pre_authorized
  data_pre_authorized-IsSound c r s h =
      let started = start_delivery_from_pre_auth-IsConsistent F c s h in
      data_hose-IsSound c (lifted_hose F r) s h (
        IsSound-if F (not s.wayne.preauth_nozzle_confirmed)
          (record { consistent = h; recorded = quiet refl })
          (IsSound-if F (flows F r)
            (data_metered-IsSound c r (start_delivery_from_pre_auth F c s) started)
            (IsSound-if F s.wayne.preauth_mismatch_active
              (record { consistent = h; recorded = quiet refl })
              (record { consistent = started; recorded = quiet refl }))))

  recover_pre_auth-Holds :
      (s : RuntimeFp Carrier) → IsConsistent F s → Holds F (recover_pre_auth F s)
  unfolding recover_pre_auth is_stopped
  recover_pre_auth-Holds s h =
      Holds-if F (is_offline s.state.status && is_some s.pre_auth)
        (record {
          displays =
              keep_pre_auth_preset-IsConsistent F (set_status pre_authorized s) (unstopped h refl);
        })
        (record { displays = h })

  pub recover_pre_auth-IsConsistent :
      (s : RuntimeFp Carrier) → IsConsistent F s → IsConsistent F (recover_pre_auth F s)
  recover_pre_auth-IsConsistent s h = (recover_pre_auth-Holds s h).displays

  pub data_by_status-IsSound :
      (c : Call) (r : Reading Carrier) (s : RuntimeFp Carrier)
      → IsConsistent F s
      → IsSound F (data_by_status F c r s)
  unfolding data_by_status is_stopped
  data_by_status-IsSound c r s h =
      IsSound-if F (is_offline s.state.status && (less r.raw_vol (decimal 1 2) && r.raw_amt == 0))
        (record { consistent = unstopped h refl; recorded = quiet refl })
        (IsSound-if F (is_offline s.state.status && r.sale_complete)
          (record { consistent = unstopped h refl; recorded = quiet refl })
          (IsSound-if F
            (is_authorizing s.state.status
              && (s.wayne.pending_authorize_config && not s.wayne.preauth_config_on_wire))
            (record { consistent = h; recorded = quiet refl })
            (IsSound-if F (is_pre_authorized s.state.status) (data_pre_authorized-IsSound c r s h)
              (data_metered-IsSound c r s h))))
