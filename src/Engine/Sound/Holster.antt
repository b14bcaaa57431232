-- ===== src/Engine/Sound/Holster.antt =====
-- services/dispenser-service/src/engine/state.rs: a holstered nozzle, and the done and idle frames.
use Prim.Native.String.{String}
use fuel_station_controller.Base.{Bool, true, false, ◌≡◌, refl, ◌&&◌, ◌||◌, not, is_some}
use fuel_station_controller.Engine.Float.{Float}
use fuel_station_controller.Engine.Types.{
  StopSource, app, app_final, external, FpStatus, offline, idle, pre_authorized, nozzle_up,
  authorizing, delivering, finalizing, done, stopped, is_stopped,
}
use fuel_station_controller.Engine.Runtime.{
  RuntimeFp, Call, in_session, is_authorizing, is_idle, is_nozzle_up, is_pre_authorized, is_done,
}
use fuel_station_controller.Engine.Session.{
  in_decel_window, nozzle_physically_up, preauth_session_armed, ghost_recovery_active,
  within_config_echo_grace, clear_ghost_recovery, clear_deliver_caps, clear_continuation_fields,
  clear_startup_ghost_watch, clear_unauthorized_state,
}
use fuel_station_controller.Engine.Meters.{
  no_fuel, holster_ends_sale_early, zero_delivery_meters, zero_meters, forget_nozzle,
}
use fuel_station_controller.Engine.Effects.{
  FrameEffect, status_changed, complete_ghost_fill, nozzle_holstered,
}
use fuel_station_controller.Engine.Holster.{
  drop_session, go_idle, set_pending_holster_close, close_sale, finish_stopped, remove_stopped,
  cancel_pre_auth, holster_pre_authorized, holster_session, holster_by_status,
  apply_nozzle_holstered,
}
use fuel_station_controller.Engine.Idle.{
  idle_stopped, idle_authorizing, idle_delivering, idle_by_status, apply_idle_response, is_external,
  done_without_fuel, apply_done_response, dispenser_idle_rest, apply_dispenser_idle,
}
use fuel_station_controller.Engine.Sound.{
  unstopped, carries_sale, IsConsistent, IsSound, IsSound-if, quiet,
}
use fuel_station_controller.Engine.Sound.Sales.{
  end_sale_from_holster_early-IsSound, complete_sale_from_holster-IsSound,
  finalize_stopped_sale-IsSound, commit_decel-IsSound, commit_decel_or_ghost-IsSound,
  reset-IsConsistent, cancel_zero_volume_session-IsConsistent,
}

module _ (F : Float) where
  open F use {Carrier}

  pub drop_session-IsSound :
      (c : Call) (e : FrameEffect Carrier) (s : RuntimeFp Carrier)
      → carries_sale e ≡ false
      → IsSound F (drop_session F c e s)
  unfolding drop_session
  drop_session-IsSound c e s q = record {
    consistent = (cancel_zero_volume_session-IsConsistent F s);
    recorded = quiet q;
  }

  pub go_idle-IsSound :
      (c : Call) (e : FrameEffect Carrier) (s : RuntimeFp Carrier)
      → carries_sale e ≡ false
      → IsSound F (go_idle F c e s)
  unfolding go_idle
  go_idle-IsSound c e s q = record { consistent = (reset-IsConsistent F s); recorded = quiet q }

  pub close_sale-IsSound :
      (c : Call) (s : RuntimeFp Carrier) → IsConsistent F s → IsSound F (close_sale F c s)
  unfolding close_sale
  close_sale-IsSound c s h =
      IsSound-if F (holster_ends_sale_early F s) (end_sale_from_holster_early-IsSound F c s h)
        (complete_sale_from_holster-IsSound F c s h)

  finish_stopped-IsSound :
      (c : Call) (b : Bool) (s : RuntimeFp Carrier) → IsSound F (finish_stopped F c b s)
  unfolding finish_stopped
  finish_stopped-IsSound c b s = finalize_stopped_sale-IsSound F c b s _

  remove_stopped-IsSound :
      (c : Call) (id : String) (s : RuntimeFp Carrier) → IsSound F (remove_stopped F c id s)
  unfolding remove_stopped
  remove_stopped-IsSound c id s = finalize_stopped_sale-IsSound F c false s _

  pub cancel_pre_auth-IsConsistent :
      (c : Call) (s : RuntimeFp Carrier) → IsConsistent F s → IsConsistent F (cancel_pre_auth F c s)
  unfolding cancel_pre_auth clear_ghost_recovery clear_deliver_caps zero_delivery_meters zero_meters
      clear_continuation_fields clear_startup_ghost_watch forget_nozzle is_stopped
  cancel_pre_auth-IsConsistent c s h = unstopped h refl

  pub holster_pre_authorized-IsSound :
      (c : Call) (s : RuntimeFp Carrier)
      → IsConsistent F s
      → IsSound F (holster_pre_authorized F c s)
  unfolding holster_pre_authorized
  holster_pre_authorized-IsSound c s h =
      IsSound-if F s.wayne.preauth_nozzle_confirmed
        (record { consistent = (cancel_pre_auth-IsConsistent c s h); recorded = quiet refl })
        (IsSound-if F s.wayne.preauth_config_on_wire
          (record { consistent = h; recorded = quiet refl })
          (IsSound-if F s.wayne.preauth_mismatch_active
            (record { consistent = h; recorded = quiet refl })
            (drop_session-IsSound c nozzle_holstered s refl)))

  holster_session-IsSound :
      (c : Call) (s : RuntimeFp Carrier) → IsConsistent F s → IsSound F (holster_session F c s)
  unfolding holster_session
  holster_session-IsSound c s h =
      IsSound-if F (no_fuel F s)
        (IsSound-if F
          ((within_config_echo_grace c s && is_authorizing s.state.status)
            || nozzle_physically_up c s)
          (record { consistent = h; recorded = quiet refl })
          (drop_session-IsSound c complete_ghost_fill s refl))
        (IsSound-if F (holster_ends_sale_early F s)
          (end_sale_from_holster_early-IsSound F c (set_pending_holster_close F false s) h)
          (IsSound-if F s.wayne.pending_holster_close
            (complete_sale_from_holster-IsSound F c (set_pending_holster_close F false s) h)
            (record { consistent = h; recorded = quiet refl })))

  holster_by_status-IsSound :
      (c : Call) (s : RuntimeFp Carrier) (st : FpStatus Carrier)
      → IsConsistent F s
      → IsSound F (holster_by_status F c s st)
  unfolding holster_by_status
  holster_by_status-IsSound c s authorizing h = holster_session-IsSound c s h
  holster_by_status-IsSound c s delivering h = holster_session-IsSound c s h
  holster_by_status-IsSound c s pre_authorized h = holster_pre_authorized-IsSound c s h
  holster_by_status-IsSound c s done h = record { consistent = h; recorded = quiet refl }
  holster_by_status-IsSound c s nozzle_up h = go_idle-IsSound c status_changed s refl
  holster_by_status-IsSound c s offline h = go_idle-IsSound c status_changed s refl
  holster_by_status-IsSound c s idle h = go_idle-IsSound c status_changed s refl
  holster_by_status-IsSound c s finalizing h = go_idle-IsSound c status_changed s refl
  holster_by_status-IsSound c s (stopped v a id app) h = remove_stopped-IsSound c id s
  holster_by_status-IsSound c s (stopped v a id app_final) h = finish_stopped-IsSound c true s
  holster_by_status-IsSound c s (stopped v a id external) h = finish_stopped-IsSound c false s

  pub apply_nozzle_holstered-IsSound :
      (c : Call) (s : RuntimeFp Carrier)
      → IsConsistent F s
      → IsSound F (apply_nozzle_holstered F c s)
  unfolding apply_nozzle_holstered
  apply_nozzle_holstered-IsSound c s h =
      IsSound-if F (ghost_recovery_active s) (record { consistent = h; recorded = quiet refl })
        (IsSound-if F (in_decel_window s && in_session s.state.status)
          (commit_decel_or_ghost-IsSound F c s h) (holster_by_status-IsSound c s s.state.status h))

  idle_stopped-IsSound :
      (c : Call) (s : RuntimeFp Carrier) (id : String) (source : StopSource)
      → IsConsistent F s
      → IsSound F (idle_stopped F c s id source)
  unfolding idle_stopped
  idle_stopped-IsSound c s id app h =
      IsSound-if F s.wayne.stopped_nozzle_up (record { consistent = h; recorded = quiet refl })
        (remove_stopped-IsSound c id s)
  idle_stopped-IsSound c s id app_final h =
      IsSound-if F s.wayne.stopped_nozzle_up (record { consistent = h; recorded = quiet refl })
        (finish_stopped-IsSound c true s)
  idle_stopped-IsSound c s id external h = finish_stopped-IsSound c false s

  idle_authorizing-IsSound :
      (c : Call) (s : RuntimeFp Carrier) → IsConsistent F s → IsSound F (idle_authorizing F c s)
  unfolding idle_authorizing
  idle_authorizing-IsSound c s h =
      IsSound-if F (in_decel_window s) (commit_decel_or_ghost-IsSound F c s h) (
        IsSound-if F s.wayne.pending_authorize_config_repeat
          (record { consistent = h; recorded = quiet refl })
          (IsSound-if F (no_fuel F s)
            (IsSound-if F (nozzle_physically_up c s)
              (record { consistent = h; recorded = quiet refl })
              (IsSound-if F (preauth_session_armed s)
                (record { consistent = h; recorded = quiet refl })
                (IsSound-if F (is_some s.current_tx)
                  (drop_session-IsSound c complete_ghost_fill s refl)
                  (record { consistent = h; recorded = quiet refl }))))
            (IsSound-if F (nozzle_physically_up c s)
              (record { consistent = h; recorded = quiet refl })
              (IsSound-if F (is_some s.continuation)
                (record { consistent = h; recorded = quiet refl })
                (IsSound-if F (holster_ends_sale_early F s)
                  (end_sale_from_holster_early-IsSound F c s h)
                  (IsSound-if F (is_some s.current_tx) (complete_sale_from_holster-IsSound F c s h)
                    (go_idle-IsSound c status_changed (clear_deliver_caps s) refl)))))))

  idle_delivering-IsSound :
      (c : Call) (s : RuntimeFp Carrier) → IsConsistent F s → IsSound F (idle_delivering F c s)
  unfolding idle_delivering
  idle_delivering-IsSound c s h =
      IsSound-if F (in_decel_window s) (commit_decel_or_ghost-IsSound F c s h) (
        IsSound-if F (no_fuel F s)
          (IsSound-if F (nozzle_physically_up c s || preauth_session_armed s)
            (record { consistent = h; recorded = quiet refl })
            (drop_session-IsSound c complete_ghost_fill s refl))
          (IsSound-if F (nozzle_physically_up c s)
            (record { consistent = h; recorded = quiet refl })
            (IsSound-if F (not s.wayne.pending_holster_close)
              (record { consistent = h; recorded = quiet refl })
              (close_sale-IsSound c (set_pending_holster_close F false s) h))))

  idle_by_status-IsSound :
      (c : Call) (s : RuntimeFp Carrier) (st : FpStatus Carrier)
      → IsConsistent F s
      → IsSound F (idle_by_status F c s st)
  unfolding idle_by_status clear_unauthorized_state is_stopped
  idle_by_status-IsSound c s finalizing h = record { consistent = h; recorded = quiet refl }
  idle_by_status-IsSound c s offline h = record {
    consistent = unstopped h refl;
    recorded = quiet refl;
  }
  idle_by_status-IsSound c s idle h = record { consistent = h; recorded = quiet refl }
  idle_by_status-IsSound c s done h = record { consistent = h; recorded = quiet refl }
  idle_by_status-IsSound c s (stopped v a id source) h = idle_stopped-IsSound c s id source h
  idle_by_status-IsSound c s pre_authorized h = record { consistent = h; recorded = quiet refl }
  idle_by_status-IsSound c s nozzle_up h =
      IsSound-if F
        (s.wayne.preauth_config_on_wire
          || (is_some s.pre_auth || (preauth_session_armed s || is_some s.current_tx)))
        (record { consistent = h; recorded = quiet refl })
        (record { consistent = h; recorded = quiet refl })
  idle_by_status-IsSound c s authorizing h = idle_authorizing-IsSound c s h
  idle_by_status-IsSound c s delivering h = idle_delivering-IsSound c s h

  pub apply_idle_response-IsSound :
      (c : Call) (s : RuntimeFp Carrier) → IsConsistent F s → IsSound F (apply_idle_response F c s)
  unfolding apply_idle_response
  apply_idle_response-IsSound c s h = idle_by_status-IsSound c s s.state.status h

  done_without_fuel-IsSound :
      (c : Call) (s : RuntimeFp Carrier) → IsConsistent F s → IsSound F (done_without_fuel F c s)
  unfolding done_without_fuel
  done_without_fuel-IsSound c s h =
      IsSound-if F (nozzle_physically_up c s) (record { consistent = h; recorded = quiet refl })
        (IsSound-if F (is_authorizing s.state.status && preauth_session_armed s)
          (record { consistent = h; recorded = quiet refl })
          (drop_session-IsSound c complete_ghost_fill s refl))

  pub apply_done_response-IsSound :
      (c : Call) (s : RuntimeFp Carrier) → IsConsistent F s → IsSound F (apply_done_response F c s)
  unfolding apply_done_response
  apply_done_response-IsSound c s h =
      IsSound-if F (is_done s.state.status) (record { consistent = h; recorded = quiet refl })
        (IsSound-if F (is_some s.continuation) (record { consistent = h; recorded = quiet refl })
          (IsSound-if F (is_external F s.state.status)
            (record { consistent = h; recorded = quiet refl })
            (IsSound-if F (in_session s.state.status)
              (IsSound-if F (no_fuel F s) (done_without_fuel-IsSound c s h) (
                IsSound-if F (nozzle_physically_up c s)
                  (record { consistent = h; recorded = quiet refl })
                  (IsSound-if F (not s.wayne.pending_holster_close)
                    (record { consistent = h; recorded = quiet refl })
                    (close_sale-IsSound c (set_pending_holster_close F false s) h))))
              (IsSound-if F ((is_idle s.state.status || is_nozzle_up s.state.status) && no_fuel F s)
                (IsSound-if F (ghost_recovery_active s)
                  (record { consistent = h; recorded = quiet refl })
                  (go_idle-IsSound c complete_ghost_fill s refl))
                (record { consistent = h; recorded = quiet refl })))))

  dispenser_idle_rest-IsSound :
      (c : Call) (s : RuntimeFp Carrier) → IsConsistent F s → IsSound F (dispenser_idle_rest F c s)
  unfolding dispenser_idle_rest
  dispenser_idle_rest-IsSound c s h =
      IsSound-if F (is_idle s.state.status || is_pre_authorized s.state.status)
        (IsSound-if F (ghost_recovery_active s) (record { consistent = h; recorded = quiet refl })
          (go_idle-IsSound c complete_ghost_fill s refl))
        (apply_done_response-IsSound c s h)

  pub apply_dispenser_idle-IsSound :
      (c : Call) (s : RuntimeFp Carrier) → IsConsistent F s → IsSound F (apply_dispenser_idle F c s)
  unfolding apply_dispenser_idle
  apply_dispenser_idle-IsSound c s h =
      IsSound-if F (in_decel_window s && in_session s.state.status) (commit_decel-IsSound F c s h) (
        IsSound-if F (in_session s.state.status || is_nozzle_up s.state.status)
          (IsSound-if F (no_fuel F s) (done_without_fuel-IsSound c s h) (
            IsSound-if F (nozzle_physically_up c s)
              (record { consistent = h; recorded = quiet refl })
              (dispenser_idle_rest-IsSound c s h)))
          (dispenser_idle_rest-IsSound c s h))
