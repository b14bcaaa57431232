-- ===== src/Engine/Holster.antt =====
-- services/dispenser-service/src/engine/state.rs: a holstered nozzle, and the done and idle frames.
use Prim.Native.String.{String}
use fuel_station_controller.Base.{Bool, true, false, ◌&&◌, ◌||◌, none, some, if◌then◌else◌}
use fuel_station_controller.Engine.Float.{Float}
use fuel_station_controller.Engine.Types.{
  app, app_final, external, FpStatus, offline, idle, pre_authorized, nozzle_up, authorizing,
  delivering, finalizing, done, stopped,
}
use fuel_station_controller.Engine.Runtime.{RuntimeFp, Call, touch, in_session, is_authorizing}
use fuel_station_controller.Engine.Session.{
  clear_deliver_caps, in_decel_window, nozzle_physically_up, ghost_recovery_active,
  within_config_echo_grace, clear_ghost_recovery,
}
use fuel_station_controller.Engine.Meters.{
  no_fuel, holster_ends_sale_early, reset_to_idle, cancel_zero_volume_session, zero_delivery_meters,
  forget_nozzle,
}
use fuel_station_controller.Engine.Effects.{
  FrameEffect, no_effect, status_changed, nozzle_holstered, complete_ghost_fill, transaction_done,
  acknowledge_idle, nozzle_removed,
}
use fuel_station_controller.Engine.Sales.{
  Outcome, end_sale_from_holster_early, complete_sale_from_holster,
}
use fuel_station_controller.Engine.Stopped.{commit_decel_or_ghost, finalize_stopped_sale}

module _ (F : Float) where
  open F use {Carrier}

  -- The lane with its time updated, and an effect.
  abbrev pub reply : Call → RuntimeFp Carrier → FrameEffect Carrier → Outcome F
  reply c s effect = (touch c s, effect)

  -- The zero-volume session is dropped.
  unfoldable pub drop_session : Call → FrameEffect Carrier → RuntimeFp Carrier → Outcome F
  unfolding cancel_zero_volume_session
  drop_session c effect s = (touch c (cancel_zero_volume_session F s), effect)

  unfoldable pub go_idle : Call → FrameEffect Carrier → RuntimeFp Carrier → Outcome F
  unfolding reset_to_idle
  go_idle c effect s = (touch c (reset_to_idle F s), effect)

  abbrev pub set_pending_holster_close : Bool → RuntimeFp Carrier → RuntimeFp Carrier
  set_pending_holster_close b s = record s { wayne = record s.wayne { pending_holster_close = b } }

  abbrev pub set_pump_sale_complete : RuntimeFp Carrier → RuntimeFp Carrier
  set_pump_sale_complete s = record s { wayne = record s.wayne { pump_sale_complete = true } }

  -- The sale ends early or completes, by the preset.
  unfoldable pub close_sale : Call → RuntimeFp Carrier → Outcome F
  unfolding holster_ends_sale_early end_sale_from_holster_early complete_sale_from_holster
  close_sale c s =
      if holster_ends_sale_early F s
      then end_sale_from_holster_early F c s
      else complete_sale_from_holster F c s

  unfoldable pub finish_stopped : Call → Bool → RuntimeFp Carrier → Outcome F
  unfolding finalize_stopped_sale
  finish_stopped c completed_normally s =
      let (left, tx) = finalize_stopped_sale F c completed_normally s in
      (left, transaction_done tx acknowledge_idle)

  unfoldable pub remove_stopped : Call → String → RuntimeFp Carrier → Outcome F
  unfolding finalize_stopped_sale
  remove_stopped c tx_id s =
      let (left, tx) = finalize_stopped_sale F c false s in
      (left, nozzle_removed s.state.fp_id (some tx_id) tx)

  unfoldable pub cancel_pre_auth : Call → RuntimeFp Carrier → RuntimeFp Carrier
  unfolding clear_ghost_recovery clear_deliver_caps zero_delivery_meters forget_nozzle
  cancel_pre_auth c s =
      let cleared = clear_deliver_caps (
        clear_ghost_recovery (record s {
          pre_auth = none;
          pre_auth_started_at = none;
          wayne = record s.wayne {
            preauth_nozzle_confirmed = false;
            preauth_mismatch_active = false;
          };
        })) in
      let dropped = forget_nozzle F (
        zero_delivery_meters F (record cleared {
          auth_session_started_at = none;
          current_tx = none;
          wayne = record cleared.wayne {
            preauth_config_on_wire = false;
            config_on_wire_at = none;
            pending_authorize_config = false;
            pending_authorize_config_repeat = false;
          };
          state = record cleared.state { pre_auth_preset = none; status = idle };
        })) in
      touch c (record dropped {
        wayne = record dropped.wayne { last_wire_hose_code = none; last_wire_hose_at_ms = 0 };
      })

  -- The nozzle is holstered while a pre-authorization waits.
  unfoldable pub holster_pre_authorized : Call → RuntimeFp Carrier → Outcome F
  unfolding cancel_pre_auth drop_session
  holster_pre_authorized c s =
      if s.wayne.preauth_nozzle_confirmed
      then reply c (cancel_pre_auth c s) nozzle_holstered
      else if s.wayne.preauth_config_on_wire
      then reply c s no_effect
      else if s.wayne.preauth_mismatch_active
      then reply c s no_effect
      else drop_session c nozzle_holstered s

  -- The nozzle is holstered during a session.
  unfoldable pub holster_session : Call → RuntimeFp Carrier → Outcome F
  unfolding no_fuel within_config_echo_grace nozzle_physically_up drop_session
      holster_ends_sale_early end_sale_from_holster_early complete_sale_from_holster
  holster_session c s =
      if no_fuel F s
      then (if (within_config_echo_grace c s && is_authorizing s.state.status)
            || nozzle_physically_up c s
          then reply c s status_changed
          else drop_session c complete_ghost_fill s)
      else if holster_ends_sale_early F s
      then end_sale_from_holster_early F c (set_pending_holster_close false s)
      else if s.wayne.pending_holster_close
      then complete_sale_from_holster F c (set_pending_holster_close false s)
      else reply c (set_pending_holster_close true s) status_changed

  -- The `match` of `apply_nozzle_holstered`.
  unfoldable pub holster_by_status : Call → RuntimeFp Carrier → FpStatus Carrier → Outcome F
  unfolding holster_session holster_pre_authorized go_idle finish_stopped remove_stopped
  holster_by_status c s authorizing = holster_session c s
  holster_by_status c s delivering = holster_session c s
  holster_by_status c s pre_authorized = holster_pre_authorized c s
  holster_by_status c s done = reply c s status_changed
  holster_by_status c s nozzle_up = go_idle c status_changed s
  holster_by_status c s (stopped vol amt tx_id app_final) = finish_stopped c true s
  holster_by_status c s (stopped vol amt tx_id app) = remove_stopped c tx_id s
  holster_by_status c s (stopped vol amt tx_id external) = finish_stopped c false s
  holster_by_status c s offline = go_idle c status_changed s
  holster_by_status c s idle = go_idle c status_changed s
  holster_by_status c s finalizing = go_idle c status_changed s

  unfoldable pub apply_nozzle_holstered : Call → RuntimeFp Carrier → Outcome F
  unfolding ghost_recovery_active in_decel_window commit_decel_or_ghost holster_by_status
  apply_nozzle_holstered c s =
      if ghost_recovery_active s
      then reply c s no_effect
      else if in_decel_window s && in_session s.state.status
      then commit_decel_or_ghost F c s
      else holster_by_status c s s.state.status
