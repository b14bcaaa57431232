-- ===== src/Engine/Idle.antt =====
-- services/dispenser-service/src/engine/state.rs: the idle and done frames of the pump.
use Prim.Native.String.{String}
use fuel_station_controller.Base.{Bool, true, false, ◌&&◌, ◌||◌, not, none, if◌then◌else◌, is_some}
use fuel_station_controller.Engine.Float.{Float}
use fuel_station_controller.Engine.Types.{
  StopSource, app, app_final, external, FpStatus, offline, idle, pre_authorized, nozzle_up,
  authorizing, delivering, finalizing, done, stopped,
}
use fuel_station_controller.Engine.Runtime.{
  RuntimeFp, Call, set_status, in_session, is_authorizing, is_idle, is_pre_authorized, is_nozzle_up,
  is_done,
}
use fuel_station_controller.Engine.Session.{
  clear_deliver_caps, in_decel_window, nozzle_physically_up, preauth_session_armed,
  ghost_recovery_active, clear_unauthorized_state,
}
use fuel_station_controller.Engine.Meters.{no_fuel, holster_ends_sale_early}
use fuel_station_controller.Engine.Effects.{
  no_effect, status_changed, send_done_await_holster, online, resend_authorize, complete_ghost_fill,
  send_authorize_config,
}
use fuel_station_controller.Engine.Sales.{
  Outcome, end_sale_from_holster_early, complete_sale_from_holster,
}
use fuel_station_controller.Engine.Stopped.{commit_decel, commit_decel_or_ghost}
use fuel_station_controller.Engine.Holster.{
  close_sale, drop_session, finish_stopped, go_idle, remove_stopped, reply,
  set_pending_holster_close, set_pump_sale_complete,
}

module _ (F : Float) where
  open F use {Carrier}

  -- A stopped lane hears that the pump is idle.
  unfoldable pub idle_stopped : Call → RuntimeFp Carrier → String → StopSource → Outcome F
  unfolding finish_stopped remove_stopped
  idle_stopped c s tx_id app =
      if s.wayne.stopped_nozzle_up then reply F c s status_changed else remove_stopped F c tx_id s
  idle_stopped c s tx_id app_final =
      if s.wayne.stopped_nozzle_up then reply F c s status_changed else finish_stopped F c true s
  idle_stopped c s tx_id external = finish_stopped F c false s

  unfoldable pub idle_authorizing : Call → RuntimeFp Carrier → Outcome F
  unfolding in_decel_window commit_decel_or_ghost no_fuel nozzle_physically_up preauth_session_armed
      drop_session holster_ends_sale_early end_sale_from_holster_early complete_sale_from_holster
      clear_deliver_caps go_idle
  idle_authorizing c s =
      if in_decel_window s
      then commit_decel_or_ghost F c s
      else if s.wayne.pending_authorize_config_repeat
      then reply F c
          (record s {
            wayne = record s.wayne {
              pending_authorize_config_repeat = false;
              preauth_config_on_wire = true;
            };
          })
          send_authorize_config
      else if no_fuel F s
      then (if nozzle_physically_up c s
          then reply F c s no_effect
          else if preauth_session_armed s
          then reply F c s no_effect
          else if is_some s.current_tx
          then drop_session F c complete_ghost_fill s
          else reply F c s resend_authorize)
      else if nozzle_physically_up c s
      then reply F c s no_effect
      else if is_some s.continuation
      then reply F c s no_effect
      else if holster_ends_sale_early F s
      then end_sale_from_holster_early F c s
      else if is_some s.current_tx
      then complete_sale_from_holster F c s
      else go_idle F c status_changed (clear_deliver_caps s)

  unfoldable pub idle_delivering : Call → RuntimeFp Carrier → Outcome F
  unfolding in_decel_window commit_decel_or_ghost no_fuel nozzle_physically_up preauth_session_armed
      drop_session close_sale
  idle_delivering c s =
      if in_decel_window s
      then commit_decel_or_ghost F c s
      else if no_fuel F s
      then (if nozzle_physically_up c s || preauth_session_armed s
          then reply F c s no_effect
          else drop_session F c complete_ghost_fill s)
      else if nozzle_physically_up c s
      then reply F c s no_effect
      else if not s.wayne.pending_holster_close
      then reply F c s no_effect
      else close_sale F c (set_pending_holster_close F false s)

  -- The `match` of `apply_idle_response`.
  unfoldable pub idle_by_status : Call → RuntimeFp Carrier → FpStatus Carrier → Outcome F
  unfolding clear_unauthorized_state idle_stopped idle_authorizing idle_delivering
      preauth_session_armed
  idle_by_status c s finalizing = (s, no_effect)
  idle_by_status c s offline =
      let shown = set_status idle s in
      reply F c
        (clear_unauthorized_state
          (record shown { state = record shown.state { pre_auth_preset = none } }))
        online
  idle_by_status c s idle = reply F c (clear_unauthorized_state s) no_effect
  idle_by_status c s done = reply F c s no_effect
  idle_by_status c s (stopped vol amt tx_id source) = idle_stopped c s tx_id source
  idle_by_status c s pre_authorized = reply F c s no_effect
  idle_by_status c s nozzle_up =
      if s.wayne.preauth_config_on_wire
        || (is_some s.pre_auth || (preauth_session_armed s || is_some s.current_tx))
      then reply F c s no_effect
      else reply F c s resend_authorize
  idle_by_status c s authorizing = idle_authorizing c s
  idle_by_status c s delivering = idle_delivering c s

  unfoldable pub apply_idle_response : Call → RuntimeFp Carrier → Outcome F
  unfolding idle_by_status
  apply_idle_response c s = idle_by_status c s s.state.status

  abbrev pub is_external : FpStatus Carrier → Bool
  is_external (stopped vol amt tx_id external) = true
  is_external _ = false

  -- A session without fuel hears that the pump is done.
  unfoldable pub done_without_fuel : Call → RuntimeFp Carrier → Outcome F
  unfolding nozzle_physically_up preauth_session_armed drop_session
  done_without_fuel c s =
      if nozzle_physically_up c s
      then reply F c s status_changed
      else if is_authorizing s.state.status && preauth_session_armed s
      then reply F c s status_changed
      else drop_session F c complete_ghost_fill s

  unfoldable pub apply_done_response : Call → RuntimeFp Carrier → Outcome F
  unfolding no_fuel done_without_fuel nozzle_physically_up close_sale ghost_recovery_active go_idle
  apply_done_response c s =
      if is_done s.state.status
      then reply F c s status_changed
      else if is_some s.continuation
      then reply F c s status_changed
      else if is_external s.state.status
      then reply F c s status_changed
      else if in_session s.state.status
      then (if no_fuel F s
          then done_without_fuel c s
          else if nozzle_physically_up c s
          then reply F c s send_done_await_holster
          else if not s.wayne.pending_holster_close
          then reply F c s send_done_await_holster
          else close_sale F c (set_pending_holster_close F false s))
      else if (is_idle s.state.status || is_nozzle_up s.state.status) && no_fuel F s
      then (if ghost_recovery_active s
          then reply F c s no_effect
          else go_idle F c complete_ghost_fill s)
      else reply F c s status_changed

  -- From the test for idle or pre-authorized on.
  unfoldable pub dispenser_idle_rest : Call → RuntimeFp Carrier → Outcome F
  unfolding ghost_recovery_active go_idle apply_done_response
  dispenser_idle_rest c s =
      if is_idle s.state.status || is_pre_authorized s.state.status
      then (if ghost_recovery_active s
          then reply F c s no_effect
          else go_idle F c complete_ghost_fill s)
      else apply_done_response c s

  unfoldable pub apply_dispenser_idle : Call → RuntimeFp Carrier → Outcome F
  unfolding in_decel_window commit_decel no_fuel done_without_fuel nozzle_physically_up
      dispenser_idle_rest
  apply_dispenser_idle c s =
      if in_decel_window s && in_session s.state.status
      then commit_decel F c s
      else if in_session s.state.status || is_nozzle_up s.state.status
      then (if no_fuel F s
          then done_without_fuel c s
          else if nozzle_physically_up c s
          then reply F c (set_pump_sale_complete F s) send_done_await_holster
          else dispenser_idle_rest c s)
      else dispenser_idle_rest c s
