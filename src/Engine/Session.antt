-- ===== src/Engine/Session.antt =====
-- services/dispenser-service/src/engine/state.rs: the small operations and guards of a lane.
use fuel_station_controller.Base.{
  ℕ, ◌-◌, Bool, true, false, ◌&&◌, ◌||◌, not, none, some, ltb, leb, if◌then◌else◌, is_some,
}
use fuel_station_controller.Wayne.Frame.{is_nozzle_lift_code}
use fuel_station_controller.Engine.Runtime.{
  Call, RuntimeFp, config_echo_grace_ms, count_up, ghost_recovery_idle_polls, is_authorizing,
  is_nozzle_up, is_pre_authorized, lookup, or_default, startup_ghost_min_age_ms, test_some,
  wire_lift_stale_ms,
}

module _ {V : Type 0} where
  unfoldable pub clear_deliver_caps : RuntimeFp V → RuntimeFp V
  clear_deliver_caps s = record s { cap_volume_liters = none; cap_amount = none }

  unfoldable pub in_decel_window : RuntimeFp V → Bool
  in_decel_window s = is_some s.wayne.decel_stop_sent_at

  unfoldable pub clear_continuation_fields : RuntimeFp V → RuntimeFp V
  clear_continuation_fields s = record s {
    state = record s.state {
      stopped_tx_id = none;
      base_volume = none;
      base_amount = none;
      segment_volume = none;
      segment_amount = none;
    };
  }

  unfoldable pub clear_startup_ghost_watch : RuntimeFp V → RuntimeFp V
  clear_startup_ghost_watch s = record s {
    wayne = record s.wayne { startup_ghost_last_meter = none; startup_ghost_frozen_count = 0 };
  }

  unfoldable pub embedded_holster_is_customer_event : RuntimeFp V → Bool
  embedded_holster_is_customer_event s =
      not (is_pre_authorized s.state.status && not s.wayne.preauth_nozzle_confirmed)

  unfoldable pub note_wire_hose : Call → ℕ → RuntimeFp V → RuntimeFp V
  note_wire_hose c hose s = record s {
    wayne = record s.wayne { last_wire_hose_code = some hose; last_wire_hose_at_ms = c.now };
  }

  unfoldable pub nozzle_physically_up : Call → RuntimeFp V → Bool
  unfolding is_nozzle_lift_code
  nozzle_physically_up c s =
      if ltb wire_lift_stale_ms (c.now - s.wayne.last_wire_hose_at_ms)
      then false
      else test_some is_nozzle_lift_code s.wayne.last_wire_hose_code

  unfoldable pub preauth_session_armed : RuntimeFp V → Bool
  preauth_session_armed s =
      s.wayne.preauth_config_on_wire
      || (s.wayne.pending_authorize_config_repeat || is_some s.state.pre_auth_preset)

  unfoldable pub owns_meter_data : RuntimeFp V → Bool
  unfolding preauth_session_armed
  owns_meter_data s =
      is_some s.current_tx
      || (is_some s.pre_auth
          || (preauth_session_armed s
              || (is_some s.auth_session_started_at || is_some s.continuation)))

  unfoldable pub active_nozzle_price : RuntimeFp V → ℕ
  active_nozzle_price s =
      or_default (lookup (or_default s.state.nozzle_index 1) s.nozzle_prices) s.state.price

  unfoldable pub startup_ghost_old_enough : Call → RuntimeFp V → Bool
  startup_ghost_old_enough c s =
      test_some (λ started. leb startup_ghost_min_age_ms (c.now - started))
        s.auth_session_started_at

  unfoldable pub clear_completed_sale_latch : RuntimeFp V → RuntimeFp V
  clear_completed_sale_latch s = record s { completed_sale = false }

  unfoldable pub ghost_recovery_active : RuntimeFp V → Bool
  ghost_recovery_active s =
      s.wayne.ghost_recovery && ltb s.wayne.consecutive_idle_polls ghost_recovery_idle_polls

  unfoldable pub note_dispenser_poll : Bool → RuntimeFp V → RuntimeFp V
  note_dispenser_poll saw_idle s =
      let polls = count_up s.wayne.consecutive_idle_polls in
      if not s.wayne.ghost_recovery
      then s
      else if saw_idle
      then (if leb ghost_recovery_idle_polls polls
          then record s {
            wayne = record s.wayne { ghost_recovery = false; consecutive_idle_polls = 0 };
          }
          else record s { wayne = record s.wayne { consecutive_idle_polls = polls } })
      else record s { wayne = record s.wayne { consecutive_idle_polls = 0 } }

  unfoldable pub clear_ghost_recovery : RuntimeFp V → RuntimeFp V
  clear_ghost_recovery s = record s {
    wayne = record s.wayne { ghost_recovery = false; consecutive_idle_polls = 0 };
  }

  unfoldable pub enter_ghost_recovery : RuntimeFp V → RuntimeFp V
  enter_ghost_recovery s = record s {
    wayne = record s.wayne { ghost_recovery = true; consecutive_idle_polls = 0 };
  }

  -- The mode is given as whether it is `"preauth"`.
  unfoldable pub allow_reactive_nozzle_auth : Bool → RuntimeFp V → Bool
  unfolding ghost_recovery_active
  allow_reactive_nozzle_auth is_preauth_mode s =
      if ghost_recovery_active s then false else if not is_preauth_mode then true else false

  unfoldable pub mark_preauth_config_on_wire : Call → RuntimeFp V → RuntimeFp V
  mark_preauth_config_on_wire c s = record s {
    wayne = record s.wayne {
      preauth_config_on_wire = true;
      config_on_wire_at = some c.now;
      pending_authorize_config = false;
      pending_authorize_config_repeat = false;
    };
  }

  unfoldable pub within_config_echo_grace : Call → RuntimeFp V → Bool
  within_config_echo_grace c s =
      test_some (λ t. ltb (c.now - t) config_echo_grace_ms) s.wayne.config_on_wire_at

  unfoldable pub mark_preauth_cancel_pending : RuntimeFp V → RuntimeFp V
  mark_preauth_cancel_pending s = record s {
    wayne = record s.wayne { preauth_cancel_pending = true; unauthorized_alerted = false };
  }

  unfoldable pub clear_unauthorized_state : RuntimeFp V → RuntimeFp V
  clear_unauthorized_state s = record s {
    wayne = record s.wayne { preauth_cancel_pending = false; unauthorized_alerted = false };
  }

  unfoldable pub begin_auth_session : Call → RuntimeFp V → RuntimeFp V
  begin_auth_session c s = record s {
    auth_session_started_at = some c.now;
    wayne = record s.wayne {
      pending_authorize_config = true;
      pending_authorize_config_repeat = false;
    };
  }

  unfoldable pub has_cancellable_preauth : RuntimeFp V → Bool
  has_cancellable_preauth s =
      is_some s.pre_auth
      || (s.wayne.preauth_config_on_wire
          || (is_some s.state.pre_auth_preset
              || (is_pre_authorized s.state.status
                  || ((is_nozzle_up s.state.status || is_authorizing s.state.status)
                      && is_some s.state.pre_auth_preset))))

  unfoldable pub request_shelf_cancel : RuntimeFp V → Bool × RuntimeFp V
  unfolding has_cancellable_preauth
  request_shelf_cancel s =
      if not (has_cancellable_preauth s)
        && (not (is_some s.current_tx) && not s.shelf.start_attempted)
      then (false, s)
      else (true, record s { shelf = record s.shelf { cancel_requested = true } })
