-- ===== src/Engine/Operator.antt =====
-- services/dispenser-service/src/engine/state.rs: the reset, the stop, the polls and the prices of a lane.
use fuel_station_controller.Base.{
  ℕ, ◌+◌, ◌-◌, Bool, true, false, ◌&&◌, ◌||◌, not, Option, none, some, List, [], length, leb,
  if◌then◌else◌, is_some, min,
}
use fuel_station_controller.Engine.Float.{Float}
use fuel_station_controller.Engine.Types.{
  StopSource, app, app_final, FpStatus, offline, idle, pre_authorized, nozzle_up, authorizing,
  delivering, finalizing, done, stopped, is_stopped, str, FpState, FuelingPositionConfig,
  active_nozzles, default_price,
}
use fuel_station_controller.Engine.Runtime.{
  RuntimeFp, WayneRuntimeState, Call, touch, set_status, in_session, is_authorizing, is_idle,
  is_offline, is_pre_authorized, is_nozzle_up, or_default, lookup, insert, prices_of,
}
use fuel_station_controller.Engine.Session.{
  clear_deliver_caps, clear_continuation_fields, clear_completed_sale_latch, in_decel_window,
  preauth_session_armed, clear_ghost_recovery, clear_unauthorized_state, begin_auth_session,
}
use fuel_station_controller.Engine.Meters.{
  zero_meters, zero_delivery_meters, forget_nozzle, clear_decel_window, combined_totals,
}
use fuel_station_controller.Engine.Effects.{FrameEffect, preauth_cancelled}
use fuel_station_controller.Engine.Sales.{Outcome, Result, ok, err, enter_stopped_state}
use fuel_station_controller.Engine.Holster.{cancel_pre_auth}
use fuel_station_controller.Engine.Commands.{same_index}

module _ (F : Float) where
  open F use {Carrier, of_nat}

  unfoldable pub reset_for_operator : Call → RuntimeFp Carrier → RuntimeFp Carrier
  unfolding clear_deliver_caps clear_decel_window clear_completed_sale_latch
      clear_unauthorized_state clear_ghost_recovery clear_continuation_fields zero_meters
      forget_nozzle default_price
  reset_for_operator c s =
      let cleared =
        clear_unauthorized_state
          (clear_completed_sale_latch (clear_decel_window F (clear_deliver_caps s))) in
      let dropped = record cleared {
        current_tx = none;
        stopped_context = none;
        continuation = none;
        pre_auth = none;
        missed = 0;
        settle_after_reconnect = 0;
        nozzle_prices = prices_of (active_nozzles c.fp_cfg) [];
        state = record cleared.state {
          missed_polls = 0;
          status = idle;
          price = or_default (default_price c.fp_cfg) 0;
          seq = 0;
          pre_auth_preset = none;
          stop_source = none;
        };
      } in
      touch c
        (clear_continuation_fields (clear_ghost_recovery (forget_nozzle F (zero_meters F dropped))))

  -- The `match` of `operator_dismiss_display`.
  unfoldable pub dismiss_by_status :
      Call → RuntimeFp Carrier → FpStatus Carrier → Result (RuntimeFp Carrier)
  unfolding reset_for_operator
  dismiss_by_status c s done = ok (reset_for_operator c s)
  dismiss_by_status c s idle = ok (reset_for_operator c s)
  dismiss_by_status c s offline = ok (reset_for_operator c s)
  dismiss_by_status c s (stopped vol amt tx_id source) =
      err "sale is paused — close the transaction or continue the fill"
  dismiss_by_status c s pre_authorized = err "pump is still active"
  dismiss_by_status c s nozzle_up = err "pump is still active"
  dismiss_by_status c s authorizing = err "pump is still active"
  dismiss_by_status c s delivering = err "pump is still active"
  dismiss_by_status c s finalizing = err "pump is still active"

  unfoldable pub operator_dismiss_display : Call → RuntimeFp Carrier → Result (RuntimeFp Carrier)
  unfolding dismiss_by_status
  operator_dismiss_display c s = dismiss_by_status c s s.state.status

  unfoldable pub on_poll_success : Call → RuntimeFp Carrier → RuntimeFp Carrier
  on_poll_success c s = touch c (record s {
    missed = 0;
    settle_after_reconnect = s.settle_after_reconnect - 1;
    state = record s.state { missed_polls = 0 };
  })

  abbrev pub holds_lane : FpStatus Carrier → Bool
  holds_lane nozzle_up = true
  holds_lane pre_authorized = true
  holds_lane authorizing = true
  holds_lane delivering = true
  holds_lane done = true
  holds_lane _ = false

  -- Whether the lane went offline, and the runtime. The counter is a `u32` and is not near its end.
  unfoldable pub on_poll_missed : Call → ℕ → RuntimeFp Carrier → Bool × RuntimeFp Carrier
  unfolding preauth_session_armed
  on_poll_missed c threshold s =
      let counted = touch c (record s {
        missed = s.missed + 1;
        state = record s.state { missed_polls = s.missed + 1 };
      }) in
      if holds_lane s.state.status
        || (preauth_session_armed s || (is_some s.current_tx || s.completed_sale))
      then (false, counted)
      else if leb threshold (s.missed + 1) && not (is_offline s.state.status)
      then (true, set_status offline counted)
      else (false, counted)

  unfoldable pub on_reconnect_flush : ℕ → RuntimeFp Carrier → RuntimeFp Carrier
  on_reconnect_flush rounds s = record s { settle_after_reconnect = rounds }

  -- A session is begun unless the lane is in one.
  unfoldable pub open_session : Call → RuntimeFp Carrier → RuntimeFp Carrier
  unfolding zero_delivery_meters begin_auth_session
  open_session c s =
      if not (in_session s.state.status) then begin_auth_session c (zero_delivery_meters F s) else s

  unfoldable pub apply_authorize_sent : Call → RuntimeFp Carrier → RuntimeFp Carrier
  unfolding is_stopped open_session
  apply_authorize_sent c s =
      let may_authorize =
        (is_nozzle_up s.state.status || is_authorizing s.state.status)
        || ((is_idle s.state.status && is_some s.continuation) || is_stopped s.state.status) in
      touch c (if may_authorize then set_status authorizing (open_session c s) else s)

  unfoldable pub apply_done_ack : Call → RuntimeFp Carrier → RuntimeFp Carrier
  unfolding clear_deliver_caps
  apply_done_ack c s = touch c (clear_deliver_caps s)

  -- The decel window opens: the stop is decided later.
  unfoldable pub open_decel_window : Call → StopSource → RuntimeFp Carrier → RuntimeFp Carrier
  unfolding combined_totals clear_deliver_caps
  open_decel_window c stop_source s = touch c (
      clear_deliver_caps (record s {
        wayne = record s.wayne {
          decel_stop_sent_at = some c.now;
          decel_vol_snapshot = (combined_totals F s).0;
          decel_frozen_count = 0;
          decel_pending_preset = some (s.last_preset);
          decel_pending_stop_source = stop_source;
        };
      }))

  abbrev with_effect : Outcome F → RuntimeFp Carrier × Option (FrameEffect Carrier)
  with_effect o = (o.0, some (o.1))

  unfoldable pub apply_stop :
      Call → Bool → RuntimeFp Carrier → RuntimeFp Carrier × Option (FrameEffect Carrier)
  unfolding cancel_pre_auth is_stopped in_decel_window open_decel_window enter_stopped_state
  apply_stop c use_decel_window s =
      if is_pre_authorized s.state.status
      then (cancel_pre_auth F c s, some preauth_cancelled)
      else if is_stopped s.state.status && is_some s.stopped_context
      then (s, none)
      else if in_session s.state.status || is_some s.current_tx
      then (if use_decel_window
          then (if in_decel_window s then (s, none) else (open_decel_window c app_final s, none))
          else with_effect (enter_stopped_state F c s.last_preset app_final s))
      else (s, none)

  unfoldable pub show_price : ℕ → ℕ → RuntimeFp Carrier → RuntimeFp Carrier
  show_price nozzle_index price s =
      if same_index F s.state.nozzle_index nozzle_index
      then record s { state = record s.state { price = price } }
      else s

  -- The old price, and the runtime.
  unfoldable pub set_nozzle_price : Call → ℕ → ℕ → RuntimeFp Carrier → ℕ × RuntimeFp Carrier
  unfolding show_price
  set_nozzle_price c nozzle_index price s =
      let old = or_default (lookup nozzle_index s.nozzle_prices) s.state.price in
      let priced = record s { nozzle_prices = insert nozzle_index price s.nozzle_prices } in
      (old, touch c (show_price nozzle_index price priced))

  -- The price in the display after the catalogue changed.
  unfoldable pub synced_price : FuelingPositionConfig → List (ℕ × ℕ) → FpState Carrier → ℕ
  unfolding default_price
  synced_price fp prices st = elim st.nozzle_index [
    | some i ↦ or_default (lookup i prices) st.price
    | none ↦
        if is_idle st.status || is_offline st.status
        then or_default (default_price fp) 0
        else st.price
  ]

  unfoldable pub sync_nozzles_from_config : Call → RuntimeFp Carrier → RuntimeFp Carrier
  unfolding synced_price
  sync_nozzles_from_config c s =
      let prices = prices_of (active_nozzles c.fp_cfg) [] in
      touch c (record s {
        nozzle_prices = prices;
        state = record s.state {
          price = synced_price c.fp_cfg prices s.state;
          nozzle_count = min (length (active_nozzles c.fp_cfg)) 255;
          label = c.fp_cfg.label;
        };
      })

  -- `WayneRuntimeState::default`
  unfoldable pub new_wayne : WayneRuntimeState Carrier
  new_wayne = record {
    stopped_nozzle_up = false;
    preauth_nozzle_confirmed = false;
    preauth_mismatch_active = false;
    preauth_cancel_pending = false;
    unauthorized_alerted = false;
    ghost_recovery = false;
    consecutive_idle_polls = 0;
    pending_authorize_config = false;
    pending_authorize_config_repeat = false;
    preauth_config_on_wire = false;
    config_on_wire_at = none;
    last_wire_hose_code = none;
    last_wire_hose_at_ms = 0;
    pending_holster_close = false;
    pump_sale_complete = false;
    decel_stop_sent_at = none;
    decel_vol_snapshot = of_nat 0;
    decel_frozen_count = 0;
    decel_pending_preset = none;
    decel_pending_stop_source = app;
    startup_ghost_last_meter = none;
    startup_ghost_frozen_count = 0;
    stop_reflow_resent = false;
  }

  -- `RuntimeFp::new`
  unfoldable pub new_runtime : Call → RuntimeFp Carrier
  unfolding new_wayne default_price
  new_runtime c = record {
    missed = 0;
    settle_after_reconnect = c.site.reconnect_settle_rounds;
    current_tx = none;
    nozzle_prices = prices_of (active_nozzles c.fp_cfg) [];
    cap_volume_liters = none;
    cap_amount = none;
    stopped_context = none;
    continuation = none;
    last_preset = str "full";
    pre_auth = none;
    pre_auth_started_at = none;
    auth_session_started_at = none;
    completed_sale = false;
    wayne = new_wayne;
    shelf = record { start_attempted = false; cancel_requested = false };
    bluesky_cancel_wait = none;
    state = record {
      fp_id = c.fp_cfg.id;
      label = c.fp_cfg.label;
      address_byte = c.fp_cfg.address_byte;
      status = offline;
      volume = of_nat 0;
      amount = 0;
      price = or_default (default_price c.fp_cfg) 0;
      nozzle_index = none;
      product_id = none;
      product_name = none;
      product_color = none;
      nozzle_count = min (length (active_nozzles c.fp_cfg)) 255;
      seq = 0;
      missed_polls = 0;
      updated_at = c.now;
      stopped_tx_id = none;
      base_volume = none;
      base_amount = none;
      segment_volume = none;
      segment_amount = none;
      pre_auth_preset = none;
      pre_auth_cancel_wait = none;
      stop_source = none;
    };
  }
