-- ===== src/Engine/Meters.antt =====
-- services/dispenser-service/src/engine/state.rs: the meters, caps and totals of a lane, and the
-- resets of a session.
use fuel_station_controller.Base.{
  ℕ, ◌+◌, Bool, true, false, ◌&&◌, ◌||◌, not, Option, none, some, ltb, leb, ◌==◌, if◌then◌else◌,
}
use fuel_station_controller.Engine.Float.{Float}
use fuel_station_controller.Engine.Types.{
  idle, nozzle_up, authorizing, Preset, str, amount, volume, is_full,
}
use fuel_station_controller.Engine.Runtime.{
  RuntimeFp, Call, touch, set_status, in_session, count_up, startup_ghost_frozen_frame_threshold,
}
use fuel_station_controller.Engine.Session.{
  clear_deliver_caps, clear_continuation_fields, clear_startup_ghost_watch,
  clear_unauthorized_state, enter_ghost_recovery, active_nozzle_price,
}

module _ (F : Float) where
  open F use {Carrier, of_nat, decimal, add, sub, mul, abs, less, at_most, round}

  unfoldable pub clear_decel_window : RuntimeFp Carrier → RuntimeFp Carrier
  clear_decel_window s = record s {
    wayne = record s.wayne {
      decel_stop_sent_at = none;
      decel_vol_snapshot = of_nat 0;
      decel_frozen_count = 0;
      decel_pending_preset = none;
    };
  }

  unfoldable pub set_deliver_caps_from_preset :
      Preset Carrier → RuntimeFp Carrier → RuntimeFp Carrier
  unfolding clear_deliver_caps
  set_deliver_caps_from_preset (str t) s = clear_deliver_caps s
  set_deliver_caps_from_preset (volume v) s =
      let cleared = clear_deliver_caps s in
      if less (of_nat 0) v then record cleared { cap_volume_liters = some v } else cleared
  set_deliver_caps_from_preset (amount a) s =
      let cleared = clear_deliver_caps s in
      if ltb 0 a then record cleared { cap_amount = some a } else cleared

  unfoldable pub set_last_preset : Preset Carrier → RuntimeFp Carrier → RuntimeFp Carrier
  unfolding set_deliver_caps_from_preset
  set_last_preset preset s = record (set_deliver_caps_from_preset preset s) { last_preset = preset }

  unfoldable pub zero_meters : RuntimeFp Carrier → RuntimeFp Carrier
  zero_meters s = record s { state = record s.state { volume = of_nat 0; amount = 0 } }

  unfoldable pub zero_delivery_meters : RuntimeFp Carrier → RuntimeFp Carrier
  unfolding clear_continuation_fields zero_meters clear_startup_ghost_watch
  zero_delivery_meters s = clear_startup_ghost_watch (zero_meters (clear_continuation_fields s))

  unfoldable pub amount_from_volume : Carrier → RuntimeFp Carrier → ℕ
  unfolding active_nozzle_price
  amount_from_volume vol s = round (mul vol (of_nat (active_nozzle_price s)))

  unfoldable pub metered_amount : Carrier → ℕ → RuntimeFp Carrier → ℕ
  unfolding amount_from_volume
  metered_amount vol pump_amount s = elim s.last_preset [
    | amount a ↦ if ltb 0 pump_amount then pump_amount else amount_from_volume vol s
    | str t ↦ amount_from_volume vol s
    | volume v ↦ amount_from_volume vol s
  ]

  unfoldable pub apply_metering : Carrier → ℕ → RuntimeFp Carrier → RuntimeFp Carrier
  apply_metering raw_vol raw_amt s = elim s.continuation [
    | some k ↦ record s {
      continuation = some (record k { segment_volume = raw_vol; segment_amount = raw_amt });
      state = record s.state {
        segment_volume = some raw_vol;
        segment_amount = some raw_amt;
        base_volume = some (k.base_volume);
        base_amount = some (k.base_amount);
        volume = add k.base_volume raw_vol;
        amount = k.base_amount + raw_amt;
      };
    }
    | none ↦ record s {
      state = record s.state {
        segment_volume = none;
        segment_amount = none;
        base_volume = none;
        base_amount = none;
        volume = raw_vol;
        amount = raw_amt;
      };
    }
  ]

  abbrev same_meter : Option (Carrier × ℕ) → Carrier → ℕ → Bool
  same_meter none raw_vol raw_amt = false
  same_meter (some (last_vol, last_amt)) raw_vol raw_amt =
      less (abs (sub last_vol raw_vol)) (decimal 1 6) && last_amt == raw_amt

  -- Whether the counter is frozen, and the runtime with its watch updated.
  unfoldable pub startup_ghost_frozen : Carrier → ℕ → RuntimeFp Carrier → Bool × RuntimeFp Carrier
  unfolding clear_startup_ghost_watch
  startup_ghost_frozen raw_vol raw_amt s =
      let count =
        if same_meter s.wayne.startup_ghost_last_meter raw_vol raw_amt
        then count_up s.wayne.startup_ghost_frozen_count
        else 1 in
      let last =
        if same_meter s.wayne.startup_ghost_last_meter raw_vol raw_amt
        then s.wayne.startup_ghost_last_meter
        else some (raw_vol, raw_amt) in
      if at_most raw_vol (decimal 1 6) || less (decimal 5 2) raw_vol
      then (false, clear_startup_ghost_watch s)
      else (
        leb startup_ghost_frozen_frame_threshold count,
        record s {
          wayne = record s.wayne {
            startup_ghost_last_meter = last;
            startup_ghost_frozen_count = count;
          };
        },
      )

  unfoldable pub combined_totals : RuntimeFp Carrier → Carrier × ℕ
  combined_totals s = elim s.continuation [
    | some k ↦ (add k.base_volume k.segment_volume, k.base_amount + k.segment_amount)
    | none ↦ (s.state.volume, s.state.amount)
  ]

  unfoldable pub segment_totals : RuntimeFp Carrier → Carrier × ℕ
  segment_totals s = elim s.continuation [
    | some k ↦ (k.segment_volume, k.segment_amount)
    | none ↦ (s.state.volume, s.state.amount)
  ]

  -- `vol < 0.01 && amt == 0`
  unfoldable pub no_fuel : RuntimeFp Carrier → Bool
  unfolding combined_totals
  no_fuel s = less (combined_totals s).0 (decimal 1 2) && (combined_totals s).1 == 0

  unfoldable pub sale_target_met : RuntimeFp Carrier → Bool
  unfolding combined_totals is_full
  sale_target_met s = if is_full s.last_preset then true else elim s.cap_volume_liters [
    | some cap ↦ at_most cap (add (combined_totals s).0 (decimal 1 6))
    | none ↦ elim s.cap_amount [ some cap ↦ leb cap (combined_totals s).1 | none ↦ true ]
  ]

  unfoldable pub holster_ends_sale_early : RuntimeFp Carrier → Bool
  unfolding combined_totals sale_target_met
  holster_ends_sale_early s =
      if s.wayne.pump_sale_complete
      then false
      else less (decimal 1 2) (combined_totals s).0 && not (sale_target_met s)

  -- The display without a nozzle.
  unfoldable pub forget_nozzle : RuntimeFp Carrier → RuntimeFp Carrier
  forget_nozzle s = record s {
    state = record s.state {
      nozzle_index = none;
      product_id = none;
      product_name = none;
      product_color = none;
    };
  }

  unfoldable pub reset_to_idle : RuntimeFp Carrier → RuntimeFp Carrier
  unfolding clear_deliver_caps clear_decel_window clear_continuation_fields clear_unauthorized_state
      zero_meters forget_nozzle
  reset_to_idle s =
      let dropped = record s {
        stopped_context = none;
        continuation = none;
        current_tx = none;
        pre_auth = none;
        pre_auth_started_at = none;
        auth_session_started_at = none;
        wayne = record s.wayne {
          stopped_nozzle_up = false;
          pending_authorize_config = false;
          pending_authorize_config_repeat = false;
          preauth_config_on_wire = false;
          config_on_wire_at = none;
          last_wire_hose_code = none;
          last_wire_hose_at_ms = 0;
        };
      } in
      let cleared =
        clear_unauthorized_state
          (clear_continuation_fields (clear_decel_window (clear_deliver_caps dropped))) in
      forget_nozzle (
        zero_meters (record cleared {
          wayne = record cleared.wayne {
            pending_holster_close = false;
            pump_sale_complete = false;
            stop_reflow_resent = false;
          };
          state = record cleared.state {
            status = idle;
            stop_source = none;
            pre_auth_preset = none;
          };
        }))

  unfoldable pub cancel_zero_volume_session : RuntimeFp Carrier → RuntimeFp Carrier
  unfolding clear_deliver_caps reset_to_idle enter_ghost_recovery
  cancel_zero_volume_session s =
      enter_ghost_recovery (reset_to_idle (record (clear_deliver_caps s) { current_tx = none }))

  unfoldable pub cancel_startup_ghost_keep_nozzle_up : RuntimeFp Carrier → RuntimeFp Carrier
  unfolding clear_deliver_caps clear_decel_window clear_continuation_fields clear_unauthorized_state
      zero_meters clear_startup_ghost_watch enter_ghost_recovery
  cancel_startup_ghost_keep_nozzle_up s =
      let cleared =
        clear_unauthorized_state
          (clear_continuation_fields (clear_decel_window (clear_deliver_caps s))) in
      let dropped = record cleared {
        current_tx = none;
        pre_auth = none;
        pre_auth_started_at = none;
        auth_session_started_at = none;
        wayne = record cleared.wayne {
          pending_authorize_config = false;
          pending_authorize_config_repeat = false;
          preauth_config_on_wire = false;
          pending_holster_close = false;
          pump_sale_complete = false;
        };
        state = record cleared.state {
          status = nozzle_up;
          stop_source = none;
          pre_auth_preset = none;
        };
      } in
      enter_ghost_recovery (clear_startup_ghost_watch (zero_meters dropped))

  unfoldable pub apply_nozzle_lift_config_sent : Call → RuntimeFp Carrier → RuntimeFp Carrier
  unfolding zero_delivery_meters
  apply_nozzle_lift_config_sent c s =
      let zeroed = if not (in_session s.state.status) then zero_delivery_meters s else s in
      touch c (
        set_status authorizing (record zeroed {
          auth_session_started_at = some c.now;
          wayne = record zeroed.wayne {
            pending_authorize_config = false;
            pending_authorize_config_repeat = false;
            preauth_config_on_wire = true;
          };
        }))

  unfoldable pub apply_nozzle_lift_deferred_config : Call → RuntimeFp Carrier → RuntimeFp Carrier
  unfolding zero_delivery_meters
  apply_nozzle_lift_deferred_config c s =
      let zeroed = zero_delivery_meters s in
      touch c (
        set_status authorizing (record zeroed {
          auth_session_started_at = some c.now;
          wayne = record zeroed.wayne {
            pending_authorize_config = false;
            pending_authorize_config_repeat = true;
            preauth_config_on_wire = false;
          };
        }))
