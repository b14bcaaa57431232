-- ===== src/Engine/Steps.antt =====
-- services/dispenser-service/src/engine: the life of a Wayne lane, as the operations of state.rs that
-- the driver protocols/wayne.rs and the service call, and the driver's own writes, in any order.
use Prim.Native.String.{String}
use fuel_station_controller.Base.{ℕ, Bool, Option, List}
use fuel_station_controller.Engine.Float.{Float}
use fuel_station_controller.Engine.Types.{StopSource, Preset, Transaction}
use fuel_station_controller.Engine.Runtime.{RuntimeFp, Call}
use fuel_station_controller.Engine.Session.{
  note_dispenser_poll, mark_preauth_config_on_wire, mark_preauth_cancel_pending,
  clear_unauthorized_state,
}
use fuel_station_controller.Engine.Meters.{
  set_last_preset, clear_decel_window, apply_nozzle_lift_config_sent,
  apply_nozzle_lift_deferred_config,
}
use fuel_station_controller.Engine.Sales.{
  Result, ok, err, close_stopped, enter_stopped_state, rehydrate_stopped_context,
}
use fuel_station_controller.Engine.Holster.{cancel_pre_auth}
use fuel_station_controller.Engine.Commands.{apply_preauthorize_sent, start_delivery_from_pre_auth}
use fuel_station_controller.Engine.Operator.{
  reset_for_operator, operator_dismiss_display, on_poll_success, on_poll_missed, on_reconnect_flush,
  apply_authorize_sent, apply_done_ack, apply_stop, set_nozzle_price, sync_nozzles_from_config,
  new_runtime,
}
use fuel_station_controller.Engine.Frames.{apply_frame}
use fuel_station_controller.Wayne.Frame.{Frame}

-- A refused operation leaves the lane as it is.
abbrev pub lane_after {ℓ} : {A : Type ℓ} → A → Result A → A
lane_after s (ok t) = t
lane_after s (err message) = s

module _ (F : Float) where
  open F use {Carrier}

  -- Prices, label and alert that the driver writes itself.
  abbrev pub written :
      List (ℕ × ℕ) → ℕ → Option String → Bool → RuntimeFp Carrier → RuntimeFp Carrier
  written prices price label alerted s = record s {
    nozzle_prices = prices;
    state = record s.state { price = price; pre_auth_preset = label };
    wayne = record s.wayne { unauthorized_alerted = alerted };
  }

  pub data Step : RuntimeFp Carrier → RuntimeFp Carrier → Type 0 where
    frame : (c : Call) (f : Frame) (s : RuntimeFp Carrier) → Step s (apply_frame F c f s).0
    preauthorize :
        (c : Call) (i price : ℕ) (preset : Preset Carrier) (s : RuntimeFp Carrier)
        → Step s (apply_preauthorize_sent F c i price preset s).0
    start_delivery :
        (c : Call) (s : RuntimeFp Carrier) → Step s (start_delivery_from_pre_auth F c s)
    cancel : (c : Call) (s : RuntimeFp Carrier) → Step s (cancel_pre_auth F c s)
    authorize : (c : Call) (s : RuntimeFp Carrier) → Step s (apply_authorize_sent F c s)
    lift_config : (c : Call) (s : RuntimeFp Carrier) → Step s (apply_nozzle_lift_config_sent F c s)
    deferred_config :
        (c : Call) (s : RuntimeFp Carrier) → Step s (apply_nozzle_lift_deferred_config F c s)
    config_on_wire : (c : Call) (s : RuntimeFp Carrier) → Step s (mark_preauth_config_on_wire c s)
    cancel_pending : (s : RuntimeFp Carrier) → Step s (mark_preauth_cancel_pending s)
    clear_unauthorized : (s : RuntimeFp Carrier) → Step s (clear_unauthorized_state s)
    preset_chosen :
        (preset : Preset Carrier) (s : RuntimeFp Carrier) → Step s (set_last_preset F preset s)
    done_ack : (c : Call) (s : RuntimeFp Carrier) → Step s (apply_done_ack F c s)
    stop :
        (c : Call) (use_window : Bool) (s : RuntimeFp Carrier)
        → Step s (apply_stop F c use_window s).0
    window_cleared : (s : RuntimeFp Carrier) → Step s (clear_decel_window F s)
    pause :
        (c : Call) (preset : Preset Carrier) (source : StopSource) (s : RuntimeFp Carrier)
        → Step s (enter_stopped_state F c preset source s).0
    close :
        (c : Call) (id : String) (s : RuntimeFp Carrier)
        → Step s (lane_after s (close_stopped F c id s))
    dismiss :
        (c : Call) (s : RuntimeFp Carrier) → Step s (lane_after s (operator_dismiss_display F c s))
    reset : (c : Call) (s : RuntimeFp Carrier) → Step s (reset_for_operator F c s)
    rehydrate :
        (c : Call) (tx : Transaction Carrier) (preset : Preset Carrier) (source : StopSource)
        (s : RuntimeFp Carrier)
        → Step s (rehydrate_stopped_context F c tx preset source s)
    poll_success : (c : Call) (s : RuntimeFp Carrier) → Step s (on_poll_success F c s)
    poll_missed :
        (c : Call) (threshold : ℕ) (s : RuntimeFp Carrier)
        → Step s (on_poll_missed F c threshold s).1
    poll_noted : (saw_idle : Bool) (s : RuntimeFp Carrier) → Step s (note_dispenser_poll saw_idle s)
    reconnect : (rounds : ℕ) (s : RuntimeFp Carrier) → Step s (on_reconnect_flush F rounds s)
    price_set :
        (c : Call) (i price : ℕ) (s : RuntimeFp Carrier) → Step s (set_nozzle_price F c i price s).1
    synced : (c : Call) (s : RuntimeFp Carrier) → Step s (sync_nozzles_from_config F c s)
    driver :
        (prices : List (ℕ × ℕ)) (price : ℕ) (label : Option String) (alerted : Bool)
        (s : RuntimeFp Carrier)
        → Step s (written prices price label alerted s)

  pub data Reachable : RuntimeFp Carrier → Type 0 where
    started : (c : Call) → Reachable (new_runtime F c)
    next : {s t : RuntimeFp Carrier} → Reachable s → Step s t → Reachable t
