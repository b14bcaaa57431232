-- ===== src/Engine/Sound/Reached.antt =====
-- services/dispenser-service/src/engine/state.rs: what holds of every lane that the operations reach.
use Prim.Native.String.{String}
use fuel_station_controller.Base.{
  ◌⊎◌, inl, inr, Bool, true, false, Option, none, some, ◌≡◌, refl, sym, ◌∙◌, ap, not, leb,
  if◌then◌else◌,
}
use fuel_station_controller.Engine.Float.{Float}
use fuel_station_controller.Engine.Types.{
  FpState, FpStatus, offline, idle, pre_authorized, nozzle_up, authorizing, delivering, finalizing,
  done, stopped, is_stopped,
}
use fuel_station_controller.Engine.Runtime.{
  RuntimeFp, StoppedContext, CurrentTx, Call, in_session, count_up, ghost_recovery_idle_polls,
}
use fuel_station_controller.Engine.Session.{
  note_dispenser_poll, clear_deliver_caps, clear_continuation_fields, clear_completed_sale_latch,
  clear_unauthorized_state, clear_ghost_recovery, clear_startup_ghost_watch,
  mark_preauth_config_on_wire, mark_preauth_cancel_pending,
}
use fuel_station_controller.Engine.Meters.{
  set_last_preset, clear_decel_window, zero_meters, zero_delivery_meters, forget_nozzle,
  apply_nozzle_lift_config_sent, apply_nozzle_lift_deferred_config,
}
use fuel_station_controller.Engine.Sales.{ok, err, close_stopped, closed_lane}
use fuel_station_controller.Engine.Operator.{
  reset_for_operator, dismiss_by_status, operator_dismiss_display, on_poll_success,
  on_reconnect_flush, apply_done_ack, sync_nozzles_from_config, new_runtime,
}
use fuel_station_controller.Engine.Frames.{apply_frame}
use fuel_station_controller.Engine.Steps.{
  lane_after, Step, frame, preauthorize, start_delivery, cancel, authorize, lift_config,
  deferred_config, config_on_wire, cancel_pending, clear_unauthorized, preset_chosen, done_ack,
  stop, window_cleared, pause, close, dismiss, reset, rehydrate, poll_success, poll_missed,
  poll_noted, reconnect, price_set, synced, driver, Reachable, started, next,
}
use fuel_station_controller.Engine.Sound.{
  Displays, plain, unstopped, Recorded, quiet, billed, closed, sale_of, carries_sale, IsConsistent,
  Holds, Holds-if, HoldsAt, HoldsAt-if,
}
use fuel_station_controller.Engine.Sound.Sales.{enter_stopped_state-IsSound}
use fuel_station_controller.Engine.Sound.Holster.{cancel_pre_auth-IsConsistent}
use fuel_station_controller.Engine.Sound.Commands.{
  caps-IsConsistent, apply_preauthorize_sent-IsConsistent,
  start_delivery_from_pre_auth-IsConsistent, apply_stop-IsConsistent, on_poll_missed-IsConsistent,
  apply_authorize_sent-IsConsistent, set_nozzle_price-IsConsistent, rehydrate-IsConsistent,
}
use fuel_station_controller.Engine.Sound.Frames.{apply_frame-IsSound}
use text.Mathlib.Text.{◌==◌ as str_eq}
use mathlib.Core.Bool.{true≢false}
use fuel_station_controller.Engine.Effects.{FrameEffect}
use fuel_station_controller.Wayne.Frame.{Frame}

module _ (F : Float) where
  open F use {Carrier}

  reset_for_operator-IsConsistent :
      (c : Call) (s : RuntimeFp Carrier) → IsConsistent F (reset_for_operator F c s)
  unfolding reset_for_operator clear_deliver_caps clear_decel_window clear_completed_sale_latch
      clear_unauthorized_state clear_ghost_recovery clear_continuation_fields zero_meters
      forget_nozzle is_stopped
  reset_for_operator-IsConsistent c s = plain refl

  closed_lane-IsConsistent : (c : Call) (s : RuntimeFp Carrier) → IsConsistent F (closed_lane F c s)
  unfolding closed_lane clear_deliver_caps clear_continuation_fields zero_meters is_stopped
  closed_lane-IsConsistent c s = plain refl

  closed_option-HoldsAt :
      (c : Call) (id : String) (o : Option (StoppedContext Carrier)) (s : RuntimeFp Carrier)
      → IsConsistent F s
      → HoldsAt F (lane_after s) (elim o [
        | none ↦ err "lane is not stopped"
        | some sc ↦
            if not (str_eq sc.stopped_tx_id id)
            then err "stopped_tx_id does not match this lane"
            else ok (closed_lane F c s)
      ])
  closed_option-HoldsAt c id none s h = record { lane_displays = h }
  closed_option-HoldsAt c id (some sc) s h =
      HoldsAt-if F (not (str_eq sc.stopped_tx_id id)) (record { lane_displays = h })
        (record { lane_displays = closed_lane-IsConsistent c s })

  close_stopped-IsConsistent :
      (c : Call) (id : String) (s : RuntimeFp Carrier)
      → IsConsistent F s
      → IsConsistent F (lane_after s (close_stopped F c id s))
  unfolding close_stopped
  close_stopped-IsConsistent c id s h =
      (closed_option-HoldsAt c id s.stopped_context s h).lane_displays

  dismiss-IsConsistent :
      (c : Call) (st : FpStatus Carrier) (s : RuntimeFp Carrier)
      → IsConsistent F s
      → IsConsistent F (lane_after s (dismiss_by_status F c s st))
  unfolding dismiss_by_status
  dismiss-IsConsistent c done s h = reset_for_operator-IsConsistent c s
  dismiss-IsConsistent c idle s h = reset_for_operator-IsConsistent c s
  dismiss-IsConsistent c offline s h = reset_for_operator-IsConsistent c s
  dismiss-IsConsistent c (stopped v a id source) s h = h
  dismiss-IsConsistent c pre_authorized s h = h
  dismiss-IsConsistent c nozzle_up s h = h
  dismiss-IsConsistent c authorizing s h = h
  dismiss-IsConsistent c delivering s h = h
  dismiss-IsConsistent c finalizing s h = h

  lift_config-IsConsistent :
      (c : Call) (s : RuntimeFp Carrier)
      → IsConsistent F s
      → IsConsistent F (apply_nozzle_lift_config_sent F c s)
  unfolding apply_nozzle_lift_config_sent zero_delivery_meters clear_continuation_fields
      clear_startup_ghost_watch zero_meters is_stopped
  lift_config-IsConsistent c s h =
      unstopped
        ((Holds-if F (not (in_session s.state.status)) {s = zero_delivery_meters F s} {t = s}
          (record { displays = h }) (record { displays = h })).displays)
        refl

  noted-Holds :
      (b : Bool) (s : RuntimeFp Carrier) → IsConsistent F s → Holds F (note_dispenser_poll b s)
  unfolding note_dispenser_poll
  noted-Holds b s h =
      Holds-if F (not s.wayne.ghost_recovery) (record { displays = h })
        (Holds-if F b
          (Holds-if F (leb ghost_recovery_idle_polls (count_up s.wayne.consecutive_idle_polls))
            (record { displays = h }) (record { displays = h }))
          (record { displays = h }))

  Step-IsConsistent : {s t : RuntimeFp Carrier} → Step F s t → IsConsistent F s → IsConsistent F t
  unfolding clear_deliver_caps clear_decel_window clear_unauthorized_state
      mark_preauth_config_on_wire mark_preauth_cancel_pending set_last_preset apply_done_ack
      on_poll_success on_reconnect_flush sync_nozzles_from_config operator_dismiss_display
      apply_nozzle_lift_deferred_config zero_delivery_meters clear_continuation_fields
      clear_startup_ghost_watch zero_meters is_stopped
  Step-IsConsistent (frame c f s) h = (apply_frame-IsSound F c f s h).consistent
  Step-IsConsistent (preauthorize c i price preset s) h =
      apply_preauthorize_sent-IsConsistent F c i price preset s h
  Step-IsConsistent (start_delivery c s) h = start_delivery_from_pre_auth-IsConsistent F c s h
  Step-IsConsistent (cancel c s) h = cancel_pre_auth-IsConsistent F c s h
  Step-IsConsistent (authorize c s) h = apply_authorize_sent-IsConsistent F c s h
  Step-IsConsistent (lift_config c s) h = lift_config-IsConsistent c s h
  Step-IsConsistent (deferred_config c s) h = unstopped h refl
  Step-IsConsistent (config_on_wire c s) h = h
  Step-IsConsistent (cancel_pending s) h = h
  Step-IsConsistent (clear_unauthorized s) h = h
  Step-IsConsistent (preset_chosen preset s) h = caps-IsConsistent F preset s h
  Step-IsConsistent (done_ack c s) h = h
  Step-IsConsistent (stop c b s) h = apply_stop-IsConsistent F c b s h
  Step-IsConsistent (window_cleared s) h = h
  Step-IsConsistent (pause c preset source s) h =
      (enter_stopped_state-IsSound F c preset source s h).consistent
  Step-IsConsistent (close c id s) h = close_stopped-IsConsistent c id s h
  Step-IsConsistent (dismiss c s) h = dismiss-IsConsistent c s.state.status s h
  Step-IsConsistent (reset c s) h = reset_for_operator-IsConsistent c s
  Step-IsConsistent (rehydrate c tx preset source s) h =
      rehydrate-IsConsistent F c tx preset source s
  Step-IsConsistent (poll_success c s) h = h
  Step-IsConsistent (poll_missed c threshold s) h = on_poll_missed-IsConsistent F c threshold s h
  Step-IsConsistent (poll_noted b s) h = (noted-Holds b s h).displays
  Step-IsConsistent (reconnect rounds s) h = h
  Step-IsConsistent (price_set c i price s) h = set_nozzle_price-IsConsistent F c i price s h
  Step-IsConsistent (synced c s) h = h
  Step-IsConsistent (driver prices price label alerted s) h = h

  new_runtime-IsConsistent : (c : Call) → IsConsistent F (new_runtime F c)
  unfolding new_runtime is_stopped
  new_runtime-IsConsistent c = plain refl

-- In every lane that the operations reach, no fill is continued, and a stopped lane shows exactly the
-- sale that its stopped context keeps.
pub Reachable-Displays :
    (F : Float) (s : RuntimeFp F.Carrier)
    → Reachable F s
    → Displays F.Carrier s.state.status s.stopped_context s.continuation
Reachable-Displays F s (started c) = new_runtime-IsConsistent F c
Reachable-Displays F s (next {s = before} r step) =
    Step-IsConsistent F step (Reachable-Displays F before r)

-- The sale that an effect records is the one in the display, or the lane is idle.
abbrev pub Bills : (V : Type 0) → FrameEffect V → FpState V → Type 0
Bills V e st =
    (st.status ≡ idle) ⊎ (sale_of e ≡ some ((st.volume, st.amount), (st.volume, st.amount)))

Recorded-Bills :
    {V : Type 0} {e : FrameEffect V} {tx : Option CurrentTx} {st : FpState V}
    → Recorded V e tx st
    → carries_sale e ≡ true
    → (tx ≡ none) × ((in_session st.status ≡ false) × Bills V e st)
Recorded-Bills (quiet q) h = absurd (true≢false (sym h ∙ q))
Recorded-Bills (billed q b) h = (refl, (q, inr b))
Recorded-Bills (closed e) h = (refl, (ap in_session e, inl e))

-- When a frame makes a reachable lane record a sale, then the lane holds no transaction and is in no
-- session afterwards, and it is idle or it shows exactly the volume and the amount of the recorded sale,
-- which are also the sale's combined totals.
pub apply_frame_records_once :
    (F : Float) (c : Call) (f : Frame) (s : RuntimeFp F.Carrier)
    → Reachable F s
    → carries_sale (apply_frame F c f s).1 ≡ true
    → ((apply_frame F c f s).0.current_tx ≡ none)
      × ((in_session (apply_frame F c f s).0.state.status ≡ false)
          × Bills F.Carrier (apply_frame F c f s).1 (apply_frame F c f s).0.state)
apply_frame_records_once F c f s r =
    Recorded-Bills (apply_frame-IsSound F c f s (Reachable-Displays F s r)).recorded
