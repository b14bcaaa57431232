-- ===== src/Engine/Sound/Sales.antt =====
-- services/dispenser-service/src/engine/state.rs: the operations that close, stop and finalize a sale.
use fuel_station_controller.Base.{◌≡◌, Bool, none, refl}
use fuel_station_controller.Engine.Float.{Float}
use fuel_station_controller.Engine.Types.{StopSource, is_stopped, Preset}
use fuel_station_controller.Engine.Runtime.{RuntimeFp, Call, or_default}
use fuel_station_controller.Engine.Session.{
  clear_deliver_caps, clear_continuation_fields, clear_unauthorized_state, enter_ghost_recovery,
}
use fuel_station_controller.Engine.Meters.{
  clear_decel_window, reset_to_idle, cancel_zero_volume_session, zero_meters, forget_nozzle,
  no_fuel,
}
use fuel_station_controller.Engine.Effects.{FrameEffect}
use fuel_station_controller.Engine.Sales.{
  finish_transaction_with_totals, close_transaction, end_sale_from_holster_early,
  complete_sale_from_holster, apply_stopped_display, enter_stopped_state,
}
use fuel_station_controller.Engine.Stopped.{
  finalize_stopped_sale, commit_decel, commit_decel_or_ghost,
}
use fuel_station_controller.Engine.Sound.{
  plain, shown, quiet, billed, closed, continuation_none, IsConsistent, IsSound, IsSound-if,
}

module _ (F : Float) where
  open F use {Carrier}

  pub end_sale_from_holster_early-IsSound :
      (c : Call) (s : RuntimeFp Carrier)
      → IsConsistent F s
      → IsSound F (end_sale_from_holster_early F c s)
  unfolding end_sale_from_holster_early close_transaction finish_transaction_with_totals
      clear_deliver_caps is_stopped
  end_sale_from_holster_early-IsSound c s h = record {
    consistent = plain refl;
    recorded = billed refl (let k : s.continuation ≡ none = continuation_none h in rw k refl);
  }

  pub complete_sale_from_holster-IsSound :
      (c : Call) (s : RuntimeFp Carrier)
      → IsConsistent F s
      → IsSound F (complete_sale_from_holster F c s)
  unfolding complete_sale_from_holster close_transaction finish_transaction_with_totals
      clear_deliver_caps clear_decel_window is_stopped
  complete_sale_from_holster-IsSound c s h = record {
    consistent = plain refl;
    recorded = billed refl (let k : s.continuation ≡ none = continuation_none h in rw k refl);
  }

  pub enter_stopped_state-IsSound :
      (c : Call) (preset : Preset Carrier) (source : StopSource) (s : RuntimeFp Carrier)
      → IsConsistent F s
      → IsSound F (enter_stopped_state F c preset source s)
  unfolding enter_stopped_state finish_transaction_with_totals clear_deliver_caps
      apply_stopped_display
  enter_stopped_state-IsSound c preset source s h = record {
    consistent = shown _;
    recorded = billed refl (let k : s.continuation ≡ none = continuation_none h in rw k refl);
  }

  pub finalize_stopped_sale-IsSound :
      (c : Call) (b : Bool) (s : RuntimeFp Carrier) (e : FrameEffect Carrier)
      → IsSound F ((finalize_stopped_sale F c b s).0, e)
  unfolding finalize_stopped_sale reset_to_idle clear_deliver_caps clear_decel_window
      clear_continuation_fields clear_unauthorized_state zero_meters forget_nozzle is_stopped
  finalize_stopped_sale-IsSound c b s e = record { consistent = plain refl; recorded = closed refl }

  pub commit_decel-IsSound :
      (c : Call) (s : RuntimeFp Carrier) → IsConsistent F s → IsSound F (commit_decel F c s)
  unfolding commit_decel
  commit_decel-IsSound c s h =
      enter_stopped_state-IsSound c (or_default s.wayne.decel_pending_preset s.last_preset)
        s.wayne.decel_pending_stop_source (clear_decel_window F s) h

  -- A reset lane is consistent whatever it was.
  pub reset-IsConsistent : (s : RuntimeFp Carrier) → IsConsistent F (reset_to_idle F s)
  unfolding reset_to_idle clear_deliver_caps clear_decel_window clear_continuation_fields
      clear_unauthorized_state zero_meters forget_nozzle is_stopped
  reset-IsConsistent s = plain refl

  pub cancel_zero_volume_session-IsConsistent :
      (s : RuntimeFp Carrier) → IsConsistent F (cancel_zero_volume_session F s)
  unfolding cancel_zero_volume_session enter_ghost_recovery
  cancel_zero_volume_session-IsConsistent s =
      reset-IsConsistent (record (clear_deliver_caps s) { current_tx = none })

  pub commit_decel_or_ghost-IsSound :
      (c : Call) (s : RuntimeFp Carrier)
      → IsConsistent F s
      → IsSound F (commit_decel_or_ghost F c s)
  unfolding commit_decel_or_ghost
  commit_decel_or_ghost-IsSound c s h =
      IsSound-if F (no_fuel F s)
        (record {
          consistent = (cancel_zero_volume_session-IsConsistent (clear_decel_window F s));
          recorded = quiet refl;
        })
        (commit_decel-IsSound c s h)
