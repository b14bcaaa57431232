-- ===== src/Engine/Sound/Lift.antt =====
-- services/dispenser-service/src/engine/state.rs: the nozzle-up frame of `apply_frame`.
use fuel_station_controller.Base.{ℕ, false, Option, none, some, ◌≡◌, refl, ◌&&◌, ◌||◌, is_some}
use fuel_station_controller.Engine.Float.{Float}
use fuel_station_controller.Engine.Types.{is_stopped}
use fuel_station_controller.Engine.Runtime.{
  RuntimeFp, Call, StoppedContext, in_session, is_idle, is_nozzle_up, is_done, or_default,
}
use fuel_station_controller.Engine.Session.{
  note_wire_hose, ghost_recovery_active, clear_ghost_recovery, clear_completed_sale_latch,
  clear_continuation_fields, clear_startup_ghost_watch,
}
use fuel_station_controller.Engine.Meters.{zero_delivery_meters, zero_meters}
use fuel_station_controller.Engine.Nozzles.{Product, lookup_nozzle, resolve_wayne_nozzle}
use fuel_station_controller.Engine.Effects.{FrameEffect}
use fuel_station_controller.Engine.Sales.{Outcome, apply_stopped_display}
use fuel_station_controller.Engine.Commands.{same_index}
use fuel_station_controller.Engine.Lift.{
  show_product, lifted_lane, lift_pre_authorized, rearm, lift_continued, lift_stopped, lift_fresh,
  lift_unclaimed, wake, set_seq, apply_nozzle_up,
}
use fuel_station_controller.Engine.Sound.{
  shown, unstopped, continuation_none, carries_sale, quiet, IsConsistent, Holds, Holds-if, IsSound,
  IsSound-if,
}
use fuel_station_controller.Engine.Sound.Commands.{
  IsChecked, passed, cancelled, check_preauth_nozzle-IsChecked,
}

module _ (F : Float) where
  open F use {Carrier}

  lifted_lane-IsConsistent :
      (c : Call) (i : ℕ) (found : Product) (s : RuntimeFp Carrier)
      → IsConsistent F s
      → IsConsistent F (lifted_lane F c i found s)
  unfolding lifted_lane show_product zero_delivery_meters zero_meters clear_continuation_fields
      clear_startup_ghost_watch is_stopped
  lifted_lane-IsConsistent c i found s h = unstopped h refl

  -- A checked lift: the lane that goes on, with its quiet effect, or the cancelled one.
  pub IsSound-checked :
      {o : Option (Outcome F)} {cancel : RuntimeFp Carrier → FrameEffect Carrier → Outcome F}
      {next : Outcome F}
      → IsChecked F o
      → ((s : RuntimeFp Carrier) (e : FrameEffect Carrier)
          → IsConsistent F s
          → carries_sale e ≡ false
          → IsSound F (cancel s e))
      → IsSound F next
      → IsSound F (elim o [ some (s, e) ↦ cancel s e | none ↦ next ])
  IsSound-checked passed hc hn = hn
  IsSound-checked (cancelled h q) hc hn = hc _ _ h q

  lift_pre_authorized-IsSound :
      (c : Call) (prod nozzle : ℕ) (s : RuntimeFp Carrier)
      → IsConsistent F s
      → IsSound F (lift_pre_authorized F c prod nozzle s)
  unfolding lift_pre_authorized zero_delivery_meters zero_meters clear_continuation_fields
      clear_startup_ghost_watch is_stopped
  lift_pre_authorized-IsSound c prod nozzle s h =
      IsSound-checked (check_preauth_nozzle-IsChecked F c prod nozzle s h)
        (λ t e k q. record { consistent = k; recorded = quiet q })
        (record { consistent = unstopped h refl; recorded = quiet refl })

  rearm-Holds : (s : RuntimeFp Carrier) → IsConsistent F s → Holds F (rearm F s)
  unfolding rearm is_stopped
  rearm-Holds s h =
      Holds-if F
        ((is_idle s.state.status || is_nozzle_up s.state.status) || is_stopped s.state.status)
        (record { displays = unstopped h refl }) (record { displays = h })

  lift_continued-IsSound :
      (c : Call) (s : RuntimeFp Carrier) → IsConsistent F s → IsSound F (lift_continued F c s)
  unfolding lift_continued show_product
  lift_continued-IsSound c s h =
      let i = or_default s.state.nozzle_index 1 in
      record {
        consistent =
            (rearm-Holds (show_product F i (lookup_nozzle c.site c.fp_cfg i) s) h).displays;
        recorded = quiet refl;
      }

  -- The display of the stopped sale, for a lane that keeps its context.
  stopped_option-IsSound :
      (c : Call) (o : Option (StoppedContext Carrier)) (s : RuntimeFp Carrier) (next : Outcome F)
      → s.stopped_context ≡ o
      → IsConsistent F s
      → IsSound F next
      → IsSound F (elim o [ some sc ↦ lift_stopped F c sc s | none ↦ next ])
  unfolding lift_stopped apply_stopped_display show_product
  stopped_option-IsSound c none s next e h hn = hn
  stopped_option-IsSound c (some sc) s next e h hn =
      let k : s.continuation ≡ none = continuation_none h in
      record { consistent = rw e (rw k (shown sc)); recorded = quiet refl }

  lift_fresh-IsSound :
      (c : Call) (found : ℕ × Product) (s : RuntimeFp Carrier)
      → IsConsistent F s
      → IsSound F (lift_fresh F c found s)
  unfolding lift_fresh
  lift_fresh-IsSound c (i, found) s h =
      let up = lifted_lane-IsConsistent c i found s h in
      IsSound-if F
        (is_nozzle_up s.state.status
          && (same_index F s.state.nozzle_index i && same_index F s.state.product_id found.1.0))
        (record { consistent = up; recorded = quiet refl })
        (record { consistent = up; recorded = quiet refl })

  lift_unclaimed-IsSound :
      (c : Call) (found : ℕ × Product) (s : RuntimeFp Carrier)
      → IsConsistent F s
      → IsSound F (lift_unclaimed F c found s)
  unfolding lift_unclaimed
  lift_unclaimed-IsSound c found s h =
      IsSound-if F (is_some s.continuation) (lift_continued-IsSound c s h) (
        stopped_option-IsSound c s.stopped_context s (lift_fresh F c found s) refl h
          (lift_fresh-IsSound c found s h))

  wake-Holds : (s : RuntimeFp Carrier) → IsConsistent F s → Holds F (wake F s)
  unfolding wake clear_ghost_recovery
  wake-Holds s h =
      Holds-if F (ghost_recovery_active s) (record { displays = h }) (record { displays = h })

  pub apply_nozzle_up-IsSound :
      (c : Call) (seq prod nozzle : ℕ) (s : RuntimeFp Carrier)
      → IsConsistent F s
      → IsSound F (apply_nozzle_up F c seq prod nozzle s)
  unfolding apply_nozzle_up clear_completed_sale_latch note_wire_hose
  apply_nozzle_up-IsSound c seq prod nozzle s h =
      let noted = note_wire_hose c nozzle s in
      let found = resolve_wayne_nozzle c.site c.fp_cfg prod nozzle in
      let awake = (wake-Holds noted h).displays in
      IsSound-if F (is_done s.state.status)
        (record {
          consistent =
              lifted_lane-IsConsistent c found.0 found.1 (clear_completed_sale_latch noted) h;
          recorded = quiet refl;
        })
        (IsSound-if F (in_session s.state.status)
          (record { consistent = awake; recorded = quiet refl })
          (IsSound-if F (is_some s.pre_auth)
            (lift_pre_authorized-IsSound c prod nozzle (set_seq F seq (wake F noted)) awake)
            (lift_unclaimed-IsSound c found (set_seq F seq (wake F noted)) awake)))
