-- ===== src/Engine/StopTwice.antt =====
-- services/dispenser-service/src/engine/state.rs, `apply_stop`: a second stop.
use fuel_station_controller.Base.{
  Bool, true, false, Option, none, ◌≡◌, refl, ◌&&◌, ◌||◌, is_some, if◌then◌else◌,
}
use fuel_station_controller.Engine.Float.{Float}
use fuel_station_controller.Engine.Types.{app_final, is_stopped}
use fuel_station_controller.Engine.Runtime.{RuntimeFp, Call, in_session, is_pre_authorized}
use fuel_station_controller.Engine.Session.{
  in_decel_window, clear_deliver_caps, clear_ghost_recovery, clear_continuation_fields,
  clear_startup_ghost_watch,
}
use fuel_station_controller.Engine.Meters.{zero_delivery_meters, zero_meters, forget_nozzle}
use fuel_station_controller.Engine.Effects.{FrameEffect}
use fuel_station_controller.Engine.Sales.{
  enter_stopped_state, finish_transaction_with_totals, apply_stopped_display,
}
use fuel_station_controller.Engine.Holster.{cancel_pre_auth}
use fuel_station_controller.Engine.Operator.{apply_stop, open_decel_window}

module _ (F : Float) where
  open F use {Carrier}

  -- A further stop, of the call `c`, does nothing to the lane that an operation leaves.
  record IsSettled (c : Call) (b : Bool) (o : RuntimeFp Carrier × Option (FrameEffect Carrier))
      : Type 0 where
    again : apply_stop F c b o.0 ≡ (o.0, none)

  IsSettled-if :
      {c : Call} {b : Bool} (d : Bool) {o p : RuntimeFp Carrier × Option (FrameEffect Carrier)}
      → (d ≡ true → IsSettled c b o)
      → (d ≡ false → IsSettled c b p)
      → IsSettled c b (if d then o else p)
  IsSettled-if true ho hp = ho refl
  IsSettled-if false ho hp = hp refl

  stopped-IsSettled :
      (c : Call) (b : Bool) (s : RuntimeFp Carrier) (o : Option (FrameEffect Carrier))
      → is_pre_authorized s.state.status ≡ false
      → (is_stopped s.state.status && is_some s.stopped_context) ≡ true
      → IsSettled c b (s, o)
  unfolding apply_stop
  stopped-IsSettled c b s o e k = record { again = rw e (rw k refl) }

  idle-IsSettled :
      (c : Call) (b : Bool) (s : RuntimeFp Carrier) (o : Option (FrameEffect Carrier))
      → is_pre_authorized s.state.status ≡ false
      → (is_stopped s.state.status && is_some s.stopped_context) ≡ false
      → (in_session s.state.status || is_some s.current_tx) ≡ false
      → IsSettled c b (s, o)
  unfolding apply_stop
  idle-IsSettled c b s o e k j = record { again = rw e (rw k (rw j refl)) }

  window-IsSettled :
      (c : Call) (s : RuntimeFp Carrier) (o : Option (FrameEffect Carrier))
      → is_pre_authorized s.state.status ≡ false
      → (is_stopped s.state.status && is_some s.stopped_context) ≡ false
      → (in_session s.state.status || is_some s.current_tx) ≡ true
      → in_decel_window s ≡ true
      → IsSettled c true (s, o)
  unfolding apply_stop
  window-IsSettled c s o e k j w = record { again = rw e (rw k (rw j (rw w refl))) }

  cancelled-IsSettled :
      (c d : Call) (b : Bool) (s : RuntimeFp Carrier) (o : Option (FrameEffect Carrier))
      → IsSettled d b (cancel_pre_auth F c s, o)
  unfolding cancel_pre_auth clear_ghost_recovery clear_deliver_caps zero_delivery_meters zero_meters
      clear_continuation_fields clear_startup_ghost_watch forget_nozzle is_stopped
  cancelled-IsSettled c d b s o = idle-IsSettled d b (cancel_pre_auth F c s) o refl refl refl

  paused-IsSettled :
      (c d : Call) (s : RuntimeFp Carrier) (o : Option (FrameEffect Carrier))
      → IsSettled d false ((enter_stopped_state F c s.last_preset app_final s).0, o)
  unfolding enter_stopped_state finish_transaction_with_totals apply_stopped_display
      clear_deliver_caps is_stopped
  paused-IsSettled c d s o =
      stopped-IsSettled d false (enter_stopped_state F c s.last_preset app_final s).0 o refl refl

  opened-IsSettled :
      (c d : Call) (s : RuntimeFp Carrier) (o : Option (FrameEffect Carrier))
      → is_pre_authorized s.state.status ≡ false
      → (is_stopped s.state.status && is_some s.stopped_context) ≡ false
      → (in_session s.state.status || is_some s.current_tx) ≡ true
      → IsSettled d true (open_decel_window F c app_final s, o)
  unfolding open_decel_window clear_deliver_caps in_decel_window
  opened-IsSettled c d s o e k j =
      window-IsSettled d (open_decel_window F c app_final s) o e k j refl

  apply_stop-IsSettled :
      (c d : Call) (b : Bool) (s : RuntimeFp Carrier) → IsSettled d b (apply_stop F c b s)
  unfolding apply_stop
  apply_stop-IsSettled c d true s =
      IsSettled-if (is_pre_authorized s.state.status) (λ p. cancelled-IsSettled c d true s _)
        (λ e.
          IsSettled-if (is_stopped s.state.status && is_some s.stopped_context)
            (λ k. stopped-IsSettled d true s none e k)
            (λ k.
              IsSettled-if (in_session s.state.status || is_some s.current_tx)
                (λ j.
                  IsSettled-if (in_decel_window s) (λ w. window-IsSettled d s none e k j w)
                    (λ w. opened-IsSettled c d s none e k j))
                (λ j. idle-IsSettled d true s none e k j)))
  apply_stop-IsSettled c d false s =
      IsSettled-if (is_pre_authorized s.state.status) (λ p. cancelled-IsSettled c d false s _)
        (λ e.
          IsSettled-if (is_stopped s.state.status && is_some s.stopped_context)
            (λ k. stopped-IsSettled d false s none e k)
            (λ k.
              IsSettled-if (in_session s.state.status || is_some s.current_tx)
                (λ j. paused-IsSettled c d s _) (λ j. idle-IsSettled d false s none e k j)))

-- After a stop of any lane, a second stop, of any other call and at any other time, which uses the
-- deceleration window if and only if the first does, changes nothing and has no effect: a window that is
-- open is not opened again.
pub apply_stop_twice :
    (F : Float) (c d : Call) (b : Bool) (s : RuntimeFp F.Carrier)
    → apply_stop F d b (apply_stop F c b s).0 ≡ ((apply_stop F c b s).0, none)
apply_stop_twice F c d b s = (apply_stop-IsSettled F c d b s).again
