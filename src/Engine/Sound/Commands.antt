-- ===== src/Engine/Sound/Commands.antt =====
-- services/dispenser-service/src/engine/state.rs: what the operator and the poll loop do to a lane.
use fuel_station_controller.Base.{
  ℕ, Bool, true, false, Option, none, some, ◌≡◌, refl, ◌&&◌, ◌||◌, not, is_some, leb, ltb, ◌==◌,
  ◌+◌, if◌then◌else◌,
}
use fuel_station_controller.Engine.Float.{Float}
use fuel_station_controller.Engine.Types.{
  StopSource, Transaction, app_final, authorizing, is_stopped, Preset, str, amount, volume,
}
use fuel_station_controller.Engine.Runtime.{
  RuntimeFp, Call, PreAuthContext, set_status, in_session, is_authorizing, is_idle, is_nozzle_up,
  is_pre_authorized, is_done, is_offline, or_default, or_other, insert,
}
use fuel_station_controller.Engine.Session.{
  in_decel_window, preauth_session_armed, clear_deliver_caps, clear_ghost_recovery,
  clear_continuation_fields, clear_startup_ghost_watch, enter_ghost_recovery, begin_auth_session,
}
use fuel_station_controller.Engine.Meters.{
  set_last_preset, set_deliver_caps_from_preset, zero_delivery_meters, zero_meters,
}
use fuel_station_controller.Engine.Nozzles.{resolve_wayne_nozzle}
use fuel_station_controller.Engine.Sales.{Outcome, rehydrate_stopped_context, apply_stopped_display}
use fuel_station_controller.Engine.Effects.{FrameEffect}
use fuel_station_controller.Engine.Commands.{
  show_nozzle, confirm_nozzle, set_pre_auth_preset, keep_pre_auth_preset, forget_done_sale,
  armed_lane, apply_preauthorize_sent, same_index, other_index,
  cancel_pre_auth_after_nozzle_mismatch, check_preauth_nozzle, start_delivery_from_pre_auth,
  pre_auth_index, claim_lane, arm_session,
}
use fuel_station_controller.Engine.Operator.{
  on_poll_missed, open_session, show_price, apply_authorize_sent, apply_stop, open_decel_window,
  set_nozzle_price, holds_lane,
}
use fuel_station_controller.Engine.Sound.{
  shown, unstopped, carries_sale, IsConsistent, Holds, Holds-if, HoldsAt, HoldsAt-if,
}
use fuel_station_controller.Engine.Sound.Sales.{enter_stopped_state-IsSound}
use fuel_station_controller.Engine.Sound.Holster.{cancel_pre_auth-IsConsistent}

module _ (F : Float) where
  open F use {Carrier, less, of_nat}

  caps-Holds :
      (preset : Preset Carrier) (s : RuntimeFp Carrier)
      → IsConsistent F s
      → Holds F (set_deliver_caps_from_preset F preset s)
  unfolding set_deliver_caps_from_preset clear_deliver_caps
  caps-Holds (str t) s h = record { displays = h }
  caps-Holds (volume v) s h =
      Holds-if F (less (of_nat 0) v) (record { displays = h }) (record { displays = h })
  caps-Holds (amount a) s h =
      Holds-if F (ltb 0 a) (record { displays = h }) (record { displays = h })

  pub caps-IsConsistent :
      (preset : Preset Carrier) (s : RuntimeFp Carrier)
      → IsConsistent F s
      → IsConsistent F (set_deliver_caps_from_preset F preset s)
  caps-IsConsistent preset s h = (caps-Holds preset s h).displays

  pub keep_pre_auth_preset-IsConsistent :
      (s : RuntimeFp Carrier) → IsConsistent F s → IsConsistent F (keep_pre_auth_preset F s)
  keep_pre_auth_preset-IsConsistent s h =
      (Holds-if F (is_some s.state.pre_auth_preset) {s = s} {t = set_pre_auth_preset F s}
        (record { displays = h }) (record { displays = h })).displays

  forget_done_sale-Holds :
      (s : RuntimeFp Carrier) → IsConsistent F s → Holds F (forget_done_sale F s)
  unfolding forget_done_sale zero_meters
  forget_done_sale-Holds s h =
      Holds-if F (is_done s.state.status) (record { displays = h }) (record { displays = h })

  armed_lane-Holds :
      (c : Call) (i price : ℕ) (preset : Preset Carrier) (s : RuntimeFp Carrier)
      → IsConsistent F s
      → Holds F (armed_lane F c i price preset s)
  unfolding armed_lane forget_done_sale clear_ghost_recovery confirm_nozzle show_nozzle
      zero_delivery_meters zero_meters clear_continuation_fields clear_startup_ghost_watch
      set_last_preset is_stopped
  armed_lane-Holds c i price preset s h = record {
    displays =
        unstopped
          (caps-IsConsistent preset (forget_done_sale F s) ((forget_done_sale-Holds s h).displays))
          refl;
  }

  preauthorize_sent-HoldsAt :
      (c : Call) (i price : ℕ) (preset : Preset Carrier) (s : RuntimeFp Carrier)
      → IsConsistent F s
      → HoldsAt F (λ o. o.0) (apply_preauthorize_sent F c i price preset s)
  unfolding apply_preauthorize_sent confirm_nozzle
  preauthorize_sent-HoldsAt c i price preset s h =
      HoldsAt-if F (is_nozzle_up s.state.status && other_index F s.state.nozzle_index i)
        (record { lane_displays = h })
        (HoldsAt-if F (is_nozzle_up s.state.status && same_index F s.state.nozzle_index i)
          (record { lane_displays = (armed_lane-Holds c i price preset s h).displays })
          (record { lane_displays = (armed_lane-Holds c i price preset s h).displays }))

  pub apply_preauthorize_sent-IsConsistent :
      (c : Call) (i price : ℕ) (preset : Preset Carrier) (s : RuntimeFp Carrier)
      → IsConsistent F s
      → IsConsistent F (apply_preauthorize_sent F c i price preset s).0
  apply_preauthorize_sent-IsConsistent c i price preset s h =
      (preauthorize_sent-HoldsAt c i price preset s h).lane_displays

  -- The check of the lifted nozzle passes, or the pre-authorization is cancelled.
  pub data IsChecked : Option (Outcome F) → Type 0 where
    passed : IsChecked none
    cancelled :
        {s : RuntimeFp Carrier} {e : FrameEffect Carrier}
        → IsConsistent F s
        → carries_sale e ≡ false
        → IsChecked (some (s, e))

  IsChecked-if :
      (b : Bool) {o p : Option (Outcome F)}
      → IsChecked o
      → IsChecked p
      → IsChecked (if b then o else p)
  IsChecked-if true ho hp = ho
  IsChecked-if false ho hp = hp

  apply_stop-HoldsAt :
      (c : Call) (b : Bool) (s : RuntimeFp Carrier)
      → IsConsistent F s
      → HoldsAt F (λ o. o.0) (apply_stop F c b s)
  unfolding apply_stop open_decel_window clear_deliver_caps
  apply_stop-HoldsAt c b s h =
      HoldsAt-if F (is_pre_authorized s.state.status)
        (record { lane_displays = cancel_pre_auth-IsConsistent F c s h })
        (HoldsAt-if F (is_stopped s.state.status && is_some s.stopped_context)
          (record { lane_displays = h })
          (HoldsAt-if F (in_session s.state.status || is_some s.current_tx)
            (HoldsAt-if F b
              (HoldsAt-if F (in_decel_window s) (record { lane_displays = h })
                (record { lane_displays = h }))
              (record {
                lane_displays =
                    (enter_stopped_state-IsSound F c s.last_preset app_final s h).consistent;
              }))
            (record { lane_displays = h })))

  pub apply_stop-IsConsistent :
      (c : Call) (b : Bool) (s : RuntimeFp Carrier)
      → IsConsistent F s
      → IsConsistent F (apply_stop F c b s).0
  apply_stop-IsConsistent c b s h = (apply_stop-HoldsAt c b s h).lane_displays

  mismatch-IsConsistent :
      (c : Call) (s : RuntimeFp Carrier)
      → IsConsistent F s
      → IsConsistent F (cancel_pre_auth_after_nozzle_mismatch F c s)
  unfolding cancel_pre_auth_after_nozzle_mismatch enter_ghost_recovery
  mismatch-IsConsistent c s h = cancel_pre_auth-IsConsistent F c s h

  IsChecked-option :
      (o : Option PreAuthContext) {f : PreAuthContext → Option (Outcome F)}
      → ((pre : PreAuthContext) → IsChecked (f pre))
      → IsChecked (elim o [ none ↦ none | some pre ↦ f pre ])
  IsChecked-option none h = passed
  IsChecked-option (some pre) h = h pre

  pub check_preauth_nozzle-IsChecked :
      (c : Call) (prod code : ℕ) (s : RuntimeFp Carrier)
      → IsConsistent F s
      → IsChecked (check_preauth_nozzle F c prod code s)
  unfolding check_preauth_nozzle
  check_preauth_nozzle-IsChecked c prod code s h = IsChecked-option s.pre_auth (λ pre.
      IsChecked-if ((resolve_wayne_nozzle c.site c.fp_cfg prod code).0 == pre.nozzle_index) passed
        (cancelled (mismatch-IsConsistent c s h) refl))

  claim_lane-IsConsistent :
      (c : Call) (i : ℕ) (s : RuntimeFp Carrier)
      → IsConsistent F s
      → IsConsistent F (claim_lane F c i s)
  unfolding claim_lane show_nozzle
  claim_lane-IsConsistent c i s h =
      let shown = show_nozzle F c i s in
      keep_pre_auth_preset-IsConsistent
        (record shown {
          pre_auth = none;
          wayne = record shown.wayne { preauth_nozzle_confirmed = false };
        })
        h

  arm_session-Holds :
      (c : Call) (s : RuntimeFp Carrier) → IsConsistent F s → Holds F (arm_session F c s)
  unfolding arm_session begin_auth_session
  arm_session-Holds c s h =
      Holds-if F (not s.wayne.preauth_config_on_wire) (record { displays = h })
        (record { displays = h })

  pub start_delivery_from_pre_auth-IsConsistent :
      (c : Call) (s : RuntimeFp Carrier)
      → IsConsistent F s
      → IsConsistent F (start_delivery_from_pre_auth F c s)
  unfolding start_delivery_from_pre_auth zero_delivery_meters zero_meters clear_continuation_fields
      clear_startup_ghost_watch is_stopped
  start_delivery_from_pre_auth-IsConsistent c s h =
      let i = or_default (or_other (pre_auth_index F s.pre_auth) s.state.nozzle_index) 1 in
      unstopped
        ((arm_session-Holds c (zero_delivery_meters F (claim_lane F c i s))
          (claim_lane-IsConsistent c i s h)).displays)
        refl

  on_poll_missed-HoldsAt :
      (c : Call) (threshold : ℕ) (s : RuntimeFp Carrier)
      → IsConsistent F s
      → HoldsAt F (λ o. o.1) (on_poll_missed F c threshold s)
  unfolding on_poll_missed is_stopped
  on_poll_missed-HoldsAt c threshold s h =
      HoldsAt-if F
        (holds_lane F s.state.status
          || (preauth_session_armed s || (is_some s.current_tx || s.completed_sale)))
        (record { lane_displays = h })
        (HoldsAt-if F (leb threshold (s.missed + 1) && not (is_offline s.state.status))
          (record { lane_displays = unstopped h refl }) (record { lane_displays = h }))

  pub on_poll_missed-IsConsistent :
      (c : Call) (threshold : ℕ) (s : RuntimeFp Carrier)
      → IsConsistent F s
      → IsConsistent F (on_poll_missed F c threshold s).1
  on_poll_missed-IsConsistent c threshold s h =
      (on_poll_missed-HoldsAt c threshold s h).lane_displays

  open_session-Holds :
      (c : Call) (s : RuntimeFp Carrier) → IsConsistent F s → Holds F (open_session F c s)
  unfolding open_session begin_auth_session zero_delivery_meters zero_meters
      clear_continuation_fields clear_startup_ghost_watch
  open_session-Holds c s h =
      Holds-if F (not (in_session s.state.status)) (record { displays = h })
        (record { displays = h })

  pub apply_authorize_sent-IsConsistent :
      (c : Call) (s : RuntimeFp Carrier)
      → IsConsistent F s
      → IsConsistent F (apply_authorize_sent F c s)
  unfolding apply_authorize_sent is_stopped
  apply_authorize_sent-IsConsistent c s h =
      (Holds-if F
        ((is_nozzle_up s.state.status || is_authorizing s.state.status)
          || ((is_idle s.state.status && is_some s.continuation) || is_stopped s.state.status))
        {s = set_status authorizing (open_session F c s)} {t = s}
        (record { displays = unstopped ((open_session-Holds c s h).displays) refl })
        (record { displays = h })).displays

  show_price-Holds :
      (i price : ℕ) (s : RuntimeFp Carrier) → IsConsistent F s → Holds F (show_price F i price s)
  unfolding show_price
  show_price-Holds i price s h =
      Holds-if F (same_index F s.state.nozzle_index i) (record { displays = h })
        (record { displays = h })

  pub set_nozzle_price-IsConsistent :
      (c : Call) (i price : ℕ) (s : RuntimeFp Carrier)
      → IsConsistent F s
      → IsConsistent F (set_nozzle_price F c i price s).1
  unfolding set_nozzle_price
  set_nozzle_price-IsConsistent c i price s h =
      (show_price-Holds i price (record s { nozzle_prices = insert i price s.nozzle_prices })
        h).displays

  pub rehydrate-IsConsistent :
      (c : Call) (tx : Transaction Carrier) (preset : Preset Carrier) (source : StopSource)
      (s : RuntimeFp Carrier)
      → IsConsistent F (rehydrate_stopped_context F c tx preset source s)
  unfolding rehydrate_stopped_context apply_stopped_display
  rehydrate-IsConsistent c tx preset source s = shown _
