-- ===== src/Engine/Sound/Frames.antt =====
-- services/dispenser-service/src/engine/state.rs, `apply_frame`: a frame keeps a lane consistent, and
-- an effect that records a sale leaves no transaction.
use fuel_station_controller.Base.{
  ℕ, false, Option, none, some, refl, ◌&&◌, ◌||◌, not, is_some, ltb, if◌then◌else◌,
}
use fuel_station_controller.Engine.Float.{Float}
use fuel_station_controller.Engine.Types.{
  external, FpStatus, offline, idle, pre_authorized, nozzle_up, authorizing, delivering, finalizing,
  done, stopped,
}
use fuel_station_controller.Engine.Runtime.{RuntimeFp, Call, in_session, is_authorizing, is_done}
use fuel_station_controller.Engine.Session.{
  note_wire_hose, in_decel_window, nozzle_physically_up, within_config_echo_grace,
  embedded_holster_is_customer_event,
}
use fuel_station_controller.Engine.Meters.{no_fuel, combined_totals}
use fuel_station_controller.Engine.Effects.{complete_ghost_fill}
use fuel_station_controller.Engine.Holster.{set_pending_holster_close, set_pump_sale_complete}
use fuel_station_controller.Engine.Lift.{set_seq}
use fuel_station_controller.Engine.Metering.{Reading, meter}
use fuel_station_controller.Engine.Outside.{recover_pre_auth, data_by_status}
use fuel_station_controller.Engine.Frames.{
  trusted_hose, embedded_holster, apply_data, holstered_session, holstered_by_status,
  apply_holstered_frame, apply_stopped_frame, reading_of, frame_effect, frame_addr, for_lane,
  apply_frame,
}
use fuel_station_controller.Engine.Sound.{quiet, IsConsistent, IsSound, IsSound-if}
use fuel_station_controller.Engine.Sound.Sales.{commit_decel-IsSound, enter_stopped_state-IsSound}
use fuel_station_controller.Engine.Sound.Holster.{
  close_sale-IsSound, drop_session-IsSound, holster_pre_authorized-IsSound,
  apply_nozzle_holstered-IsSound, apply_idle_response-IsSound, apply_done_response-IsSound,
  apply_dispenser_idle-IsSound,
}
use fuel_station_controller.Engine.Sound.Metering.{meter-IsConsistent}
use fuel_station_controller.Engine.Sound.Lift.{apply_nozzle_up-IsSound}
use fuel_station_controller.Engine.Sound.Outside.{
  recover_pre_auth-IsConsistent, data_by_status-IsSound,
}
use fuel_station_controller.Wayne.Frame.{Frame, is_nozzle_holster_code}

module _ (F : Float) where
  open F use {Carrier, decimal, less}

  embedded_holster-IsSound :
      (c : Call) (r : Reading Carrier) (hh : ℕ) (s : RuntimeFp Carrier)
      → IsConsistent F s
      → IsSound F (embedded_holster F c r hh s)
  unfolding embedded_holster note_wire_hose
  embedded_holster-IsSound c r hh s h =
      IsSound-if F (r.sale_complete && in_session s.state.status)
        (close_sale-IsSound F c
          (set_pending_holster_close F false
            (set_pump_sale_complete F (meter F r (note_wire_hose c hh s))))
          (meter-IsConsistent F r (note_wire_hose c hh s) h))
        (IsSound-if F
          (less (decimal 1 2) (combined_totals F s).0
            && (in_session s.state.status && not s.wayne.pump_sale_complete))
          (record { consistent = h; recorded = quiet refl })
          (IsSound-if F
            ((no_fuel F s && in_session s.state.status)
              && ((s.wayne.preauth_config_on_wire || s.wayne.pending_authorize_config_repeat)
                  && (is_authorizing s.state.status && within_config_echo_grace c s)))
            (record { consistent = h; recorded = quiet refl })
            (apply_nozzle_holstered-IsSound F c (note_wire_hose c hh s) h)))

  data_from-IsSound :
      (c : Call) (r : Reading Carrier) (s : RuntimeFp Carrier)
      → IsConsistent F s
      → IsSound F (data_by_status F c r (recover_pre_auth F s))
  data_from-IsSound c r s h =
      data_by_status-IsSound F c r (recover_pre_auth F s) (recover_pre_auth-IsConsistent F s h)

  trusted-IsSound :
      (c : Call) (r : Reading Carrier) (o : Option ℕ) (s : RuntimeFp Carrier)
      → IsConsistent F s
      → IsSound F (elim o [
        | some hh ↦
            if is_nozzle_holster_code hh && embedded_holster_is_customer_event s
            then embedded_holster F c r hh s
            else data_by_status F c r (recover_pre_auth F (note_wire_hose c hh s))
        | none ↦ data_by_status F c r (recover_pre_auth F s)
      ])
  unfolding note_wire_hose
  trusted-IsSound c r none s h = data_from-IsSound c r s h
  trusted-IsSound c r (some hh) s h =
      IsSound-if F (is_nozzle_holster_code hh && embedded_holster_is_customer_event s)
        (embedded_holster-IsSound c r hh s h) (data_from-IsSound c r (note_wire_hose c hh s) h)

  apply_data-IsSound :
      (c : Call) (seq : ℕ) (r : Reading Carrier) (s : RuntimeFp Carrier)
      → IsConsistent F s
      → IsSound F (apply_data F c seq r s)
  unfolding apply_data
  apply_data-IsSound c seq r s h = trusted-IsSound c r (trusted_hose F r) (set_seq F seq s) h

  holstered_session-IsSound :
      (c : Call) (s : RuntimeFp Carrier) → IsConsistent F s → IsSound F (holstered_session F c s)
  unfolding holstered_session
  holstered_session-IsSound c s h =
      IsSound-if F (no_fuel F s)
        (IsSound-if F
          ((within_config_echo_grace c s && is_authorizing s.state.status)
            || nozzle_physically_up c s)
          (record { consistent = h; recorded = quiet refl })
          (drop_session-IsSound F c complete_ghost_fill s refl))
        (apply_nozzle_holstered-IsSound F c s h)

  holstered_by_status-IsSound :
      (c : Call) (s : RuntimeFp Carrier) (st : FpStatus Carrier)
      → IsConsistent F s
      → IsSound F (holstered_by_status F c s st)
  unfolding holstered_by_status
  holstered_by_status-IsSound c s authorizing h = holstered_session-IsSound c s h
  holstered_by_status-IsSound c s delivering h = holstered_session-IsSound c s h
  holstered_by_status-IsSound c s pre_authorized h = holster_pre_authorized-IsSound F c s h
  holstered_by_status-IsSound c s offline h = apply_idle_response-IsSound F c s h
  holstered_by_status-IsSound c s idle h = apply_idle_response-IsSound F c s h
  holstered_by_status-IsSound c s nozzle_up h = apply_idle_response-IsSound F c s h
  holstered_by_status-IsSound c s finalizing h = apply_idle_response-IsSound F c s h
  holstered_by_status-IsSound c s done h = apply_idle_response-IsSound F c s h
  holstered_by_status-IsSound c s (stopped v a id source) h = apply_idle_response-IsSound F c s h

  apply_holstered_frame-IsSound :
      (c : Call) (s : RuntimeFp Carrier)
      → IsConsistent F s
      → IsSound F (apply_holstered_frame F c s)
  unfolding apply_holstered_frame
  apply_holstered_frame-IsSound c s h =
      holstered_by_status-IsSound c
        (record s { wayne = record s.wayne { stopped_nozzle_up = false } }) s.state.status h

  apply_stopped_frame-IsSound :
      (c : Call) (s : RuntimeFp Carrier) → IsConsistent F s → IsSound F (apply_stopped_frame F c s)
  unfolding apply_stopped_frame
  apply_stopped_frame-IsSound c s h =
      IsSound-if F (is_done s.state.status) (record { consistent = h; recorded = quiet refl })
        (IsSound-if F (is_some s.continuation) (record { consistent = h; recorded = quiet refl })
          (IsSound-if F (in_decel_window s && in_session s.state.status)
            (commit_decel-IsSound F c s h)
            (IsSound-if F (in_session s.state.status)
              (IsSound-if F
                (is_authorizing s.state.status && (s.wayne.preauth_config_on_wire && no_fuel F s))
                (record { consistent = h; recorded = quiet refl })
                (enter_stopped_state-IsSound F c s.last_preset external s h))
              (record { consistent = h; recorded = quiet refl }))))

  frame_effect-IsSound :
      (c : Call) (f : Frame) (s : RuntimeFp Carrier)
      → IsConsistent F s
      → IsSound F (frame_effect F c f s)
  unfolding frame_effect note_wire_hose
  frame_effect-IsSound c (Frame.idle addr) s h = apply_idle_response-IsSound F c s h
  frame_effect-IsSound c (Frame.nozzle_holstered addr seq) s h = apply_holstered_frame-IsSound c s h
  frame_effect-IsSound c (Frame.nozzle_returned addr seq product hose) s h =
      apply_nozzle_holstered-IsSound F c (note_wire_hose c hose s) h
  frame_effect-IsSound c (Frame.nozzle_up addr seq product nozzle) s h =
      apply_nozzle_up-IsSound F c seq product nozzle s h
  frame_effect-IsSound c (Frame.dispenser_idle addr seq) s h = apply_dispenser_idle-IsSound F c s h
  frame_effect-IsSound c (Frame.ack_c0 addr) s h = record { consistent = h; recorded = quiet refl }
  frame_effect-IsSound c (Frame.data_frame d) s h = apply_data-IsSound c d.seq (reading_of F d) s h
  frame_effect-IsSound c (Frame.transaction_complete addr seq) s h =
      apply_done_response-IsSound F c s h
  frame_effect-IsSound c (Frame.stopped addr seq) s h = apply_stopped_frame-IsSound c s h
  frame_effect-IsSound c (Frame.poll addr) s h = record { consistent = h; recorded = quiet refl }
  frame_effect-IsSound c (Frame.unknown bytes) s h = record {
    consistent = h;
    recorded = quiet refl;
  }

  pub apply_frame-IsSound :
      (c : Call) (f : Frame) (s : RuntimeFp Carrier)
      → IsConsistent F s
      → IsSound F (apply_frame F c f s)
  unfolding apply_frame
  apply_frame-IsSound c f s h =
      IsSound-if F (ltb 0 s.settle_after_reconnect)
        (record { consistent = h; recorded = quiet refl })
        (IsSound-if F (for_lane F (frame_addr F f) c.fp_cfg.address_byte)
          (frame_effect-IsSound c f s h) (record { consistent = h; recorded = quiet refl }))
