-- ===== src/Engine/Unverified.antt =====
-- services/dispenser-service/src/engine/state.rs, `apply_frame`: what a meter frame that failed its CRC
-- may ask for, down to the bytes that crates/wayne-europump/src/parser.rs reads.
use fuel_station_controller.Base.{
  ℕ, Bool, true, false, Option, none, some, List, ◌≡◌, refl, sym, ap, ◌∙◌, ◌&&◌, ◌||◌, not, ltb,
  ◌==◌, if◌then◌else◌,
}
use mathlib.Core.Bool.{true≢false}
use mathlib.Core.Option.{some-ne-none}
use fuel_station_controller.Engine.Float.{Float}
use fuel_station_controller.Engine.Types.{idle, is_stopped}
use fuel_station_controller.Engine.Runtime.{
  RuntimeFp, Call, touch, set_status, in_session, is_authorizing, is_delivering, is_offline,
  is_pre_authorized, is_done,
}
use fuel_station_controller.Engine.Session.{
  note_wire_hose, embedded_holster_is_customer_event, in_decel_window, owns_meter_data,
  preauth_session_armed,
}
use fuel_station_controller.Engine.Meters.{startup_ghost_frozen}
use fuel_station_controller.Engine.Nozzles.{wire_transaction_nozzle}
use fuel_station_controller.Engine.Effects.{
  FrameEffect, no_effect, status_changed, online, send_authorize_config, complete_ghost_fill,
  complete_ghost_fill_with_nozzle_up,
}
use fuel_station_controller.Engine.Sales.{Outcome}
use fuel_station_controller.Engine.Commands.{start_delivery_from_pre_auth}
use fuel_station_controller.Engine.Lift.{set_seq}
use fuel_station_controller.Engine.Metering.{
  Reading, meter, flows, data_complete, watches_startup, data_startup, begin_if_flowing,
  cap_reached, data_delivery, data_session,
}
use fuel_station_controller.Engine.Outside.{
  data_unowned, differ_index, data_stopped, data_outside, data_metered, lifted_hose, data_lifted,
  data_pre_authorized, recover_pre_auth, data_by_status,
}
use fuel_station_controller.Engine.Frames.{
  trusted_hose, embedded_holster, apply_data, reading_of, frame_effect, for_lane, apply_frame,
}
use fuel_station_controller.Wayne.Frame.{
  Frame, DataFields, is_nozzle_lift_code, is_nozzle_holster_code,
}
use fuel_station_controller.Wayne.Bytes.{trim_garbage_prefix, verify_crc}
use fuel_station_controller.Wayne.Parser.{parse_frame}
use fuel_station_controller.Wayne.Parser.Verified.{is_harmless, parse_frame_unverified}

-- The effects without a sale, a stop, a mismatch, an alert or a lift: the display, a lane that is back,
-- the configuration that is due, and the end of an authorization whose counter stands still.
abbrev pub is_display : {V : Type 0} → FrameEffect V → Bool
is_display no_effect = true
is_display status_changed = true
is_display online = true
is_display send_authorize_config = true
is_display complete_ghost_fill_with_nozzle_up = true
is_display _ = false

module _ (F : Float) where
  open F use {Carrier, decimal, add, less}

  record IsDisplay (o : Outcome F) : Type 0 where
    shows : is_display o.1 ≡ true

  IsDisplay-if :
      (b : Bool) {o p : Outcome F} → IsDisplay o → IsDisplay p → IsDisplay (if b then o else p)
  IsDisplay-if true ho hp = ho
  IsDisplay-if false ho hp = hp

  -- The branch without hose bytes.
  IsDisplay-none :
      {A : Type 0} (o : Option A) (taken : A → Outcome F) {next : Outcome F}
      → o ≡ none
      → IsDisplay next
      → IsDisplay (elim o [ some a ↦ taken a | none ↦ next ])
  IsDisplay-none none taken e hn = hn
  IsDisplay-none (some a) taken e hn = absurd (some-ne-none a e)

  -- The branch of an end of a sale that is not announced.
  IsDisplay-unless :
      (b : Bool) {d : Bool} (o : Outcome F) {p : Outcome F}
      → d ≡ false
      → IsDisplay p
      → IsDisplay (if b && d then o else p)
  IsDisplay-unless true o e hp = rw e hp
  IsDisplay-unless false o e hp = hp

  -- A reading whose frame failed its CRC; the parser marks no such frame as the end of a sale.
  record IsUnverified (r : Reading Carrier) : Type 0 where
    unchecked : r.crc_ok ≡ false
    unfinished : r.sale_complete ≡ false

  data_complete-IsDisplay :
      (c : Call) (r : Reading Carrier) (s : RuntimeFp Carrier)
      → IsUnverified r
      → IsDisplay (data_complete F c r s)
  unfolding data_complete
  data_complete-IsDisplay c r s u = rw u.unfinished (record { shows = refl })

  data_startup-IsDisplay :
      (c : Call) (r : Reading Carrier) (s : RuntimeFp Carrier)
      → IsUnverified r
      → IsDisplay (data_startup F c r s)
  unfolding data_startup
  data_startup-IsDisplay c r s u =
      let watch = startup_ghost_frozen F r.raw_vol r.raw_amt s in
      IsDisplay-if (watches_startup F c r s)
        (IsDisplay-if watch.0 (record { shows = refl }) (data_complete-IsDisplay c r watch.1 u))
        (data_complete-IsDisplay c r s u)

  data_delivery-IsDisplay :
      (c : Call) (r : Reading Carrier) (s : RuntimeFp Carrier)
      → IsUnverified r
      → IsDisplay (data_delivery F c r s)
  unfolding data_delivery
  data_delivery-IsDisplay c r s u =
      let metered = meter F r s in
      IsDisplay-if (is_authorizing metered.state.status)
        (data_startup-IsDisplay c r (begin_if_flowing F c r metered) u)
        (IsDisplay-if (is_delivering metered.state.status && (r.crc_ok && cap_reached F metered))
          (record { shows = refl }) (data_startup-IsDisplay c r metered u))

  data_session-IsDisplay :
      (c : Call) (r : Reading Carrier) (s : RuntimeFp Carrier)
      → IsUnverified r
      → IsDisplay (data_session F c r s)
  unfolding data_session
  data_session-IsDisplay c r s u =
      IsDisplay-if (in_decel_window s) (rw u.unchecked (record { shows = refl }))
        (data_delivery-IsDisplay c r s u)

  data_unowned-IsDisplay :
      (c : Call) (r : Reading Carrier) (o : Option ℕ) (s : RuntimeFp Carrier)
      → IsUnverified r
      → IsDisplay (data_unowned F c r o s)
  unfolding data_unowned
  data_unowned-IsDisplay c r o s u = rw u.unchecked (record { shows = refl })

  data_stopped-IsDisplay :
      (c : Call) (r : Reading Carrier) (s : RuntimeFp Carrier)
      → IsUnverified r
      → IsDisplay (data_stopped F c r s)
  unfolding data_stopped
  data_stopped-IsDisplay c r s u = rw u.unchecked (record { shows = refl })

  data_outside-IsDisplay :
      (c : Call) (r : Reading Carrier) (s : RuntimeFp Carrier)
      → IsUnverified r
      → IsDisplay (data_outside F c r s)
  unfolding data_outside
  data_outside-IsDisplay c r s u =
      let o = wire_transaction_nozzle c.site c.fp_cfg r.hose_product r.hose_code in
      IsDisplay-if (not (flows F r || ltb 0 r.raw_amt)) (record { shows = refl })
        (IsDisplay-if (not (owns_meter_data s)) (data_unowned-IsDisplay c r o s u) (
          IsDisplay-if (not (preauth_session_armed s) && differ_index F o s.state.nozzle_index)
            (record { shows = refl })
            (IsDisplay-if (is_stopped s.state.status) (data_stopped-IsDisplay c r s u) (
              IsDisplay-if (is_done s.state.status || s.completed_sale) (record { shows = refl })
                (record { shows = refl })))))

  data_metered-IsDisplay :
      (c : Call) (r : Reading Carrier) (s : RuntimeFp Carrier)
      → IsUnverified r
      → IsDisplay (data_metered F c r s)
  unfolding data_metered
  data_metered-IsDisplay c r s u =
      IsDisplay-if (in_session s.state.status) (data_session-IsDisplay c r s u)
        (data_outside-IsDisplay c r s u)

  no_hose :
      (r : Reading Carrier) (p h : Option ℕ)
      → r.crc_ok ≡ false
      → ◌≡◌ {A = Option (ℕ × ℕ)}
          (elim p [
            | none ↦ none
            | some pp ↦ elim h [
              | none ↦ none
              | some hh ↦ if r.crc_ok && is_nozzle_lift_code hh then some (pp, hh) else none
            ]
          ])
          none
  no_hose r none h e = refl
  no_hose r (some pp) none e = refl
  no_hose r (some pp) (some hh) e = rw e refl

  -- The hose bytes of such a reading are not used.
  lifted_hose-none : (r : Reading Carrier) → IsUnverified r → lifted_hose F r ≡ none
  unfolding lifted_hose
  lifted_hose-none r u = no_hose r r.hose_product r.hose_code u.unchecked

  no_product :
      (r : Reading Carrier) (p : Option ℕ)
      → r.crc_ok ≡ false
      → (elim p [ none ↦ none | some pp ↦ if r.crc_ok then r.hose_code else none ]) ≡ none
  no_product r none e = refl
  no_product r (some pp) e = rw e refl

  trusted_hose-none : (r : Reading Carrier) → IsUnverified r → trusted_hose F r ≡ none
  unfolding trusted_hose
  trusted_hose-none r u = no_product r r.hose_product u.unchecked

  data_pre_authorized-IsDisplay :
      (c : Call) (r : Reading Carrier) (s : RuntimeFp Carrier)
      → IsUnverified r
      → IsDisplay (data_pre_authorized F c r s)
  unfolding data_pre_authorized
  data_pre_authorized-IsDisplay c r s u =
      IsDisplay-none (lifted_hose F r) (λ p. data_lifted F c p.0 p.1 s) (lifted_hose-none r u)
        (IsDisplay-if (not s.wayne.preauth_nozzle_confirmed) (record { shows = refl })
          (IsDisplay-if (flows F r)
            (data_metered-IsDisplay c r (start_delivery_from_pre_auth F c s) u)
            (IsDisplay-if s.wayne.preauth_mismatch_active (record { shows = refl })
              (record { shows = refl }))))

  data_by_status-IsDisplay :
      (c : Call) (r : Reading Carrier) (s : RuntimeFp Carrier)
      → IsUnverified r
      → IsDisplay (data_by_status F c r s)
  unfolding data_by_status
  data_by_status-IsDisplay c r s u =
      IsDisplay-if (is_offline s.state.status && (less r.raw_vol (decimal 1 2) && r.raw_amt == 0))
        (record { shows = refl })
        (IsDisplay-unless (is_offline s.state.status)
          (touch c (set_status idle s), complete_ghost_fill) u.unfinished
          (IsDisplay-if
            (is_authorizing s.state.status
              && (s.wayne.pending_authorize_config && not s.wayne.preauth_config_on_wire))
            (record { shows = refl })
            (IsDisplay-if (is_pre_authorized s.state.status) (data_pre_authorized-IsDisplay c r s u)
              (data_metered-IsDisplay c r s u))))

  apply_data-IsDisplay :
      (c : Call) (seq : ℕ) (r : Reading Carrier) (s : RuntimeFp Carrier)
      → IsUnverified r
      → IsDisplay (apply_data F c seq r s)
  unfolding apply_data
  apply_data-IsDisplay c seq r s u =
      let numbered = set_seq F seq s in
      IsDisplay-none (trusted_hose F r)
        (λ hh.
          if is_nozzle_holster_code hh && embedded_holster_is_customer_event numbered
          then embedded_holster F c r hh numbered
          else data_by_status F c r (recover_pre_auth F (note_wire_hose c hh numbered)))
        (trusted_hose-none r u)
        (data_by_status-IsDisplay c r (recover_pre_auth F (set_seq F seq s)) u)

  frame-IsDisplay :
      (c : Call) (d : DataFields) (s : RuntimeFp Carrier)
      → d.crc_ok ≡ false
      → d.sale_complete ≡ false
      → IsDisplay (apply_frame F c (Frame.data_frame d) s)
  unfolding apply_frame frame_effect reading_of
  frame-IsDisplay c d s e k =
      IsDisplay-if (ltb 0 s.settle_after_reconnect) (record { shows = refl })
        (IsDisplay-if (for_lane F (some (d.addr)) c.fp_cfg.address_byte)
          (apply_data-IsDisplay c d.seq (reading_of F d) s
            (record { unchecked = e; unfinished = k }))
          (record { shows = refl }))

both_false : (a b : Bool) → not a && not b ≡ true → (a ≡ false) × (b ≡ false)
both_false false false h = (refl, refl)
both_false false true h = absurd (true≢false (sym h))
both_false true b h = absurd (true≢false (sym h))

unmarked :
    (d : DataFields)
    → is_harmless (Frame.data_frame d) ≡ true
    → (d.crc_ok ≡ false) × (d.sale_complete ≡ false)
unmarked d h = both_false d.crc_ok d.sale_complete h

-- A meter frame that the parser read from bytes with a wrong CRC, applied to any lane, has an effect
-- that records no sale and asks for no stop, no mismatch and no alert: it changes the display, or brings
-- the lane back, or asks for the configuration that is due, or ends an authorization whose counter stood
-- still.
pub apply_frame_unverified :
    (F : Float) (c : Call) (raw : List ℕ) (d : DataFields) (s : RuntimeFp F.Carrier)
    → verify_crc (trim_garbage_prefix raw) ≡ false
    → parse_frame raw ≡ Frame.data_frame d
    → is_display (apply_frame F c (parse_frame raw) s).1 ≡ true
apply_frame_unverified F c raw d s bad e =
    let harmless : is_harmless (Frame.data_frame d) ≡ true =
      ap is_harmless (sym e) ∙ parse_frame_unverified raw bad in
    let marks = unmarked d harmless in rw e (frame-IsDisplay F c d s marks.0 marks.1).shows
