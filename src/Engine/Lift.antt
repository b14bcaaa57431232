-- ===== src/Engine/Lift.antt =====
-- services/dispenser-service/src/engine/state.rs: the nozzle-up frame of `apply_frame`.
use fuel_station_controller.Base.{
  ℕ, Bool, true, false, ◌&&◌, ◌||◌, none, some, if◌then◌else◌, is_some,
}
use fuel_station_controller.Engine.Float.{Float}
use fuel_station_controller.Engine.Types.{nozzle_up, authorizing, is_stopped, price_for}
use fuel_station_controller.Engine.Runtime.{
  RuntimeFp, StoppedContext, Call, set_status, in_session, is_idle, is_nozzle_up, is_done,
  or_default, or_other, lookup,
}
use fuel_station_controller.Engine.Session.{
  note_wire_hose, ghost_recovery_active, clear_ghost_recovery, clear_completed_sale_latch,
}
use fuel_station_controller.Engine.Meters.{zero_delivery_meters}
use fuel_station_controller.Engine.Nozzles.{Product, lookup_nozzle, resolve_wayne_nozzle}
use fuel_station_controller.Engine.Effects.{FrameEffect, status_changed, nozzle_lifted}
use fuel_station_controller.Engine.Sales.{Outcome, apply_stopped_display}
use fuel_station_controller.Engine.Holster.{reply}
use fuel_station_controller.Engine.Commands.{check_preauth_nozzle, same_index}

module _ (F : Float) where
  open F use {Carrier}

  -- The display of a nozzle and its product.
  unfoldable pub show_product : ℕ → Product → RuntimeFp Carrier → RuntimeFp Carrier
  show_product i found s = record s {
    state = record s.state {
      nozzle_index = some i;
      product_id = some (found.1.0);
      product_name = some (found.0);
      product_color = some (found.1.1);
    };
  }

  abbrev pub set_mismatch : Bool → RuntimeFp Carrier → RuntimeFp Carrier
  set_mismatch b s = record s { wayne = record s.wayne { preauth_mismatch_active = b } }

  -- The price of the nozzle, from the runtime, the site or the display.
  unfoldable pub wire_price : Call → ℕ → RuntimeFp Carrier → ℕ
  unfolding price_for
  wire_price c i s =
      or_default (or_other (lookup i s.nozzle_prices) (price_for c.site c.fp_cfg.address_byte i))
        s.state.price

  -- A new session at the lifted nozzle.
  unfoldable pub lifted_lane : Call → ℕ → Product → RuntimeFp Carrier → RuntimeFp Carrier
  unfolding zero_delivery_meters show_product wire_price
  lifted_lane c i found s =
      let shown = show_product i found (zero_delivery_meters F (set_status nozzle_up s)) in
      record shown { state = record shown.state { price = wire_price c i shown } }

  abbrev lift_effect : ℕ → Product → RuntimeFp Carrier → FrameEffect Carrier
  lift_effect i found s = nozzle_lifted i found.1.0 found.0 found.1.1 s.state.price

  -- The effect with what the display holds.
  abbrev shown_lift : RuntimeFp Carrier → FrameEffect Carrier
  shown_lift s =
      nozzle_lifted (or_default s.state.nozzle_index 1) (or_default s.state.product_id 0)
        (or_default s.state.product_name "") (or_default s.state.product_color "") s.state.price

  -- The lane waits with a pre-authorization.
  unfoldable pub lift_pre_authorized : Call → ℕ → ℕ → RuntimeFp Carrier → Outcome F
  unfolding check_preauth_nozzle zero_delivery_meters
  lift_pre_authorized c prod nozzle s =
      let confirmed = set_status nozzle_up (
        zero_delivery_meters F (record s {
          wayne = record s.wayne {
            preauth_mismatch_active = false;
            preauth_nozzle_confirmed = true;
          };
        })) in
      elim (check_preauth_nozzle F c prod nozzle s) [
        | some (cancelled, effect) ↦ reply F c (set_mismatch true cancelled) effect
        | none ↦ reply F c confirmed (shown_lift confirmed)
      ]

  unfoldable pub rearm : RuntimeFp Carrier → RuntimeFp Carrier
  unfolding is_stopped
  rearm s =
      if (is_idle s.state.status || is_nozzle_up s.state.status) || is_stopped s.state.status
      then set_status authorizing s
      else s

  -- The lane continues a stopped fill.
  unfoldable pub lift_continued : Call → RuntimeFp Carrier → Outcome F
  unfolding show_product lookup_nozzle rearm
  lift_continued c s =
      let i = or_default s.state.nozzle_index 1 in
      reply F c (rearm (show_product i (lookup_nozzle c.site c.fp_cfg i) s)) status_changed

  -- The lane shows a stopped sale.
  unfoldable pub lift_stopped : Call → StoppedContext Carrier → RuntimeFp Carrier → Outcome F
  unfolding apply_stopped_display show_product lookup_nozzle
  lift_stopped c sc s =
      let shown =
        apply_stopped_display F sc.stopped_volume sc.stopped_amount sc.stopped_tx_id sc.stop_source
          s in
      let priced = record shown { state = record shown.state { price = sc.price } } in
      reply F c
        (show_product sc.nozzle_index (lookup_nozzle c.site c.fp_cfg sc.nozzle_index) priced)
        status_changed

  unfoldable pub lift_fresh : Call → ℕ × Product → RuntimeFp Carrier → Outcome F
  unfolding lifted_lane
  lift_fresh c (i, found) s =
      let already_up =
        is_nozzle_up s.state.status
        && (same_index F s.state.nozzle_index i && same_index F s.state.product_id found.1.0) in
      let up = lifted_lane c i found s in
      if already_up then reply F c up status_changed else reply F c up (lift_effect i found up)

  -- Without a session and without a pre-authorization.
  unfoldable pub lift_unclaimed : Call → ℕ × Product → RuntimeFp Carrier → Outcome F
  unfolding lift_continued lift_stopped lift_fresh
  lift_unclaimed c found s =
      if is_some s.continuation
      then lift_continued c s
      else elim s.stopped_context [ some sc ↦ lift_stopped c sc s | none ↦ lift_fresh c found s ]

  abbrev pub set_seq : ℕ → RuntimeFp Carrier → RuntimeFp Carrier
  set_seq seq s = record s { state = record s.state { seq = seq } }

  unfoldable pub wake : RuntimeFp Carrier → RuntimeFp Carrier
  unfolding ghost_recovery_active clear_ghost_recovery
  wake s = if ghost_recovery_active s then clear_ghost_recovery s else s

  unfoldable pub apply_nozzle_up : Call → ℕ → ℕ → ℕ → RuntimeFp Carrier → Outcome F
  unfolding note_wire_hose resolve_wayne_nozzle clear_completed_sale_latch lifted_lane wake
      lift_pre_authorized lift_unclaimed
  apply_nozzle_up c seq prod nozzle s =
      let noted = note_wire_hose c nozzle s in
      let found = resolve_wayne_nozzle c.site c.fp_cfg prod nozzle in
      let next = lifted_lane c found.0 found.1 (clear_completed_sale_latch noted) in
      let awake = wake noted in
      if is_done s.state.status
      then reply F c next (lift_effect found.0 found.1 next)
      else if in_session s.state.status
      then reply F c awake status_changed
      else if is_some s.pre_auth
      then lift_pre_authorized c prod nozzle (set_seq seq awake)
      else lift_unclaimed c found (set_seq seq awake)
