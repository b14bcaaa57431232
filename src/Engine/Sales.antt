-- ===== src/Engine/Sales.antt =====
-- services/dispenser-service/src/engine/state.rs: how a sale is closed, stopped and finalized. A
-- handler returns the runtime it leaves and its effect.
use Prim.Native.String.{String}
use fuel_station_controller.Base.{
  ℕ, ◌-◌, Bool, true, false, ◌&&◌, ◌||◌, not, Option, none, some, ltb, if◌then◌else◌,
}
use fuel_station_controller.Engine.Float.{Float}
use fuel_station_controller.Engine.Types.{
  StopSource, idle, done, stopped, Preset, TxStatus, completed, aborted, tx_stopped, continued_from,
  Transaction, preset_metadata, resolve, map_option,
}
use fuel_station_controller.Engine.Runtime.{
  RuntimeFp, CurrentTx, Call, touch, set_status, in_session, is_nozzle_up, or_default,
}
use fuel_station_controller.Engine.Session.{
  clear_deliver_caps, clear_continuation_fields, nozzle_physically_up,
}
use fuel_station_controller.Engine.Meters.{
  clear_decel_window, combined_totals, segment_totals, sale_target_met, zero_meters,
}
use fuel_station_controller.Engine.Nozzles.{lookup_nozzle}
use fuel_station_controller.Engine.Effects.{FrameEffect, transaction_done, acknowledge_idle, paused}
use text.Mathlib.Text.{◌==◌ as str_eq}

pub data Result {ℓ} (A : Type ℓ) : Type ℓ where
  ok : A → Result A
  err : String → Result A

module _ (F : Float) where
  open F use {Carrier, of_nat, decimal, add, less}

  abbrev pub Outcome : Type 0
  Outcome = RuntimeFp Carrier × FrameEffect Carrier

  -- The current transaction, or one made up for the nozzle in the display.
  unfoldable pub taken_tx : Call → RuntimeFp Carrier → CurrentTx
  unfolding lookup_nozzle
  taken_tx c s =
      let nozzle_index = or_default s.state.nozzle_index 1 in
      let found = lookup_nozzle c.site c.fp_cfg nozzle_index in
      elim s.current_tx [
        | some t ↦ t
        | none ↦ record {
          id = c.fresh_id;
          started_at = c.now;
          product_id = found.1.0;
          product_name = found.0;
          nozzle_index = nozzle_index;
        }
      ]

  abbrev is_tx_stopped : TxStatus → Bool
  is_tx_stopped tx_stopped = true
  is_tx_stopped _ = false

  unfoldable pub finish_transaction_with_totals :
      Call
      → TxStatus
      → Carrier
      → ℕ
      → Option String
      → RuntimeFp Carrier
      → RuntimeFp Carrier × Transaction Carrier
  unfolding segment_totals taken_tx preset_metadata
  finish_transaction_with_totals c status combined_volume combined_amount parent_tx_id s =
      let seg_amt : ℕ = elim s.continuation [
        | some k ↦ combined_amount - k.base_amount
        | none ↦ combined_amount
      ] in
      let t = taken_tx c s in
      let meta = preset_metadata F s.last_preset in
      let latch =
        if less (decimal 1 2) combined_volume && not (is_tx_stopped status)
        then true
        else s.completed_sale in
      (
        record s { current_tx = none; continuation = none; completed_sale = latch },
        record {
          id = t.id;
          fp_id = s.state.fp_id;
          label = s.state.label;
          address_byte = c.fp_cfg.address_byte;
          started_at = t.started_at;
          completed_at = some c.now;
          volume = (segment_totals F s).0;
          amount = seg_amt;
          price = s.state.price;
          nozzle_index = t.nozzle_index;
          product_id = t.product_id;
          product_name = t.product_name;
          preset_type = meta.0;
          preset_value = meta.1.0;
          preset_label = meta.1.1;
          status = status;
          shift_id = c.active_shift_id;
          operator_name = c.active_operator_name;
          parent_tx_id = parent_tx_id;
          combined_volume = combined_volume;
          combined_amount = combined_amount;
        },
      )

  -- A completed sale of a continued fill is recorded under its parent.
  unfoldable pub closing_status : TxStatus → Option String → TxStatus
  closing_status completed (some parent) = continued_from parent
  closing_status completed none = completed
  closing_status aborted parent = aborted
  closing_status tx_stopped parent = tx_stopped
  closing_status (continued_from p) parent = continued_from p

  unfoldable pub close_transaction :
      Call → Bool → RuntimeFp Carrier → RuntimeFp Carrier × Transaction Carrier
  unfolding combined_totals resolve closing_status finish_transaction_with_totals
  close_transaction c completed_normally s =
      let (vol, amt) = combined_totals F s in
      let parent = map_option (λ k. k.parent_tx_id) s.continuation in
      finish_transaction_with_totals c (closing_status (resolve F vol completed_normally) parent)
        vol amt parent s

  unfoldable pub end_sale_from_holster_early : Call → RuntimeFp Carrier → Outcome
  unfolding clear_deliver_caps close_transaction
  end_sale_from_holster_early c s =
      let cleared = clear_deliver_caps (record s { stopped_context = none }) in
      let (closed, tx) = close_transaction c false (set_status done cleared) in
      (touch c closed, transaction_done tx acknowledge_idle)

  unfoldable pub complete_sale_from_holster : Call → RuntimeFp Carrier → Outcome
  unfolding combined_totals clear_decel_window sale_target_met clear_deliver_caps close_transaction
  complete_sale_from_holster c s =
      let vol = (combined_totals F s).0 in
      let reset = clear_decel_window F (record s {
        wayne = record s.wayne { pending_holster_close = false; pump_sale_complete = false };
      }) in
      let is_complete =
        s.wayne.pump_sale_complete || (sale_target_met F reset || less vol (decimal 1 2)) in
      let (closed, tx) =
        close_transaction c is_complete (clear_deliver_caps (set_status done reset)) in
      (touch c closed, transaction_done tx acknowledge_idle)

  unfoldable pub apply_stopped_display :
      Carrier → ℕ → String → StopSource → RuntimeFp Carrier → RuntimeFp Carrier
  apply_stopped_display vol amt tx_id source s = record s {
    state = record s.state {
      status = stopped vol amt tx_id source;
      stopped_tx_id = some tx_id;
      stop_source = some source;
      volume = vol;
      amount = amt;
      base_volume = none;
      base_amount = none;
      segment_volume = none;
      segment_amount = none;
    };
  }

  unfoldable pub enter_stopped_state :
      Call → Preset Carrier → StopSource → RuntimeFp Carrier → Outcome
  unfolding clear_deliver_caps nozzle_physically_up combined_totals finish_transaction_with_totals
      apply_stopped_display
  enter_stopped_state c preset stop_source s =
      let nozzle_is_up =
        (in_session s.state.status || is_nozzle_up s.state.status) || nozzle_physically_up c s in
      let cleared = clear_deliver_caps (record s {
        wayne = record s.wayne { stop_reflow_resent = false; stopped_nozzle_up = nozzle_is_up };
      }) in
      let (vol, amt) = combined_totals F cleared in
      let (finished, tx) = finish_transaction_with_totals c tx_stopped vol amt none cleared in
      let kept = record finished {
        stopped_context = some (record {
          stopped_tx_id = tx.id;
          stopped_volume = vol;
          stopped_amount = amt;
          preset = preset;
          stop_source = stop_source;
          price = finished.state.price;
          nozzle_index = or_default finished.state.nozzle_index 1;
        });
        continuation = none;
      } in
      (
        touch c (apply_stopped_display vol amt tx.id stop_source kept),
        paused tx kept.state.fp_id vol amt tx.id stop_source,
      )

  unfoldable pub rehydrate_stopped_context :
      Call
      → Transaction Carrier
      → Preset Carrier
      → StopSource
      → RuntimeFp Carrier
      → RuntimeFp Carrier
  unfolding apply_stopped_display
  rehydrate_stopped_context c tx preset stop_source s =
      let vol = if less (of_nat 0) tx.combined_volume then tx.combined_volume else tx.volume in
      let amt = if ltb 0 tx.combined_amount then tx.combined_amount else tx.amount in
      let kept = record s {
        stopped_context = some (record {
          stopped_tx_id = tx.id;
          stopped_volume = vol;
          stopped_amount = amt;
          preset = preset;
          stop_source = stop_source;
          price = tx.price;
          nozzle_index = tx.nozzle_index;
        });
        continuation = none;
        current_tx = none;
      } in
      let shown = apply_stopped_display vol amt tx.id stop_source kept in
      touch c (record shown {
        state = record shown.state {
          price = tx.price;
          nozzle_index = some (tx.nozzle_index);
          product_id = some (tx.product_id);
          product_name = some (tx.product_name);
        };
      })

  -- The lane after the stopped sale is dropped.
  unfoldable pub closed_lane : Call → RuntimeFp Carrier → RuntimeFp Carrier
  unfolding clear_deliver_caps clear_continuation_fields zero_meters
  closed_lane c s =
      let dropped = clear_continuation_fields (
        clear_deliver_caps (record s {
          stopped_context = none;
          continuation = none;
          current_tx = none;
          pre_auth = none;
        })) in
      touch c (
        zero_meters F (record dropped {
          state = record dropped.state {
            status = idle;
            stop_source = none;
            pre_auth_preset = none;
          };
        }))

  unfoldable pub close_stopped : Call → String → RuntimeFp Carrier → Result (RuntimeFp Carrier)
  unfolding closed_lane
  close_stopped c stopped_tx_id s = elim s.stopped_context [
    | none ↦ err "lane is not stopped"
    | some sc ↦
        if not (str_eq sc.stopped_tx_id stopped_tx_id)
        then err "stopped_tx_id does not match this lane"
        else ok (closed_lane c s)
  ]
