-- ===== src/Engine/Stopped.antt =====
-- services/dispenser-service/src/engine/state.rs: how a stopped sale is finalized, and the end of the
-- deceleration window.
use Prim.Native.String.{String}
use fuel_station_controller.Base.{ℕ, Bool, none, some, if◌then◌else◌}
use fuel_station_controller.Engine.Float.{Float}
use fuel_station_controller.Engine.Types.{FpStatus, stopped, Transaction, preset_metadata, resolve}
use fuel_station_controller.Engine.Runtime.{RuntimeFp, Call, touch, or_default}
use fuel_station_controller.Engine.Meters.{
  clear_decel_window, reset_to_idle, cancel_zero_volume_session, no_fuel,
}
use fuel_station_controller.Engine.Effects.{complete_ghost_fill}
use fuel_station_controller.Engine.Sales.{Outcome, enter_stopped_state}

module _ (F : Float) where
  open F use {Carrier, of_nat, decimal, add, less}

  -- Volume, amount, identifier, nozzle and price of the stopped sale.
  pub record StoppedSale : Type 0 where
    pub vol : Carrier
    pub amt : ℕ
    pub tx_id : String
    pub nozzle : ℕ
    pub price : ℕ

  unfoldable pub shown_sale : Call → RuntimeFp Carrier → FpStatus Carrier → StoppedSale
  shown_sale c s (stopped vol amt tx_id source) = record {
    vol = vol;
    amt = amt;
    tx_id = tx_id;
    nozzle = or_default s.state.nozzle_index 1;
    price = s.state.price;
  }
  shown_sale c s _ = record {
    vol = s.state.volume;
    amt = s.state.amount;
    tx_id = or_default s.state.stopped_tx_id c.fresh_id;
    nozzle = or_default s.state.nozzle_index 1;
    price = s.state.price;
  }

  unfoldable pub stopped_sale : Call → RuntimeFp Carrier → StoppedSale
  unfolding shown_sale
  stopped_sale c s = elim s.stopped_context [
    | some sc ↦ record {
      vol = sc.stopped_volume;
      amt = sc.stopped_amount;
      tx_id = sc.stopped_tx_id;
      nozzle = sc.nozzle_index;
      price = sc.price;
    }
    | none ↦ shown_sale c s s.state.status
  ]

  unfoldable pub finalize_stopped_sale :
      Call → Bool → RuntimeFp Carrier → RuntimeFp Carrier × Transaction Carrier
  unfolding stopped_sale reset_to_idle resolve preset_metadata
  finalize_stopped_sale c completed_normally s =
      let sale = stopped_sale c s in
      let meta = preset_metadata F s.last_preset in
      (
        reset_to_idle F s,
        record {
          id = sale.tx_id;
          fp_id = s.state.fp_id;
          label = s.state.label;
          address_byte = c.fp_cfg.address_byte;
          started_at = s.state.updated_at;
          completed_at = some c.now;
          volume = sale.vol;
          amount = sale.amt;
          price = sale.price;
          nozzle_index = sale.nozzle;
          product_id = or_default s.state.product_id 0;
          product_name = or_default s.state.product_name "";
          preset_type = meta.0;
          preset_value = meta.1.0;
          preset_label = meta.1.1;
          status = resolve F sale.vol completed_normally;
          shift_id = c.active_shift_id;
          operator_name = c.active_operator_name;
          parent_tx_id = none;
          combined_volume = sale.vol;
          combined_amount = sale.amt;
        },
      )

  -- The decel window ends: the pending stop is committed.
  unfoldable pub commit_decel : Call → RuntimeFp Carrier → Outcome F
  unfolding clear_decel_window enter_stopped_state
  commit_decel c s =
      enter_stopped_state F c (or_default s.wayne.decel_pending_preset s.last_preset)
        s.wayne.decel_pending_stop_source (clear_decel_window F s)

  -- The same for a window in which no fuel flowed.
  unfoldable pub commit_decel_or_ghost : Call → RuntimeFp Carrier → Outcome F
  unfolding no_fuel clear_decel_window cancel_zero_volume_session commit_decel
  commit_decel_or_ghost c s =
      if no_fuel F s
      then (touch c (cancel_zero_volume_session F (clear_decel_window F s)), complete_ghost_fill)
      else commit_decel c s
