-- ===== src/Engine/Effects.antt =====
-- services/dispenser-service/src/engine/state.rs: what a handler asks of the poll loop.
use Prim.Native.String.{String}
use fuel_station_controller.Base.{ℕ, Option}
use fuel_station_controller.Engine.Types.{StopSource, Transaction}

pub data TxCompleteAction : Type 0 where
  acknowledge_idle : TxCompleteAction

pub data FrameEffect (V : Type 0) : Type 0 where
  no_effect status_changed send_done_await_holster preauth_cancelled online : FrameEffect V
  nozzle_holstered resend_authorize complete_ghost_fill : FrameEffect V
  complete_ghost_fill_with_nozzle_up send_authorize_config resend_stop : FrameEffect V
  unauthorized_delivery : V → ℕ → FrameEffect V
  preauth_nozzle_mismatch : ℕ → String → ℕ → String → FrameEffect V
  nozzle_lifted : ℕ → ℕ → String → String → ℕ → FrameEffect V
  transaction_done : Transaction V → TxCompleteAction → FrameEffect V
  paused : Transaction V → String → V → ℕ → String → StopSource → FrameEffect V
  nozzle_removed : String → Option String → Transaction V → FrameEffect V

pub data PreauthOutcome : Type 0 where
  holstered lift_confirmed : PreauthOutcome
  nozzle_mismatch : ℕ → String → ℕ → String → PreauthOutcome
