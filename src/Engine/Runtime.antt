-- ===== src/Engine/Runtime.antt =====
-- services/dispenser-service/src/engine/state.rs and protocols/wayne_state.rs: the runtime state of a
-- fuelling position. A clock reading and a fresh identifier are arguments of each call (`Call`), and
-- the clock stands still during one call; times are milliseconds since 1970, so a difference that the
-- source compares with a positive bound may stop at 0.
use Prim.Native.String.{String}
use fuel_station_controller.Base.{
  ℕ, ◌+◌, Bool, true, false, Option, none, some, List, [], ◌∷◌, ltb, ◌==◌, if◌then◌else◌,
}
use fuel_station_controller.Engine.Types.{
  StopSource, FpStatus, offline, idle, pre_authorized, nozzle_up, authorizing, delivering, done,
  PreAuthCancelWait, Preset, FpState, NozzleConfig, FuelingPositionConfig, SiteConfig,
}

abbrev pub ghost_recovery_idle_polls : ℕ
ghost_recovery_idle_polls = 4

abbrev pub decel_frozen_frame_threshold : ℕ
decel_frozen_frame_threshold = 6

abbrev pub decel_window_timeout_ms : ℕ
decel_window_timeout_ms = 10000

abbrev pub startup_ghost_frozen_frame_threshold : ℕ
startup_ghost_frozen_frame_threshold = 6

abbrev pub startup_ghost_min_age_ms : ℕ
startup_ghost_min_age_ms = 15000

abbrev pub config_echo_grace_ms : ℕ
config_echo_grace_ms = 3000

abbrev pub wire_lift_stale_ms : ℕ
wire_lift_stale_ms = 4000

-- `saturating_add(1)` on a byte.
abbrev pub count_up : ℕ → ℕ
count_up n = if ltb n 255 then n + 1 else 255

pub record StoppedContext (V : Type 0) : Type 0 where
  pub stopped_tx_id : String
  pub stopped_volume : V
  pub stopped_amount : ℕ
  pub preset : Preset V
  pub stop_source : StopSource
  pub price : ℕ
  pub nozzle_index : ℕ

pub record PreAuthContext : Type 0 where
  pub nozzle_index : ℕ
  pub product_id : ℕ

pub record ContinuationContext (V : Type 0) : Type 0 where
  pub parent_tx_id : String
  pub base_volume : V
  pub base_amount : ℕ
  pub segment_volume : V
  pub segment_amount : ℕ

pub record CurrentTx : Type 0 where
  pub id : String
  pub started_at : ℕ
  pub product_id : ℕ
  pub product_name : String
  pub nozzle_index : ℕ

pub record WayneRuntimeState (V : Type 0) : Type 0 where
  pub stopped_nozzle_up : Bool
  pub preauth_nozzle_confirmed : Bool
  pub preauth_mismatch_active : Bool
  pub preauth_cancel_pending : Bool
  pub unauthorized_alerted : Bool
  pub ghost_recovery : Bool
  pub consecutive_idle_polls : ℕ
  pub pending_authorize_config : Bool
  pub pending_authorize_config_repeat : Bool
  pub preauth_config_on_wire : Bool
  pub config_on_wire_at : Option ℕ
  pub last_wire_hose_code : Option ℕ
  pub last_wire_hose_at_ms : ℕ
  pub pending_holster_close : Bool
  pub pump_sale_complete : Bool
  pub decel_stop_sent_at : Option ℕ
  pub decel_vol_snapshot : V
  pub decel_frozen_count : ℕ
  pub decel_pending_preset : Option (Preset V)
  pub decel_pending_stop_source : StopSource
  pub startup_ghost_last_meter : Option (V × ℕ)
  pub startup_ghost_frozen_count : ℕ
  pub stop_reflow_resent : Bool

-- The part of `ShelfRuntimeState` and `BlueSkyRuntimeState` that state.rs reads.
pub record ShelfClaims : Type 0 where
  pub start_attempted : Bool
  pub cancel_requested : Bool

pub record RuntimeFp (V : Type 0) : Type 0 where
  pub state : FpState V
  pub nozzle_prices : List (ℕ × ℕ)
  pub missed : ℕ
  pub settle_after_reconnect : ℕ
  pub current_tx : Option CurrentTx
  pub cap_volume_liters : Option V
  pub cap_amount : Option ℕ
  pub stopped_context : Option (StoppedContext V)
  pub continuation : Option (ContinuationContext V)
  pub last_preset : Preset V
  pub pre_auth : Option PreAuthContext
  pub pre_auth_started_at : Option ℕ
  pub auth_session_started_at : Option ℕ
  -- `Option<CompletedSaleLatch>`, whose value carries nothing.
  pub completed_sale : Bool
  pub wayne : WayneRuntimeState V
  pub shelf : ShelfClaims
  pub bluesky_cancel_wait : Option PreAuthCancelWait

-- What a handler is given besides the runtime: the configuration, the shift, the clock, and the next
-- identifier of `Uuid::new_v4`.
pub record Call : Type 0 where
  pub fp_cfg : FuelingPositionConfig
  pub site : SiteConfig
  pub active_shift_id : Option String
  pub active_operator_name : Option String
  pub now : ℕ
  pub fresh_id : String

abbrev pub lookup : ℕ → List (ℕ × ℕ) → Option ℕ
lookup k [] = none
lookup k ((j, v) ∷ rest) = let next = lookup k rest in if j == k then some v else next

-- `HashMap::insert`
abbrev pub insert : ℕ → ℕ → List (ℕ × ℕ) → List (ℕ × ℕ)
insert k v [] = (k, v) ∷ []
insert k v ((j, w) ∷ rest) =
    let next = insert k v rest in if j == k then (k, v) ∷ rest else (j, w) ∷ next

abbrev pub prices_of : List NozzleConfig → List (ℕ × ℕ) → List (ℕ × ℕ)
prices_of [] prices = prices
prices_of (n ∷ ns) prices = prices_of ns (insert n.index n.price prices)

abbrev pub or_default {ℓ} : {A : Type ℓ} → Option A → A → A
or_default none d = d
or_default (some a) d = a

abbrev pub or_other {ℓ} : {A : Type ℓ} → Option A → Option A → Option A
or_other none other = other
or_other (some a) other = some a

abbrev pub test_some {ℓ} : {A : Type ℓ} → (A → Bool) → Option A → Bool
test_some p none = false
test_some p (some a) = p a

-- Tests of the status; the last covers `matches!(status, Authorizing | Delivering)`.
module _ {V : Type 0} where
  abbrev pub is_offline : FpStatus V → Bool
  is_offline offline = true
  is_offline _ = false

  abbrev pub is_idle : FpStatus V → Bool
  is_idle idle = true
  is_idle _ = false

  abbrev pub is_pre_authorized : FpStatus V → Bool
  is_pre_authorized pre_authorized = true
  is_pre_authorized _ = false

  abbrev pub is_nozzle_up : FpStatus V → Bool
  is_nozzle_up nozzle_up = true
  is_nozzle_up _ = false

  abbrev pub is_authorizing : FpStatus V → Bool
  is_authorizing authorizing = true
  is_authorizing _ = false

  abbrev pub is_delivering : FpStatus V → Bool
  is_delivering delivering = true
  is_delivering _ = false

  abbrev pub is_done : FpStatus V → Bool
  is_done done = true
  is_done _ = false

  abbrev pub in_session : FpStatus V → Bool
  in_session authorizing = true
  in_session delivering = true
  in_session _ = false

  abbrev pub set_status : FpStatus V → RuntimeFp V → RuntimeFp V
  set_status status s = record s { state = record s.state { status = status } }

  -- `self.touch()`
  abbrev pub touch : Call → RuntimeFp V → RuntimeFp V
  touch c s = record s { state = record s.state { updated_at = c.now } }
