-- ===== src/Engine/Commands.antt =====
-- services/dispenser-service/src/engine/state.rs: the display of a lane and its pre-authorization.
use fuel_station_controller.Base.{
  ℕ, Bool, true, false, ◌&&◌, ◌||◌, not, Option, none, some, ◌==◌, if◌then◌else◌, is_some,
}
use fuel_station_controller.Engine.Float.{Float}
use fuel_station_controller.Engine.Types.{
  pre_authorized, authorizing, Preset, FpState, preset_label,
}
use fuel_station_controller.Engine.Runtime.{
  RuntimeFp, CurrentTx, PreAuthContext, Call, touch, set_status, in_session, is_idle, is_nozzle_up,
  is_done, or_default, or_other,
}
use fuel_station_controller.Engine.Session.{
  clear_ghost_recovery, enter_ghost_recovery, begin_auth_session,
}
use fuel_station_controller.Engine.Meters.{set_last_preset, zero_meters, zero_delivery_meters}
use fuel_station_controller.Engine.Nozzles.{lookup_nozzle, resolve_wayne_nozzle}
use fuel_station_controller.Engine.Effects.{
  preauth_nozzle_mismatch, PreauthOutcome, holstered, lift_confirmed, nozzle_mismatch,
}
use fuel_station_controller.Engine.Sales.{Outcome}
use fuel_station_controller.Engine.Holster.{cancel_pre_auth}

module _ (F : Float) where
  open F use {Carrier, of_nat}

  -- The display of the nozzle with this index.
  unfoldable pub show_nozzle : Call → ℕ → RuntimeFp Carrier → RuntimeFp Carrier
  unfolding lookup_nozzle
  show_nozzle c nozzle_index s =
      let found = lookup_nozzle c.site c.fp_cfg nozzle_index in
      record s {
        state = record s.state {
          nozzle_index = some nozzle_index;
          product_id = some (found.1.0);
          product_name = some (found.0);
          product_color = some (found.1.1);
        };
      }

  abbrev pub set_pre_auth_preset : RuntimeFp Carrier → RuntimeFp Carrier
  set_pre_auth_preset s = record s {
    state = record s.state { pre_auth_preset = some (preset_label F s.last_preset) };
  }

  abbrev pub keep_pre_auth_preset : RuntimeFp Carrier → RuntimeFp Carrier
  keep_pre_auth_preset s = if is_some s.state.pre_auth_preset then s else set_pre_auth_preset s

  unfoldable pub snapshot_state : RuntimeFp Carrier → FpState Carrier
  unfolding preset_label
  snapshot_state s =
      let wait =
        if is_some s.pre_auth && not (is_some s.current_tx) then s.bluesky_cancel_wait else none in
      let shown =
        if is_some s.pre_auth
        then keep_pre_auth_preset
            (if is_idle s.state.status then set_status pre_authorized s else s)
        else s in
      let labelled =
        if in_session shown.state.status && (is_some s.pre_auth || s.wayne.preauth_config_on_wire)
        then keep_pre_auth_preset shown
        else shown in
      record labelled.state { pre_auth_cancel_wait = wait }

  unfoldable pub confirm_nozzle : Bool → RuntimeFp Carrier → RuntimeFp Carrier
  confirm_nozzle confirmed s = record s {
    wayne = record s.wayne {
      preauth_nozzle_confirmed = confirmed;
      preauth_mismatch_active = false;
    };
  }

  abbrev pub same_index : Option ℕ → ℕ → Bool
  same_index none i = false
  same_index (some j) i = j == i

  -- A nozzle with another index is up.
  abbrev pub other_index : Option ℕ → ℕ → Bool
  other_index none i = false
  other_index (some j) i = not (j == i)

  -- The meters of a finished sale are dropped.
  unfoldable pub forget_done_sale : RuntimeFp Carrier → RuntimeFp Carrier
  unfolding zero_meters
  forget_done_sale s =
      let z = zero_meters F s in
      if is_done s.state.status
      then record z { state = record z.state { pre_auth_preset = none } }
      else s

  -- The lane is armed for the nozzle.
  unfoldable pub armed_lane : Call → ℕ → ℕ → Preset Carrier → RuntimeFp Carrier → RuntimeFp Carrier
  unfolding forget_done_sale set_last_preset clear_ghost_recovery show_nozzle zero_delivery_meters
      confirm_nozzle
  armed_lane c nozzle_index price preset s =
      let with_preset = set_last_preset F preset (forget_done_sale s) in
      let found = lookup_nozzle c.site c.fp_cfg nozzle_index in
      let claimed = clear_ghost_recovery (
        confirm_nozzle false (record with_preset {
          pre_auth = some (record { nozzle_index = nozzle_index; product_id = found.1.0 });
          pre_auth_started_at = some c.now;
        })) in
      let shown = show_nozzle c nozzle_index (set_status pre_authorized claimed) in
      let metered =
        set_pre_auth_preset (
          zero_delivery_meters F (record shown { state = record shown.state { price = price } })) in
      record metered { state = record metered.state { seq = 0 } }

  unfoldable pub apply_preauthorize_sent :
      Call → ℕ → ℕ → Preset Carrier → RuntimeFp Carrier → RuntimeFp Carrier × PreauthOutcome
  unfolding confirm_nozzle armed_lane lookup_nozzle
  apply_preauthorize_sent c nozzle_index price preset s =
      let up = or_default s.state.nozzle_index 0 in
      let armed = armed_lane c nozzle_index price preset s in
      let already_up =
        is_nozzle_up s.state.status && same_index s.state.nozzle_index nozzle_index in
      if is_nozzle_up s.state.status && other_index s.state.nozzle_index nozzle_index
      then (
        touch c (confirm_nozzle false s),
        nozzle_mismatch nozzle_index (lookup_nozzle c.site c.fp_cfg nozzle_index).0 up
            (lookup_nozzle c.site c.fp_cfg up).0,
      )
      else if already_up
      then (
        touch c (record armed { wayne = record armed.wayne { preauth_nozzle_confirmed = true } }),
        lift_confirmed,
      )
      else (touch c armed, holstered)

  unfoldable pub cancel_pre_auth_after_nozzle_mismatch :
      Call → RuntimeFp Carrier → RuntimeFp Carrier
  unfolding cancel_pre_auth enter_ghost_recovery
  cancel_pre_auth_after_nozzle_mismatch c s = enter_ghost_recovery (cancel_pre_auth F c s)

  -- The runtime is left as it is when the lifted nozzle is the expected one.
  unfoldable pub check_preauth_nozzle : Call → ℕ → ℕ → RuntimeFp Carrier → Option (Outcome F)
  unfolding resolve_wayne_nozzle lookup_nozzle cancel_pre_auth_after_nozzle_mismatch
  check_preauth_nozzle c lifted_product lifted_wayne_code s =
      let lifted = resolve_wayne_nozzle c.site c.fp_cfg lifted_product lifted_wayne_code in
      elim s.pre_auth [
        | none ↦ none
        | some pre ↦
            if lifted.0 == pre.nozzle_index
            then none
            else some (
              cancel_pre_auth_after_nozzle_mismatch c s,
              preauth_nozzle_mismatch pre.nozzle_index
                  (lookup_nozzle c.site c.fp_cfg pre.nozzle_index).0 lifted.0 lifted.1.0,
            )
      ]

  -- A transaction for the nozzle.
  unfoldable pub new_tx : Call → ℕ → CurrentTx
  unfolding lookup_nozzle
  new_tx c nozzle_index =
      let found = lookup_nozzle c.site c.fp_cfg nozzle_index in
      record {
        id = c.fresh_id;
        started_at = c.now;
        product_id = found.1.0;
        product_name = found.0;
        nozzle_index = nozzle_index;
      }

  abbrev pub pre_auth_index : Option PreAuthContext → Option ℕ
  pre_auth_index none = none
  pre_auth_index (some p) = some (p.nozzle_index)

  -- The pre-authorization is used up.
  unfoldable pub claim_lane : Call → ℕ → RuntimeFp Carrier → RuntimeFp Carrier
  unfolding show_nozzle preset_label
  claim_lane c nozzle_index s =
      let shown = show_nozzle c nozzle_index s in
      keep_pre_auth_preset (record shown {
        pre_auth = none;
        wayne = record shown.wayne { preauth_nozzle_confirmed = false };
      })

  -- The session starts; the configuration is due unless it is on the wire.
  unfoldable pub arm_session : Call → RuntimeFp Carrier → RuntimeFp Carrier
  unfolding begin_auth_session
  arm_session c s =
      if not s.wayne.preauth_config_on_wire then begin_auth_session c s else record s {
        auth_session_started_at = some c.now;
        wayne = record s.wayne {
          pending_authorize_config = false;
          pending_authorize_config_repeat = false;
        };
      }

  unfoldable pub start_delivery_from_pre_auth : Call → RuntimeFp Carrier → RuntimeFp Carrier
  unfolding claim_lane zero_delivery_meters arm_session new_tx
  start_delivery_from_pre_auth c s =
      let nozzle_index = or_default (or_other (pre_auth_index s.pre_auth) s.state.nozzle_index) 1 in
      let armed = arm_session c (zero_delivery_meters F (claim_lane c nozzle_index s)) in
      record (set_status authorizing armed) { current_tx = some (new_tx c nozzle_index) }
