-- ===== src/Engine/Sound/Closing.antt =====
-- services/dispenser-service/src/engine/state.rs, `close_stopped`: a stopped sale is dropped by its name.
use Prim.Native.String.{String}
use fuel_station_controller.Base.{
  ℕ, Bool, true, false, Option, none, some, ◌≡◌, refl, sym, ◌∙◌, ap, not, if◌then◌else◌,
}
use fuel_station_controller.Engine.Float.{Float}
use fuel_station_controller.Engine.Types.{StopSource, FpStatus, idle, stopped, is_stopped}
use fuel_station_controller.Engine.Runtime.{RuntimeFp, StoppedContext, ContinuationContext, Call}
use fuel_station_controller.Engine.Session.{clear_deliver_caps, clear_continuation_fields}
use fuel_station_controller.Engine.Meters.{zero_meters}
use fuel_station_controller.Engine.Sales.{Result, ok, err, close_stopped, closed_lane}
use fuel_station_controller.Engine.Steps.{Reachable}
use fuel_station_controller.Engine.Sound.{Displays, plain, shown}
use fuel_station_controller.Engine.Sound.Reached.{Reachable-Displays}
use text.Mathlib.Text.{◌==◌ as str_eq}
use mathlib.Core.Bool.{true≢false}
use mathlib.Core.Option.{none-ne-some, some_inj}

abbrev status_id : {V : Type 0} → FpStatus V → Option String
status_id (stopped v a id source) = some id
status_id _ = none

abbrev kept_id : {V : Type 0} → Option (StoppedContext V) → Option String
kept_id none = none
kept_id (some sc) = some (sc.stopped_tx_id)

displayed_id :
    {V : Type 0} {st : FpStatus V} {kept : Option (StoppedContext V)}
    {k : Option (ContinuationContext V)}
    → Displays V st kept k
    → is_stopped st ≡ true
    → kept_id kept ≡ status_id st
displayed_id (plain q) h = absurd (true≢false (sym h ∙ q))
displayed_id (shown sc) h = refl

-- The lane `t` is idle, shows no sale and keeps nothing of the one it showed; its catalogue, its last
-- preset and the state of the protocol are those of `s`.
pub record IsReleased (F : Float) (s t : RuntimeFp F.Carrier) : Type 0 where
  pub idle_status : t.state.status ≡ idle
  pub no_volume : t.state.volume ≡ F.of_nat 0
  pub no_amount : t.state.amount ≡ 0
  pub no_shown_id : t.state.stopped_tx_id ≡ none
  pub no_source : t.state.stop_source ≡ none
  pub no_shown_preset : t.state.pre_auth_preset ≡ none
  pub no_segment : (t.state.segment_volume ≡ none) × (t.state.segment_amount ≡ none)
  pub no_base : (t.state.base_volume ≡ none) × (t.state.base_amount ≡ none)
  pub no_context : t.stopped_context ≡ none
  pub no_continuation : t.continuation ≡ none
  pub no_tx : t.current_tx ≡ none
  pub no_pre_auth : t.pre_auth ≡ none
  pub no_caps : (t.cap_volume_liters ≡ none) × (t.cap_amount ≡ none)
  pub same_prices : t.nozzle_prices ≡ s.nozzle_prices
  pub same_preset : t.last_preset ≡ s.last_preset
  pub same_wayne : t.wayne ≡ s.wayne

closed_lane-IsReleased :
    (F : Float) (c : Call) (s : RuntimeFp F.Carrier) → IsReleased F s (closed_lane F c s)
unfolding closed_lane clear_deliver_caps clear_continuation_fields zero_meters
closed_lane-IsReleased F c s = record {
  idle_status = refl;
  no_volume = refl;
  no_amount = refl;
  no_shown_id = refl;
  no_source = refl;
  no_shown_preset = refl;
  no_segment = (refl, refl);
  no_base = (refl, refl);
  no_context = refl;
  no_continuation = refl;
  no_tx = refl;
  no_pre_auth = refl;
  no_caps = (refl, refl);
  same_prices = refl;
  same_preset = refl;
  same_wayne = refl;
}

-- What closing by `name` does to a lane that shows the sale `id`: the right name releases the lane,
-- which cannot be closed again, and any other is refused.
pub data Closing (F : Float) (c : Call) (s : RuntimeFp F.Carrier) (id name : String)
    : Result (RuntimeFp F.Carrier) → Type 0 where
  released :
      {t : RuntimeFp F.Carrier}
      → str_eq id name ≡ true
      → IsReleased F s t
      → ((d : Call) (other : String) → close_stopped F d other t ≡ err "lane is not stopped")
      → Closing F c s id name (ok t)
  refused :
      str_eq id name ≡ false → Closing F c s id name (err "stopped_tx_id does not match this lane")

close_released :
    (F : Float) (s t : RuntimeFp F.Carrier)
    → IsReleased F s t
    → (d : Call) (other : String) → close_stopped F d other t ≡ err "lane is not stopped"
unfolding close_stopped
close_released F s t h d other = rw h.no_context refl

close_checked :
    (F : Float) (c : Call) (s : RuntimeFp F.Carrier) (id name : String) (b : Bool)
    → str_eq id name ≡ b
    → Closing F c s id name
        (if not b then err "stopped_tx_id does not match this lane" else ok (closed_lane F c s))
close_checked F c s id name true e =
    let freed = closed_lane-IsReleased F c s in
    released e freed (close_released F s (closed_lane F c s) freed)
close_checked F c s id name false e = refused e

-- Closing by a name, of a lane that keeps the sale `id`.
close_kept :
    (F : Float) (c : Call) (s : RuntimeFp F.Carrier) (id name : String)
    (o : Option (StoppedContext F.Carrier))
    → kept_id o ≡ some id
    → Closing F c s id name (elim o [
      | none ↦ err "lane is not stopped"
      | some sc ↦
          if not (str_eq sc.stopped_tx_id name)
          then err "stopped_tx_id does not match this lane"
          else ok (closed_lane F c s)
    ])
close_kept F c s id name none h = absurd (none-ne-some id h)
close_kept F c s id name (some sc) h =
    let same : sc.stopped_tx_id ≡ id = some_inj.0 h in
    rw same (close_checked F c s id name (str_eq id name) refl)

-- A reachable lane that shows a stopped sale is closed by the shown identifier: it is idle with empty
-- meters, shows no sale, has no stopped context, continuation, transaction, pre-authorization, caps or
-- preset in the display, keeps its prices, its last preset and the protocol's state, and cannot be
-- closed again by any name. Any other name is refused with the message of a mismatch.
pub close_stopped-shown :
    (F : Float) (c : Call) (s : RuntimeFp F.Carrier) (v : F.Carrier) (a : ℕ) (id name : String)
    (source : StopSource)
    → Reachable F s
    → s.state.status ≡ stopped v a id source
    → Closing F c s id name (close_stopped F c name s)
unfolding close_stopped is_stopped
close_stopped-shown F c s v a id name source r e =
    close_kept F c s id name s.stopped_context
      (displayed_id (Reachable-Displays F s r) (ap is_stopped e) ∙ ap status_id e)
