-- ===== src/Engine/Sound.antt =====
-- services/dispenser-service/src/engine/state.rs: what holds of a lane between two calls, and of the
-- lane that a handler leaves with its effect.
use Prim.Native.String.{String}
use fuel_station_controller.Base.{
  ℕ, Bool, true, false, Option, none, some, ◌≡◌, refl, if◌then◌else◌,
}
use fuel_station_controller.Engine.Float.{Float}
use fuel_station_controller.Engine.Types.{
  StopSource, FpStatus, FpState, Transaction, idle, stopped, is_stopped,
}
use fuel_station_controller.Engine.Runtime.{
  RuntimeFp, StoppedContext, ContinuationContext, CurrentTx, in_session,
}
use fuel_station_controller.Engine.Effects.{
  FrameEffect, transaction_done, paused, nozzle_removed, no_effect,
}
use fuel_station_controller.Engine.Sales.{Outcome}
mod Sales
mod Holster
mod Commands
mod Lift
mod Metering
mod Outside
mod Frames
pub mod Reached
pub mod Closing

-- No fill is continued, and a stopped lane shows the sale that its context keeps.
pub data Displays (V : Type 0)
    : FpStatus V → Option (StoppedContext V) → Option (ContinuationContext V) → Type 0 where
  plain :
      {st : FpStatus V} {kept : Option (StoppedContext V)}
      → is_stopped st ≡ false
      → Displays V st kept none
  shown :
      (sc : StoppedContext V)
      → Displays V
          (stopped sc.stopped_volume sc.stopped_amount sc.stopped_tx_id sc.stop_source)
          (some sc)
          none

-- The status is not stopped any more; the context may be kept.
pub unstopped :
    {V : Type 0} {st st' : FpStatus V} {kept kept' : Option (StoppedContext V)}
    {k : Option (ContinuationContext V)}
    → Displays V st kept k
    → is_stopped st' ≡ false
    → Displays V st' kept' k
unstopped (plain q) r = plain r
unstopped (shown sc) r = plain r

pub settled :
    {V : Type 0} {st : FpStatus V} {kept : Option (StoppedContext V)}
    {k : Option (ContinuationContext V)}
    → Displays V st kept k
    → Displays V st kept none
settled (plain q) = plain q
settled (shown sc) = shown sc

pub continuation_none :
    {V : Type 0} {st : FpStatus V} {kept : Option (StoppedContext V)}
    {k : Option (ContinuationContext V)}
    → Displays V st kept k
    → k ≡ none
continuation_none (plain q) = refl
continuation_none (shown sc) = refl

-- The effects that record a sale.
abbrev pub carries_sale : {V : Type 0} → FrameEffect V → Bool
carries_sale (transaction_done tx action) = true
carries_sale (paused tx fp_id vol amt id source) = true
carries_sale (nozzle_removed fp_id id tx) = true
carries_sale _ = false

-- Volume and amount of the recorded sale, alone and with what was recorded before it.
abbrev pub sale_of : {V : Type 0} → FrameEffect V → Option ((V × ℕ) × (V × ℕ))
sale_of (transaction_done tx action) =
    some ((tx.volume, tx.amount), (tx.combined_volume, tx.combined_amount))
sale_of (paused tx fp_id vol amt id source) =
    some ((tx.volume, tx.amount), (tx.combined_volume, tx.combined_amount))
sale_of (nozzle_removed fp_id id tx) =
    some ((tx.volume, tx.amount), (tx.combined_volume, tx.combined_amount))
sale_of _ = none

-- An effect that records a sale leaves no transaction and no session, and the sale is the one in the
-- display, unless the lane is idle again.
pub data Recorded (V : Type 0) : FrameEffect V → Option CurrentTx → FpState V → Type 0 where
  quiet :
      {e : FrameEffect V} {tx : Option CurrentTx} {st : FpState V}
      → carries_sale e ≡ false
      → Recorded V e tx st
  billed :
      {e : FrameEffect V} {st : FpState V}
      → in_session st.status ≡ false
      → sale_of e ≡ some ((st.volume, st.amount), (st.volume, st.amount))
      → Recorded V e none st
  closed : {e : FrameEffect V} {st : FpState V} → st.status ≡ idle → Recorded V e none st

module _ (F : Float) where
  open F use {Carrier}

  abbrev pub IsConsistent : RuntimeFp Carrier → Type 0
  IsConsistent s = Displays Carrier s.state.status s.stopped_context s.continuation

  pub record Holds (s : RuntimeFp Carrier) : Type 0 where
    pub displays : Displays Carrier s.state.status s.stopped_context s.continuation

  pub Holds-if :
      (b : Bool) {s t : RuntimeFp Carrier} → Holds s → Holds t → Holds (if b then s else t)
  Holds-if true hs ht = hs
  Holds-if false hs ht = ht

  -- The same of the lane that an operation returns with other results.
  pub record HoldsAt {ℓ} {A : Type ℓ} (lane : A → RuntimeFp Carrier) (o : A) : Type ℓ where
    pub lane_displays :
        Displays Carrier (lane o).state.status (lane o).stopped_context (lane o).continuation

  pub HoldsAt-if {ℓ} :
      {A : Type ℓ} {lane : A → RuntimeFp Carrier} (b : Bool) {o p : A}
      → HoldsAt lane o
      → HoldsAt lane p
      → HoldsAt lane (if b then o else p)
  HoldsAt-if true ho hp = ho
  HoldsAt-if false ho hp = hp

  pub record IsSound (o : Outcome F) : Type 0 where
    pub consistent : Displays Carrier o.0.state.status o.0.stopped_context o.0.continuation
    pub recorded : Recorded Carrier o.1 o.0.current_tx o.0.state

  pub IsSound-if :
      (b : Bool) {o p : Outcome F} → IsSound o → IsSound p → IsSound (if b then o else p)
  IsSound-if true ho hp = ho
  IsSound-if false ho hp = hp
