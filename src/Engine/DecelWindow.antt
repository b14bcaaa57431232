-- ===== src/Engine/DecelWindow.antt =====
-- services/dispenser-service/src/engine/state.rs, `apply_frame`: the window in which a stopping pump
-- slows down.
use fuel_station_controller.Base.{
  ℕ, ◌+◌, ◌-◌, ◌<◌, ◌≤◌, Bool, true, false, none, some, ◌≡◌, refl, sym, ap, ◌∙◌, ◌||◌, leb, arith,
  Bool-cases, Option-cases, ◌⊎◌, inl, inr,
}
use mathlib.Core.Path.{subst}
use mathlib.Core.Bool.{true≢false}
use fuel_station_controller.Engine.Float.{Float}
use fuel_station_controller.Engine.Types.{is_stopped}
use fuel_station_controller.Engine.Runtime.{
  RuntimeFp, Call, or_default, count_up, touch, decel_frozen_frame_threshold,
  decel_window_timeout_ms,
}
use fuel_station_controller.Engine.Session.{in_decel_window, clear_deliver_caps}
use fuel_station_controller.Engine.Meters.{apply_metering, clear_decel_window}
use fuel_station_controller.Engine.Sales.{
  enter_stopped_state, finish_transaction_with_totals, apply_stopped_display,
}
use fuel_station_controller.Engine.Stopped.{commit_decel}
use fuel_station_controller.Engine.Metering.{
  Reading, meter, count_frozen, data_frozen, data_session,
}

module _ (F : Float) where
  open F use {Carrier, decimal, add, less}

  -- What a meter frame leaves alone.
  record IsMetered (s t : RuntimeFp Carrier) : Type 0 where
    same_wayne : t.wayne ≡ s.wayne
    same_status : t.state.status ≡ s.state.status
    same_tx : t.current_tx ≡ s.current_tx
    same_preset : t.last_preset ≡ s.last_preset
    same_context : t.stopped_context ≡ s.stopped_context

  meter-IsMetered : (r : Reading Carrier) (s : RuntimeFp Carrier) → IsMetered s (meter F r s)
  unfolding meter apply_metering
  meter-IsMetered r s = elim (Option-cases s.continuation) [
    | inl e ↦ rw e (record {
      same_wayne = refl;
      same_status = refl;
      same_tx = refl;
      same_preset = refl;
      same_context = refl;
    })
    | inr (k, e) ↦ rw e (record {
      same_wayne = refl;
      same_status = refl;
      same_tx = refl;
      same_preset = refl;
      same_context = refl;
    })
  ]

counted_up :
    (k : ℕ)
    → leb decel_frozen_frame_threshold (count_up k) ≡ false
    → (count_up k ≡ k + 1) × (k + 1 < 6)
counted_up k h = (ground arith, ground arith)

counted_out : (k : ℕ) → leb decel_frozen_frame_threshold (count_up k) ≡ true → 6 ≤ k + 1
counted_out k h = ground arith

timed_in : (n : ℕ) → leb decel_window_timeout_ms n ≡ false → n < 10000
timed_in n h = ground arith

timed_out : (n : ℕ) → leb decel_window_timeout_ms n ≡ true → 10000 ≤ n
timed_out n h = ground arith

or_false : (a b : Bool) → (a || b) ≡ false → (a ≡ false) × (b ≡ false)
or_false false b h = (refl, h)
or_false true b h = absurd (true≢false h)

or_true : (a b : Bool) → (a || b) ≡ true → (a ≡ true) ⊎ (b ≡ true)
or_true false b h = inr h
or_true true b h = inl refl

-- The stop of the window is committed, at the sixth frozen frame or ten seconds after the stop.
pub record IsCommitted (F : Float) (c : Call) (s t : RuntimeFp F.Carrier) : Type 0 where
  pub status_stopped : is_stopped t.state.status ≡ true
  pub stopped_by : t.state.stop_source ≡ some s.wayne.decel_pending_stop_source
  pub tx_taken : t.current_tx ≡ none
  pub window_closed : t.wayne.decel_stop_sent_at ≡ none
  pub over :
      (6 ≤ s.wayne.decel_frozen_count + 1)
      ⊎ (10000 ≤ c.now - or_default s.wayne.decel_stop_sent_at 0)

-- The window goes on: all of it is as it was but for the count of frozen frames.
pub record IsCounted (F : Float) (c : Call) (s t : RuntimeFp F.Carrier) : Type 0 where
  pub status_kept : t.state.status ≡ s.state.status
  pub tx_kept : t.current_tx ≡ s.current_tx
  pub preset_kept : t.last_preset ≡ s.last_preset
  pub context_kept : t.stopped_context ≡ s.stopped_context
  pub one_counted : t.wayne ≡ record s.wayne { decel_frozen_count = s.wayne.decel_frozen_count + 1 }
  pub few_counted : s.wayne.decel_frozen_count + 1 < 6
  pub in_time : c.now - or_default s.wayne.decel_stop_sent_at 0 < 10000

abbrev pub Advances : (F : Float) → Call → RuntimeFp F.Carrier → RuntimeFp F.Carrier → Type 0
Advances F c s t = IsCommitted F c s t ⊎ IsCounted F c s t

commit_decel-IsCommitted :
    (F : Float) (c : Call) (s : RuntimeFp F.Carrier)
    → (6 ≤ s.wayne.decel_frozen_count + 1)
      ⊎ (10000 ≤ c.now - or_default s.wayne.decel_stop_sent_at 0)
    → IsCommitted F c s (commit_decel F c (count_frozen F s)).0
unfolding commit_decel enter_stopped_state finish_transaction_with_totals apply_stopped_display
    is_stopped clear_decel_window clear_deliver_caps
commit_decel-IsCommitted F c s h = record {
  status_stopped = refl;
  stopped_by = refl;
  tx_taken = refl;
  window_closed = refl;
  over = h;
}

meter-IsCounted :
    (F : Float) (c : Call) (r : Reading F.Carrier) (s : RuntimeFp F.Carrier)
    → leb decel_frozen_frame_threshold (count_up s.wayne.decel_frozen_count) ≡ false
    → leb decel_window_timeout_ms (c.now - or_default s.wayne.decel_stop_sent_at 0) ≡ false
    → IsCounted F c s (touch c (meter F r (count_frozen F s)))
meter-IsCounted F c r s hk ht =
    let kept = meter-IsMetered F r (count_frozen F s) in
    let up = counted_up s.wayne.decel_frozen_count hk in
    record {
      status_kept = kept.same_status;
      tx_kept = kept.same_tx;
      preset_kept = kept.same_preset;
      context_kept = kept.same_context;
      one_counted = kept.same_wayne ∙ ap (λ n. record s.wayne { decel_frozen_count = n }) up.0;
      few_counted = up.1;
      in_time = timed_in (c.now - or_default s.wayne.decel_stop_sent_at 0) ht;
    }

data_frozen-Advances :
    (F : Float) (c : Call) (r : Reading F.Carrier) (s : RuntimeFp F.Carrier)
    → Advances F c s (data_frozen F c r s).0
unfolding data_frozen
data_frozen-Advances F c r s =
    let count = s.wayne.decel_frozen_count in
    let elapsed = c.now - or_default s.wayne.decel_stop_sent_at 0 in
    let frozen = leb decel_frozen_frame_threshold (count_up count) in
    let late = leb decel_window_timeout_ms elapsed in
    elim (Bool-cases (frozen || late)) [
      | inl e ↦ rw e (
          inl (
            commit_decel-IsCommitted F c s (elim (or_true frozen late e) [
              | inl k ↦ inl (counted_out count k)
              | inr k ↦ inr (timed_out elapsed k)
            ])))
      | inr e ↦
          let both = or_false frozen late e in rw e (inr (meter-IsCounted F c r s both.0 both.1))
    ]

session_frozen :
    (F : Float) (c : Call) (r : Reading F.Carrier) (s : RuntimeFp F.Carrier)
    → in_decel_window s ≡ true
    → r.crc_ok ≡ true
    → r.sale_complete ≡ false
    → F.less (F.add s.wayne.decel_vol_snapshot (F.decimal 5 3)) r.raw_vol ≡ false
    → data_session F c r s ≡ data_frozen F c r s
unfolding data_session
session_frozen F c r s hw hc hs hv = rw hw (rw hc (rw hs (rw hv refl)))

-- In the window of a session, a verified frame that neither ends the sale nor shows more than five
-- millilitres above the volume at the stop does one of two things. It commits the stop, at the sixth
-- frozen frame or when ten seconds have passed since the stop: the lane is stopped by the source that
-- the window keeps, with no transaction and the window closed. Or, before both, it leaves the status,
-- the transaction, the preset, the stopped context and the whole Wayne state, the window among it, as
-- they are, but for one more frozen frame counted.
pub data_session-Advances :
    (F : Float) (c : Call) (r : Reading F.Carrier) (s : RuntimeFp F.Carrier)
    → in_decel_window s ≡ true
    → r.crc_ok ≡ true
    → r.sale_complete ≡ false
    → F.less (F.add s.wayne.decel_vol_snapshot (F.decimal 5 3)) r.raw_vol ≡ false
    → Advances F c s (data_session F c r s).0
data_session-Advances F c r s hw hc hs hv =
    subst (λ o. Advances F c s o.0) (sym (session_frozen F c r s hw hc hs hv))
      (data_frozen-Advances F c r s)
