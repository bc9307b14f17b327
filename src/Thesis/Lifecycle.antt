-- ===== src/Thesis/Lifecycle.antt =====
-- `_update_thesis`, `_advance_state`, `_necessary_conditions_met` and `_compute_entry_plan` of src/alpha/engines/thesis/engine.py.
pub mod Prices
pub mod Plans
pub mod Ages
pub mod Waits
pub mod Confidence
use alpha_runtime_v.Base.{
  ℕ, suc, ◌+◌, Bool, true, false, not, ◌&&◌, ◌||◌, Option, none, some, List, [], ◌∷◌, ltb, leb,
  is_some, if◌then◌else◌,
}
use alpha_runtime_v.Base.Int.{ℤ, pos, ◌+ℤ◌, ◌-ℤ◌, ◌*ℤ◌, ltb_ℤ, leb_ℤ, eqb_ℤ}
use alpha_runtime_v.Execution.Models.{Decimal}
use alpha_runtime_v.Thesis.Model.{
  Floats, ThesisState, ThesisType, VwapEpisodeOutcome, ThesisCandidate, TickFlowSnapshot,
  LevelMemorySnapshot, BarSnapshot, BarEvent,
}
use alpha_runtime_v.Thesis.Long.{some_and, above, below, is_positive, update_fake_breakdown_long}
use alpha_runtime_v.Thesis.Short.{update_vwap_failed_reclaim_short}

-- The truth of a Decimal that may be missing.
abbrev pub is_set : Option Decimal → Bool
is_set o = some_and o (λ d. not (eqb_ℤ d (pos 0)))

-- Prices of a plan, in tenths of the unit before they are doubled.
abbrev pub tenths : Decimal → Decimal
tenths d = pos 10 *ℤ d

abbrev pub doubled : Decimal → Decimal
doubled d = pos 2 *ℤ d

-- The sum of an entry and 2.5 of the risk, where neither price is 0: all from halves.
unfoldable pub with_target :
    {F : Type 0} → Decimal → Decimal → Decimal → ThesisCandidate F → ThesisCandidate F
with_target half_entry half_stop reward t =
    let entry : Decimal = doubled half_entry in
    let stop : Decimal = doubled half_stop in
    if is_set (some entry) && is_set (some stop)
    then record t { entry = some entry; stop = some stop; target = some reward }
    else record t { entry = some entry; stop = some stop }

-- A tenth of an ATR beyond an anchor that is set, or an ATR from the VWAP; halves.
unfoldable pub stop_long : Decimal → Decimal → Option Decimal → Decimal
stop_long atr vwap none = tenths vwap -ℤ tenths atr
stop_long atr vwap (some low) =
    if eqb_ℤ low (pos 0) then tenths vwap -ℤ tenths atr else tenths low -ℤ atr

unfoldable pub stop_short : Decimal → Decimal → Option Decimal → Decimal
stop_short atr vwap none = tenths vwap +ℤ tenths atr
stop_short atr vwap (some high) =
    if eqb_ℤ high (pos 0) then tenths vwap +ℤ tenths atr else tenths high +ℤ atr

module _ {F : Type 0} where
  -- `necessary_conditions_met` of a long thesis. The risk is compared with 1.5 ATRs.
  unfoldable pub necessary_long : BarSnapshot F → ThesisCandidate F → Bool
  necessary_long snap t = elim t.sweep_low [
    | none ↦ false
    | some low ↦
        snap.is_above_vwap
        && (leb 1 snap.bars_above_vwap
            && not (
                some_and snap.atr_14
                  (λ atr. is_positive atr && ltb_ℤ (pos 3 *ℤ atr) (pos 2 *ℤ (snap.close -ℤ low)))))
  ]

  -- `necessary_conditions_met` of a short thesis. The risk is compared with 0.5% of the VWAP.
  unfoldable pub necessary_short : BarSnapshot F → ThesisCandidate F → Bool
  necessary_short snap t = elim t.rejection_high [
    | none ↦ false
    | some high ↦
        not snap.is_above_vwap
        && (leb 1 snap.bars_below_vwap
            && not (is_positive snap.vwap && ltb_ℤ snap.vwap (pos 200 *ℤ (high -ℤ snap.vwap))))
  ]

  unfoldable pub necessary_conditions_met : BarSnapshot F → ThesisCandidate F → Bool
  necessary_conditions_met snap t = elim t.thesis_type [
    | ThesisType.fake_breakdown_reclaim_long ↦ necessary_long snap t
    | ThesisType.vwap_failed_reclaim_short ↦ necessary_short snap t
  ]

  -- `snap.atr_14 or Decimal("10")`, given what 10 is in the unit.
  unfoldable pub plan_atr : Decimal → BarSnapshot F → Decimal
  plan_atr ten snap = elim snap.atr_14 [
    | none ↦ ten
    | some atr ↦ if eqb_ℤ atr (pos 0) then ten else atr
  ]

  unfoldable pub plan_by_type :
      ThesisType → Decimal → BarSnapshot F → ThesisCandidate F → ThesisCandidate F
  plan_by_type ThesisType.fake_breakdown_reclaim_long atr snap t =
      let entry : Decimal = tenths snap.vwap +ℤ atr in
      let stop : Decimal = stop_long atr snap.vwap t.sweep_low in
      with_target entry stop (doubled entry +ℤ pos 5 *ℤ (entry -ℤ stop)) t
  plan_by_type ThesisType.vwap_failed_reclaim_short atr snap t =
      let entry : Decimal = tenths snap.vwap -ℤ atr in
      let stop : Decimal = stop_short atr snap.vwap t.rejection_high in
      with_target entry stop (doubled entry -ℤ pos 5 *ℤ (stop -ℤ entry)) t

  unfoldable pub compute_entry_plan :
      Decimal → BarSnapshot F → ThesisCandidate F → ThesisCandidate F
  compute_entry_plan ten snap t = plan_by_type t.thesis_type (plan_atr ten snap) snap t

module _ {F : Type 0} (fl : Floats F) where
  abbrev pub at_least : ℕ → F → Bool
  at_least c x = fl.le (fl.lit (pos c)) x

  unfoldable pub advance_state : Decimal → BarSnapshot F → ThesisCandidate F → ThesisCandidate F
  advance_state ten snap t = elim t.state [
    | ThesisState.watching ↦
        if at_least 30 t.confidence
        then record t { state = ThesisState.building }
        else if ltb 8 t.bars_alive
        then record t { state = ThesisState.expired }
        else t
    | ThesisState.building ↦
        if at_least 65 t.confidence && necessary_conditions_met snap t
        then compute_entry_plan ten snap (record t { state = ThesisState.ready })
        else if ltb 20 t.bars_alive
        then record t { state = ThesisState.expired }
        else t
    | _ ↦ t
  ]

  -- The update of a thesis by its type.
  unfoldable pub update_by_type :
      BarSnapshot F
      → LevelMemorySnapshot
      → TickFlowSnapshot F
      → BarEvent
      → ThesisCandidate F
      → ThesisCandidate F × Bool
  update_by_type snap level tick trigger t = elim t.thesis_type [
    | ThesisType.fake_breakdown_reclaim_long ↦
        update_fake_breakdown_long fl snap level tick trigger t
    | ThesisType.vwap_failed_reclaim_short ↦
        update_vwap_failed_reclaim_short fl snap level tick trigger t
  ]

  -- `_update_thesis`; an exception in the update leaves the state as it is.
  unfoldable pub update_thesis :
      Decimal
      → BarSnapshot F
      → LevelMemorySnapshot
      → TickFlowSnapshot F
      → BarEvent
      → ThesisCandidate F
      → ThesisCandidate F × Bool
  update_thesis ten snap level tick trigger t =
      let aged : ThesisCandidate F = record t {
        bars_alive = suc t.bars_alive;
        updated_at = some trigger.timestamp;
      } in
      let r : ThesisCandidate F × Bool = update_by_type snap level tick trigger aged in
      if r.1 then (advance_state ten snap r.0, true) else r
