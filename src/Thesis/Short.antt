-- ===== src/Thesis/Short.antt =====
-- `_update_vwap_failed_reclaim_short` of src/alpha/engines/thesis/engine.py, signal by signal, and the
-- conditions that it leaves.
pub mod Laws
use alpha_runtime_v.Base.{
  ℕ, ◌+◌, Bool, true, false, not, ◌&&◌, Option, none, some, List, [], ◌∷◌, ◌++◌, ltb, leb, is_some,
  if◌then◌else◌,
}
use alpha_runtime_v.Base.Int.{ℤ, pos, negsuc, ◌-ℤ◌, ltb_ℤ}
use alpha_runtime_v.Execution.Models.{Decimal}
use alpha_runtime_v.Thesis.Model.{
  Floats, ThesisCandidate, TickFlowSnapshot, LevelMemorySnapshot, BarSnapshot, BarEvent,
  VwapEpisodeOutcome, InvalidationReason, CommitCondition, Score, no_score, support, weaken,
}
use alpha_runtime_v.Thesis.Long.{
  some_and, none_or, above, below, is_wide, invalidate, tps_signal, risk_signal, risk_condition,
  confidence_condition, when, settle,
}

module _ {F : Type 0} where
  abbrev pub risk_short : BarSnapshot F → ThesisCandidate F → Option Decimal
  risk_short snap t = elim t.rejection_high [ none ↦ none | some high ↦ some (high -ℤ snap.close) ]

  unfoldable pub raise_rejection : BarSnapshot F → BarEvent → ThesisCandidate F → ThesisCandidate F
  raise_rejection snap trigger t =
      if ltb_ℤ snap.vwap trigger.high && none_or t.rejection_high (λ h. ltb_ℤ h trigger.high)
      then record t { rejection_high = some trigger.high }
      else t

module _ {F : Type 0} (fl : Floats F) where
  -- The checks while the thesis waits for the price to cross the VWAP.
  unfoldable pub invalidation_before_break : BarSnapshot F → Option InvalidationReason
  invalidation_before_break snap =
      if snap.is_new_hod
      then some InvalidationReason.new_session_high
      else if above fl 120 snap.vwap_deviation_pct
      then some InvalidationReason.too_far_above
      else none

  -- The two checks that every other update runs.
  unfoldable pub invalidation_short : BarSnapshot F → BarEvent → Option InvalidationReason
  invalidation_short snap trigger =
      if snap.is_higher_high && snap.is_above_vwap
      then some InvalidationReason.higher_high
      else if some_and snap.bar_close_position_pct (above fl 75)
          && snap.is_above_vwap
          && is_wide fl 100 snap.atr_14 trigger
      then some InvalidationReason.strong_green_bar
      else none

  unfoldable pub score_before_break : BarSnapshot F → Score F
  score_before_break snap =
      let s : Score F = if snap.is_lower_high then support fl 7 (no_score fl) else no_score fl in
      if some_and snap.bar_close_position_pct (below fl 35) then support fl 5 s else s

  unfoldable pub rejection_signal : BarSnapshot F → Score F → Score F
  rejection_signal snap s =
      if snap.vwap_cross_down
      then support fl 20 s
      else if not snap.is_above_vwap && leb 2 snap.bars_below_vwap
      then support fl 6 s
      else s

  unfoldable pub close_signal_short : BarSnapshot F → Score F → Score F
  close_signal_short snap s = elim snap.bar_close_position_pct [
    | none ↦ s
    | some cp ↦
        if below fl 35 cp
        then support fl 10 s
        else if above fl 65 cp && not snap.is_above_vwap
        then weaken fl 8 s
        else s
  ]

  unfoldable pub volume_signal_short : BarSnapshot F → TickFlowSnapshot F → Score F → Score F
  volume_signal_short snap tick s =
      if above fl 0 tick.volume_acceleration
        && (above fl 130 tick.volume_acceleration && not snap.is_above_vwap)
      then support fl 5 s
      else s

  unfoldable pub memory_signal_short : LevelMemorySnapshot → Score F → Score F
  memory_signal_short level s = elim level.last_vwap_outcome [
    | none ↦ s
    | some VwapEpisodeOutcome.rejected ↦ support fl 6 s
    | some VwapEpisodeOutcome.reclaimed ↦ weaken fl 5 s
    | some VwapEpisodeOutcome.swept ↦ weaken fl 5 s
    | some VwapEpisodeOutcome.broken ↦ s
  ]

  unfoldable pub structure_signal : BarSnapshot F → Score F → Score F
  structure_signal snap s =
      if snap.is_lower_high && not snap.is_above_vwap then support fl 6 s else s

  unfoldable pub absorption_signal : TickFlowSnapshot F → Score F → Score F
  absorption_signal tick s =
      if tick.absorption
      then support fl 10 s
      else if fl.lt tick.bar_delta (fl.lit (negsuc 4999))
      then support fl 6 s
      else s

  unfoldable pub book_signal : TickFlowSnapshot F → Score F → Score F
  book_signal tick s = elim tick.book_imbalance [
    | none ↦ s
    | some imbalance ↦
        if fl.lt imbalance (fl.lit (negsuc 29))
        then support fl 8 s
        else if above fl 30 imbalance
        then weaken fl 6 s
        else s
  ]

  -- The signals after the checks, on top of what the crossing gave.
  unfoldable pub score_short :
      BarSnapshot F
      → LevelMemorySnapshot
      → TickFlowSnapshot F
      → ThesisCandidate F
      → Score F
      → Score F
  score_short snap level tick t s = book_signal tick (
      absorption_signal tick (
        risk_signal fl (risk_short snap t) snap.atr_14 (
          structure_signal snap (
            memory_signal_short level (
              volume_signal_short snap tick (
                tps_signal fl tick.buy_tps_10s tick.session_avg_tps
                  (close_signal_short snap (rejection_signal snap s))))))))

  unfoldable pub commit_conditions_short :
      BarSnapshot F → ThesisCandidate F → Option (List CommitCondition)
  commit_conditions_short snap t = elim (risk_condition fl (risk_short snap t) snap.atr_14) [
    | none ↦ none
    | some risk ↦ some (
        when snap.is_above_vwap CommitCondition.close_below_vwap
        ++ (when (not (is_some t.rejection_high)) CommitCondition.clear_rejection_high
            ++ (risk ++ confidence_condition fl t)))
  ]

  -- The rest of an update whose thesis does not wait for the VWAP to break.
  unfoldable pub update_broken :
      BarSnapshot F
      → LevelMemorySnapshot
      → TickFlowSnapshot F
      → BarEvent
      → Score F
      → ThesisCandidate F
      → ThesisCandidate F × Bool
  update_broken snap level tick trigger s t = elim (invalidation_short snap trigger) [
    | some reason ↦ (invalidate reason t, true)
    | none ↦ settle fl (commit_conditions_short snap) (score_short snap level tick t s) t
  ]

  -- An update of a thesis that waits for the VWAP to break.
  unfoldable pub update_before_break :
      BarSnapshot F
      → LevelMemorySnapshot
      → TickFlowSnapshot F
      → BarEvent
      → ThesisCandidate F
      → ThesisCandidate F × Bool
  update_before_break snap level tick trigger t = elim (invalidation_before_break snap) [
    | some reason ↦ (invalidate reason t, true)
    | none ↦
        if snap.vwap_cross_down
        then update_broken snap level tick trigger (support fl 25 (no_score fl))
            (record t { pre_vwap_break = false })
        else settle fl (commit_conditions_short snap) (score_before_break snap) t
  ]

  unfoldable pub update_vwap_failed_reclaim_short :
      BarSnapshot F
      → LevelMemorySnapshot
      → TickFlowSnapshot F
      → BarEvent
      → ThesisCandidate F
      → ThesisCandidate F × Bool
  update_vwap_failed_reclaim_short snap level tick trigger t =
      let raised : ThesisCandidate F = raise_rejection snap trigger t in
      if t.pre_vwap_break
      then update_before_break snap level tick trigger raised
      else if leb 2 snap.bars_above_vwap
      then (invalidate InvalidationReason.buyers_in_control raised, true)
      else update_broken snap level tick trigger (no_score fl) raised
