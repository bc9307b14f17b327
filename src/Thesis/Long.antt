-- ===== src/Thesis/Long.antt =====
-- `_update_fake_breakdown_long` of src/alpha/engines/thesis/engine.py, signal by signal, and the conditions
-- that it leaves.
pub mod Laws
use alpha_runtime_v.Base.{
  ℕ, ◌+◌, Bool, true, false, not, ◌&&◌, Option, none, some, List, [], ◌∷◌, ◌++◌, ltb, leb, is_some,
  if◌then◌else◌,
}
use alpha_runtime_v.Base.Int.{ℤ, pos, ◌-ℤ◌, ◌*ℤ◌, ltb_ℤ, eqb_ℤ}
use alpha_runtime_v.Execution.Models.{Decimal}
use alpha_runtime_v.Thesis.Model.{
  Floats, ThesisState, ThesisCandidate, TickFlowSnapshot, LevelMemorySnapshot, BarSnapshot,
  BarEvent, VwapEpisodeOutcome, InvalidationReason, CommitCondition, Score, no_score, support,
  weaken,
}

-- `x is not None and p(x)`
abbrev pub some_and {ℓ} : {A : Type ℓ} → Option A → (A → Bool) → Bool
some_and none p = false
some_and (some a) p = p a

-- `x is None or p(x)`
abbrev pub none_or {ℓ} : {A : Type ℓ} → Option A → (A → Bool) → Bool
none_or none p = true
none_or (some a) p = p a

abbrev pub is_positive : Decimal → Bool
is_positive d = ltb_ℤ (pos 0) d

abbrev pub when : Bool → CommitCondition → List CommitCondition
when b c = if b then c ∷ [] else []

module _ {F : Type 0} where
  abbrev pub risk_long : BarSnapshot F → ThesisCandidate F → Option Decimal
  risk_long snap t = elim t.sweep_low [ none ↦ none | some low ↦ some (snap.close -ℤ low) ]

  -- A deeper dip below the VWAP is the new sweep low.
  unfoldable pub deepen_sweep : BarSnapshot F → BarEvent → ThesisCandidate F → ThesisCandidate F
  deepen_sweep snap trigger t =
      if ltb_ℤ trigger.low snap.vwap && none_or t.sweep_low (λ s. ltb_ℤ trigger.low s)
      then record t { sweep_low = some trigger.low }
      else t

  unfoldable pub invalidate : InvalidationReason → ThesisCandidate F → ThesisCandidate F
  invalidate reason t = record t {
    state = ThesisState.invalidated;
    invalidation_reason = some reason;
  }

module _ {F : Type 0} (fl : Floats F) where
  abbrev pub above : ℕ → F → Bool
  above c x = fl.lt (fl.lit (pos c)) x

  abbrev pub below : ℕ → F → Bool
  below c x = fl.lt x (fl.lit (pos c))

  -- `trigger.high - trigger.low > float(snap.atr_14 or 1) * m`, the factor in hundredths.
  unfoldable pub is_wide : ℕ → Option Decimal → BarEvent → Bool
  is_wide m none trigger =
      fl.exceeds (trigger.high -ℤ trigger.low) (fl.mul (fl.of_int (pos 1)) (fl.lit (pos m)))
  is_wide m (some atr) trigger =
      fl.exceeds (trigger.high -ℤ trigger.low) (
        fl.mul (if eqb_ℤ atr (pos 0) then fl.of_int (pos 1) else fl.of_decimal atr)
          (fl.lit (pos m)))

  -- `max(0.0, min(1.0, x))`
  unfoldable pub clamp : F → F
  clamp x =
      let capped : F = if fl.lt x (fl.lit (pos 100)) then x else fl.lit (pos 100) in
      if fl.lt (fl.lit (pos 0)) capped then capped else fl.lit (pos 0)

  unfoldable pub invalidation_long :
      BarSnapshot F → BarEvent → ThesisCandidate F → Option InvalidationReason
  invalidation_long snap trigger t =
      if leb 3 snap.bars_below_vwap && not snap.vwap_cross_up && not snap.swept_below_vwap
      then some InvalidationReason.sellers_in_control
      else if snap.is_lower_low && not snap.is_above_vwap && ltb 2 t.bars_alive
      then some InvalidationReason.new_session_low
      else if some_and snap.bar_close_position_pct (below 25)
          && not snap.is_above_vwap
          && is_wide 120 snap.atr_14 trigger
      then some InvalidationReason.wide_red_bar
      else none

  unfoldable pub reclaim_signal : BarSnapshot F → Score F → Score F
  reclaim_signal snap s =
      if snap.vwap_cross_up
      then support fl 22 s
      else if snap.swept_below_vwap
      then support fl 12 s
      else if snap.is_above_vwap && leb 2 snap.bars_above_vwap
      then support fl 6 s
      else s

  unfoldable pub close_signal_long : BarSnapshot F → Score F → Score F
  close_signal_long snap s = elim snap.bar_close_position_pct [
    | none ↦ s
    | some cp ↦
        if above 65 cp
        then support fl 10 s
        else if below 35 cp && snap.is_above_vwap
        then weaken fl 8 s
        else s
  ]

  -- The ratio of one side's trades to the session's, on either side.
  unfoldable pub tps_signal : Option F → F → Score F → Score F
  tps_signal none session_avg s = s
  tps_signal (some tps) session_avg s =
      if above 0 session_avg
      then (if below 40 (fl.div tps session_avg)
          then support fl 10 s
          else if above 140 (fl.div tps session_avg)
          then weaken fl 8 s
          else s)
      else s

  unfoldable pub volume_signal_long : BarSnapshot F → TickFlowSnapshot F → Score F → Score F
  volume_signal_long snap tick s =
      if above 0 tick.volume_acceleration
      then (if below 65 tick.volume_acceleration && not snap.is_above_vwap
          then support fl 5 s
          else if above 150 tick.volume_acceleration && snap.vwap_cross_up
          then support fl 5 s
          else s)
      else s

  unfoldable pub memory_signal_long : LevelMemorySnapshot → Score F → Score F
  memory_signal_long level s = elim level.last_vwap_outcome [
    | none ↦ s
    | some VwapEpisodeOutcome.swept ↦ support fl 5 s
    | some VwapEpisodeOutcome.reclaimed ↦ support fl 5 s
    | some VwapEpisodeOutcome.broken ↦
        if ltb level.bars_since_last_vwap_touch 5 then weaken fl 5 s else s
    | some VwapEpisodeOutcome.rejected ↦ s
  ]

  -- The distance to the stop in ATRs, where both are known.
  unfoldable pub risk_signal : Option Decimal → Option Decimal → Score F → Score F
  risk_signal none atr s = s
  risk_signal (some risk) none s = s
  risk_signal (some risk) (some atr) s =
      if is_positive atr
      then (if fl.le (fl.ratio risk atr) (fl.lit (pos 70))
          then support fl 5 s
          else if above 150 (fl.ratio risk atr)
          then weaken fl 10 s
          else s)
      else s

  unfoldable pub score_long :
      BarSnapshot F → LevelMemorySnapshot → TickFlowSnapshot F → ThesisCandidate F → Score F
  score_long snap level tick t = risk_signal (risk_long snap t) snap.atr_14 (
      memory_signal_long level (
        volume_signal_long snap tick (
          tps_signal tick.sell_tps_10s tick.session_avg_tps
            (close_signal_long snap (reclaim_signal snap (no_score fl))))))

  -- Whether the risk must tighten; `none` is the exception of a division by 0.
  unfoldable pub risk_condition : Option Decimal → Option Decimal → Option (List CommitCondition)
  risk_condition none atr = some []
  risk_condition (some risk) none = some []
  risk_condition (some risk) (some atr) =
      if eqb_ℤ atr (pos 0)
      then none
      else if above 150 (fl.ratio risk atr)
      then some (CommitCondition.tighter_risk ∷ [])
      else some []

  abbrev pub confidence_condition : ThesisCandidate F → List CommitCondition
  confidence_condition t =
      if below 65 t.confidence then CommitCondition.more_confidence ∷ [] else []

  unfoldable pub commit_conditions_long :
      BarSnapshot F → ThesisCandidate F → Option (List CommitCondition)
  commit_conditions_long snap t = elim (risk_condition (risk_long snap t) snap.atr_14) [
    | none ↦ none
    | some risk ↦ some (
        when (not snap.is_above_vwap) CommitCondition.close_above_vwap
        ++ (when (ltb snap.bars_above_vwap 1) CommitCondition.confirmed_bar
            ++ (when (not (is_some t.sweep_low)) CommitCondition.clear_sweep_low
                ++ (risk ++ confidence_condition t))))
  ]

  -- The end of an update: the confidence and evidence, then the conditions. The second part is false
  -- where an exception left the update.
  unfoldable pub settle :
      (ThesisCandidate F → Option (List CommitCondition))
      → Score F
      → ThesisCandidate F
      → ThesisCandidate F × Bool
  settle conditions s t =
      let scored : ThesisCandidate F = record t {
        confidence = clamp (fl.add t.confidence s.delta);
        evidence = s.evidence;
      } in
      elim (conditions scored) [
        | none ↦ (scored, false)
        | some cs ↦ (record scored { commit_conditions = cs }, true)
      ]

  unfoldable pub update_fake_breakdown_long :
      BarSnapshot F
      → LevelMemorySnapshot
      → TickFlowSnapshot F
      → BarEvent
      → ThesisCandidate F
      → ThesisCandidate F × Bool
  update_fake_breakdown_long snap level tick trigger t =
      let swept : ThesisCandidate F = deepen_sweep snap trigger t in
      elim (invalidation_long snap trigger swept) [
        | some reason ↦ (invalidate reason swept, true)
        | none ↦ settle (commit_conditions_long snap) (score_long snap level tick swept) swept
      ]
