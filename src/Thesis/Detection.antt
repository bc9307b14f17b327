-- ===== src/Thesis/Detection.antt =====
-- `_detect_thesis` and `_build_flip_candidate` of src/alpha/engines/thesis/engine.py.
use alpha_runtime_v.Base.{
  ℕ, Bool, true, false, not, ◌&&◌, ◌||◌, Option, none, some, [], leb, if◌then◌else◌,
}
use alpha_runtime_v.Base.Int.{pos}
use alpha_runtime_v.Execution.Models.{Decimal}
use alpha_runtime_v.Thesis.Model.{
  Floats, ThesisState, ThesisType, VwapEpisodeOutcome, ThesisCandidate, LevelMemorySnapshot,
  BarSnapshot, BarEvent,
}
use alpha_runtime_v.Thesis.Long.{some_and, below, is_positive}

abbrev pub opposite : ThesisType → ThesisType
opposite ThesisType.fake_breakdown_reclaim_long = ThesisType.vwap_failed_reclaim_short
opposite ThesisType.vwap_failed_reclaim_short = ThesisType.fake_breakdown_reclaim_long

-- `outcome in {"rejected", "broken"}`
abbrev pub is_failure : VwapEpisodeOutcome → Bool
is_failure VwapEpisodeOutcome.rejected = true
is_failure VwapEpisodeOutcome.broken = true
is_failure VwapEpisodeOutcome.swept = false
is_failure VwapEpisodeOutcome.reclaimed = false

module _ {F : Type 0} (fl : Floats F) where
  -- A thesis as `_detect_thesis` and `_build_flip_candidate` make it, with its anchor and its time.
  unfoldable pub new_thesis :
      ThesisType
      → ℕ
      → BarSnapshot F
      → Option Decimal
      → Option Decimal
      → Bool
      → Option ℕ
      → ThesisCandidate F
  new_thesis type confidence snap low high early time = record {
    thesis_type = type;
    state = ThesisState.watching;
    confidence = fl.lit (pos confidence);
    bars_alive = 0;
    entry = none;
    stop = none;
    target = none;
    key_level = some snap.vwap;
    sweep_low = low;
    rejection_high = high;
    evidence = [];
    commit_conditions = [];
    possible_flip = some (opposite type);
    invalidation_reason = none;
    pre_vwap_break = early;
    updated_at = time;
  }

  -- Whether the price stands above its VWAP and shows distribution.
  unfoldable pub is_distributing : BarSnapshot F → Bool
  is_distributing snap =
      snap.is_above_vwap
      && (leb 2 snap.bars_above_vwap
          && (snap.is_lower_high
              && (some_and snap.bar_close_position_pct (below fl 40)
                  && (is_positive snap.vwap && fl.le snap.vwap_deviation_pct (fl.lit (pos 80))))))

  -- Whether a reclaim of the VWAP failed.
  unfoldable pub is_failed_reclaim : BarSnapshot F → LevelMemorySnapshot → Bool
  is_failed_reclaim snap level =
      not snap.is_above_vwap
      && (leb 2 snap.bars_below_vwap
          && (some_and level.last_vwap_outcome (λ o. is_failure o)
              && leb level.bars_since_last_vwap_touch 5))

  unfoldable pub detect_thesis :
      BarSnapshot F → LevelMemorySnapshot → BarEvent → Option (ThesisCandidate F)
  detect_thesis snap level trigger =
      if is_distributing snap
      then some (
          new_thesis ThesisType.vwap_failed_reclaim_short 10 snap none (some trigger.high) true
            (some trigger.timestamp))
      else if snap.vwap_cross_down || snap.swept_below_vwap
      then some (
          new_thesis ThesisType.fake_breakdown_reclaim_long 10 snap (some trigger.low) none false
            (some trigger.timestamp))
      else if is_failed_reclaim snap level
      then some (
          new_thesis ThesisType.vwap_failed_reclaim_short 15 snap none (some trigger.high) false
            (some trigger.timestamp))
      else none

  unfoldable pub build_flip_candidate : BarSnapshot F → ThesisCandidate F → ThesisCandidate F
  build_flip_candidate snap dominant =
      new_thesis (opposite dominant.thesis_type) 5 snap none none false none
