-- ===== src/Thesis/Model.antt =====
-- The records of src/alpha/models/thesis.py, and of the inputs of the thesis engine what it reads of
-- them. Ids, texts and the symbol that a thesis repeats are left out. Floating-point numbers are a type
-- with the operations that the engine uses, as parameters.
use alpha_runtime_v.Base.{ℕ, Bool, true, false, Option, List, [], ◌++◌, ◌∷◌}
use alpha_runtime_v.Base.Int.{ℤ, pos}
use alpha_runtime_v.Execution.Models.{Decimal}

-- `lit` is the literal of so many hundredths, `ratio` is `float(a / b)` on Decimals, and `exceeds` compares
-- a Decimal with a float.
pub record Floats (F : Type 0) : Type 0 where
  pub lit : ℤ → F
  pub of_int : ℤ → F
  pub of_decimal : Decimal → F
  pub add : F → F → F
  pub sub : F → F → F
  pub mul : F → F → F
  pub div : F → F → F
  pub ratio : Decimal → Decimal → F
  pub lt : F → F → Bool
  pub le : F → F → Bool
  pub exceeds : Decimal → F → Bool

pub data ThesisState : Type 0 where
  watching building ready order_working triggered invalidated flipped expired : ThesisState

pub data ThesisType : Type 0 where
  fake_breakdown_reclaim_long vwap_failed_reclaim_short : ThesisType

pub data VwapEpisodeOutcome : Type 0 where
  swept reclaimed rejected broken : VwapEpisodeOutcome

pub record EvidenceItem (F : Type 0) : Type 0 where
  pub positive : Bool
  pub weight : F

pub record LevelMemorySnapshot : Type 0 where
  pub last_vwap_outcome : Option VwapEpisodeOutcome
  pub bars_since_last_vwap_touch : ℕ

pub record TickFlowSnapshot (F : Type 0) : Type 0 where
  pub tps_10s : F
  pub tps_30s : F
  pub vps_10s : F
  pub vps_30s : F
  pub buy_tps_10s : Option F
  pub sell_tps_10s : Option F
  pub buy_vps_10s : Option F
  pub sell_vps_10s : Option F
  pub avg_trade_size_30s : F
  pub large_burst_count_10s : ℕ
  pub volume_acceleration : F
  pub session_avg_tps : F
  pub bar_delta : F
  pub absorption : Bool
  pub book_imbalance : Option F

-- Why a thesis was given up; the source has a sentence for each.
pub data InvalidationReason : Type 0 where
  sellers_in_control new_session_low wide_red_bar : InvalidationReason
  new_session_high too_far_above buyers_in_control higher_high strong_green_bar : InvalidationReason

-- What a thesis waits for; the source has a sentence for each.
pub data CommitCondition : Type 0 where
  close_above_vwap close_below_vwap confirmed_bar clear_sweep_low : CommitCondition
  clear_rejection_high tighter_risk more_confidence : CommitCondition

-- The prices of the plan (`entry`, `stop`, `target`) count twentieths of the unit of the others.
pub record ThesisCandidate (F : Type 0) : Type 0 where
  pub thesis_type : ThesisType
  pub state : ThesisState
  pub confidence : F
  pub bars_alive : ℕ
  pub entry : Option Decimal
  pub stop : Option Decimal
  pub target : Option Decimal
  pub key_level : Option Decimal
  pub sweep_low : Option Decimal
  pub rejection_high : Option Decimal
  pub evidence : List (EvidenceItem F)
  pub commit_conditions : List CommitCondition
  pub possible_flip : Option ThesisType
  pub invalidation_reason : Option InvalidationReason
  pub pre_vwap_break : Bool
  pub updated_at : Option ℕ

pub record ActiveThesis (F : Type 0) : Type 0 where
  pub dominant : ThesisCandidate F
  pub flip : Option (ThesisCandidate F)

-- What the engine reads of a `BarSnapshot`; `close` is that of its bar.
pub record BarSnapshot (F : Type 0) : Type 0 where
  pub close : Decimal
  pub vwap : Decimal
  pub vwap_deviation_pct : F
  pub is_above_vwap : Bool
  pub bars_above_vwap : ℕ
  pub bars_below_vwap : ℕ
  pub vwap_cross_up : Bool
  pub vwap_cross_down : Bool
  pub swept_below_vwap : Bool
  pub is_lower_low : Bool
  pub is_lower_high : Bool
  pub is_higher_high : Bool
  pub is_new_hod : Bool
  pub bar_close_position_pct : Option F
  pub atr_14 : Option Decimal

pub record BarEvent : Type 0 where
  pub high : Decimal
  pub low : Decimal
  pub timestamp : ℕ
  pub is_m1 : Bool
  pub is_partial : Bool

-- The change of the confidence and the evidence that an update gathers.
pub record Score (F : Type 0) : Type 0 where
  pub delta : F
  pub evidence : List (EvidenceItem F)

module _ {F : Type 0} (fl : Floats F) where
  abbrev pub no_score : Score F
  no_score = record { delta = fl.lit (pos 0); evidence = [] }

  -- `delta += w`, with an item for it.
  abbrev pub support : ℕ → Score F → Score F
  support w s = record {
    delta = fl.add s.delta (fl.lit (pos w));
    evidence = s.evidence ++ record { positive = true; weight = fl.lit (pos w) } ∷ [];
  }

  -- `delta -= w`, with an item against it.
  abbrev pub weaken : ℕ → Score F → Score F
  weaken w s = record {
    delta = fl.sub s.delta (fl.lit (pos w));
    evidence = s.evidence ++ record { positive = false; weight = fl.lit (pos w) } ∷ [];
  }
