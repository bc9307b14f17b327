-- ===== src/Thesis/State.antt =====
-- The state of `ThesisEngine` of src/alpha/engines/thesis/engine.py and the methods that read no bar: trades,
-- quotes, the session's start, events, and what becomes of a thesis that was updated.
use alpha_runtime_v.Base.{
  ℕ, ◌+◌, Bool, true, false, ◌&&◌, Option, none, some, List, [], ◌∷◌, ◌++◌, if◌then◌else◌,
}
use alpha_runtime_v.Base.Int.{◌-ℤ◌}
use alpha_runtime_v.Base.Dict.{Dict, nat_eq, lookup, insert, erase}
use alpha_runtime_v.Execution.Models.{Decimal}
use alpha_runtime_v.Thesis.Model.{
  ThesisState, ThesisType, InvalidationReason, CommitCondition, ThesisCandidate, ActiveThesis,
  LevelMemorySnapshot, BarSnapshot,
}
use alpha_runtime_v.Thesis.Flow.{TradeRecord, Quote}
use alpha_runtime_v.Thesis.Lifecycle.{is_set}

pub record ThesisEngine (F : Type 0) : Type 0 where
  pub active : Dict ℕ (ActiveThesis F)
  pub trade_windows : Dict ℕ (List TradeRecord)
  pub session_trades : Dict ℕ ℕ
  pub session_start : Dict ℕ ℕ
  pub bars_processed : ℕ
  pub thesis_created : ℕ
  pub latest_quotes : Dict ℕ Quote
  pub pipeline_mode : Bool

-- What a `ThesisEvent` takes from the thesis unchanged, and the risk and reward of its plan; not its
-- ratio, its confidence and the texts of its evidence, nor what it copies from the bar and the level.
pub record ThesisEvent : Type 0 where
  pub thesis_type : ThesisType
  pub thesis_state : ThesisState
  pub bars_alive : ℕ
  pub entry : Option Decimal
  pub stop : Option Decimal
  pub target : Option Decimal
  pub risk_pts : Option Decimal
  pub reward_pts : Option Decimal
  pub key_level : Option Decimal
  pub sweep_low : Option Decimal
  pub rejection_high : Option Decimal
  pub commit_conditions : List CommitCondition
  pub possible_flip : Option ThesisType
  pub invalidation_reason : Option InvalidationReason

-- What the feature engine has for a symbol.
pub record Features (F : Type 0) : Type 0 where
  pub snapshot : Option (BarSnapshot F)
  pub level_memory : Option LevelMemorySnapshot

abbrev pub or_zero : Option ℕ → ℕ
or_zero none = 0
or_zero (some n) = n

abbrev pub or_empty : Option (List TradeRecord) → List TradeRecord
or_empty none = []
or_empty (some window) = window

-- Whether a bar looks for a new thesis in place of this one.
abbrev pub is_over : ThesisState → Bool
is_over ThesisState.triggered = true
is_over ThesisState.expired = true
is_over _ = false

unfoldable pub risk_of : ThesisType → Decimal → Decimal → Decimal → Decimal × Decimal
risk_of ThesisType.fake_breakdown_reclaim_long entry stop target = (entry -ℤ stop, target -ℤ entry)
risk_of ThesisType.vwap_failed_reclaim_short entry stop target = (stop -ℤ entry, entry -ℤ target)

-- The risk and reward of a plan whose prices are all set.
unfoldable pub risk_reward :
    ThesisType → Option Decimal → Option Decimal → Option Decimal → Option (Decimal × Decimal)
risk_reward type (some entry) (some stop) (some target) =
    if is_set (some entry) && (is_set (some stop) && is_set (some target))
    then some (risk_of type entry stop target)
    else none
risk_reward type (some entry) (some stop) none = none
risk_reward type (some entry) none target = none
risk_reward type none stop target = none

module _ {F : Type 0} where
  unfoldable pub new : ThesisEngine F
  new = record {
    active = [];
    trade_windows = [];
    session_trades = [];
    session_start = [];
    bars_processed = 0;
    thesis_created = 0;
    latest_quotes = [];
    pipeline_mode = false;
  }

  -- `_handle_trade`
  unfoldable pub handle_trade : ℕ → TradeRecord → ThesisEngine F → ThesisEngine F
  handle_trade symbol r e = record e {
    trade_windows =
        insert symbol (or_empty (lookup symbol e.trade_windows) ++ r ∷ []) e.trade_windows;
    session_trades = insert symbol (or_zero (lookup symbol e.session_trades) + 1) e.session_trades;
  }

  -- `_handle_quote`
  unfoldable pub handle_quote : ℕ → Quote → ThesisEngine F → ThesisEngine F
  handle_quote symbol q e = record e { latest_quotes = insert symbol q e.latest_quotes }

  -- The window that the computation of the tick flow trimmed in place, if there is one.
  unfoldable pub keep_window : ℕ → List TradeRecord → ThesisEngine F → ThesisEngine F
  keep_window symbol window e = elim (lookup symbol e.trade_windows) [
    | none ↦ e
    | some before ↦ record e { trade_windows = insert symbol window e.trade_windows }
  ]

  -- `_update_session_baseline`
  unfoldable pub update_session_baseline : ℕ → ℕ → ThesisEngine F → ThesisEngine F
  update_session_baseline symbol ts e = elim (lookup symbol e.session_start) [
    | some start ↦ e
    | none ↦ record e { session_start = insert symbol ts e.session_start }
  ]

  -- `_emit`, the event it publishes.
  unfoldable pub emit : ThesisCandidate F → ThesisEvent
  emit t =
      let plan : Option (Decimal × Decimal) = risk_reward t.thesis_type t.entry t.stop t.target in
      record {
        thesis_type = t.thesis_type;
        thesis_state = t.state;
        bars_alive = t.bars_alive;
        entry = t.entry;
        stop = t.stop;
        target = t.target;
        risk_pts = elim plan [ none ↦ none | some p ↦ some p.0 ];
        reward_pts = elim plan [ none ↦ none | some p ↦ some p.1 ];
        key_level = t.key_level;
        sweep_low = t.sweep_low;
        rejection_high = t.rejection_high;
        commit_conditions = t.commit_conditions;
        possible_flip = t.possible_flip;
        invalidation_reason = t.invalidation_reason;
      }

  -- A thesis that was updated to a state: its flip takes the place of an invalidated one, which goes if it
  -- has none.
  unfoldable pub promote_from : ThesisState → ActiveThesis F → Option (ActiveThesis F)
  promote_from ThesisState.invalidated a = elim a.flip [
    | some f ↦ some (record { dominant = record f { state = ThesisState.watching }; flip = none })
    | none ↦ none
  ]
  promote_from ThesisState.flipped a = none
  promote_from ThesisState.watching a = some a
  promote_from ThesisState.building a = some a
  promote_from ThesisState.ready a = some a
  promote_from ThesisState.order_working a = some a
  promote_from ThesisState.triggered a = some a
  promote_from ThesisState.expired a = some a

  unfoldable pub promote : ActiveThesis F → Option (ActiveThesis F)
  promote a = promote_from a.dominant.state a

  abbrev pub put : ℕ → Option (ActiveThesis F) → Dict ℕ (ActiveThesis F) → Dict ℕ (ActiveThesis F)
  put symbol none active = erase symbol active
  put symbol (some a) active = insert symbol a active

  -- The event for the symbol's thesis, if it has one.
  unfoldable pub emit_current : ℕ → ThesisEngine F → ThesisEngine F × List ThesisEvent
  emit_current symbol e = elim (lookup symbol e.active) [
    | none ↦ (e, [])
    | some a ↦ (e, emit a.dominant ∷ [])
  ]
