-- ===== src/Position/Model.antt =====
-- The records of src/alpha/engines/position/engine.py, the order of grades and the side of a setup.
-- The signals that a handler publishes are a list in order; a size is a count.
use alpha_runtime_v.Base.{ℕ, Bool, Option, List}
use alpha_runtime_v.Base.Dict.{Dict, nat_eq}
use alpha_runtime_v.Execution.Enums.{OrderSide, SetupType, SetupGrade}
use alpha_runtime_v.Execution.Models.{Decimal}

-- What the monitor reads of a `Setup`.
pub record Setup : Type 0 where
  pub setup_id : ℕ
  pub setup_type : SetupType
  pub grade : Option SetupGrade
  pub entry_trigger : Option Decimal
  pub stop_reference : Option Decimal
  pub target_reference : Option Decimal

-- A setup of the watchlist, which has a grade and all three prices.
pub record Candidate : Type 0 where
  pub setup_id : ℕ
  pub setup_type : SetupType
  pub grade : SetupGrade
  pub entry_trigger : Decimal
  pub stop_reference : Decimal
  pub target_reference : Decimal

pub record ShadowPosition : Type 0 where
  pub position_id : ℕ
  pub symbol : ℕ
  pub setup_id : ℕ
  pub setup_type : SetupType
  pub direction : OrderSide
  pub entry_price : Decimal
  pub stop : Decimal
  pub target : Decimal
  pub grade : SetupGrade
  pub entered_at : ℕ
  pub thesis_type_at_entry : Option ℕ
  pub bars_held : ℕ
  pub mfe : Decimal
  pub mae : Decimal
  pub last_price : Option Decimal
  pub pending_thesis_invalidation : Bool

pub data ExitReason : Type 0 where
  stop_hit target_hit thesis_invalidated timeout : ExitReason

-- A `PositionSignalEvent`, with its position and the current price, and on an exit the reason and the
-- points gained. The delta, the imbalance and the time that it carries for display are left out.
pub data Signal : Type 0 where
  would_enter : ShadowPosition → Decimal → Signal
  would_hold : ShadowPosition → Decimal → Signal
  would_exit : ShadowPosition → Decimal → ExitReason → Decimal → Signal

-- `latest_quote` keeps the sizes of a quote, bid and ask.
pub record PositionMonitor : Type 0 where
  pub min_grade : SetupGrade
  pub timeout_bars : ℕ
  pub pending_setups : Dict ℕ (List Candidate)
  pub shadow_positions : Dict ℕ ShadowPosition
  pub latest_quote : Dict ℕ (ℕ × ℕ)
  pub latest_thesis_type : Dict ℕ ℕ
  pub recently_exited : List ℕ

-- `_grade_index` of a grade.
unfoldable pub grade_index : SetupGrade → ℕ
grade_index SetupGrade.sss = 0
grade_index SetupGrade.a_plus = 1
grade_index SetupGrade.a = 2
grade_index SetupGrade.b = 3
grade_index SetupGrade.c = 4

-- `_direction`, with `_SELL_TYPES`.
unfoldable pub direction_of : SetupType → OrderSide
direction_of SetupType.vwap_rejection = OrderSide.sell
direction_of SetupType.vwap_failed_reclaim_short = OrderSide.sell
direction_of SetupType.trend_pullback_short = OrderSide.sell
direction_of SetupType.orb_breakdown = OrderSide.sell
direction_of _ = OrderSide.buy
