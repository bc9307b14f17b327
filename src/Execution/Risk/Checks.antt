-- ===== src/Execution/Risk/Checks.antt =====
-- The hard and the soft checks of `evaluate` in src/alpha/engines/execution/v1_risk.py.
use alpha_runtime_v.Base.{ℕ, Bool, true, false, not, List, [], ◌∷◌, ◌++◌}
use alpha_runtime_v.Base.Int.{pos, ◌+ℤ◌, neg, abs, ltb_ℤ, eqb_ℤ}
use alpha_runtime_v.Base.Dict.{Dict, nat_eq}
use alpha_runtime_v.Execution.Enums.{TrendState, DataQualityState, TradeAction}
use alpha_runtime_v.Execution.Models.{
  Decimal, OrderId, MarketContextSnapshot, AccountSnapshot, ExecutionSnapshot, effective_exposure,
  TradeIntent, RiskFlag,
}

-- What the evaluator reads of a `Symbol`.
pub record Symbol : Type 0 where
  pub tick_size : Decimal
  pub point_value : Decimal

pub record V1RiskEvaluator : Type 0 where
  pub registry : Dict ℕ Symbol
  pub max_contracts : Decimal
  pub max_daily_loss_usd : Decimal

-- The ids that `uuid4` makes in one evaluation: of the plan, and after "ro-" of its orders.
pub record FreshIds : Type 0 where
  pub plan : ℕ
  pub stop : ℕ
  pub target : ℕ
  pub entry : ℕ

-- The number that stands for the string "ro".
abbrev pub ro : ℕ
ro = 0

-- f"ro-{uuid4().hex[:12]}"
abbrev pub runtime_id : ℕ → OrderId
runtime_id hex = OrderId.dashed ro hex

-- `_SUPPORTED_ACTIONS_V1`
abbrev pub is_supported : TradeAction → Bool
is_supported TradeAction.open_long = true
is_supported TradeAction.open_short = true
is_supported TradeAction.flatten = true
is_supported _ = false

abbrev pub is_failed : DataQualityState → Bool
is_failed DataQualityState.failed = true
is_failed _ = false

abbrev pub is_degraded : DataQualityState → Bool
is_degraded DataQualityState.degraded = true
is_degraded _ = false

abbrev pub is_trending_up : TrendState → Bool
is_trending_up TrendState.trending_up = true
is_trending_up _ = false

abbrev pub is_trending_down : TrendState → Bool
is_trending_down TrendState.trending_down = true
is_trending_down _ = false

-- One `if test: flags.append(flag)`.
abbrev pub flag_if : Bool → RiskFlag → List RiskFlag
flag_if true flag = flag ∷ []
flag_if false flag = []

-- The exposure check of `evaluate`: by action, the current exposure, quantity and limit.
unfoldable pub exposure_flags : TradeAction → Decimal → Decimal → Decimal → List RiskFlag
exposure_flags TradeAction.open_long current quantity max_contracts =
    flag_if (ltb_ℤ max_contracts (abs current +ℤ quantity)) RiskFlag.max_contracts_exceeded
exposure_flags TradeAction.open_short current quantity max_contracts =
    flag_if (ltb_ℤ max_contracts (abs current +ℤ quantity)) RiskFlag.max_contracts_exceeded
exposure_flags TradeAction.flatten current quantity max_contracts =
    flag_if (eqb_ℤ current (pos 0)) RiskFlag.no_position_to_flatten
exposure_flags _ current quantity max_contracts = []

-- The list `hard_flags` that `evaluate` collects.
unfoldable pub hard_flags :
    V1RiskEvaluator
    → TradeIntent
    → MarketContextSnapshot
    → AccountSnapshot
    → ExecutionSnapshot
    → List RiskFlag
hard_flags self intent market account execution =
    flag_if account.is_halted RiskFlag.kill_switch_active
    ++ (flag_if (ltb_ℤ account.realized_pnl (neg self.max_daily_loss_usd))
          RiskFlag.daily_loss_limit_breached
        ++ (flag_if (not (is_supported intent.action)) RiskFlag.unsupported_action_v1
            ++ (flag_if (not intent.protection_policy.use_broker_bracket)
                  RiskFlag.broker_bracket_required
                ++ (flag_if (is_failed market.data_quality) RiskFlag.market_data_stale
                    ++ exposure_flags intent.action
                        (effective_exposure execution intent.instrument_id) intent.quantity
                        self.max_contracts))))

-- The soft checks that depend on the action.
unfoldable pub trend_flags : TradeAction → MarketContextSnapshot → List RiskFlag
trend_flags TradeAction.open_long market =
    flag_if (not market.above_vwap) RiskFlag.long_below_vwap
    ++ flag_if (is_trending_down market.regime) RiskFlag.long_in_downtrend
trend_flags TradeAction.open_short market =
    flag_if market.above_vwap RiskFlag.short_above_vwap
    ++ flag_if (is_trending_up market.regime) RiskFlag.short_in_uptrend
trend_flags _ market = []

-- The list `soft_flags`.
unfoldable pub soft_flags : TradeIntent → MarketContextSnapshot → List RiskFlag
soft_flags intent market =
    flag_if (is_degraded market.data_quality) RiskFlag.market_data_degraded
    ++ trend_flags intent.action market

abbrev pub is_nonempty : List RiskFlag → Bool
is_nonempty [] = false
is_nonempty (_ ∷ _) = true
