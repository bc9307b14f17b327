-- ===== src/Execution/Risk/Flags.antt =====
-- When the evaluator of v1_risk.py rejects: the conditions of its flags against the flags it collects. The module's
-- documentation has other ones too (a quantity of 1, marketable limits only), which the code does not check.
use alpha_runtime_v.Base.{◌≡◌, ◌↔◌, ◌⊎◌, true, false, arith}
use alpha_runtime_v.Base.Int.{pos, ◌+ℤ◌, ◌<ℤ◌, neg, abs}
use alpha_runtime_v.Execution.Enums.{DataQualityState, TradeAction, TrendState}
use alpha_runtime_v.Execution.Models.{
  Decimal, MarketContextSnapshot, AccountSnapshot, ExecutionSnapshot, effective_exposure,
  TradeIntent,
}
use alpha_runtime_v.Execution.Risk.Checks.{
  V1RiskEvaluator, is_supported, hard_flags, soft_flags, trend_flags, exposure_flags, is_nonempty,
}

-- An order that would take the exposure past the limit, or a flatten of nothing.
abbrev pub BadExposure : TradeAction → Decimal → Decimal → Decimal → Type 0
BadExposure TradeAction.open_long current quantity limit = limit <ℤ (abs current +ℤ quantity)
BadExposure TradeAction.open_short current quantity limit = limit <ℤ (abs current +ℤ quantity)
BadExposure TradeAction.flatten current quantity limit = current ≡ pos 0
BadExposure _ current quantity limit = ⊥

-- The conditions of the hard flags, in plain terms.
abbrev pub HardRisk :
    V1RiskEvaluator
    → TradeIntent
    → MarketContextSnapshot
    → AccountSnapshot
    → ExecutionSnapshot
    → Type 0
HardRisk self intent market account execution =
    (account.is_halted ≡ true)
    ⊎ (account.realized_pnl <ℤ neg self.max_daily_loss_usd)
    ⊎ (is_supported intent.action ≡ false)
    ⊎ (intent.protection_policy.use_broker_bracket ≡ false)
    ⊎ (market.data_quality ≡ DataQualityState.failed)
    ⊎ BadExposure intent.action (effective_exposure execution intent.instrument_id) intent.quantity
        self.max_contracts

exposure_iff :
    (a : TradeAction) (current quantity limit : Decimal)
    → (is_nonempty (exposure_flags a current quantity limit) ≡ true)
      ↔ BadExposure a current quantity limit
unfolding exposure_flags
exposure_iff TradeAction.open_long current quantity limit = ground arith
exposure_iff TradeAction.open_short current quantity limit = ground arith
exposure_iff TradeAction.flatten current quantity limit = ground arith
exposure_iff _ current quantity limit = ground arith

pub hard_flags_iff :
    (self : V1RiskEvaluator) (intent : TradeIntent) (market : MarketContextSnapshot)
    (account : AccountSnapshot) (execution : ExecutionSnapshot)
    → (is_nonempty (hard_flags self intent market account execution) ≡ true)
      ↔ HardRisk self intent market account execution
unfolding hard_flags
hard_flags_iff self intent market account execution = ground (
  arith,
  exposure_iff intent.action (effective_exposure execution intent.instrument_id) intent.quantity
      self.max_contracts,
)

-- The conditions of the contextual flags.
abbrev pub AgainstTrend : TradeAction → MarketContextSnapshot → Type 0
AgainstTrend TradeAction.open_long market =
    (market.above_vwap ≡ false) ⊎ (market.regime ≡ TrendState.trending_down)
AgainstTrend TradeAction.open_short market =
    (market.above_vwap ≡ true) ⊎ (market.regime ≡ TrendState.trending_up)
AgainstTrend _ market = ⊥

abbrev pub SoftRisk : TradeIntent → MarketContextSnapshot → Type 0
SoftRisk intent market =
    (market.data_quality ≡ DataQualityState.degraded) ⊎ AgainstTrend intent.action market

trend_iff :
    (a : TradeAction) (market : MarketContextSnapshot)
    → (is_nonempty (trend_flags a market) ≡ true) ↔ AgainstTrend a market
unfolding trend_flags
trend_iff TradeAction.open_long market = ground arith
trend_iff TradeAction.open_short market = ground arith
trend_iff _ market = ground arith

pub soft_flags_iff :
    (intent : TradeIntent) (market : MarketContextSnapshot)
    → (is_nonempty (soft_flags intent market) ≡ true) ↔ SoftRisk intent market
unfolding soft_flags
soft_flags_iff intent market = ground (arith, trend_iff intent.action market)
