-- ===== src/RiskEngine/Plans.antt =====
-- `_evaluate` of src/alpha/engines/risk/engine.py. The reward-risk ratio is compared as a quotient.
pub mod Laws
use alpha_runtime_v.Base.{
  ℕ, ◌+◌, ◌*◌, ◌/◌, ◌==◌, Bool, true, false, Option, none, some, if◌then◌else◌, ltb, leb,
}
use alpha_runtime_v.Base.Int.{ℤ, pos, ◌-ℤ◌, ltb_ℤ, pos_part, neg_part}
use alpha_runtime_v.Execution.Enums.{OrderSide, SetupType}
use alpha_runtime_v.Execution.Models.{Decimal}
use alpha_runtime_v.RiskEngine.Model.{
  AccountConfig, AccountContext, DailyRiskState, TradePlan, Setup, share, remaining_risk,
  validate_levels,
}

-- The messages of a `RiskViolation`.
pub data RiskViolation : Type 0 where
  missing_levels zero_risk no_size exceeds_loss_limit too_many_positions low_reward : RiskViolation

-- `validation_error` is the ValueError that constructing the plan raises.
pub data Verdict : Type 0 where
  planned : TradePlan → Verdict
  violation : RiskViolation → Verdict
  validation_error : Verdict

-- `_infer_side`
unfoldable pub infer_side : SetupType → OrderSide
infer_side SetupType.vwap_reclaim = OrderSide.buy
infer_side SetupType.orb_breakout = OrderSide.buy
infer_side SetupType.sweep_reclaim = OrderSide.buy
infer_side SetupType.fake_breakdown = OrderSide.buy
infer_side _ = OrderSide.sell

-- `abs(a - b)`
unfoldable pub distance : Decimal → Decimal → ℕ
distance a b = pos_part (a -ℤ b) + neg_part (a -ℤ b)

unfoldable pub dollar_risk : AccountConfig → Decimal
dollar_risk cfg = share cfg.account_size cfg.max_position_risk_pct

-- `int(dollar_risk / risk_per_share)`, which is below 1 exactly when this is 0.
unfoldable pub position_size : AccountConfig → Decimal → Decimal → ℕ
position_size cfg entry stop = pos_part (dollar_risk cfg) / distance entry stop

-- `_check_daily_limits`
unfoldable pub check_daily_limits : AccountContext → Decimal → Option RiskViolation
check_daily_limits ctx new_risk =
    if ltb_ℤ (remaining_risk ctx.state) new_risk
    then some RiskViolation.exceeds_loss_limit
    else if leb ctx.config.max_open_positions ctx.state.open_positions
    then some RiskViolation.too_many_positions
    else none

unfoldable pub plan_of : ℕ → Setup → AccountConfig → Decimal → Decimal → Decimal → TradePlan
plan_of plan_id s cfg entry stop target = record {
  plan_id = plan_id;
  setup_id = s.setup_id;
  symbol = s.symbol;
  side = infer_side s.setup_type;
  account_id = cfg.account_id;
  entry_price = entry;
  stop_price = stop;
  target_price = target;
  position_size = position_size cfg entry stop;
  risk_amount = distance entry stop * position_size cfg entry stop;
  reward_amount = distance target entry * position_size cfg entry stop;
  account_size = cfg.account_size;
}

-- The checks of `_evaluate` after the levels are known to be there.
unfoldable pub evaluate_levels : ℕ → Setup → AccountContext → Decimal → Decimal → Decimal → Verdict
evaluate_levels plan_id s ctx entry stop target =
    let plan : TradePlan = plan_of plan_id s ctx.config entry stop target in
    if distance entry stop == 0
    then Verdict.violation RiskViolation.zero_risk
    else if position_size ctx.config entry stop == 0
    then Verdict.violation RiskViolation.no_size
    else elim (check_daily_limits ctx (dollar_risk ctx.config)) [
      | some v ↦ Verdict.violation v
      | none ↦
          if ltb plan.reward_amount (2 * plan.risk_amount)
          then Verdict.violation RiskViolation.low_reward
          else if validate_levels plan
          then Verdict.planned plan
          else Verdict.validation_error
    ]

-- `_evaluate`
unfoldable pub evaluate : ℕ → Setup → AccountContext → Verdict
evaluate plan_id s ctx = elim s.entry_trigger [
  | none ↦ Verdict.violation RiskViolation.missing_levels
  | some entry ↦ elim s.stop_reference [
    | none ↦ Verdict.violation RiskViolation.missing_levels
    | some stop ↦ elim s.target_reference [
      | none ↦ Verdict.violation RiskViolation.missing_levels
      | some target ↦ evaluate_levels plan_id s ctx entry stop target
    ]
  ]
]
