-- ===== src/Execution/Risk/Evaluator.antt =====
-- The plan that `evaluate` of src/alpha/engines/execution/v1_risk.py returns. An evaluation that raises is
-- `none`. A product of amounts keeps its factors' units: `calculated_risk_usd` counts units of
-- 1/20000 ** 3.
use alpha_runtime_v.Base.{ℕ, Option, none, some, List, [], ◌∷◌, if◌then◌else◌}
use alpha_runtime_v.Base.Int.{ℤ, pos, ◌*ℤ◌, ltb_ℤ, eqb_ℤ}
use alpha_runtime_v.Base.Dict.{nat_eq}
use alpha_runtime_v.Execution.Enums.{OrderSide, OrderType, TimeInForce, RiskDecision, OrderRole}
use alpha_runtime_v.Execution.Models.{
  Decimal, MarketContextSnapshot, AccountSnapshot, ExecutionSnapshot, TradeIntent, PlannedOrder,
  RiskFlag, IntentTradePlan,
}
use alpha_runtime_v.Execution.Invariants.{assert_plan_has_snapshot_ids}
use alpha_runtime_v.Execution.Risk.Checks.{
  V1RiskEvaluator, FreshIds, runtime_id, hard_flags, soft_flags, is_nonempty,
}
use alpha_runtime_v.Execution.Risk.Pricing.{
  tick_size_of, point_value_of, resolve_price, opposite, stop_at, target_at,
}

-- The `entry_order` of `evaluate`.
unfoldable pub entry_of : TradeIntent → OrderSide → Decimal → ℕ → PlannedOrder
entry_of intent entry_side entry_price id = record {
  runtime_order_id = runtime_id id;
  role = OrderRole.entry;
  side = entry_side;
  order_type = OrderType.limit;
  quantity = intent.quantity;
  limit_price = some entry_price;
  stop_price = none;
  time_in_force = TimeInForce.day;
}

-- The `stop_order` of `evaluate`.
unfoldable pub stop_of : TradeIntent → OrderSide → Decimal → Decimal → ℕ → PlannedOrder
stop_of intent entry_side entry_price stop_distance id = record {
  runtime_order_id = runtime_id id;
  role = OrderRole.stop;
  side = opposite entry_side;
  order_type = OrderType.stop;
  quantity = intent.quantity;
  limit_price = none;
  stop_price = some (stop_at entry_side entry_price stop_distance);
  time_in_force = TimeInForce.gtc;
}

-- The `target_orders` of `evaluate`.
unfoldable pub targets : TradeIntent → OrderSide → Decimal → Decimal → ℕ → List PlannedOrder
targets intent entry_side entry_price tick_size id =
    elim intent.protection_policy.target_distance_ticks [
      | none ↦ []
      | some ticks ↦
          record {
            runtime_order_id = runtime_id id;
            role = OrderRole.target;
            side = opposite entry_side;
            order_type = OrderType.limit;
            quantity = intent.quantity;
            limit_price = some (target_at entry_side entry_price (ticks *ℤ tick_size));
            stop_price = none;
            time_in_force = TimeInForce.gtc;
          }
          ∷ []
    ]

-- `reward_usd`: no target, or one at distance 0, gives 0.
unfoldable pub reward_usd : TradeIntent → Decimal → Decimal → ℤ
reward_usd intent tick_size point_value = elim intent.protection_policy.target_distance_ticks [
  | none ↦ pos 0
  | some ticks ↦
      if eqb_ℤ ticks (pos 0) then pos 0 else ticks *ℤ tick_size *ℤ point_value *ℤ intent.quantity
]

-- `V1RiskEvaluator._rejected_plan`
unfoldable pub rejected_plan :
    TradeIntent
    → List RiskFlag
    → MarketContextSnapshot
    → AccountSnapshot
    → FreshIds
    → ℕ
    → IntentTradePlan
rejected_plan intent flags market account fresh now = record {
  plan_id = fresh.plan;
  intent_id = intent.intent_id;
  decision = RiskDecision.rejected;
  entry_order = none;
  stop_order = none;
  target_orders = [];
  calculated_risk_usd = pos 0;
  max_loss_usd = pos 0;
  reward_risk_ratio = (pos 0, pos 1);
  market_context_snapshot_id = market.snapshot_id;
  account_snapshot_id = account.snapshot_id;
  risk_policy_version = "v1.0.0";
  evaluated_at = now;
  risk_flags = flags;
}

-- The part of `evaluate` below the price resolution, up to its last guard.
unfoldable pub bracket_plan :
    V1RiskEvaluator
    → TradeIntent
    → MarketContextSnapshot
    → AccountSnapshot
    → FreshIds
    → ℕ
    → OrderSide × Decimal
    → IntentTradePlan
bracket_plan self intent market account fresh now (entry_side, entry_price) =
    let tick_size : Decimal = tick_size_of self intent.instrument_id in
    let point_value : Decimal = point_value_of self intent.instrument_id in
    let stop_distance : Decimal = intent.protection_policy.stop_distance_ticks *ℤ tick_size in
    let risk_usd : ℤ = stop_distance *ℤ point_value *ℤ intent.quantity in
    record {
      plan_id = fresh.plan;
      intent_id = intent.intent_id;
      decision =
          if is_nonempty (soft_flags intent market)
          then RiskDecision.approved_with_modifications
          else RiskDecision.approved;
      entry_order = some (entry_of intent entry_side entry_price fresh.entry);
      stop_order = some (stop_of intent entry_side entry_price stop_distance fresh.stop);
      target_orders = targets intent entry_side entry_price tick_size fresh.target;
      calculated_risk_usd = risk_usd;
      max_loss_usd = self.max_daily_loss_usd;
      reward_risk_ratio =
          if ltb_ℤ (pos 0) risk_usd
          then (reward_usd intent tick_size point_value, risk_usd)
          else (pos 0, pos 1);
      market_context_snapshot_id = market.snapshot_id;
      account_snapshot_id = account.snapshot_id;
      risk_policy_version = "v1.0.0";
      evaluated_at = now;
      risk_flags = soft_flags intent market;
    }

-- `assert_plan_has_snapshot_ids(plan); return plan`
abbrev checked : IntentTradePlan → Option IntentTradePlan
checked plan = elim (assert_plan_has_snapshot_ids plan) [ none ↦ some plan | some _ ↦ none ]

-- `V1RiskEvaluator.evaluate`
unfoldable pub evaluate :
    V1RiskEvaluator
    → TradeIntent
    → MarketContextSnapshot
    → AccountSnapshot
    → ExecutionSnapshot
    → FreshIds
    → ℕ
    → Option IntentTradePlan
evaluate self intent market account execution fresh now =
    let flags : List RiskFlag = hard_flags self intent market account execution in
    if is_nonempty flags
    then some (rejected_plan intent flags market account fresh now)
    else elim (resolve_price intent market (tick_size_of self intent.instrument_id)) [
      | none ↦ none
      | some priced ↦ checked (bracket_plan self intent market account fresh now priced)
    ]
