-- ===== src/Execution/Tests/Risk.antt =====
-- The evaluator at concrete intents.
use alpha_runtime_v.Base.{◌≡◌, ◌≢◌, ◌↔◌, refl, some, arith, inl}
use alpha_runtime_v.Base.Int.{abs, ◌+ℤ◌, ◌*ℤ◌, neg, ◌≤ℤ◌}
use alpha_runtime_v.Base.Dict.{lookup}
use alpha_runtime_v.Execution.Enums.{RiskDecision, OrderSide}
use alpha_runtime_v.Execution.Models.{
  units, effective_exposure, position_of, pending_quantity, signed_quantity, IntentTradePlan,
}
use alpha_runtime_v.Execution.Invariants.{assert_plan_has_snapshot_ids}
use alpha_runtime_v.Execution.Risk.Checks.{hard_flags, exposure_flags, soft_flags, trend_flags}
use alpha_runtime_v.Execution.Risk.Pricing.{
  resolve_price, round_to_tick, half_even, tick_size_of, point_value_of,
}
use alpha_runtime_v.Execution.Risk.Evaluator.{evaluate, bracket_plan, rejected_plan, entry_of}
use alpha_runtime_v.Execution.Risk.Flags.{HardRisk}
use alpha_runtime_v.Execution.Risk.Decision.{evaluate_returns, rejects_iff}
use alpha_runtime_v.Execution.Risk.Bracket.{IsBracket, evaluate-IsBracket}
use alpha_runtime_v.Execution.Risk.Limits.{open_within_limit}
use alpha_runtime_v.Execution.Tests.{
  market, account, execution, short_execution, long_intent, flatten_intent, evaluator, ids,
  long_plan,
}

long_returns : evaluate evaluator long_intent market account execution ids 1000000 ≡ some long_plan
unfolding evaluate hard_flags exposure_flags resolve_price round_to_tick half_even
    effective_exposure position_of pending_quantity tick_size_of lookup bracket_plan
    assert_plan_has_snapshot_ids ◌+ℤ◌ ◌*ℤ◌ neg soft_flags trend_flags
long_returns = refl

long_not_rejected : long_plan.decision ≢ RiskDecision.rejected
unfolding bracket_plan soft_flags trend_flags
long_not_rejected = λ e. cc e

-- With nothing to flatten.
abbrev empty_flatten_plan : IntentTradePlan
empty_flatten_plan =
    rejected_plan flatten_intent (hard_flags evaluator flatten_intent market account execution)
      market account ids 1000000

empty_flatten_returns :
    evaluate evaluator flatten_intent market account execution ids 1000000 ≡ some empty_flatten_plan
unfolding evaluate hard_flags exposure_flags effective_exposure position_of pending_quantity lookup
    ◌+ℤ◌ neg
empty_flatten_returns = refl

-- The sell that flattens a short.
abbrev flatten_plan : IntentTradePlan
flatten_plan =
    bracket_plan evaluator flatten_intent market account ids 1000000
      (OrderSide.sell, units 100000000)

flatten_returns :
    evaluate evaluator flatten_intent market account short_execution ids 1000000 ≡ some flatten_plan
unfolding evaluate hard_flags exposure_flags resolve_price round_to_tick half_even
    effective_exposure position_of pending_quantity tick_size_of lookup bracket_plan
    assert_plan_has_snapshot_ids ◌+ℤ◌ ◌*ℤ◌ neg soft_flags trend_flags
flatten_returns = refl

flatten_not_rejected : flatten_plan.decision ≢ RiskDecision.rejected
unfolding bracket_plan soft_flags trend_flags
flatten_not_rejected = λ e. cc e

evaluate_returns_example :
    (plan : IntentTradePlan) × (evaluate evaluator long_intent market account execution ids 1000000
      ≡ some plan)
unfolding tick_size_of lookup
evaluate_returns_example =
    evaluate_returns evaluator long_intent market account execution ids 1000000 (ground arith)
      (ground arith) (ground arith)

rejects_iff_example :
    (empty_flatten_plan.decision ≡ RiskDecision.rejected)
    ↔ HardRisk evaluator flatten_intent market account execution
rejects_iff_example =
    rejects_iff evaluator flatten_intent market account execution ids 1000000 empty_flatten_returns

evaluate-IsBracket_example : IsBracket (point_value_of evaluator 1) long_plan
evaluate-IsBracket_example =
    evaluate-IsBracket evaluator long_intent market account execution ids 1000000 long_returns
      long_not_rejected

open_within_limit_example :
    abs (effective_exposure execution 1 +ℤ signed_quantity OrderSide.buy (units 20000))
    ≤ℤ units 40000
unfolding bracket_plan entry_of
open_within_limit_example =
    open_within_limit evaluator long_intent market account execution ids 1000000 long_returns
      (inl refl) (omega arith) long_not_rejected refl
