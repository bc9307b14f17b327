-- ===== src/Execution/Tests/Coordinator.antt =====
-- Histories of the coordinator on the real evaluator and the simulated broker.
use alpha_runtime_v.Base.{◌≡◌, ◌≢◌, ◌↔◌, ◌≤◌, refl, true, false, none, some, [], ◌∷◌}
use alpha_runtime_v.Base.Int.{◌+ℤ◌, ◌*ℤ◌, neg}
use alpha_runtime_v.Base.Dict.{lookup, nat_eq}
use alpha_runtime_v.Execution.Enums.{RiskDecision, IntentStatus}
use alpha_runtime_v.Execution.Models.{position_of, pending_quantity, effective_exposure}
use alpha_runtime_v.Execution.Readiness.{ready, with_update, execution_not_ready}
use alpha_runtime_v.Execution.Invariants.{assert_plan_has_snapshot_ids}
use alpha_runtime_v.Execution.Stores.{get_intent_id}
use alpha_runtime_v.Execution.Risk.Checks.{hard_flags, exposure_flags, soft_flags, trend_flags}
use alpha_runtime_v.Execution.Risk.Pricing.{resolve_price, round_to_tick, half_even, tick_size_of}
use alpha_runtime_v.Execution.Risk.Evaluator.{evaluate, bracket_plan}
use alpha_runtime_v.Execution.Coordinator.State.{
  ExecutionCoordinator, new, update_readiness, response, status_response, plan_response, second,
  account_snapshot, execution_snapshot,
}
use alpha_runtime_v.Execution.Coordinator.Submit.{submit_intent}
use alpha_runtime_v.Execution.Coordinator.Confirm.{confirm_intent}
use alpha_runtime_v.Execution.Coordinator.Steps.{
  Reach, here, next, readiness_changes, submits, confirms, IsSafe, Reach-IsSafe,
}
use alpha_runtime_v.Execution.Coordinator.Gates.{
  not_ready_blocks, duplicate_answers, retry_sends_nothing, confirm_ignores_readiness,
}
use alpha_runtime_v.Execution.Coordinator.Confirmation.{plan_response_raises_iff}
use alpha_runtime_v.Execution.Tests.{
  env, late_env, all_ready, coordinator, holding_coordinator, held_long, long_intent, retry_intent,
  long_plan, amber_plan, market,
}

abbrev after_long : ExecutionCoordinator
after_long = (submit_intent env long_intent coordinator).0

is_ready : ready coordinator.readiness ≡ true
unfolding ready update_readiness with_update
is_ready = refl

not_ready : ready new.readiness ≡ false
unfolding ready new
not_ready = refl

retry_sends_nothing_example :
    ((submit_intent late_env retry_intent after_long).0.submissions ≡ after_long.submissions)
    × ((submit_intent late_env retry_intent after_long).0.pending ≡ after_long.pending)
retry_sends_nothing_example =
    retry_sends_nothing env late_env long_intent retry_intent coordinator after_long is_ready here
      refl

-- Ready, then a long that is sent, then a confirmation of nothing.
first_calls :
    Reach new
      (confirm_intent env 7 (submit_intent env long_intent (update_readiness all_ready new)).0).0
first_calls =
    next (next (next here (readiness_changes all_ready)) (submits env long_intent)) (confirms env 7)

Reach-IsSafe_example : IsSafe (confirm_intent env 7 after_long).0
Reach-IsSafe_example = Reach-IsSafe first_calls

not_ready_blocks_example :
    let (d, answer) = submit_intent env long_intent new in
    (d ≡ record new { journal = d.journal }) × (answer ≡ some (response 7 IntentStatus.rejected))
not_ready_blocks_example = not_ready_blocks env long_intent new not_ready

abbrev known_coordinator : ExecutionCoordinator
known_coordinator = record coordinator { idempotency = (77, 5) ∷ [] }

duplicate_answers_example :
    submit_intent env long_intent known_coordinator
    ≡ (known_coordinator, some (status_response 5 known_coordinator))
unfolding get_intent_id lookup
duplicate_answers_example = duplicate_answers env long_intent 5 known_coordinator is_ready refl

confirm_ignores_readiness_example :
    confirm_intent env 7 (record holding_coordinator { readiness = execution_not_ready }) ≡ (
      record (confirm_intent env 7 holding_coordinator).0 { readiness = execution_not_ready },
      (confirm_intent env 7 holding_coordinator).1,
    )
confirm_ignores_readiness_example =
    confirm_ignores_readiness env execution_not_ready 7 holding_coordinator

is_held : lookup 7 holding_coordinator.pending ≡ some held_long
unfolding lookup
is_held = refl

is_not_halted : (account_snapshot env).is_halted ≡ false
unfolding account_snapshot
is_not_halted = refl

is_replanned :
    env.evaluate long_intent market
      (account_snapshot env)
      (execution_snapshot env holding_coordinator)
    ≡ some long_plan
unfolding evaluate hard_flags exposure_flags resolve_price round_to_tick half_even
    effective_exposure position_of pending_quantity tick_size_of lookup bracket_plan
    assert_plan_has_snapshot_ids ◌+ℤ◌ ◌*ℤ◌ neg soft_flags trend_flags account_snapshot
    execution_snapshot update_readiness new
is_replanned = refl

is_sendable : long_plan.decision ≢ RiskDecision.rejected
unfolding bracket_plan soft_flags trend_flags
is_sendable = λ e. cc e

plan_response_raises_iff_example :
    (plan_response late_env 7 IntentStatus.awaiting_confirmation amber_plan ≡ none) ↔ (
      (amber_plan.decision ≡ RiskDecision.approved_with_modifications) × (50 ≤ second late_env.now))
plan_response_raises_iff_example =
    plan_response_raises_iff late_env 7 IntentStatus.awaiting_confirmation amber_plan
