-- ===== src/Execution/Coordinator/Submit.antt =====
-- `submit_intent` and `_submit_plan` of src/alpha/engines/execution/coordinator.py. A method returns the
-- new state and its response; a response `none` is an exception that leaves the method.
use alpha_runtime_v.Base.{ℕ, ◌+◌, Option, none, some, List, [], ◌∷◌, ◌++◌, if◌then◌else◌, is_some}
use alpha_runtime_v.Base.Int.{pos}
use alpha_runtime_v.Base.Dict.{nat_eq, keys, insert}
use alpha_runtime_v.Execution.Enums.{OrderRole, IntentStatus, RiskDecision}
use alpha_runtime_v.Execution.Models.{
  units, MarketContextSnapshot, AccountSnapshot, TradeIntent, PlannedOrder, IntentTradePlan,
}
use alpha_runtime_v.Execution.Invariants.{
  assert_runtime_ready, assert_not_duplicate_intent, check_client_quote_drift, DriftWarning,
}
use alpha_runtime_v.Execution.Stores.{
  check_and_register, get_intent_id, rejected_not_ready, received, rejected_no_market_data,
  client_quote_drift, awaiting_confirmation, submission_failed, submitted_event, evaluated,
}
use alpha_runtime_v.Execution.Coordinator.State.{
  ExecutionCoordinator, Env, IntentResponse, response, update_status, journal_event,
  execution_snapshot, account_snapshot, status_response, plan_response,
}

-- A method's outcome: the state it leaves, and its response if it does not raise.
abbrev pub Outcome : Type 0
Outcome = ExecutionCoordinator × Option IntentResponse

-- `self._working_orders.append(…)`, if the plan has an entry order.
unfoldable pub track_entry : ℕ → Option PlannedOrder → ExecutionCoordinator → ExecutionCoordinator
track_entry instrument_id none c = c
track_entry instrument_id (some entry) c = record c {
  working_orders =
      c.working_orders
      ++ record {
        runtime_order_id = entry.runtime_order_id;
        instrument_id = instrument_id;
        side = entry.side;
        quantity = entry.quantity;
        role = OrderRole.entry;
      }
        ∷ [];
}

-- `_submit_plan`, up to the answer of the router.
unfoldable pub send_plan : ℕ → IntentTradePlan → ExecutionCoordinator → ExecutionCoordinator
send_plan id plan c =
    let c' : ExecutionCoordinator = update_status id IntentStatus.submitting c in
    record c' { submissions = c'.submissions ++ plan ∷ [] }

-- The rest of `_submit_plan`.
unfoldable pub submit_plan :
    Env → ℕ → TradeIntent → IntentTradePlan → ExecutionCoordinator → Outcome
submit_plan env id intent plan c =
    let sent : ExecutionCoordinator = send_plan id plan c in
    elim (env.submit_bracket plan) [
      | none ↦ (
        journal_event env id submission_failed none none
            (update_status id IntentStatus.failed sent),
        some (response id IntentStatus.failed),
      )
      | some identities ↦ (
        journal_event env id submitted_event none none (
            track_entry intent.instrument_id plan.entry_order
              (update_status id IntentStatus.active sent)),
        plan_response env id IntentStatus.active plan,
      )
    ]

-- `self._pending[intent_id] = _PendingIntent(intent, plan)`, with 10 seconds to confirm.
unfoldable pub hold :
    Env → TradeIntent → IntentTradePlan → ExecutionCoordinator → ExecutionCoordinator
hold env intent plan c = record c {
  pending =
      insert intent.intent_id
        (record {
          intent = intent;
          plan = plan;
          created_at = env.now;
          expiry_ts = env.monotonic + 10000000;
        })
        c.pending;
}

-- The warning of a drifted quote is journalled once, whatever its number of reasons.
unfoldable pub journal_drift :
    Env → ℕ → List DriftWarning → ExecutionCoordinator → ExecutionCoordinator
journal_drift env id [] c = c
journal_drift env id (w ∷ ws) c = journal_event env id client_quote_drift none none c

-- `submit_intent` from the plan on: reject, hold for a confirmation, or submit.
unfoldable pub act_on_plan : Env → TradeIntent → IntentTradePlan → ExecutionCoordinator → Outcome
act_on_plan env intent plan c =
    let id : ℕ = intent.intent_id in
    elim plan.decision [
      | RiskDecision.rejected ↦ (
        update_status id IntentStatus.rejected c,
        some (record (response id IntentStatus.rejected) {
          decision = some RiskDecision.rejected;
          risk_flags = plan.risk_flags;
        }),
      )
      | RiskDecision.approved_with_modifications ↦ (
        journal_event env id awaiting_confirmation none none
            (hold env intent plan (update_status id IntentStatus.awaiting_confirmation c)),
        plan_response env id IntentStatus.awaiting_confirmation plan,
      )
      | RiskDecision.approved ↦ submit_plan env id intent plan c
    ]

-- `submit_intent` from the market snapshot on: the drift of the client's quote is journalled, and the
-- evaluator is asked for a plan.
unfoldable pub evaluate_intent :
    Env → TradeIntent → MarketContextSnapshot → ExecutionCoordinator → Outcome
evaluate_intent env intent market c =
    let id : ℕ = intent.intent_id in
    let noted : ExecutionCoordinator =
      journal_drift env id (check_client_quote_drift intent market (units 10000) (pos 500)) c in
    let account : AccountSnapshot = account_snapshot env in
    let planning : ExecutionCoordinator = update_status id IntentStatus.planning noted in
    elim (env.evaluate intent market account (execution_snapshot env noted)) [
      | none ↦ (planning, none)
      | some plan ↦ act_on_plan env intent plan (
          journal_event env id (evaluated plan.decision) (some market.snapshot_id)
            (some account.snapshot_id) (update_status id IntentStatus.plan_ready planning))
    ]

-- `submit_intent` below its two guards.
unfoldable pub accept_intent : Env → TradeIntent → ExecutionCoordinator → Outcome
accept_intent env intent c =
    let id : ℕ = intent.intent_id in
    let registered : ExecutionCoordinator = record c {
      idempotency = (check_and_register intent.idempotency_key id c.idempotency).1;
    } in
    let validating : ExecutionCoordinator =
      journal_event env id received none none
        (update_status id IntentStatus.validating registered) in
    elim (env.snapshot intent.instrument_id) [
      | none ↦ (
        journal_event env id rejected_no_market_data none none
            (update_status id IntentStatus.rejected validating),
        some (response id IntentStatus.rejected),
      )
      | some market ↦ evaluate_intent env intent market validating
    ]

-- The answer to a key that is known: the status of the intent that it stands for.
unfoldable pub answer_duplicate : TradeIntent → ExecutionCoordinator → IntentResponse
answer_duplicate intent c = elim (get_intent_id intent.idempotency_key c.idempotency) [
  | some existing_id ↦ status_response existing_id c
  | none ↦ response intent.intent_id IntentStatus.rejected
]

-- `submit_intent`
unfoldable pub submit_intent : Env → TradeIntent → ExecutionCoordinator → Outcome
submit_intent env intent c =
    if is_some (assert_runtime_ready c.readiness)
    then (
      journal_event env intent.intent_id rejected_not_ready none none c,
      some (response intent.intent_id IntentStatus.rejected),
    )
    else if is_some (assert_not_duplicate_intent intent.idempotency_key (keys c.idempotency))
    then (c, some (answer_duplicate intent c))
    else accept_intent env intent c
