-- ===== src/Execution/Coordinator/Confirm.antt =====
-- `confirm_intent` and `cancel_intent` of src/alpha/engines/execution/coordinator.py.
use alpha_runtime_v.Base.{ℕ, ltb, none, some, if◌then◌else◌}
use alpha_runtime_v.Base.Dict.{nat_eq, lookup, erase}
use alpha_runtime_v.Execution.Enums.{IntentStatus, RiskDecision}
use alpha_runtime_v.Execution.Models.{
  MarketContextSnapshot, AccountSnapshot, TradeIntent, IntentTradePlan,
}
use alpha_runtime_v.Execution.Stores.{
  expired_event, rejected_on_revalidation, cancelled_by_user, revalidated,
}
use alpha_runtime_v.Execution.Coordinator.State.{
  PendingIntent, ExecutionCoordinator, Env, response, update_status, journal_event,
  execution_snapshot, account_snapshot,
}
use alpha_runtime_v.Execution.Coordinator.Submit.{Outcome, submit_plan}

-- `del self._pending[intent_id]`
unfoldable pub drop_pending : ℕ → ExecutionCoordinator → ExecutionCoordinator
drop_pending id c = record c { pending = erase id c.pending }

-- `confirm_intent` from the new plan on.
unfoldable pub resolve : Env → ℕ → TradeIntent → IntentTradePlan → ExecutionCoordinator → Outcome
resolve env id intent plan c = elim plan.decision [
  | RiskDecision.rejected ↦ (
    update_status id IntentStatus.rejected (drop_pending id c),
    some (record (response id IntentStatus.rejected) { decision = some RiskDecision.rejected }),
  )
  | _ ↦ submit_plan env id intent plan (drop_pending id c)
]

-- `confirm_intent` from the second evaluation on.
unfoldable pub revalidate :
    Env → ℕ → TradeIntent → MarketContextSnapshot → ExecutionCoordinator → Outcome
revalidate env id intent market c =
    let account : AccountSnapshot = account_snapshot env in
    let confirmed : ExecutionCoordinator = update_status id IntentStatus.confirmed c in
    elim (env.evaluate intent market account (execution_snapshot env c)) [
      | none ↦ (confirmed, none)
      | some plan ↦ resolve env id intent plan (
          journal_event env id (revalidated plan.decision) (some market.snapshot_id)
            (some account.snapshot_id) confirmed)
    ]

-- `confirm_intent` where the market snapshot is gone or the account is halted.
unfoldable pub refuse : Env → ℕ → ExecutionCoordinator → Outcome
refuse env id c = (
  journal_event env id rejected_on_revalidation none none
      (drop_pending id (update_status id IntentStatus.rejected c)),
  some (response id IntentStatus.rejected),
)

-- `confirm_intent` at a pending intent that has not expired.
unfoldable pub confirm_held : Env → ℕ → PendingIntent → ExecutionCoordinator → Outcome
confirm_held env id held c = elim (env.snapshot held.intent.instrument_id) [
  | none ↦ refuse env id c
  | some market ↦
      if (account_snapshot env).is_halted
      then refuse env id c
      else revalidate env id held.intent market c
]

-- `confirm_intent`
unfoldable pub confirm_intent : Env → ℕ → ExecutionCoordinator → Outcome
confirm_intent env id c = elim (lookup id c.pending) [
  | none ↦ (c, some (response id IntentStatus.rejected))
  | some held ↦
      if ltb held.expiry_ts env.monotonic
      then (
        journal_event env id expired_event none none
            (update_status id IntentStatus.expired (drop_pending id c)),
        some (response id IntentStatus.expired),
      )
      else confirm_held env id held c
]

-- `cancel_intent`
unfoldable pub cancel_intent : Env → ℕ → ExecutionCoordinator → Outcome
cancel_intent env id c =
    let c' : ExecutionCoordinator = elim (lookup id c.pending) [
      | none ↦ c
      | some held ↦
          journal_event env id cancelled_by_user none none
            (update_status id IntentStatus.cancelled (drop_pending id c))
    ] in
    (
      c',
      some (
          response id
            (elim (lookup id c'.intent_status) [ none ↦ IntentStatus.cancelled | some s ↦ s ])),
    )
