-- ===== src/Execution/Coordinator/Steps.antt =====
-- Every history of calls of the coordinator's methods, in any order and with any answers of its
-- collaborators, and what holds of the orders that it sends.
use alpha_runtime_v.Base.{ℕ, ◌≡◌, ◌≢◌, [], ◌∷◌, arith}
use alpha_runtime_v.Base.Lists.{All, All-append}
use alpha_runtime_v.Base.Dict.{Dict, nat_eq, insert, erase}
use alpha_runtime_v.Execution.Enums.{RiskDecision, IntentStatus}
use alpha_runtime_v.Execution.Models.{TradeIntent, IntentTradePlan, MarketContextSnapshot}
use alpha_runtime_v.Execution.Models.Orders.{Order, Execution}
use alpha_runtime_v.Execution.Readiness.{Update}
use alpha_runtime_v.Execution.Coordinator.State.{
  ExecutionCoordinator, PendingIntent, Env, new, update_readiness, update_status, journal_event,
}
use alpha_runtime_v.Execution.Coordinator.Submit.{
  track_entry, send_plan, submit_plan, hold, journal_drift, act_on_plan, evaluate_intent,
  accept_intent, submit_intent,
}
use alpha_runtime_v.Execution.Coordinator.Confirm.{
  drop_pending, resolve, revalidate, refuse, confirm_held, confirm_intent, cancel_intent,
}
use alpha_runtime_v.Execution.Coordinator.Callbacks.{on_fill, on_order_update}

-- One call of a method.
pub data Step (c : ExecutionCoordinator) : ExecutionCoordinator → Type 0 where
  readiness_changes : (u : Update) → Step c (update_readiness u c)
  submits : (env : Env) (intent : TradeIntent) → Step c (submit_intent env intent c).0
  confirms : (env : Env) (id : ℕ) → Step c (confirm_intent env id c).0
  cancels : (env : Env) (id : ℕ) → Step c (cancel_intent env id c).0
  fills : (fill : Execution) → Step c (on_fill fill c)
  updates : (order : Order) → Step c (on_order_update order c)

pub data Reach (c : ExecutionCoordinator) : ExecutionCoordinator → Type 0 where
  here : Reach c c
  next : {d e : ExecutionCoordinator} → Reach c d → Step d e → Reach c e

-- A plan that may be sent, and a plan that may be held.
abbrev pub Sendable : IntentTradePlan → Type 0
Sendable plan = plan.decision ≢ RiskDecision.rejected

abbrev pub Held : ℕ × PendingIntent → Type 0
Held (id, held) = held.plan.decision ≡ RiskDecision.approved_with_modifications

insert-Held :
    (id : ℕ) (held : PendingIntent) (d : Dict ℕ PendingIntent)
    → All Held d
    → held.plan.decision ≡ RiskDecision.approved_with_modifications
    → All Held (insert id held d)
unfolding insert
insert-Held id held [] h k = (k, tt)
insert-Held id held ((j, w) ∷ d) h k = ground (arith, insert-Held id held d h.1 k)

erase-Held : (id : ℕ) (d : Dict ℕ PendingIntent) → All Held d → All Held (erase id d)
unfolding erase
erase-Held id [] h = tt
erase-Held id ((j, w) ∷ d) h = ground (arith, erase-Held id d h.1)

-- No plan that was sent is a rejected one, and every plan held is one that asks for a confirmation.
pub record IsSafe (c : ExecutionCoordinator) : Type 0 where
  pub sent : All Sendable c.submissions
  pub held : All Held c.pending

update_status-IsSafe :
    (id : ℕ) (s : IntentStatus) (c : ExecutionCoordinator)
    → IsSafe c
    → IsSafe (update_status id s c)
unfolding update_status
update_status-IsSafe id s c h = record { sent = h.sent; held = h.held }

drop_pending-IsSafe : (id : ℕ) (c : ExecutionCoordinator) → IsSafe c → IsSafe (drop_pending id c)
unfolding drop_pending
drop_pending-IsSafe id c h = record { sent = h.sent; held = erase-Held id c.pending h.held }

module _ (env : Env) where
  submit_plan-IsSafe :
      (id : ℕ) (intent : TradeIntent) (plan : IntentTradePlan) (c : ExecutionCoordinator)
      → Sendable plan
      → IsSafe c
      → IsSafe (submit_plan env id intent plan c).0
  unfolding submit_plan send_plan track_entry update_status journal_event
  submit_plan-IsSafe id intent plan c d h =
      ground (arith, All-append Sendable c.submissions (plan ∷ []) h.sent (d, tt))

  hold-IsSafe :
      (intent : TradeIntent) (plan : IntentTradePlan) (c : ExecutionCoordinator)
      → plan.decision ≡ RiskDecision.approved_with_modifications
      → IsSafe c
      → IsSafe (hold env intent plan c)
  unfolding hold
  hold-IsSafe intent plan c d h = record {
    sent = h.sent;
    held = insert-Held intent.intent_id _ c.pending h.held d;
  }

  act_on_plan-IsSafe :
      (intent : TradeIntent) (plan : IntentTradePlan) (c : ExecutionCoordinator)
      → IsSafe c
      → IsSafe (act_on_plan env intent plan c).0
  unfolding act_on_plan update_status journal_event
  act_on_plan-IsSafe intent plan c h = ground (
    arith,
    submit_plan-IsSafe intent.intent_id intent plan c,
    hold-IsSafe intent plan (update_status intent.intent_id IntentStatus.awaiting_confirmation c),
  )

  evaluate_intent-IsSafe :
      (intent : TradeIntent) (market : MarketContextSnapshot) (c : ExecutionCoordinator)
      → IsSafe c
      → IsSafe (evaluate_intent env intent market c).0
  unfolding evaluate_intent update_status journal_event journal_drift
  evaluate_intent-IsSafe intent market c h = grind (arith, act_on_plan-IsSafe)

  accept_intent-IsSafe :
      (intent : TradeIntent) (c : ExecutionCoordinator)
      → IsSafe c
      → IsSafe (accept_intent env intent c).0
  unfolding accept_intent update_status journal_event
  accept_intent-IsSafe intent c h = grind (arith, evaluate_intent-IsSafe)

  submit_intent-IsSafe :
      (intent : TradeIntent) (c : ExecutionCoordinator)
      → IsSafe c
      → IsSafe (submit_intent env intent c).0
  unfolding submit_intent journal_event
  submit_intent-IsSafe intent c h = grind (arith, accept_intent-IsSafe)

  resolve-IsSafe :
      (id : ℕ) (intent : TradeIntent) (plan : IntentTradePlan) (c : ExecutionCoordinator)
      → IsSafe c
      → IsSafe (resolve env id intent plan c).0
  unfolding resolve update_status
  resolve-IsSafe id intent plan c h =
      ground
        (arith, drop_pending-IsSafe id c h, submit_plan-IsSafe id intent plan (drop_pending id c))

  revalidate-IsSafe :
      (id : ℕ) (intent : TradeIntent) (market : MarketContextSnapshot) (c : ExecutionCoordinator)
      → IsSafe c
      → IsSafe (revalidate env id intent market c).0
  unfolding revalidate update_status journal_event
  revalidate-IsSafe id intent market c h = grind (arith, resolve-IsSafe)

  confirm_intent-IsSafe :
      (id : ℕ) (c : ExecutionCoordinator) → IsSafe c → IsSafe (confirm_intent env id c).0
  unfolding confirm_intent confirm_held refuse update_status journal_event
  confirm_intent-IsSafe id c h =
      grind (arith, drop_pending-IsSafe, revalidate-IsSafe, update_status-IsSafe)

  cancel_intent-IsSafe :
      (id : ℕ) (c : ExecutionCoordinator) → IsSafe c → IsSafe (cancel_intent env id c).0
  unfolding cancel_intent update_status journal_event
  cancel_intent-IsSafe id c h = grind (arith, drop_pending-IsSafe)

Step-IsSafe : {c d : ExecutionCoordinator} → Step c d → IsSafe c → IsSafe d
unfolding update_readiness on_fill on_order_update
Step-IsSafe (readiness_changes u) h = record { sent = h.sent; held = h.held }
Step-IsSafe {c} (submits env intent) h = submit_intent-IsSafe env intent c h
Step-IsSafe {c} (confirms env id) h = confirm_intent-IsSafe env id c h
Step-IsSafe {c} (cancels env id) h = cancel_intent-IsSafe env id c h
Step-IsSafe (fills fill) h = record { sent = h.sent; held = h.held }
Step-IsSafe (updates order) h = ground arith

-- In every state that calls of the methods lead to from a new coordinator, whatever the evaluator,
-- the router and the clocks answer, each plan that went to the router was not REJECTED, and each
-- plan that waits for a confirmation is APPROVED_WITH_MODIFICATIONS.
pub Reach-IsSafe : {c : ExecutionCoordinator} → Reach new c → IsSafe c
unfolding new
Reach-IsSafe here = record { sent = tt; held = tt }
Reach-IsSafe (next r s) = Step-IsSafe s (Reach-IsSafe r)
