-- ===== src/Execution/Coordinator/Gates.antt =====
-- What guards an order's way to the router in coordinator.py, and where a guard is missing.
use alpha_runtime_v.Base.{
  ℕ, ◌==◌, ◌≡◌, refl, true, false, some, [], ◌∷◌, arith, Option-cases, some_of_ne_none, inl, inr,
  is_some,
}
use alpha_runtime_v.Base.Dict.{Dict, nat_eq, keys, lookup}
use alpha_runtime_v.Execution.Enums.{IntentStatus}
use alpha_runtime_v.Execution.Models.{TradeIntent, IntentTradePlan, MarketContextSnapshot}
use alpha_runtime_v.Execution.Readiness.{ready, ExecutionReadiness}
use alpha_runtime_v.Execution.Invariants.{assert_runtime_ready, assert_not_duplicate_intent, member}
use alpha_runtime_v.Execution.Stores.{
  check_and_register, get_intent_id, check_and_register_lem, revalidated,
}
use alpha_runtime_v.Execution.Coordinator.State.{
  ExecutionCoordinator, Env, response, update_readiness, update_status, journal_event,
  status_response, account_snapshot, execution_snapshot,
}
use alpha_runtime_v.Execution.Coordinator.Submit.{
  track_entry, send_plan, submit_plan, hold, journal_drift, act_on_plan, evaluate_intent,
  accept_intent, submit_intent, answer_duplicate,
}
use alpha_runtime_v.Execution.Coordinator.Confirm.{
  drop_pending, resolve, revalidate, refuse, confirm_held, confirm_intent, cancel_intent,
}
use alpha_runtime_v.Execution.Coordinator.Callbacks.{on_fill, on_order_update}
use alpha_runtime_v.Execution.Coordinator.Steps.{
  Step, Reach, here, next, readiness_changes, submits, confirms, cancels, fills, updates,
}

-- A runtime that is not ready answers REJECTED, sends nothing, holds nothing, registers no key and
-- keeps every status: of the whole state only the journal changes.
pub not_ready_blocks :
    (env : Env) (intent : TradeIntent) (c : ExecutionCoordinator)
    → ready c.readiness ≡ false
    → let (d, answer) = submit_intent env intent c in
      (d ≡ record c { journal = d.journal })
      × (answer ≡ some (response intent.intent_id IntentStatus.rejected))
unfolding submit_intent assert_runtime_ready journal_event
not_ready_blocks env intent c h = ground arith

member-keys {ℓ} :
    {V : Type ℓ} (k : ℕ) (d : Dict ℕ V) → member ◌==◌ k (keys d) ≡ is_some (lookup k d)
unfolding member lookup
member-keys k [] = refl
member-keys k ((j, v) ∷ d) = ground (arith, member-keys k d)

-- On a ready coordinator a key that is known changes nothing, and is answered by the status that the intent it was
-- first used for has by now.
pub duplicate_answers :
    (env : Env) (intent : TradeIntent) (first : ℕ) (c : ExecutionCoordinator)
    → ready c.readiness ≡ true
    → get_intent_id intent.idempotency_key c.idempotency ≡ some first
    → submit_intent env intent c ≡ (c, some (status_response first c))
unfolding submit_intent assert_runtime_ready assert_not_duplicate_intent answer_duplicate
    get_intent_id
duplicate_answers env intent first c h e =
    ground (arith, member-keys intent.idempotency_key c.idempotency)

module _ (env : Env) where
  submit_plan-idempotency :
      (id : ℕ) (intent : TradeIntent) (plan : IntentTradePlan) (c : ExecutionCoordinator)
      → (submit_plan env id intent plan c).0.idempotency ≡ c.idempotency
  unfolding submit_plan send_plan track_entry update_status journal_event
  submit_plan-idempotency id intent plan c = ground arith

  act_on_plan-idempotency :
      (intent : TradeIntent) (plan : IntentTradePlan) (c : ExecutionCoordinator)
      → (act_on_plan env intent plan c).0.idempotency ≡ c.idempotency
  unfolding act_on_plan hold update_status journal_event
  act_on_plan-idempotency intent plan c =
      ground (arith, submit_plan-idempotency intent.intent_id intent plan c)

  evaluate_intent-idempotency :
      (intent : TradeIntent) (market : MarketContextSnapshot) (c : ExecutionCoordinator)
      → (evaluate_intent env intent market c).0.idempotency ≡ c.idempotency
  unfolding evaluate_intent journal_drift update_status journal_event
  evaluate_intent-idempotency intent market c = grind (arith, act_on_plan-idempotency)

  accept_intent-idempotency :
      (intent : TradeIntent) (c : ExecutionCoordinator)
      → (accept_intent env intent c).0.idempotency
        ≡ (check_and_register intent.idempotency_key intent.intent_id c.idempotency).1
  unfolding accept_intent update_status journal_event
  accept_intent-idempotency intent c = grind (arith, evaluate_intent-idempotency)

  confirm_intent-idempotency :
      (id : ℕ) (c : ExecutionCoordinator) → (confirm_intent env id c).0.idempotency ≡ c.idempotency
  unfolding confirm_intent confirm_held refuse revalidate resolve drop_pending update_status
      journal_event
  confirm_intent-idempotency id c = grind (arith, submit_plan-idempotency)

  cancel_intent-idempotency :
      (id : ℕ) (c : ExecutionCoordinator) → (cancel_intent env id c).0.idempotency ≡ c.idempotency
  unfolding cancel_intent drop_pending update_status journal_event
  cancel_intent-idempotency id c = ground arith

  submit_intent-keeps :
      (k i : ℕ) (intent : TradeIntent) (c : ExecutionCoordinator)
      → get_intent_id k c.idempotency ≡ some i
      → get_intent_id k (submit_intent env intent c).0.idempotency ≡ some i
  unfolding submit_intent journal_event
  submit_intent-keeps k i intent c h = ground (
    arith,
    accept_intent-idempotency intent c,
    check_and_register_lem intent.idempotency_key intent.intent_id k c.idempotency,
  )

Step-keeps_key :
    {c d : ExecutionCoordinator} (k i : ℕ)
    → Step c d
    → get_intent_id k c.idempotency ≡ some i
    → get_intent_id k d.idempotency ≡ some i
unfolding update_readiness on_fill on_order_update
Step-keeps_key k i (readiness_changes u) h = h
Step-keeps_key {c} k i (submits env intent) h = submit_intent-keeps env k i intent c h
Step-keeps_key {c} k i (confirms env id) h = rw (confirm_intent-idempotency env id c) h
Step-keeps_key {c} k i (cancels env id) h = rw (cancel_intent-idempotency env id c) h
Step-keeps_key k i (fills fill) h = h
Step-keeps_key k i (updates order) h = ground arith

Reach-keeps_key :
    {c d : ExecutionCoordinator} (k i : ℕ)
    → Reach c d
    → get_intent_id k c.idempotency ≡ some i
    → get_intent_id k d.idempotency ≡ some i
Reach-keeps_key k i here h = h
Reach-keeps_key k i (next r s) h = Step-keeps_key k i s (Reach-keeps_key k i r h)

-- A known key never sends: whether or not the runtime is ready, the submissions and what is held
-- stay as they are.
duplicate_sends_nothing :
    (env : Env) (intent : TradeIntent) (i : ℕ) (c : ExecutionCoordinator)
    → get_intent_id intent.idempotency_key c.idempotency ≡ some i
    → ((submit_intent env intent c).0.submissions ≡ c.submissions)
      × ((submit_intent env intent c).0.pending ≡ c.pending)
unfolding submit_intent assert_runtime_ready assert_not_duplicate_intent get_intent_id journal_event
duplicate_sends_nothing env intent i c e =
    ground (arith, member-keys intent.idempotency_key c.idempotency)

first_registers :
    (env : Env) (intent : TradeIntent) (c : ExecutionCoordinator)
    → ready c.readiness ≡ true
    → (i : ℕ) × (get_intent_id intent.idempotency_key (submit_intent env intent c).0.idempotency
        ≡ some i)
unfolding submit_intent assert_runtime_ready assert_not_duplicate_intent get_intent_id
first_registers env intent c h = some_of_ne_none _ (λ e. ground (
  arith,
  member-keys intent.idempotency_key c.idempotency,
  accept_intent-idempotency env intent c,
  check_and_register_lem intent.idempotency_key intent.intent_id intent.idempotency_key
      c.idempotency,
))

-- Once a ready coordinator has taken a command, no retry with its key sends or holds anything:
-- not after any further calls of the methods, not with another intent, nor with other answers of the
-- collaborators.
pub retry_sends_nothing :
    (env env' : Env) (intent retry : TradeIntent) (c d : ExecutionCoordinator)
    → ready c.readiness ≡ true
    → Reach (submit_intent env intent c).0 d
    → retry.idempotency_key ≡ intent.idempotency_key
    → ((submit_intent env' retry d).0.submissions ≡ d.submissions)
      × ((submit_intent env' retry d).0.pending ≡ d.pending)
retry_sends_nothing env env' intent retry c d h r same =
    let (i, e) = first_registers env intent c h in
    duplicate_sends_nothing env' retry i d (rw same (Reach-keeps_key intent.idempotency_key i r e))

module _ (env : Env) (r : ExecutionReadiness) where
  submit_plan-readiness :
      (id : ℕ) (intent : TradeIntent) (plan : IntentTradePlan) (c : ExecutionCoordinator)
      → submit_plan env id intent plan (record c { readiness = r }) ≡ (
        record (submit_plan env id intent plan c).0 { readiness = r },
        (submit_plan env id intent plan c).1,
      )
  unfolding submit_plan send_plan track_entry update_status journal_event
  submit_plan-readiness id intent plan c = ground arith

  resolve-readiness :
      (id : ℕ) (intent : TradeIntent) (plan : IntentTradePlan) (c : ExecutionCoordinator)
      → resolve env id intent plan (record c { readiness = r }) ≡ (
        record (resolve env id intent plan c).0 { readiness = r },
        (resolve env id intent plan c).1,
      )
  unfolding resolve drop_pending update_status
  resolve-readiness id intent plan c =
      ground (arith, submit_plan-readiness id intent plan (drop_pending id c))

  revalidate-readiness :
      (id : ℕ) (intent : TradeIntent) (market : MarketContextSnapshot) (c : ExecutionCoordinator)
      → revalidate env id intent market (record c { readiness = r }) ≡ (
        record (revalidate env id intent market c).0 { readiness = r },
        (revalidate env id intent market c).1,
      )
  unfolding revalidate update_status journal_event execution_snapshot
  revalidate-readiness id intent market c =
      elim (Option-cases
        (env.evaluate intent market (account_snapshot env) (execution_snapshot env c))) [
          | inl e ↦ rw (e, revalidate) refl
          | inr (plan, e) ↦
              rw (e, revalidate)
                (resolve-readiness id intent plan (
                  journal_event env id (revalidated plan.decision) (some market.snapshot_id)
                    (some (account_snapshot env).snapshot_id)
                    (update_status id IntentStatus.confirmed c)))
        ]

  -- `confirm_intent` never looks at the readiness: with any other readiness it returns the same
  -- response and leaves the same state, the orders that went to the router included. So an intent
  -- that waits for its confirmation is sent also by a runtime that is not ready.
  pub confirm_ignores_readiness :
      (id : ℕ) (c : ExecutionCoordinator)
      → confirm_intent env id (record c { readiness = r })
        ≡ (record (confirm_intent env id c).0 { readiness = r }, (confirm_intent env id c).1)
  unfolding confirm_intent confirm_held refuse drop_pending update_status journal_event
  confirm_ignores_readiness id c = grind (arith, revalidate-readiness)
