-- ===== src/Execution/Coordinator/Confirmation.antt =====
-- What a confirmation does in coordinator.py: the plan that is held, the answer and the status.
use alpha_runtime_v.Base.{
  ℕ, ◌+◌, ◌≤◌, ◌≡◌, ◌≢◌, ◌↔◌, refl, true, false, none, some, List, [], ◌∷◌, ◌++◌, arith, is_some,
}
use alpha_runtime_v.Base.Dict.{Dict, nat_eq, lookup, insert, ==_iff, lookup-insert}
use alpha_runtime_v.Execution.Enums.{RiskDecision, IntentStatus}
use alpha_runtime_v.Execution.Models.{
  BrokerOrderIdentity, TradeIntent, IntentTradePlan, MarketContextSnapshot, requires_confirmation,
}
use alpha_runtime_v.Execution.StateMachines.{assert_valid_intent_transition, is_intent_terminal}
use alpha_runtime_v.Execution.Stores.{revalidated}
use alpha_runtime_v.Execution.Coordinator.State.{
  ExecutionCoordinator, PendingIntent, Env, update_status, next_status, journal_event,
  plan_response, account_snapshot, execution_snapshot, second,
}
use alpha_runtime_v.Execution.Coordinator.Submit.{
  track_entry, send_plan, submit_plan, hold, act_on_plan,
}
use alpha_runtime_v.Execution.Coordinator.Confirm.{
  drop_pending, resolve, revalidate, confirm_held, confirm_intent,
}

-- The response to a plan fails exactly when the plan asks for a confirmation and the clock stands in
-- the last ten seconds of a minute.
pub plan_response_raises_iff :
    (env : Env) (id : ℕ) (s : IntentStatus) (plan : IntentTradePlan)
    → (plan_response env id s plan ≡ none)
      ↔ ((plan.decision ≡ RiskDecision.approved_with_modifications) × (50 ≤ second env.now))
unfolding plan_response requires_confirmation
plan_response_raises_iff env id s plan = ground arith

-- A plan that asks for a confirmation is held under its intent's id, to be confirmed within 10
-- seconds by the monotonic clock, and nothing is sent; the response fails in the last ten seconds of
-- a minute, when the intent is held all the same.
pub amber_held :
    (env : Env) (intent : TradeIntent) (plan : IntentTradePlan) (c : ExecutionCoordinator)
    → plan.decision ≡ RiskDecision.approved_with_modifications
    → let (d, answer) = act_on_plan env intent plan c in
      (lookup intent.intent_id d.pending
        ≡ some (record {
          intent = intent;
          plan = plan;
          created_at = env.now;
          expiry_ts = env.monotonic + 10000000;
        }))
      × (d.submissions ≡ c.submissions)
      × ((answer ≡ none) ↔ (50 ≤ second env.now))
unfolding act_on_plan hold update_status journal_event
amber_held env intent plan c h = ground (
  arith,
  lookup-insert intent.intent_id intent.intent_id
      (record {
        intent = intent;
        plan = plan;
        created_at = env.now;
        expiry_ts = env.monotonic + 10000000;
      })
      c.pending,
  ==_iff intent.intent_id intent.intent_id,
  plan_response_raises_iff env intent.intent_id IntentStatus.awaiting_confirmation plan,
)

-- The status map that `update_status` leaves.
set_status : ℕ → IntentStatus → Dict ℕ IntentStatus → Dict ℕ IntentStatus
set_status id s m = insert id (next_status (lookup id m) s) m

lookup-set_status :
    (id : ℕ) (s : IntentStatus) (m : Dict ℕ IntentStatus)
    → lookup id (set_status id s m) ≡ some (next_status (lookup id m) s)
unfolding set_status
lookup-set_status id s m =
    ground (arith, ==_iff id id, lookup-insert id id (next_status (lookup id m) s) m)

confirmed_stays :
    (id : ℕ) (s : IntentStatus) (m : Dict ℕ IntentStatus)
    → is_some (assert_valid_intent_transition IntentStatus.confirmed s) ≡ true
    → lookup id m ≡ some IntentStatus.confirmed
    → lookup id (set_status id s m) ≡ some IntentStatus.confirmed
unfolding next_status is_intent_terminal
confirmed_stays id s m bad h = ground (arith, lookup-set_status id s m)

submit_plan-stuck :
    (env : Env) (id : ℕ) (intent : TradeIntent) (plan : IntentTradePlan) (c : ExecutionCoordinator)
    → lookup id c.intent_status ≡ some IntentStatus.confirmed
    → lookup id (submit_plan env id intent plan c).0.intent_status ≡ some IntentStatus.confirmed
unfolding submit_plan track_entry journal_event send_plan update_status set_status
    assert_valid_intent_transition
submit_plan-stuck env id intent plan c h =
    let sent : lookup id (set_status id IntentStatus.submitting c.intent_status)
        ≡ some IntentStatus.confirmed =
      confirmed_stays id IntentStatus.submitting c.intent_status refl h in
    ground (
      arith,
      confirmed_stays id IntentStatus.active (set_status id IntentStatus.submitting c.intent_status)
          refl sent,
      confirmed_stays id IntentStatus.failed (set_status id IntentStatus.submitting c.intent_status)
          refl sent,
    )

submit_plan-sends :
    (env : Env) (id : ℕ) (intent : TradeIntent) (plan : IntentTradePlan) (c : ExecutionCoordinator)
    {sent : List BrokerOrderIdentity}
    → env.submit_bracket plan ≡ some sent
    → ((submit_plan env id intent plan c).0.submissions ≡ c.submissions ++ plan ∷ [])
      × ((submit_plan env id intent plan c).1 ≡ plan_response env id IntentStatus.active plan)
unfolding submit_plan track_entry journal_event send_plan update_status
submit_plan-sends env id intent plan c r = ground arith

resolve-sends :
    (env : Env) (id : ℕ) (intent : TradeIntent) (plan : IntentTradePlan) (c : ExecutionCoordinator)
    {sent : List BrokerOrderIdentity}
    → plan.decision ≢ RiskDecision.rejected
    → env.submit_bracket plan ≡ some sent
    → lookup id c.intent_status ≡ some IntentStatus.confirmed
    → let (d, answer) = resolve env id intent plan c in
      (d.submissions ≡ c.submissions ++ plan ∷ [])
      × (lookup id d.intent_status ≡ some IntentStatus.confirmed)
      × (answer ≡ plan_response env id IntentStatus.active plan)
unfolding resolve drop_pending
resolve-sends env id intent plan c d r s = ground (
  arith,
  submit_plan-stuck env id intent plan (drop_pending id c),
  submit_plan-sends env id intent plan (drop_pending id c) r,
)

confirmed_next :
    (id : ℕ) (m : Dict ℕ IntentStatus)
    → lookup id m ≡ some IntentStatus.awaiting_confirmation
    → lookup id (set_status id IntentStatus.confirmed m) ≡ some IntentStatus.confirmed
unfolding next_status is_intent_terminal assert_valid_intent_transition
confirmed_next id m h = ground (arith, lookup-set_status id IntentStatus.confirmed m)

revalidate-sends :
    (env : Env) (id : ℕ) (intent : TradeIntent) (market : MarketContextSnapshot)
    (c : ExecutionCoordinator) {plan : IntentTradePlan} {sent : List BrokerOrderIdentity}
    → env.evaluate intent market (account_snapshot env) (execution_snapshot env c) ≡ some plan
    → plan.decision ≢ RiskDecision.rejected
    → env.submit_bracket plan ≡ some sent
    → lookup id c.intent_status ≡ some IntentStatus.awaiting_confirmation
    → let (d, answer) = revalidate env id intent market c in
      (d.submissions ≡ c.submissions ++ plan ∷ [])
      × (lookup id d.intent_status ≡ some IntentStatus.confirmed)
      × (answer ≡ plan_response env id IntentStatus.active plan)
unfolding revalidate update_status journal_event set_status
revalidate-sends env id intent market c {plan} e d r s =
    rw (e, revalidate)
      (resolve-sends env id intent plan
        (journal_event env id (revalidated plan.decision) (some market.snapshot_id)
          (some (account_snapshot env).snapshot_id) (update_status id IntentStatus.confirmed c))
        d r (confirmed_next id c.intent_status s))

-- A confirmed intent is sent, and answered as ACTIVE, while its status stays CONFIRMED for good: the
-- transition table has no step from CONFIRMED to SUBMITTING, so that update and the one to ACTIVE
-- are dropped. It is so for every pending intent that has not expired, on a market with data and
-- an account that is not halted, whose new plan is not rejected and which the router takes.
pub confirm_leaves_confirmed :
    (env : Env) (id : ℕ) (c : ExecutionCoordinator) {held : PendingIntent}
    {market : MarketContextSnapshot} {plan : IntentTradePlan} {sent : List BrokerOrderIdentity}
    → lookup id c.pending ≡ some held
    → lookup id c.intent_status ≡ some IntentStatus.awaiting_confirmation
    → env.monotonic ≤ held.expiry_ts
    → env.snapshot held.intent.instrument_id ≡ some market
    → (account_snapshot env).is_halted ≡ false
    → env.evaluate held.intent market (account_snapshot env) (execution_snapshot env c) ≡ some plan
    → plan.decision ≢ RiskDecision.rejected
    → env.submit_bracket plan ≡ some sent
    → let (d, answer) = confirm_intent env id c in
      (d.submissions ≡ c.submissions ++ plan ∷ [])
      × (lookup id d.intent_status ≡ some IntentStatus.confirmed)
      × (answer ≡ plan_response env id IntentStatus.active plan)
unfolding confirm_intent confirm_held
confirm_leaves_confirmed env id c {held} {market} {plan} p s x m a e d r =
    ground (arith, revalidate-sends env id held.intent market c e d r s)
