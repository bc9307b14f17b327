-- ===== src/Execution/Coordinator/State.antt =====
-- The state of src/alpha/engines/execution/coordinator.py and its small methods. What the coordinator
-- calls through a protocol, and the clocks, answer by `Env`, one value for each call of a method.
use alpha_runtime_v.Base.{
  ℕ, ◌+◌, ◌/◌, ◌%◌, ltb, Bool, true, false, not, Option, none, some, List, [], ◌∷◌, if◌then◌else◌,
  is_some,
}
use alpha_runtime_v.Base.Int.{ℤ, pos}
use alpha_runtime_v.Base.Dict.{Dict, nat_eq, lookup, insert}
use alpha_runtime_v.Execution.Enums.{IntentStatus, RiskDecision}
use alpha_runtime_v.Execution.Models.{
  Decimal, units, SnapshotId, MarketContextSnapshot, AccountSnapshot, WorkingOrder,
  ExecutionSnapshot, TradeIntent, PlannedOrder, IntentTradePlan, RiskFlag, requires_confirmation,
  BrokerOrderIdentity,
}
use alpha_runtime_v.Execution.Readiness.{
  ExecutionReadiness, Update, with_update, execution_not_ready,
}
use alpha_runtime_v.Execution.StateMachines.{assert_valid_intent_transition, is_intent_terminal}
use alpha_runtime_v.Execution.Stores.{IdempotencyStore, AuditEvent, IntentJournal, record_entry}

-- `_PendingIntent`; the expiry is on the monotonic clock, in microseconds.
pub record PendingIntent : Type 0 where
  pub intent : TradeIntent
  pub plan : IntentTradePlan
  pub created_at : ℕ
  pub expiry_ts : ℕ

-- The attributes of `ExecutionCoordinator`; `submissions` lists the calls of
-- `order_router.submit_bracket`, in order.
pub record ExecutionCoordinator : Type 0 where
  pub readiness : ExecutionReadiness
  pub pending : Dict ℕ PendingIntent
  pub intent_status : Dict ℕ IntentStatus
  pub positions : Dict ℕ Decimal
  pub working_orders : List WorkingOrder
  pub idempotency : IdempotencyStore
  pub journal : IntentJournal
  pub submissions : List IntentTradePlan

-- `ExecutionCoordinator.__init__`
unfoldable pub new : ExecutionCoordinator
new = record {
  readiness = execution_not_ready;
  pending = [];
  intent_status = [];
  positions = [];
  working_orders = [];
  idempotency = [];
  journal = [];
  submissions = [];
}

-- The market store, the account state function (`none` where none was given), the evaluator and
-- the router (`none` where they raise), and the two clocks in microseconds.
pub record Env : Type 0 where
  pub snapshot : ℕ → Option MarketContextSnapshot
  pub account_state : Option AccountSnapshot
  pub evaluate :
      TradeIntent
      → MarketContextSnapshot
      → AccountSnapshot
      → ExecutionSnapshot
      → Option IntentTradePlan
  pub submit_bracket : IntentTradePlan → Option (List BrokerOrderIdentity)
  pub now : ℕ
  pub monotonic : ℕ

pub record IntentResponse : Type 0 where
  pub intent_id : ℕ
  pub status : IntentStatus
  pub decision : Option RiskDecision
  pub entry_price : Option Decimal
  pub stop_price : Option Decimal
  pub target_price : Option Decimal
  pub risk_usd : Option ℤ
  pub reward_risk : Option (ℤ × ℤ)
  pub risk_flags : List RiskFlag
  pub requires_confirmation : Bool
  pub confirmation_expires_at : Option ℕ

-- `IntentResponse(intent_id=…, status=…)` with the defaults.
abbrev pub response : ℕ → IntentStatus → IntentResponse
response id status = record {
  intent_id = id;
  status = status;
  decision = none;
  entry_price = none;
  stop_price = none;
  target_price = none;
  risk_usd = none;
  reward_risk = none;
  risk_flags = [];
  requires_confirmation = false;
  confirmation_expires_at = none;
}

-- `update_readiness`
unfoldable pub update_readiness : Update → ExecutionCoordinator → ExecutionCoordinator
update_readiness u c = record c { readiness = with_update c.readiness u }

-- `_update_status`: a transition that the guard rejects is dropped, but a terminal status is
-- overwritten.
unfoldable pub next_status : Option IntentStatus → IntentStatus → IntentStatus
next_status none status = status
next_status (some current) status =
    if is_intent_terminal current
    then status
    else if is_some (assert_valid_intent_transition current status)
    then current
    else status

unfoldable pub update_status : ℕ → IntentStatus → ExecutionCoordinator → ExecutionCoordinator
update_status id status c = record c {
  intent_status = insert id (next_status (lookup id c.intent_status) status) c.intent_status;
}

-- `_journal_event`
unfoldable pub journal_event :
    Env
    → ℕ
    → AuditEvent
    → Option SnapshotId
    → Option SnapshotId
    → ExecutionCoordinator
    → ExecutionCoordinator
journal_event env id event market account c = record c {
  journal =
      record_entry
        (record {
          intent_id = id;
          event = event;
          timestamp = env.now;
          market_snapshot_id = market;
          account_snapshot_id = account;
        })
        c.journal;
}

-- `_execution_snapshot`
unfoldable pub execution_snapshot : Env → ExecutionCoordinator → ExecutionSnapshot
execution_snapshot env c = record {
  snapshot_id = SnapshotId.stamped (env.now / 1000);
  as_of = env.now;
  positions = c.positions;
  working_orders = c.working_orders;
  submitting_intent_ids = [];
  session_trade_count = 0;
  consecutive_losses = 0;
}

-- `_account_snapshot`: without an account state function, 25000 dollars and a limit of 500.
unfoldable pub account_snapshot : Env → AccountSnapshot
account_snapshot env = elim env.account_state [
  | some a ↦ a
  | none ↦ record {
    snapshot_id = SnapshotId.stamped (env.now / 1000);
    as_of = env.now;
    account_id = 0;
    net_liquidation = units 500000000;
    realized_pnl = pos 0;
    unrealized_pnl = pos 0;
    daily_loss_limit = units 10000000;
    session_high_pnl = pos 0;
    is_halted = false;
    halt_reason = none;
  }
]

-- `_status_response`
unfoldable pub status_response : ℕ → ExecutionCoordinator → IntentResponse
status_response id c =
    response id (elim (lookup id c.intent_status) [ none ↦ IntentStatus.rejected | some s ↦ s ])

abbrev pub limit_of : Option PlannedOrder → Option Decimal
limit_of none = none
limit_of (some o) = o.limit_price

abbrev pub stop_of : Option PlannedOrder → Option Decimal
stop_of none = none
stop_of (some o) = o.stop_price

abbrev pub first : List PlannedOrder → Option PlannedOrder
first [] = none
first (o ∷ os) = some o

-- The second of the minute of a time in microseconds.
abbrev pub second : ℕ → ℕ
second t = (t / 1000000) % 60

abbrev pub filled_response : ℕ → IntentStatus → IntentTradePlan → Bool → Option ℕ → IntentResponse
filled_response id status plan confirm expires = record {
  intent_id = id;
  status = status;
  decision = some plan.decision;
  entry_price = limit_of plan.entry_order;
  stop_price = stop_of plan.stop_order;
  target_price = limit_of (first plan.target_orders);
  risk_usd = some plan.calculated_risk_usd;
  reward_risk = some plan.reward_risk_ratio;
  risk_flags = plan.risk_flags;
  requires_confirmation = confirm;
  confirmation_expires_at = expires;
}

-- `_plan_response`. With a confirmation to come, `now.replace(second=now.second + 10)` raises if that
-- is no second of a minute.
unfoldable pub plan_response : Env → ℕ → IntentStatus → IntentTradePlan → Option IntentResponse
plan_response env id status plan =
    if not (requires_confirmation plan)
    then some (filled_response id status plan false none)
    else if ltb (second env.now + 10) 60
    then some (filled_response id status plan true (some (env.now + 10000000)))
    else none
