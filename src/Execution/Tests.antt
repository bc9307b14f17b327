-- ===== src/Execution/Tests.antt =====
-- Concrete inputs for the execution subsystem: a long and a short on one instrument, the evaluator
-- with its defaults, the simulated broker, and a coordinator that stands on both.
pub mod Machines
pub mod Risk
pub mod Coordinator
pub mod PaperRouter
pub mod Projector
use alpha_runtime_v.Base.{ℕ, true, false, none, some, [], ◌∷◌, Option, List}
use alpha_runtime_v.Base.Int.{pos, negsuc}
use alpha_runtime_v.Execution.Enums.{
  OrderSide, OrderType, TimeInForce, OrderStatus, TrendState, DayType, DataQualityState,
  TradeAction, PriceMode, IntentStatus, RiskDecision, OrderRole, IntentSource,
}
use alpha_runtime_v.Execution.Models.{
  Decimal, units, OrderId, SnapshotId, MarketContextSnapshot, AccountSnapshot, ExecutionSnapshot,
  TradeIntent, PlannedOrder, IntentTradePlan, WorkingOrder,
}
use alpha_runtime_v.Execution.Models.Orders.{Order, Execution}
use alpha_runtime_v.Execution.Readiness.{Update, with_update, execution_not_ready}
use alpha_runtime_v.Execution.Risk.Checks.{V1RiskEvaluator, FreshIds}
use alpha_runtime_v.Execution.Risk.Evaluator.{bracket_plan, evaluate}
use alpha_runtime_v.Execution.PaperRouter.{submit_bracket}
use alpha_runtime_v.Execution.PaperRouter.Orders.{PaperOrderRouter, Fresh}
use alpha_runtime_v.Execution.Coordinator.State.{
  ExecutionCoordinator, Env, PendingIntent, new, update_readiness,
}

-- 5000.00 bid and 5000.25 asked.
abbrev pub market : MarketContextSnapshot
market = record {
  instrument_id = 1;
  snapshot_id = SnapshotId.versioned 1 5;
  as_of = 1000000;
  bar_timestamp = 900000;
  regime = TrendState.choppy;
  day_type = DayType.balanced;
  last_price = units 100000000;
  bid = units 100000000;
  ask = units 100005000;
  vwap = units 99900000;
  above_vwap = true;
  bars_since_vwap_cross = 4;
  ema9 = none;
  ema21 = none;
  opening_range_high = none;
  opening_range_low = none;
  rvol = none;
  signal_freshness_ms = 100;
  data_quality = DataQualityState.clean;
  setup_scores = [];
}

abbrev pub degraded_market : MarketContextSnapshot
degraded_market = record market { data_quality = DataQualityState.degraded }

abbrev pub account : AccountSnapshot
account = record {
  snapshot_id = SnapshotId.stamped 1;
  as_of = 1000000;
  account_id = 0;
  net_liquidation = units 500000000;
  realized_pnl = pos 0;
  unrealized_pnl = pos 0;
  daily_loss_limit = units 10000000;
  session_high_pnl = pos 0;
  is_halted = false;
  halt_reason = none;
}

abbrev pub execution : ExecutionSnapshot
execution = record {
  snapshot_id = SnapshotId.stamped 1;
  as_of = 1000000;
  positions = [];
  working_orders = [];
  submitting_intent_ids = [];
  session_trade_count = 0;
  consecutive_losses = 0;
}

-- One contract short.
abbrev pub short_execution : ExecutionSnapshot
short_execution = record execution { positions = (1, negsuc 19999) ∷ [] }

abbrev pub long_intent : TradeIntent
long_intent = record {
  intent_id = 7;
  idempotency_key = 77;
  created_at = 1000000;
  instrument_id = 1;
  action = TradeAction.open_long;
  quantity = units 20000;
  execution_policy = record {
    price_mode = PriceMode.marketable_limit;
    max_slippage_ticks = pos 4;
    time_in_force = TimeInForce.day;
  };
  protection_policy = record {
    stop_distance_ticks = pos 8;
    target_distance_ticks = some (pos 16);
    use_broker_bracket = true;
    stop_retry_attempts = pos 2;
  };
  source = IntentSource.hotkey;
  client_quote = none;
  status = IntentStatus.received;
}

abbrev pub flatten_intent : TradeIntent
flatten_intent = record long_intent { action = TradeAction.flatten }

-- Another command under the same key.
abbrev pub retry_intent : TradeIntent
retry_intent = record long_intent { intent_id = 8; action = TradeAction.open_short }

-- `V1RiskEvaluator` with two contracts and 500 dollars, without a registry entry.
abbrev pub evaluator : V1RiskEvaluator
evaluator = record {
  registry = [];
  max_contracts = units 40000;
  max_daily_loss_usd = units 10000000;
}

abbrev pub ids : FreshIds
ids = record { plan = 1; stop = 2; target = 3; entry = 4 }

abbrev pub long_plan : IntentTradePlan
long_plan =
    bracket_plan evaluator long_intent market account ids 1000000 (OrderSide.buy, units 100005000)

abbrev pub amber_plan : IntentTradePlan
amber_plan = record long_plan { decision = RiskDecision.approved_with_modifications }

abbrev pub router : PaperOrderRouter
router = record { submitted = []; orders = []; cancelled = [] }

-- Everything answers: the evaluator with its defaults and the simulated broker.
abbrev pub env : Env
env = record {
  snapshot = λ _. some market;
  account_state = some account;
  evaluate = λ i m a e. evaluate evaluator i m a e ids 1000000;
  submit_bracket = λ plan. some (submit_bracket plan router).0;
  now = 1000000;
  monotonic = 5000000;
}

-- The same on degraded data, in the last second of a minute.
abbrev pub late_env : Env
late_env = record env { snapshot = λ _. some degraded_market; now = 59000000 }

abbrev pub all_ready : Update
all_ready = record {
  broker_connected = some true;
  positions_reconciled = some true;
  orders_reconciled = some true;
  executions_reconciled = some true;
  account_state_loaded = some true;
  market_data_fresh = some true;
}

abbrev pub coordinator : ExecutionCoordinator
coordinator = update_readiness all_ready new

abbrev pub entry_order : PlannedOrder
entry_order = record {
  runtime_order_id = OrderId.dashed 0 4;
  role = OrderRole.entry;
  side = OrderSide.buy;
  order_type = OrderType.limit;
  quantity = units 20000;
  limit_price = some (units 100005000);
  stop_price = none;
  time_in_force = TimeInForce.day;
}

abbrev pub working_entry : WorkingOrder
working_entry = record {
  runtime_order_id = OrderId.dashed 0 4;
  instrument_id = 1;
  side = OrderSide.buy;
  quantity = units 40000;
  role = OrderRole.entry;
}

-- A buy of two contracts works.
abbrev pub working_coordinator : ExecutionCoordinator
working_coordinator = record coordinator { working_orders = working_entry ∷ [] }

-- A fill of one contract, and of two.
abbrev pub part_fill : Execution
part_fill = record {
  execution_id = 1;
  order_id = OrderId.dashed 0 4;
  broker_execution_id = none;
  symbol = 1;
  side = OrderSide.buy;
  quantity = pos 1;
  price = units 100005000;
  commission = pos 0;
  timestamp = 1000000;
  account_id = 0;
}

abbrev pub whole_fill : Execution
whole_fill = record part_fill { quantity = pos 2 }

-- An amber plan that waits for its confirmation.
abbrev pub held_long : PendingIntent
held_long = record {
  intent = long_intent;
  plan = amber_plan;
  created_at = 1000000;
  expiry_ts = 15000000;
}

abbrev pub holding_coordinator : ExecutionCoordinator
holding_coordinator = record coordinator {
  pending = (7, held_long) ∷ [];
  intent_status = (7, IntentStatus.awaiting_confirmation) ∷ [];
}

abbrev pub fresh : Fresh
fresh = record { order = 100; intent = 101; execution = 102; broker_execution = 103; now = 2000000 }
