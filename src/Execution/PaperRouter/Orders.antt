-- ===== src/Execution/PaperRouter/Orders.antt =====
-- The state of the simulated broker of src/alpha/engines/execution/paper_router.py, the events and tasks that
-- its methods make, and the order and the identity that it gives a planned order.
use alpha_runtime_v.Base.{ℕ, suc, ◌/◌, none, List}
use alpha_runtime_v.Base.Int.{ℤ, pos, negsuc, neg}
use alpha_runtime_v.Base.Dict.{Dict, nat_eq}
use alpha_runtime_v.Execution.Enums.{OrderStatus}
use alpha_runtime_v.Execution.Models.{
  Decimal, OrderId, order_id_eq, PlannedOrder, IntentTradePlan, BrokerOrderIdentity,
}
use alpha_runtime_v.Execution.Models.Orders.{Order, Execution}

-- The strings "PAPER" as a symbol and "default" as an account.
abbrev pub paper : ℕ
paper = 1

abbrev pub default_account : ℕ
default_account = 0

pub record PaperOrderRouter : Type 0 where
  pub submitted : Dict OrderId BrokerOrderIdentity
  pub orders : Dict OrderId Order
  pub cancelled : List OrderId

pub record Fresh : Type 0 where
  pub order : ℕ
  pub intent : ℕ
  pub execution : ℕ
  pub broker_execution : ℕ
  pub now : ℕ

-- What the registered callbacks are called with.
pub data Event : Type 0 where
  order_update : Order → Event
  fill_event : Execution → Event

-- The stretches of `_simulate_entry_fill` after its first and its second sleep, the latter with the
-- order that it has accepted, and `_activate_bracket_child` after its sleep.
pub data Task : Type 0 where
  entry_accept : IntentTradePlan → Task
  entry_fill : IntentTradePlan → PlannedOrder → Decimal → Order → Task
  child_accept : PlannedOrder → Task

-- `_make_identity`
unfoldable pub make_identity : OrderId → BrokerOrderIdentity
make_identity runtime_order_id = record {
  runtime_order_id = runtime_order_id;
  broker = "paper";
  broker_order_ref = runtime_order_id;
  broker_client_id = none;
  broker_order_id = none;
  broker_perm_id = none;
}

-- `int(quantity)`, towards zero.
abbrev pub whole : Decimal → ℤ
whole (pos n) = pos (n / 20000)
whole (negsuc n) = neg (pos (suc n / 20000))

-- `_make_order`: both ids are fresh UUIDs, and the symbol is "PAPER".
unfoldable pub make_order : Fresh → PlannedOrder → Order
make_order fresh planned = record {
  order_id = OrderId.uuid fresh.order;
  broker_order_id = none;
  intent_id = fresh.intent;
  symbol = paper;
  side = planned.side;
  order_type = planned.order_type;
  quantity = whole planned.quantity;
  account_id = default_account;
  filled_quantity = pos 0;
  avg_fill_price = none;
  limit_price = planned.limit_price;
  stop_price = planned.stop_price;
  time_in_force = planned.time_in_force;
  status = OrderStatus.pending;
  submitted_at = none;
  accepted_at = none;
  filled_at = none;
  cancelled_at = none;
  rejected_at = none;
  reject_reason = none;
  commission = pos 0;
}

-- Writing the identity of each order of the list.
