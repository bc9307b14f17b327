-- ===== src/Execution/PaperRouter.antt =====
-- The simulated broker of src/alpha/engines/execution/paper_router.py. A coroutine that sleeps is a
-- task for each stretch between two sleeps; the callbacks that it calls are the events that it
-- returns, in order. `Fresh` holds the ids and the time that one stretch draws.
pub mod Laws
pub mod Orders
use Prim.Native.String.{String}
use alpha_runtime_v.Base.{
  ℕ, suc, ◌/◌, ◌==◌, ◌≡◌, refl, Bool, true, false, not, ◌&&◌, ◌||◌, Option, none, some, List, [],
  ◌∷◌, ◌++◌, if◌then◌else◌,
}
use alpha_runtime_v.Base.Int.{ℤ, pos, negsuc, neg}
use alpha_runtime_v.Base.Dict.{Dict, Eq, nat_eq, lookup, insert, keys}
use alpha_runtime_v.Execution.Enums.{OrderSide, OrderStatus}
use alpha_runtime_v.Execution.Models.{
  Decimal, OrderId, eq_order_id, order_id_eq, PlannedOrder, IntentTradePlan, BrokerOrderIdentity,
  all_orders,
}
use alpha_runtime_v.Execution.Models.Orders.{Order, Execution, is_terminal}
use alpha_runtime_v.Execution.Invariants.{member}
use alpha_runtime_v.Execution.PaperRouter.Orders.{
  Event, Fresh, PaperOrderRouter, Task, default_account, make_identity, make_order, paper, whole,
  order_update, fill_event, entry_accept, entry_fill, child_accept,
}

unfoldable pub register_all :
    List PlannedOrder → Dict OrderId BrokerOrderIdentity → Dict OrderId BrokerOrderIdentity
register_all [] d = d
register_all (o ∷ os) d =
    register_all os (insert o.runtime_order_id (make_identity o.runtime_order_id) d)

unfoldable pub identities : List PlannedOrder → List BrokerOrderIdentity
identities [] = []
identities (o ∷ os) = make_identity o.runtime_order_id ∷ identities os

-- `submit_bracket`: the identities of the plan's orders, and the task that fills the entry.
unfoldable pub submit_bracket :
    IntentTradePlan → PaperOrderRouter → List BrokerOrderIdentity × PaperOrderRouter × List Task
submit_bracket plan r = elim plan.entry_order [
  | none ↦ ([], r, [])
  | some entry ↦ (
    identities (all_orders plan),
    record r { submitted = register_all (all_orders plan) r.submitted },
    entry_accept plan ∷ [],
  )
]

abbrev is_live : OrderStatus → Bool
is_live OrderStatus.accepted = true
is_live OrderStatus.partial = true
is_live _ = false

-- `cancel`
unfoldable pub cancel : ℕ → OrderId → PaperOrderRouter → PaperOrderRouter × List Event
cancel now i r =
    let marked : PaperOrderRouter = record r { cancelled = i ∷ r.cancelled } in
    elim (lookup i r.orders) [
      | none ↦ (marked, [])
      | some order ↦
          let gone : Order = record order {
            status = OrderStatus.cancelled;
            cancelled_at = some now;
          } in
          if is_live order.status
          then (record marked { orders = insert i gone r.orders }, order_update gone ∷ [])
          else (marked, [])
    ]

-- The loop of `flatten`, over the orders that were there when it began.
unfoldable pub cancel_symbol :
    ℕ → ℕ → List (OrderId × Order) → PaperOrderRouter → PaperOrderRouter × List Event
cancel_symbol now symbol [] r = (r, [])
cancel_symbol now symbol ((i, order) ∷ rest) r =
    let (r', events) =
      if order.symbol == symbol && not (is_terminal order) then cancel now i r else (r, []) in
    let (r'', more) = cancel_symbol now symbol rest r' in (r'', events ++ more)

-- `flatten`; its answer is always the empty list.
unfoldable pub flatten : ℕ → ℕ → PaperOrderRouter → PaperOrderRouter × List Event
flatten now symbol r = cancel_symbol now symbol r.orders r

-- `entry.runtime_order_id.split("-")[0] if "-" in entry.runtime_order_id else "PAPER"`
unfoldable pub fill_symbol : OrderId → ℕ
fill_symbol (OrderId.dashed head rest) = head
fill_symbol (OrderId.undashed _) = paper
fill_symbol (OrderId.uuid head) = head

unfoldable pub accept_order : Fresh → PlannedOrder → PaperOrderRouter → Order × PaperOrderRouter
accept_order fresh planned r =
    let accepted : Order = record (make_order fresh planned) {
      status = OrderStatus.accepted;
      accepted_at = some fresh.now;
    } in
    (accepted, record r { orders = insert planned.runtime_order_id accepted r.orders })

-- `_simulate_entry_fill` from the first sleep to the second.
unfoldable pub run_entry_accept :
    Fresh
    → IntentTradePlan
    → PlannedOrder
    → Decimal
    → PaperOrderRouter
    → PaperOrderRouter × List Event × List Task
run_entry_accept fresh plan entry price r =
    let (accepted, r') = accept_order fresh entry r in
    if member eq_order_id entry.runtime_order_id r.cancelled
    then (r, [], [])
    else (r', order_update accepted ∷ [], entry_fill plan entry price accepted ∷ [])

abbrev activation : Option PlannedOrder → List Task
activation none = []
activation (some stop) = child_accept stop ∷ []

-- The filled copy of the accepted order.
unfoldable pub filled_order : ℕ → PlannedOrder → Decimal → Order → Order
filled_order now entry price accepted = record accepted {
  status = OrderStatus.filled;
  filled_quantity = whole entry.quantity;
  avg_fill_price = some price;
  filled_at = some now;
}

unfoldable pub fill_of : Fresh → PlannedOrder → Decimal → Order → Execution
unfolding fill_symbol
fill_of fresh entry price accepted = record {
  execution_id = fresh.execution;
  order_id = accepted.order_id;
  broker_execution_id = some fresh.broker_execution;
  symbol = fill_symbol entry.runtime_order_id;
  side = entry.side;
  quantity = whole entry.quantity;
  price = price;
  commission = pos 0;
  timestamp = fresh.now;
  account_id = default_account;
}

-- `_simulate_entry_fill` from the second sleep on.
unfoldable pub run_entry_fill :
    Fresh
    → IntentTradePlan
    → PlannedOrder
    → Decimal
    → Order
    → PaperOrderRouter
    → PaperOrderRouter × List Event × List Task
run_entry_fill fresh plan entry price accepted r =
    let filled : Order = filled_order fresh.now entry price accepted in
    (
      record r { orders = insert entry.runtime_order_id filled r.orders },
      order_update filled ∷ fill_event (fill_of fresh entry price accepted) ∷ [],
      activation plan.stop_order,
    )

-- `_activate_bracket_child` after its sleep.
unfoldable pub run_child_accept :
    Fresh → PlannedOrder → PaperOrderRouter → PaperOrderRouter × List Event × List Task
run_child_accept fresh order r =
    let (accepted, r') = accept_order fresh order r in
    if member eq_order_id order.runtime_order_id r.cancelled
    then (r, [], [])
    else (r', order_update accepted ∷ [], [])

-- A plan with no entry, or an entry with no limit price, is not filled.
unfoldable pub run_plan :
    Fresh → IntentTradePlan → PaperOrderRouter → PaperOrderRouter × List Event × List Task
run_plan fresh plan r = elim plan.entry_order [
  | none ↦ (r, [], [])
  | some entry ↦ elim entry.limit_price [
    | none ↦ (r, [], [])
    | some price ↦ run_entry_accept fresh plan entry price r
  ]
]

-- One stretch of a task: the state, the callbacks and the tasks that follow.
unfoldable pub run_task :
    Fresh → Task → PaperOrderRouter → PaperOrderRouter × List Event × List Task
run_task fresh (entry_accept plan) r = run_plan fresh plan r
run_task fresh (entry_fill plan entry price accepted) r =
    run_entry_fill fresh plan entry price accepted r
run_task fresh (child_accept order) r = run_child_accept fresh order r
