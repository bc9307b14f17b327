-- ===== src/Execution/PaperRouter/Laws.antt =====
-- What the simulated broker of paper_router.py does over any order of its tasks and calls.
use alpha_runtime_v.Base.{
  ℕ, ◌==◌, ◌≡◌, ◌≢◌, refl, ap, true, not, ◌&&◌, some, List, [], ◌∷◌, map, arith, if◌then◌else◌,
  Bool-cases, inl, inr,
}
use alpha_runtime_v.Base.Lists.{All}
use alpha_runtime_v.Base.Dict.{Dict, nat_eq, lookup, insert, lookup-insert, ==_iff}
use alpha_runtime_v.Execution.Enums.{OrderStatus}
use alpha_runtime_v.Execution.Models.{
  Decimal, OrderId, eq_order_id, eq_order_id_iff, order_id_eq, PlannedOrder, IntentTradePlan,
  BrokerOrderIdentity, all_orders, WorkingOrder, position_of,
}
use alpha_runtime_v.Execution.Models.Orders.{Order, is_terminal}
use alpha_runtime_v.Execution.Invariants.{member}
use alpha_runtime_v.Execution.PaperRouter.{
  register_all, identities, submit_bracket, cancel, cancel_symbol, flatten, accept_order,
  run_entry_accept, run_entry_fill, run_child_accept, run_plan, run_task, filled_order, fill_of,
  fill_symbol,
}
use alpha_runtime_v.Execution.PaperRouter.Orders.{
  PaperOrderRouter, Fresh, Task, make_identity, make_order, order_update, fill_event, entry_accept,
  entry_fill,
}
use alpha_runtime_v.Execution.Coordinator.State.{ExecutionCoordinator}
use alpha_runtime_v.Execution.Coordinator.Callbacks.{on_fill, without}

identities-ids :
    (os : List PlannedOrder)
    → map (λ i. i.runtime_order_id) (identities os) ≡ map (λ o. o.runtime_order_id) os
unfolding identities make_identity
identities-ids [] = refl
identities-ids (o ∷ os) = ap (λ t. o.runtime_order_id ∷ t) (identities-ids os)

IsRegistered : Dict OrderId BrokerOrderIdentity → PlannedOrder → Type 0
IsRegistered d o = lookup o.runtime_order_id d ≡ some (make_identity o.runtime_order_id)

lookup-register_all :
    (k : OrderId) (os : List PlannedOrder) (d : Dict OrderId BrokerOrderIdentity)
    → lookup k (register_all os d) ≡ (
        if member eq_order_id k (map (λ o. o.runtime_order_id) os)
        then some (make_identity k)
        else lookup k d)
unfolding register_all member
lookup-register_all k [] d = refl
lookup-register_all k (o ∷ os) d = ground (
  arith,
  lookup-register_all k os (insert o.runtime_order_id (make_identity o.runtime_order_id) d),
  lookup-insert k o.runtime_order_id (make_identity o.runtime_order_id) d,
  eq_order_id_iff k o.runtime_order_id,
)

submit_bracket-entry :
    (plan : IntentTradePlan) (r : PaperOrderRouter) (entry : PlannedOrder)
    → plan.entry_order ≡ some entry
    → submit_bracket plan r ≡ (
      identities (all_orders plan),
      record r { submitted = register_all (all_orders plan) r.submitted },
      entry_accept plan ∷ [],
    )
unfolding submit_bracket
submit_bracket-entry plan r entry e = ground arith

-- A bracket with an entry is answered by one identity for each of its orders, in their order, under
-- the runtime ids of the plan; exactly these ids are registered beside those that were; no order is
-- stored yet, no mark of a cancel changes, and one task is left, to fill the entry.
pub submit_bracket_lem :
    (plan : IntentTradePlan) (r : PaperOrderRouter) (entry : PlannedOrder) (k : OrderId)
    → plan.entry_order ≡ some entry
    → let (ids, r', tasks) = submit_bracket plan r in
      (map (λ i. i.runtime_order_id) ids ≡ map (λ o. o.runtime_order_id) (all_orders plan))
      × (lookup k r'.submitted ≡ (
          if member eq_order_id k (map (λ o. o.runtime_order_id) (all_orders plan))
          then some (make_identity k)
          else lookup k r.submitted))
      × (r'.orders ≡ r.orders)
      × (r'.cancelled ≡ r.cancelled)
      × (tasks ≡ entry_accept plan ∷ [])
submit_bracket_lem plan r entry k e = rw (submit_bracket-entry plan r entry e) (
  identities-ids (all_orders plan),
  lookup-register_all k (all_orders plan) r.submitted,
  refl,
  refl,
  refl,
)

-- One call of the router, or one stretch of a task.
pub data Step (r : PaperOrderRouter) : PaperOrderRouter → Type 0 where
  submits : (plan : IntentTradePlan) → Step r (submit_bracket plan r).1
  cancels : (now : ℕ) (i : OrderId) → Step r (cancel now i r).0
  flattens : (now symbol : ℕ) → Step r (flatten now symbol r).0
  runs : (fresh : Fresh) (task : Task) → Step r (run_task fresh task r).0

pub data Reach (r : PaperOrderRouter) : PaperOrderRouter → Type 0 where
  here : Reach r r
  next : {s t : PaperOrderRouter} → Reach r s → Step s t → Reach r t

cancel-keeps :
    (i : OrderId) (now : ℕ) (k : OrderId) (r : PaperOrderRouter)
    → member eq_order_id i r.cancelled ≡ true
    → member eq_order_id i (cancel now k r).0.cancelled ≡ true
unfolding cancel member
cancel-keeps i now k r h = ground arith

cancel_symbol-keeps :
    (i : OrderId) (now symbol : ℕ) (os : List (OrderId × Order)) (r : PaperOrderRouter)
    → member eq_order_id i r.cancelled ≡ true
    → member eq_order_id i (cancel_symbol now symbol os r).0.cancelled ≡ true
unfolding cancel_symbol
cancel_symbol-keeps i now symbol [] r h = h
cancel_symbol-keeps i now symbol ((k, o) ∷ os) r h =
    elim (Bool-cases (o.symbol == symbol && not (is_terminal o))) [
      | inl b ↦
          rw b (cancel_symbol-keeps i now symbol os (cancel now k r).0 (cancel-keeps i now k r h))
      | inr b ↦ rw b (cancel_symbol-keeps i now symbol os r h)
    ]

run_task-cancelled :
    (fresh : Fresh) (task : Task) (r : PaperOrderRouter)
    → (run_task fresh task r).0.cancelled ≡ r.cancelled
unfolding run_task run_plan run_entry_accept run_entry_fill run_child_accept accept_order
run_task-cancelled fresh task r = ground arith

Step-keeps :
    {r s : PaperOrderRouter} (i : OrderId)
    → Step r s
    → member eq_order_id i r.cancelled ≡ true
    → member eq_order_id i s.cancelled ≡ true
unfolding submit_bracket flatten
Step-keeps i (submits plan) h = ground arith
Step-keeps {r} i (cancels now k) h = cancel-keeps i now k r h
Step-keeps {r} i (flattens now symbol) h = cancel_symbol-keeps i now symbol r.orders r h
Step-keeps {r} i (runs fresh task) h = rw (run_task-cancelled fresh task r) h

Reach-keeps :
    {r s : PaperOrderRouter} (i : OrderId)
    → Reach r s
    → member eq_order_id i r.cancelled ≡ true
    → member eq_order_id i s.cancelled ≡ true
Reach-keeps i here h = h
Reach-keeps i (next p st) h = Step-keeps i st (Reach-keeps i p h)

cancel-marks :
    (i : OrderId) (now : ℕ) (r : PaperOrderRouter)
    → member eq_order_id i (cancel now i r).0.cancelled ≡ true
unfolding cancel member
cancel-marks i now r = ground (arith, eq_order_id_iff i i)

run_entry_accept-blocked :
    (fresh : Fresh) (plan : IntentTradePlan) (entry : PlannedOrder) (r : PaperOrderRouter)
    → plan.entry_order ≡ some entry
    → member eq_order_id entry.runtime_order_id r.cancelled ≡ true
    → run_task fresh (entry_accept plan) r ≡ (r, [], [])
unfolding run_task run_plan run_entry_accept accept_order
run_entry_accept-blocked fresh plan entry r e h = ground arith

-- Once an entry's id is cancelled, then whatever calls and tasks run after it, the entry's first
-- stretch changes nothing, calls no callback and leaves no further task: the entry is never accepted
-- or filled.
cancel_prevents :
    {s : PaperOrderRouter} (r : PaperOrderRouter) (now : ℕ) (fresh : Fresh) (plan : IntentTradePlan)
    (entry : PlannedOrder)
    → plan.entry_order ≡ some entry
    → Reach (cancel now entry.runtime_order_id r).0 s
    → run_task fresh (entry_accept plan) s ≡ (s, [], [])
cancel_prevents {s} r now fresh plan entry e p =
    run_entry_accept-blocked fresh plan entry s e
      (Reach-keeps entry.runtime_order_id p (cancel-marks entry.runtime_order_id now r))

cancel-stores :
    (now : ℕ) (i : OrderId) (o : Order) (r : PaperOrderRouter)
    → lookup i r.orders ≡ some o
    → o.status ≡ OrderStatus.accepted
    → (cancel now i r).1
      ≡ order_update (record o { status = OrderStatus.cancelled; cancelled_at = some now }) ∷ []
unfolding cancel
cancel-stores now i o r e h = ground arith

-- When an entry was accepted and is cancelled before its second stretch, the cancel is reported, and
-- the second stretch still stores the order as filled, reports the fill and activates the stop.
pub cancelled_order_fills :
    (r : PaperOrderRouter) (now : ℕ) (fresh : Fresh) (plan : IntentTradePlan) (entry : PlannedOrder)
    (price : Decimal) (accepted : Order)
    → lookup entry.runtime_order_id r.orders ≡ some accepted
    → accepted.status ≡ OrderStatus.accepted
    → let (r', events) = cancel now entry.runtime_order_id r in
      let (r'', later, tasks) = run_task fresh (entry_fill plan entry price accepted) r' in
      (events
        ≡ order_update (record accepted { status = OrderStatus.cancelled; cancelled_at = some now })
          ∷ [])
      × (lookup entry.runtime_order_id r''.orders
          ≡ some (filled_order fresh.now entry price accepted))
      × (later
          ≡ order_update (filled_order fresh.now entry price accepted)
            ∷ fill_event (fill_of fresh entry price accepted)
            ∷ [])
unfolding run_task run_entry_fill
cancelled_order_fills r now fresh plan entry price accepted e h = (
  cancel-stores now entry.runtime_order_id accepted r e h,
  ground (
    arith,
    lookup-insert entry.runtime_order_id entry.runtime_order_id
        (filled_order fresh.now entry price accepted)
        (cancel now entry.runtime_order_id r).0.orders,
    eq_order_id_iff entry.runtime_order_id entry.runtime_order_id,
  ),
  refl,
)

-- A name that is not one of an order's own UUIDs.
abbrev pub IsRuntimeNamed : WorkingOrder → Type 0
IsRuntimeNamed o = (k : ℕ) → o.runtime_order_id ≢ OrderId.uuid k

without-uuid :
    (k : ℕ) (ws : List WorkingOrder) → All IsRuntimeNamed ws → without (OrderId.uuid k) ws ≡ ws
unfolding without
without-uuid k [] h = refl
without-uuid k (o ∷ ws) h =
    ground
      (arith, eq_order_id_iff o.runtime_order_id (OrderId.uuid k), h.0 k, without-uuid k ws h.1)

position_of-elsewhere :
    (i k : ℕ) (q : Decimal) (m : Dict ℕ Decimal)
    → i ≢ k
    → position_of i (insert k q m) ≡ position_of i m
unfolding position_of
position_of-elsewhere i k q m n = ground (arith, lookup-insert i k q m, ==_iff i k)

-- A fill that the simulated broker reports for an entry never reaches the books of the coordinator
-- under the names it uses: where its working orders bear no UUID, all of them stay, and the position
-- of every instrument stays but that of the symbol read off the front of the entry's id.
pub paper_fill_misses :
    (fresh later : Fresh) (entry : PlannedOrder) (price : Decimal) (r : PaperOrderRouter)
    (c : ExecutionCoordinator) (i : ℕ)
    → All IsRuntimeNamed c.working_orders
    → i ≢ fill_symbol entry.runtime_order_id
    → let d = on_fill (fill_of later entry price (accept_order fresh entry r).0) c in
      (d.working_orders ≡ c.working_orders)
      × (position_of i d.positions ≡ position_of i c.positions)
unfolding on_fill fill_of accept_order make_order
paper_fill_misses fresh later entry price r c i h n = (
  without-uuid fresh.order c.working_orders h,
  position_of-elsewhere i (fill_symbol entry.runtime_order_id) _ c.positions n,
)
