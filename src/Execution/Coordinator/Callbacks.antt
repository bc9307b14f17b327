-- ===== src/Execution/Coordinator/Callbacks.antt =====
-- The callbacks that src/alpha/engines/execution/coordinator.py registers with the order router.
use alpha_runtime_v.Base.{not, List, if◌then◌else◌}
use alpha_runtime_v.Base.Int.{ℤ, ◌+ℤ◌, ◌*ℤ◌}
use alpha_runtime_v.Base.Lists.{filter}
use alpha_runtime_v.Base.Dict.{nat_eq, insert}
use alpha_runtime_v.Execution.Models.{
  Decimal, units, OrderId, eq_order_id, WorkingOrder, signed_quantity, position_of,
}
use alpha_runtime_v.Execution.Models.Orders.{Order, Execution, is_terminal}
use alpha_runtime_v.Execution.Coordinator.State.{ExecutionCoordinator}

-- `[o for o in self._working_orders if o.runtime_order_id != order_id]`
unfoldable pub without : OrderId → List WorkingOrder → List WorkingOrder
without order_id orders = filter (λ o. not (eq_order_id o.runtime_order_id order_id)) orders

-- A count of contracts as a `Decimal`.
abbrev pub contracts : ℤ → Decimal
contracts q = q *ℤ units 20000

-- `_on_fill`
unfoldable pub on_fill : Execution → ExecutionCoordinator → ExecutionCoordinator
on_fill fill c = record c {
  positions =
      insert fill.symbol
        (position_of fill.symbol c.positions +ℤ signed_quantity fill.side (contracts fill.quantity))
        c.positions;
  working_orders = without fill.order_id c.working_orders;
}

-- `_on_order_update`
unfoldable pub on_order_update : Order → ExecutionCoordinator → ExecutionCoordinator
on_order_update order c =
    if is_terminal order
    then record c { working_orders = without order.order_id c.working_orders }
    else c
