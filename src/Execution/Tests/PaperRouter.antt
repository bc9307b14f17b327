-- ===== src/Execution/Tests/PaperRouter.antt =====
-- The simulated broker at a bracket of three orders.
use alpha_runtime_v.Base.{[], ◌∷◌}
use alpha_runtime_v.Base.Dict.{nat_eq}
use alpha_runtime_v.Base.Lists.{All}
use alpha_runtime_v.Execution.Enums.{OrderStatus}
use alpha_runtime_v.Execution.Models.{order_id_eq, OrderId}
use alpha_runtime_v.Execution.Models.Orders.{Order}
use alpha_runtime_v.Execution.PaperRouter.Orders.{PaperOrderRouter, make_order}
use alpha_runtime_v.Execution.PaperRouter.Laws.{IsRuntimeNamed}
use alpha_runtime_v.Execution.Tests.{router, fresh, entry_order, working_coordinator}

abbrev accepted_entry : Order
accepted_entry = record (make_order fresh entry_order) { status = OrderStatus.accepted }

abbrev accepted_router : PaperOrderRouter
accepted_router = record router { orders = (OrderId.dashed 0 4, accepted_entry) ∷ [] }

names_are_runtime : All IsRuntimeNamed working_coordinator.working_orders
names_are_runtime = (λ k e. cc e, tt)
