-- ===== src/RiskEngine/Orders.antt =====
-- `OrderEngine` of src/alpha/engines/order/engine.py. An adapter answers a submission with the order, or
-- with none when it raises; a new id comes with the call. An update that is published is returned.
pub mod Laws
use alpha_runtime_v.Base.{
  ℕ, suc, ◌≡◌, Bool, true, false, not, ◌&&◌, Option, none, some, List, [], ◌∷◌, if◌then◌else◌,
}
use alpha_runtime_v.Base.Int.{ℤ, pos}
use alpha_runtime_v.Base.Dict.{Dict, lookup, insert}
use alpha_runtime_v.Execution.Enums.{OrderSide, OrderType, TimeInForce, OrderStatus}
use alpha_runtime_v.Execution.Models.{Decimal, OrderId, order_id_eq}
use alpha_runtime_v.Execution.Models.Orders.{Order, is_terminal}
use alpha_runtime_v.RiskEngine.Model.{TradePlan}
use alpha_runtime_v.RiskEngine.Accounts.{is_filled}

pub record OrderIntent : Type 0 where
  pub intent_id : ℕ
  pub plan_id : ℕ
  pub symbol : ℕ
  pub side : OrderSide
  pub order_type : OrderType
  pub quantity : ℕ
  pub limit_price : Option Decimal
  pub stop_price : Option Decimal
  pub time_in_force : TimeInForce
  pub account_id : ℕ

pub record Adapter : Type 0 where
  pub source_id : ℕ
  pub is_paper : Bool

pub record OrderEngine : Type 0 where
  pub orders : Dict OrderId Order
  pub orders_submitted : ℕ
  pub orders_filled : ℕ

abbrev pub first_paper : List Adapter → Option Adapter
first_paper [] = none
first_paper (a ∷ adapters) = let rest = first_paper adapters in if a.is_paper then some a else rest

abbrev pub first_adapter : List Adapter → Option Adapter
first_adapter [] = none
first_adapter (a ∷ adapters) = some a

-- `primary_adapter`, of the adapters in the order they were registered; none is the RuntimeError.
unfoldable pub primary_adapter : Bool → List Adapter → Option Adapter
primary_adapter prefer_paper adapters =
    if prefer_paper
    then elim (first_paper adapters) [ none ↦ first_adapter adapters | some a ↦ some a ]
    else first_adapter adapters

-- `_plan_to_intent`
unfoldable pub plan_to_intent : ℕ → TradePlan → OrderIntent
plan_to_intent id p = record {
  intent_id = id;
  plan_id = p.plan_id;
  symbol = p.symbol;
  side = p.side;
  order_type = OrderType.limit;
  quantity = p.position_size;
  limit_price = some p.entry_price;
  stop_price = some p.stop_price;
  time_in_force = TimeInForce.day;
  account_id = p.account_id;
}

-- The intent of `submit_close_order`.
unfoldable pub close_intent : ℕ → ℕ → ℕ → ℕ → OrderSide → ℕ → OrderIntent
close_intent id plan_id account_id symbol side quantity = record {
  intent_id = id;
  plan_id = plan_id;
  symbol = symbol;
  side = side;
  order_type = OrderType.market;
  quantity = quantity;
  limit_price = none;
  stop_price = none;
  time_in_force = TimeInForce.day;
  account_id = account_id;
}

-- What `submit_plan` and `submit_close_order` do with the adapter's answer, with the update published.
unfoldable pub submitted : Option Order → OrderEngine → OrderEngine × Option Order
submitted none e = (e, none)
submitted (some o) e = (
  record e { orders = insert o.order_id o e.orders; orders_submitted = suc e.orders_submitted },
  some o,
)

-- `submit_plan`; without an adapter the RuntimeError is caught as well.
unfoldable pub submit_plan :
    (Adapter → OrderIntent → Option Order)
    → Bool
    → List Adapter
    → ℕ
    → TradePlan
    → OrderEngine
    → OrderEngine × Option Order
submit_plan broker prefer_paper adapters id p e =
    submitted
      (elim (primary_adapter prefer_paper adapters) [
        | none ↦ none
        | some a ↦ broker a (plan_to_intent id p)
      ])
      e

unfoldable pub submit_close_order :
    (Adapter → OrderIntent → Option Order)
    → Bool
    → List Adapter
    → ℕ
    → ℕ
    → ℕ
    → ℕ
    → OrderSide
    → ℕ
    → OrderEngine
    → OrderEngine × Option Order
submit_close_order broker prefer_paper adapters id plan_id account_id symbol side quantity e =
    submitted
      (elim (primary_adapter prefer_paper adapters) [
        | none ↦ none
        | some a ↦ broker a (close_intent id plan_id account_id symbol side quantity)
      ])
      e

-- `cancel_order`: the broker's order to cancel, or none for False.
unfoldable pub cancel_order : OrderId → OrderEngine → Option ℕ
cancel_order id e = elim (lookup id e.orders) [ none ↦ none | some o ↦ o.broker_order_id ]

abbrev pub open_of : Dict OrderId Order → List Order
open_of [] = []
open_of ((id, o) ∷ d) = let rest = open_of d in if is_terminal o then rest else o ∷ rest

-- `get_open_orders`
unfoldable pub get_open_orders : OrderEngine → List Order
get_open_orders e = open_of e.orders

-- `_on_order_update`
unfoldable pub on_order_update : Order → OrderEngine → OrderEngine
on_order_update o e = record e {
  orders = insert o.order_id o e.orders;
  orders_filled = if is_filled o.status then suc e.orders_filled else e.orders_filled;
}
