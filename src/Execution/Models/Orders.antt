-- ===== src/Execution/Models/Orders.antt =====
-- The broker-side order and fill of src/alpha/models/order.py.
use alpha_runtime_v.Base.{ℕ, Bool, true, false, Option}
use alpha_runtime_v.Base.Int.{ℤ, ◌-ℤ◌}
use alpha_runtime_v.Execution.Enums.{OrderSide, OrderType, TimeInForce, OrderStatus}
use alpha_runtime_v.Execution.Models.{Decimal, OrderId}

pub record Order : Type 0 where
  pub order_id : OrderId
  pub broker_order_id : Option ℕ
  pub intent_id : ℕ
  pub symbol : ℕ
  pub side : OrderSide
  pub order_type : OrderType
  pub quantity : ℤ
  pub account_id : ℕ
  pub filled_quantity : ℤ
  pub avg_fill_price : Option Decimal
  pub limit_price : Option Decimal
  pub stop_price : Option Decimal
  pub time_in_force : TimeInForce
  pub status : OrderStatus
  pub submitted_at : Option ℕ
  pub accepted_at : Option ℕ
  pub filled_at : Option ℕ
  pub cancelled_at : Option ℕ
  pub rejected_at : Option ℕ
  pub reject_reason : Option ℕ
  pub commission : Decimal

-- `Order.remaining_quantity`
unfoldable pub remaining_quantity : Order → ℤ
remaining_quantity o = o.quantity -ℤ o.filled_quantity

-- `self.status in {FILLED, CANCELLED, REJECTED, EXPIRED}`
abbrev pub is_closed : OrderStatus → Bool
is_closed OrderStatus.filled = true
is_closed OrderStatus.cancelled = true
is_closed OrderStatus.rejected = true
is_closed OrderStatus.expired = true
is_closed _ = false

-- `Order.is_terminal`
unfoldable pub is_terminal : Order → Bool
is_terminal o = is_closed o.status

pub record Execution : Type 0 where
  pub execution_id : ℕ
  pub order_id : OrderId
  pub broker_execution_id : Option ℕ
  pub symbol : ℕ
  pub side : OrderSide
  pub quantity : ℤ
  pub price : Decimal
  pub commission : Decimal
  pub timestamp : ℕ
  pub account_id : ℕ
