-- ===== src/Execution/Risk/Pricing.antt =====
-- The prices of src/alpha/engines/execution/v1_risk.py: the tick grid, and an entry's side and price.
use alpha_runtime_v.Base.{
  ℕ, suc, ◌+◌, ◌*◌, ◌/◌, ◌%◌, ◌==◌, ltb, Bool, true, false, Option, none, some, if◌then◌else◌,
}
use alpha_runtime_v.Base.Int.{ℤ, pos, negsuc, ◌+ℤ◌, ◌-ℤ◌, ◌*ℤ◌, neg}
use alpha_runtime_v.Base.Dict.{nat_eq, lookup}
use alpha_runtime_v.Execution.Enums.{OrderSide, TradeAction}
use alpha_runtime_v.Execution.Models.{Decimal, units, MarketContextSnapshot, TradeIntent}
use alpha_runtime_v.Execution.Risk.Checks.{V1RiskEvaluator}

-- `Decimal.quantize(Decimal("1"))` of n / d, in size: to the nearest, a tie to the even one.
unfoldable pub half_even : ℕ → ℕ → ℕ
half_even n d =
    if ltb (2 * (n % d)) d
    then n / d
    else if ltb d (2 * (n % d))
    then n / d + 1
    else if (n / d) % 2 == 0
    then n / d
    else n / d + 1

abbrev pub size : ℤ → ℕ
size (pos n) = n
size (negsuc n) = suc n

abbrev pub is_negative : ℤ → Bool
is_negative (pos n) = false
is_negative (negsuc n) = true

-- `V1RiskEvaluator._round_to_tick`. A tick size of 0 raises.
unfoldable pub round_to_tick : Decimal → Decimal → Option Decimal
round_to_tick price tick_size =
    if size tick_size == 0
    then none
    else some (
        (if is_negative price
          then neg (pos (half_even (size price) (size tick_size)))
          else pos (half_even (size price) (size tick_size)))
        *ℤ pos (size tick_size))

-- `V1RiskEvaluator._tick_size`; `registry.get` raises on a missing key, and the handler gives 0.25.
unfoldable pub tick_size_of : V1RiskEvaluator → ℕ → Decimal
tick_size_of self instrument_id = elim (lookup instrument_id self.registry) [
  | none ↦ units 5000
  | some sym ↦ sym.tick_size
]

-- `V1RiskEvaluator._point_value`
unfoldable pub point_value_of : V1RiskEvaluator → ℕ → Decimal
point_value_of self instrument_id = elim (lookup instrument_id self.registry) [
  | none ↦ units 40000
  | some sym ↦ sym.point_value
]

-- `V1RiskEvaluator._resolve_price`, before the rounding; an unsupported action raises.
unfoldable pub side_and_price : TradeAction → MarketContextSnapshot → Option (OrderSide × Decimal)
side_and_price TradeAction.open_long market = some (OrderSide.buy, market.ask)
side_and_price TradeAction.open_short market = some (OrderSide.sell, market.bid)
side_and_price TradeAction.flatten market = some (OrderSide.sell, market.bid)
side_and_price _ market = none

abbrev with_side : OrderSide → Option Decimal → Option (OrderSide × Decimal)
with_side side none = none
with_side side (some price) = some (side, price)

unfoldable pub resolve_price :
    TradeIntent → MarketContextSnapshot → Decimal → Option (OrderSide × Decimal)
unfolding side_and_price
resolve_price intent market tick_size = elim (side_and_price intent.action market) [
  | none ↦ none
  | some (side, price) ↦ with_side side (round_to_tick price tick_size)
]

-- `OrderSide.SELL if entry_side == OrderSide.BUY else OrderSide.BUY`
abbrev pub opposite : OrderSide → OrderSide
opposite OrderSide.buy = OrderSide.sell
opposite OrderSide.sell = OrderSide.buy

-- The prices on the losing and on the winning side of an entry.
abbrev pub stop_at : OrderSide → Decimal → Decimal → Decimal
stop_at OrderSide.buy entry_price distance = entry_price -ℤ distance
stop_at OrderSide.sell entry_price distance = entry_price +ℤ distance

abbrev pub target_at : OrderSide → Decimal → Decimal → Decimal
target_at OrderSide.buy entry_price distance = entry_price +ℤ distance
target_at OrderSide.sell entry_price distance = entry_price -ℤ distance
