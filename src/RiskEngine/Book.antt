-- ===== src/RiskEngine/Book.antt =====
-- `_apply_fill` of src/alpha/engines/risk/engine.py. `quotient` is the division of a `Decimal` by a whole
-- number, at the precision of the decimal context; a division by 0 raises, which is `none`.
pub mod Laws
pub mod Flat
use alpha_runtime_v.Base.{
  ℕ, suc, ◌+◌, ◌-◌, ◌==◌, Bool, true, false, Option, none, some, min, max, if◌then◌else◌, leb,
}
use alpha_runtime_v.Base.Int.{ℤ, pos, ◌+ℤ◌, ◌-ℤ◌, ◌*ℤ◌}
use alpha_runtime_v.Base.Dict.{Dict, nat_eq, lookup, insert, erase}
use alpha_runtime_v.Execution.Enums.{OrderSide}
use alpha_runtime_v.Execution.Models.{Decimal}
use alpha_runtime_v.RiskEngine.Model.{PositionEntry, AccountContext, DailyRiskState}

abbrev pub opposite_side : OrderSide → OrderSide
opposite_side OrderSide.buy = OrderSide.sell
opposite_side OrderSide.sell = OrderSide.buy

abbrev pub is_closing : OrderSide → OrderSide → Bool
is_closing OrderSide.buy OrderSide.sell = true
is_closing OrderSide.sell OrderSide.buy = true
is_closing _ _ = false

-- A fill of a symbol without a position.
unfoldable pub open_fill : AccountContext → ℕ → OrderSide → ℕ → Decimal → AccountContext
open_fill ctx symbol side qty price = record ctx {
  positions = insert symbol (record { qty = qty; avg_price = price; side = side }) ctx.positions;
  state = record ctx.state { open_positions = ctx.state.open_positions + 1 };
}

-- What a closing fill realizes.
unfoldable pub realized_by : PositionEntry → ℕ → Decimal → Decimal
realized_by p close_qty price = elim p.side [
  | OrderSide.buy ↦ (price -ℤ p.avg_price) *ℤ pos close_qty
  | OrderSide.sell ↦ (p.avg_price -ℤ price) *ℤ pos close_qty
]

-- A fill against the position.
unfoldable pub close_fill : AccountContext → ℕ → PositionEntry → ℕ → AccountContext
close_fill ctx symbol p qty =
    if leb p.qty qty
    then record ctx {
      positions = erase symbol ctx.positions;
      state = record ctx.state { open_positions = ctx.state.open_positions - 1 };
    }
    else record ctx { positions = insert symbol (record p { qty = p.qty - qty }) ctx.positions }

module _ (quotient : Decimal → ℕ → Decimal) where
  -- A fill on the position's side.
  unfoldable pub add_fill : AccountContext → ℕ → PositionEntry → ℕ → Decimal → Option AccountContext
  add_fill ctx symbol p qty price =
      let total_cost : Decimal = (p.avg_price *ℤ pos p.qty) +ℤ (price *ℤ pos qty) in
      if p.qty + qty == 0
      then none
      else some (record ctx {
        positions =
            insert symbol
              (record p { qty = p.qty + qty; avg_price = quotient total_cost (p.qty + qty) })
              ctx.positions;
      })

  -- `_apply_fill`, with what it realizes.
  unfoldable pub apply_fill :
      AccountContext → ℕ → OrderSide → ℕ → Decimal → Option (AccountContext × Decimal)
  apply_fill ctx symbol side qty price = elim (lookup symbol ctx.positions) [
    | none ↦ some (open_fill ctx symbol side qty price, pos 0)
    | some p ↦
        if is_closing p.side side
        then some (close_fill ctx symbol p qty, realized_by p (min qty p.qty) price)
        else elim (add_fill ctx symbol p qty price) [ none ↦ none | some c ↦ some (c, pos 0) ]
  ]
