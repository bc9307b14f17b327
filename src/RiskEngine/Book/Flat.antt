-- ===== src/RiskEngine/Book/Flat.antt =====
-- Fills that close positions: the orders of a flatten, and a fill that is too large.
use alpha_runtime_v.Base.{
  ℕ, ◌+◌, ◌-◌, ◌≤◌, ◌==◌, ◌≡◌, refl, true, ◌&&◌, Option, none, some, List, [], ◌∷◌, ◌++◌, arith,
  Bool-cases, inl, inr, is_some, leb, ◌>>=◌, min,
}
use alpha_runtime_v.Base.Dict.{Dict, nat_eq, lookup, erase, ==_iff}
use alpha_runtime_v.Execution.Enums.{OrderSide}
use alpha_runtime_v.Execution.Models.{Decimal}
use alpha_runtime_v.RiskEngine.Model.{PositionEntry, AccountContext}
use alpha_runtime_v.RiskEngine.Book.{close_fill, apply_fill, is_closing, opposite_side, realized_by}
use alpha_runtime_v.RiskEngine.Book.Laws.{Unique}
use alpha_runtime_v.RiskEngine.Handlers.{Command, OpenOrder, closes, cancels, flatten_account}

-- The fills of the close orders among the commands, each in full at the symbol's price.
unfoldable pub settle :
    (Decimal → ℕ → Decimal) → (ℕ → Decimal) → List Command → AccountContext → Option AccountContext
settle quotient price [] ctx = some ctx
settle quotient price (Command.submit_close_order account symbol side qty ∷ commands) ctx = do
  applied ← apply_fill quotient ctx symbol side qty (price symbol)
  settle quotient price commands applied.0
settle quotient price (Command.cancel_order id ∷ commands) ctx = settle quotient price commands ctx
settle quotient price (Command.submit_plan p ∷ commands) ctx = settle quotient price commands ctx

erase-none : {V : Type 0} (k : ℕ) (d : Dict ℕ V) → lookup k d ≡ none → erase k d ≡ d
unfolding erase lookup
erase-none k [] h = refl
erase-none k ((j, w) ∷ d) h = ground (arith, erase-none k d, h)

first_lookup : {V : Type 0} (k : ℕ) (v : V) (d : Dict ℕ V) → lookup k ((k, v) ∷ d) ≡ some v
unfolding lookup
first_lookup k v d = ground (arith, ==_iff k k)

first_erase :
    {V : Type 0} (k : ℕ) (v : V) (d : Dict ℕ V) → lookup k d ≡ none → erase k ((k, v) ∷ d) ≡ d
unfolding erase
first_erase k v d h = ground (arith, ==_iff k k, erase-none k d, h)

-- A closing fill that is at least as large as the position.
closed_in_full :
    (quotient : Decimal → ℕ → Decimal) (ctx : AccountContext) (symbol : ℕ) (p : PositionEntry)
    (side : OrderSide) (qty : ℕ) (price : Decimal)
    → lookup symbol ctx.positions ≡ some p
    → is_closing p.side side ≡ true
    → p.qty ≤ qty
    → apply_fill quotient ctx symbol side qty price
      ≡ some (
        record ctx {
          positions = erase symbol ctx.positions;
          state = record ctx.state { open_positions = ctx.state.open_positions - 1 };
        },
        realized_by p p.qty price,
      )
unfolding apply_fill close_fill
closed_in_full quotient ctx symbol p side qty price l c h =
    let small : min qty p.qty ≡ p.qty = omega (arith, h) in
    let whole : leb p.qty qty ≡ true = ground (arith, h) in ground (arith, l, c, small, whole)

-- What a closing fill has beyond the position leaves no trace.
pub overfill_dropped :
    (quotient : Decimal → ℕ → Decimal) (ctx : AccountContext) (symbol : ℕ) (p : PositionEntry)
    (side : OrderSide) (excess : ℕ) (price : Decimal)
    → lookup symbol ctx.positions ≡ some p
    → is_closing p.side side ≡ true
    → apply_fill quotient ctx symbol side (p.qty + excess) price
      ≡ apply_fill quotient ctx symbol side p.qty price
overfill_dropped quotient ctx symbol p side excess price l c = cc (
  closed_in_full quotient ctx symbol p side (p.qty + excess) price l c (omega arith),
  closed_in_full quotient ctx symbol p side p.qty price l c (omega arith),
)

closing_opposite : (s : OrderSide) → is_closing s (opposite_side s) ≡ true
closing_opposite s = ground arith

settle-closes :
    (quotient : Decimal → ℕ → Decimal) (price : ℕ → Decimal) (account : ℕ)
    (d : Dict ℕ PositionEntry) (ctx : AccountContext)
    → Unique d
    → ctx.positions ≡ d
    → (c : AccountContext) × (settle quotient price (closes account d) ctx ≡ some c)
      × (c.positions ≡ [])
unfolding settle
settle-closes quotient price account [] ctx u e = (ctx, refl, e)
settle-closes quotient price account ((symbol, p) ∷ d) ctx u e =
    let here : lookup symbol ctx.positions ≡ some p = ground (arith, e, first_lookup symbol p d) in
    let left : erase symbol ctx.positions ≡ d = rw e (first_erase symbol p d u.0) in
    let rest : _ =
      settle-closes quotient price account d
        (record ctx {
          positions = erase symbol ctx.positions;
          state = record ctx.state { open_positions = ctx.state.open_positions - 1 };
        })
        u.1 left in
    (
      rest.0,
      rw
          (closed_in_full quotient ctx symbol p (opposite_side p.side) p.qty (price symbol) here
            (closing_opposite p.side) (omega arith))
          rest.1,
      rest.2,
    )

settle-cancels :
    (quotient : Decimal → ℕ → Decimal) (price : ℕ → Decimal) (account : ℕ) (orders : List OpenOrder)
    (commands : List Command) (ctx : AccountContext)
    → settle quotient price (cancels account orders ++ commands) ctx
      ≡ settle quotient price commands ctx
unfolding settle
settle-cancels quotient price account [] commands ctx = refl
settle-cancels quotient price account (o ∷ orders) commands ctx =
    elim (Bool-cases (o.account_id == account && is_some o.broker_order_id)) [
      | inl b ↦ rw b (settle-cancels quotient price account orders commands ctx)
      | inr b ↦ rw b (settle-cancels quotient price account orders commands ctx)
    ]

-- When the close orders of a flatten are filled in full, at any prices, the account holds no position.
pub flatten_account-settles :
    (quotient : Decimal → ℕ → Decimal) (price : ℕ → Decimal) (orders : List OpenOrder)
    (ctx : AccountContext)
    → Unique ctx.positions
    → (c : AccountContext) × (settle quotient price (flatten_account ctx orders) ctx ≡ some c)
      × (c.positions ≡ [])
unfolding flatten_account
flatten_account-settles quotient price orders ctx u =
    rw
      (settle-cancels quotient price ctx.config.account_id orders
        (closes ctx.config.account_id ctx.positions) ctx)
      (settle-closes quotient price ctx.config.account_id ctx.positions ctx u refl)
