-- ===== src/RiskEngine/Orders/Laws.antt =====
-- The open orders, and the adapter that is chosen.
use alpha_runtime_v.Base.{
  ◌≡◌, refl, true, false, none, some, List, [], ◌∷◌, if◌then◌else◌, Bool-cases, inl, inr, arith,
  ◌⊎◌,
}
use alpha_runtime_v.Base.Lists.{All, Any}
use alpha_runtime_v.Base.Dict.{Dict, lookup, insert, lookup-insert}
use alpha_runtime_v.Execution.Models.{OrderId, order_id_eq, eq_order_id, eq_order_id_iff}
use alpha_runtime_v.Execution.Models.Orders.{Order, is_terminal}
use alpha_runtime_v.RiskEngine.Orders.{
  Adapter, OrderEngine, first_paper, primary_adapter, open_of, get_open_orders, on_order_update,
}

open_of-All : (d : Dict OrderId Order) → All (λ o. is_terminal o ≡ false) (open_of d)
open_of-All [] = tt
open_of-All ((id, o) ∷ d) = elim (Bool-cases (is_terminal o)) [
  | inl t ↦ rw t (open_of-All d)
  | inr t ↦ rw t (t, open_of-All d)
]

open_of-has :
    (id : OrderId) (o : Order) (d : Dict OrderId Order)
    → lookup id d ≡ some o
    → is_terminal o ≡ false
    → Any (λ x. x ≡ o) (open_of d)
unfolding lookup
open_of-has id o [] h t = absurd (ground (arith, h))
open_of-has id o ((j, w) ∷ d) h t = elim (Bool-cases (eq_order_id id j)) [
  | inl e ↦
      let same : w ≡ o = ground (arith, h, e) in
      let here : is_terminal w ≡ false = rw same t in rw here (inl same)
  | inr e ↦
      let there : Any (λ x. x ≡ o) (open_of d) = open_of-has id o d (ground (arith, h, e)) t in
      elim (Bool-cases (is_terminal w)) [ inl b ↦ rw b there | inr b ↦ rw b (inr there) ]
]

-- After an update the updated order is stored and every other id keeps its order; the open orders are not
-- terminal, and the updated one is among them unless it is.
pub on_order_update-open :
    (o : Order) (id : OrderId) (e : OrderEngine)
    → (lookup id (on_order_update o e).orders
        ≡ (if eq_order_id id o.order_id then some o else lookup id e.orders))
      × All (λ x. is_terminal x ≡ false) (get_open_orders (on_order_update o e))
      × ((is_terminal o ≡ true) ⊎ Any (λ x. x ≡ o) (get_open_orders (on_order_update o e)))
unfolding on_order_update get_open_orders
on_order_update-open o id e = (
  lookup-insert id o.order_id o e.orders,
  open_of-All (insert o.order_id o e.orders),
  elim (Bool-cases (is_terminal o)) [
    | inl t ↦ inl t
    | inr t ↦ inr (
        open_of-has o.order_id o (insert o.order_id o e.orders)
          (ground (
            arith,
            lookup-insert o.order_id o.order_id o e.orders,
            eq_order_id_iff o.order_id o.order_id,
          ))
          t)
  ],
)

no_paper :
    (adapters : List Adapter) → All (λ a. a.is_paper ≡ false) adapters → first_paper adapters ≡ none
no_paper [] h = refl
no_paper (a ∷ adapters) h = ground (arith, h.0, no_paper adapters h.1)

-- Where a paper adapter is preferred and none is registered, orders go to the first live one.
pub live_in_paper_mode :
    (a : Adapter) (adapters : List Adapter)
    → All (λ b. b.is_paper ≡ false) (a ∷ adapters)
    → primary_adapter true (a ∷ adapters) ≡ some a
unfolding primary_adapter
live_in_paper_mode a adapters h = ground (arith, h.0, no_paper adapters h.1)
