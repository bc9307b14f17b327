-- ===== src/Execution/Coordinator/Exposure.antt =====
-- The effective exposure, filled and pending, over the submissions and fills of coordinator.py.
use alpha_runtime_v.Base.{
  ℕ, ◌==◌, ◌≡◌, refl, ◌∙◌, ap, sym, some, List, [], ◌∷◌, ◌++◌, ◌&&◌, arith, if◌then◌else◌,
  Bool-cases, inl, inr, is_some,
}
use alpha_runtime_v.Base.Lists.{filter}
use alpha_runtime_v.Base.Dict.{Dict, nat_eq, insert, ==_iff, lookup-insert}
use alpha_runtime_v.Execution.Enums.{OrderSide, OrderRole}
use alpha_runtime_v.Execution.Models.{
  Decimal, OrderId, WorkingOrder, PlannedOrder, eq_order_id, position_of, pending_quantity,
  signed_quantity, is_pending_entry, TradeIntent, IntentTradePlan,
}
use alpha_runtime_v.Execution.Models.Orders.{Execution}
use alpha_runtime_v.Execution.Coordinator.State.{
  ExecutionCoordinator, Env, update_status, journal_event,
}
use alpha_runtime_v.Execution.Coordinator.Submit.{track_entry, send_plan, submit_plan}
use alpha_runtime_v.Execution.Coordinator.Callbacks.{on_fill, without, contracts}
use alpha_runtime_v.Base.Int.{
  pos, ◌+ℤ◌, int_laws, +ℤ_assoc, +ℤ_zero, zero_+ℤ, +ℤ_parts, eq_of_parts,
}

-- The exposure that the coordinator's own books show for an instrument.
abbrev pub exposure : ℕ → ExecutionCoordinator → Decimal
exposure i c = position_of i c.positions +ℤ pending_quantity i c.working_orders

-- What one order adds to the pending quantity of an instrument.
unfoldable pub part : ℕ → WorkingOrder → Decimal
part i o = if is_pending_entry i o then signed_quantity o.side o.quantity else pos 0

pending-cons :
    (i : ℕ) (o : WorkingOrder) (ws : List WorkingOrder)
    → pending_quantity i (o ∷ ws) ≡ part i o +ℤ pending_quantity i ws
unfolding pending_quantity part
pending-cons i o ws = elim (Bool-cases (is_pending_entry i o)) [
  | inl h ↦ rw h refl
  | inr h ↦ rw h (sym (zero_+ℤ _))
]

pending-none : (i : ℕ) → pending_quantity i [] ≡ pos 0
unfolding pending_quantity
pending-none i = refl

pending-nil :
    (i : ℕ) (ys : List WorkingOrder)
    → pending_quantity i ys ≡ pending_quantity i [] +ℤ pending_quantity i ys
pending-nil i ys = rw pending-none (sym (zero_+ℤ (pending_quantity i ys)))

pending-split-nil : (i : ℕ) → pending_quantity i [] ≡ pending_quantity i [] +ℤ pending_quantity i []
pending-split-nil i = pending-nil i []

pending-append :
    (i : ℕ) (xs ys : List WorkingOrder)
    → pending_quantity i (xs ++ ys) ≡ pending_quantity i xs +ℤ pending_quantity i ys
pending-append i [] ys = pending-nil i ys
pending-append i (o ∷ xs) ys =
    rw (pending-cons i o (xs ++ ys), pending-cons i o xs, pending-append i xs ys)
      (sym (+ℤ_assoc (part i o) (pending_quantity i xs) (pending_quantity i ys)))

pending-one : (i : ℕ) (o : WorkingOrder) → pending_quantity i (o ∷ []) ≡ part i o
pending-one i o = rw (pending-cons i o [], pending-none i) (+ℤ_zero (part i o))

-- The working orders that a fill or a final update of an order concerns.
abbrev pub concerned : OrderId → List WorkingOrder → List WorkingOrder
concerned order_id orders = filter (λ o. eq_order_id o.runtime_order_id order_id) orders

regroup_kept : (a b c : Decimal) → a +ℤ (b +ℤ c) ≡ a +ℤ b +ℤ c
regroup_kept a b c = sym (+ℤ_assoc a b c)

regroup_dropped : (a b c : Decimal) → a +ℤ (b +ℤ c) ≡ b +ℤ (a +ℤ c)
regroup_dropped a b c = omega int_laws

pending-without :
    (i : ℕ) (k : OrderId) (ws : List WorkingOrder)
    → pending_quantity i ws
      ≡ pending_quantity i (without k ws) +ℤ pending_quantity i (concerned k ws)
unfolding without
pending-without i k [] = pending-split-nil i
pending-without i k (o ∷ ws) = elim (Bool-cases (eq_order_id o.runtime_order_id k)) [
  | inl h ↦
      rw (h, pending-cons i o ws, pending-cons i o (concerned k ws), pending-without i k ws)
        (regroup_dropped (part i o) (pending_quantity i (without k ws))
          (pending_quantity i (concerned k ws)))
  | inr h ↦
      rw (h, pending-cons i o ws, pending-cons i o (without k ws), pending-without i k ws)
        (regroup_kept (part i o) (pending_quantity i (without k ws))
          (pending_quantity i (concerned k ws)))
]

position_of-insert :
    (i k : ℕ) (q : Decimal) (m : Dict ℕ Decimal)
    → position_of i (insert k q m) ≡ (if i == k then q else position_of i m)
unfolding position_of
position_of-insert i k q m = ground (arith, lookup-insert i k q m, ==_iff i k)

-- The working order that a plan's entry becomes.
abbrev pub entry_working : ℕ → PlannedOrder → WorkingOrder
entry_working instrument_id entry = record {
  runtime_order_id = entry.runtime_order_id;
  instrument_id = instrument_id;
  side = entry.side;
  quantity = entry.quantity;
  role = OrderRole.entry;
}

-- A plan that the router takes adds the signed quantity of its entry to the exposure of the
-- intent's instrument and to no other; one that the router refuses leaves every exposure.
pub submit_plan-exposure :
    (env : Env) (id i : ℕ) (intent : TradeIntent) (plan : IntentTradePlan)
    (c : ExecutionCoordinator) {entry : PlannedOrder}
    → plan.entry_order ≡ some entry
    → exposure i (submit_plan env id intent plan c).0
      ≡ exposure i c
        +ℤ (if is_some (env.submit_bracket plan) && intent.instrument_id == i
            then signed_quantity entry.side entry.quantity
            else pos 0)
unfolding submit_plan send_plan track_entry update_status journal_event part is_pending_entry
submit_plan-exposure env id i intent plan c {entry} e = ground (
  arith,
  pending-append i c.working_orders (entry_working intent.instrument_id entry ∷ []),
  pending-one i (entry_working intent.instrument_id entry),
  +ℤ_assoc (position_of i c.positions) (pending_quantity i c.working_orders)
      (part i (entry_working intent.instrument_id entry)),
  +ℤ_zero (exposure i c),
)

fill_sum : (p q w o : Decimal) → p +ℤ q +ℤ w +ℤ o ≡ p +ℤ (w +ℤ o) +ℤ q
fill_sum p q w o = omega int_laws

fill_same : (p w o : Decimal) → p +ℤ w +ℤ o ≡ p +ℤ (w +ℤ o) +ℤ pos 0
fill_same p w o = omega int_laws

split_off :
    (i : ℕ) (k : OrderId) (ws : List WorkingOrder) {o : WorkingOrder}
    → concerned k ws ≡ o ∷ []
    → pending_quantity i ws ≡ pending_quantity i (without k ws) +ℤ part i o
split_off i k ws {o} h =
    pending-without i k ws
    ∙ rw h (ap (λ t. pending_quantity i (without k ws) +ℤ t) (pending-one i o))

cancel_right : (a b c : Decimal) → a +ℤ c ≡ b +ℤ c → a ≡ b
cancel_right a b c h = ground (arith, +ℤ_parts a c, +ℤ_parts b c, eq_of_parts a b)

part-fill :
    (i : ℕ) (o : WorkingOrder) (fill : Execution)
    → o.role ≡ OrderRole.entry
    → o.instrument_id ≡ fill.symbol
    → o.side ≡ fill.side
    → o.quantity ≡ contracts fill.quantity
    → part i o
      ≡ (if i == fill.symbol then signed_quantity fill.side (contracts fill.quantity) else pos 0)
unfolding part is_pending_entry
part-fill i o fill r s d q = ground (arith, ==_iff i fill.symbol, ==_iff fill.symbol i)

pub on_fill-exposure :
    (fill : Execution) (i : ℕ) (c : ExecutionCoordinator) {o : WorkingOrder}
    → concerned fill.order_id c.working_orders ≡ o ∷ []
    → exposure i (on_fill fill c) +ℤ part i o
      ≡ exposure i c
        +ℤ (if i == fill.symbol then signed_quantity fill.side (contracts fill.quantity) else pos 0)
unfolding on_fill
on_fill-exposure fill i c {o} h =
    let filled : Decimal = signed_quantity fill.side (contracts fill.quantity) in
    ground (
      arith,
      position_of-insert i fill.symbol (position_of fill.symbol c.positions +ℤ filled) c.positions,
      ==_iff i fill.symbol,
      split_off i fill.order_id c.working_orders h,
      fill_sum (position_of i c.positions) filled
          (pending_quantity i (without fill.order_id c.working_orders)) (part i o),
      fill_same (position_of i c.positions)
          (pending_quantity i (without fill.order_id c.working_orders)) (part i o),
    )

signed_sum :
    (side : OrderSide) (a b : Decimal)
    → signed_quantity side (a +ℤ b) ≡ signed_quantity side a +ℤ signed_quantity side b
unfolding signed_quantity
signed_sum OrderSide.buy a b = refl
signed_sum OrderSide.sell a b = omega int_laws

part-partial :
    (o : WorkingOrder) (fill : Execution) (rest : Decimal)
    → o.role ≡ OrderRole.entry
    → o.instrument_id ≡ fill.symbol
    → o.side ≡ fill.side
    → o.quantity ≡ contracts fill.quantity +ℤ rest
    → part fill.symbol o
      ≡ signed_quantity fill.side (contracts fill.quantity) +ℤ signed_quantity fill.side rest
unfolding part is_pending_entry
part-partial o fill rest r s d q =
    ground (
      arith,
      ==_iff o.instrument_id fill.symbol,
      signed_sum fill.side (contracts fill.quantity) rest,
    )

cancel_middle : (x a b e p : Decimal) → p ≡ a +ℤ b → x +ℤ p ≡ e +ℤ a → x +ℤ b ≡ e
cancel_middle x a b e p h k =
    ground (arith, +ℤ_parts x p, +ℤ_parts a b, +ℤ_parts e a, +ℤ_parts x b, eq_of_parts (x +ℤ b) e)

if_self : (i : ℕ) (a : Decimal) → (if i == i then a else pos 0) ≡ a
if_self i a = ground (arith, ==_iff i i)

-- A full fill keeps every effective exposure: a fill on the side, at the symbol and of the whole
-- quantity of its order, which has one working entry order.
pub full_fill_keeps :
    (fill : Execution) (i : ℕ) (c : ExecutionCoordinator) {o : WorkingOrder}
    → concerned fill.order_id c.working_orders ≡ o ∷ []
    → o.role ≡ OrderRole.entry
    → o.instrument_id ≡ fill.symbol
    → o.side ≡ fill.side
    → o.quantity ≡ contracts fill.quantity
    → exposure i (on_fill fill c) ≡ exposure i c
full_fill_keeps fill i c {o} h r s d q =
    cancel_right (exposure i (on_fill fill c)) (exposure i c) (part i o)
      (on_fill-exposure fill i c h ∙ ap (λ t. exposure i c +ℤ t) (sym (part-fill i o fill r s d q)))

-- A partial fill forgets the rest of its order: the exposure at the fill's symbol is short of what
-- was before by the quantity that the order still works for.
pub partial_fill_forgets :
    (fill : Execution) (c : ExecutionCoordinator) {o : WorkingOrder} (rest : Decimal)
    → concerned fill.order_id c.working_orders ≡ o ∷ []
    → o.role ≡ OrderRole.entry
    → o.instrument_id ≡ fill.symbol
    → o.side ≡ fill.side
    → o.quantity ≡ contracts fill.quantity +ℤ rest
    → exposure fill.symbol (on_fill fill c) +ℤ signed_quantity fill.side rest
      ≡ exposure fill.symbol c
partial_fill_forgets fill c {o} rest h r s d q =
    let a : Decimal = signed_quantity fill.side (contracts fill.quantity) in
    let b : Decimal = signed_quantity fill.side rest in
    cancel_middle (exposure fill.symbol (on_fill fill c)) a b (exposure fill.symbol c)
      (part fill.symbol o) (part-partial o fill rest r s d q)
      (on_fill-exposure fill fill.symbol c h
        ∙ ap (λ t. exposure fill.symbol c +ℤ t) (if_self fill.symbol a))
