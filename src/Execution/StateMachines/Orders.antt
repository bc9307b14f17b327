-- ===== src/Execution/StateMachines/Orders.antt =====
-- What the order transition table of state_machines.py allows over any number of steps.
use alpha_runtime_v.Base.{◌≡◌, refl, ◌≢◌, ◌↔◌, ◌⊎◌, Bool, true, false, none, arith}
use alpha_runtime_v.Execution.Enums.{OrderStatus}
use alpha_runtime_v.Execution.StateMachines.{assert_valid_order_transition, is_order_terminal}
use alpha_runtime_v.Execution.Models.Orders.{Order, is_terminal}

pub data Route (s : OrderStatus) : OrderStatus → Type 0 where
  here : Route s s
  step : {t u : OrderStatus} → Route s t → assert_valid_order_transition t u ≡ none → Route s u

-- A status is terminal exactly when the guard rejects every transition out of it.
pub order_terminal_iff_stuck :
    (s : OrderStatus)
    → (is_order_terminal s ≡ true) ↔ ((t : OrderStatus) → assert_valid_order_transition s t ≢ none)
unfolding is_order_terminal assert_valid_order_transition
order_terminal_iff_stuck OrderStatus.pending = (λ h. cc, λ f. absurd (f OrderStatus.submitted refl))
order_terminal_iff_stuck OrderStatus.submitted =
    (λ h. cc, λ f. absurd (f OrderStatus.accepted refl))
order_terminal_iff_stuck OrderStatus.accepted = (λ h. cc, λ f. absurd (f OrderStatus.filled refl))
order_terminal_iff_stuck OrderStatus.partial = (λ h. cc, λ f. absurd (f OrderStatus.filled refl))
order_terminal_iff_stuck OrderStatus.cancel_pending =
    (λ h. cc, λ f. absurd (f OrderStatus.filled refl))
order_terminal_iff_stuck OrderStatus.replace_pending =
    (λ h. cc, λ f. absurd (f OrderStatus.accepted refl))
order_terminal_iff_stuck OrderStatus.unknown = (λ h. cc, λ f. absurd (f OrderStatus.filled refl))
order_terminal_iff_stuck _ = (λ h t e. cc, λ f. refl)

-- What can follow once a part is filled: no fill is lost and the order is never live as unfilled.
abbrev pub keeps_fill : OrderStatus → Bool
keeps_fill OrderStatus.partial = true
keeps_fill OrderStatus.filled = true
keeps_fill OrderStatus.cancel_pending = true
keeps_fill OrderStatus.cancelled = true
keeps_fill _ = false

keeps_fill-step :
    (s t : OrderStatus)
    → assert_valid_order_transition s t ≡ none
    → keeps_fill s ≡ true
    → keeps_fill t ≡ true
unfolding assert_valid_order_transition
keeps_fill-step s t e h = ground arith

keeps_fill-Route : {s t : OrderStatus} → keeps_fill s ≡ true → Route s t → keeps_fill t ≡ true
keeps_fill-Route h here = h
keeps_fill-Route h (step {t = m} {u = u} r e) = keeps_fill-step m u e (keeps_fill-Route h r)

-- From `PARTIAL` the order only stays partially filled, is filled, or is being or has been
-- cancelled: it is never again `ACCEPTED`, `REJECTED`, `EXPIRED`, `REPLACED` or `UNKNOWN`.
pub partial_keeps_fill : {t : OrderStatus} → Route OrderStatus.partial t → keeps_fill t ≡ true
partial_keeps_fill = keeps_fill-Route refl

-- `Order.is_terminal` (models/order.py) is narrower than the table's terminal statuses: it says no at a
-- status that is terminal by the table exactly for `BROKER_REJECTED` and `REPLACED`.
pub is_terminal-misses :
    (o : Order)
    → ((is_order_terminal o.status ≡ true) × (is_terminal o ≡ false))
      ↔ ((o.status ≡ OrderStatus.broker_rejected) ⊎ (o.status ≡ OrderStatus.replaced))
unfolding is_order_terminal is_terminal
is_terminal-misses o = ground arith
