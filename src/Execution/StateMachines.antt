-- ===== src/Execution/StateMachines.antt =====
-- The transition tables of src/alpha/engines/execution/state_machines.py and the guards over them.
-- A guard that raises returns its exception; `none` means that it returned.
pub mod Intents
pub mod Orders
use mathlib.Core.Logic.{ite}
use alpha_runtime_v.Base.{
  Bool, true, false, List, [], ◌∷◌, Option, none, some, arith, ◌≡◌, if◌then◌else◌,
}
use alpha_runtime_v.Execution.Enums.{
  IntentStatus, OrderStatus, IntentStatus-discrete, OrderStatus-discrete,
}

-- `x in xs`
unfoldable pub contains {ℓ} : {A : Type ℓ} → Discrete A → A → List A → Bool
contains dec a [] = false
contains dec a (x ∷ xs) = let rest = contains dec a xs in ite (dec a x) true rest

contains-head {ℓ} :
    {A : Type ℓ} (dec : Discrete A) (a : A) (xs : List A) → contains dec a (a ∷ xs) ≡ true
unfolding contains
contains-head dec a xs = ground arith

contains-cons {ℓ} :
    {A : Type ℓ} (dec : Discrete A) (a x : A) (xs : List A)
    → contains dec a xs ≡ true
    → contains dec a (x ∷ xs) ≡ true
unfolding contains
contains-cons dec a x xs h = ground arith

-- `x in xs` for the two enumerations.
unfoldable pub contains_intent : IntentStatus → List IntentStatus → Bool
unfolding contains IntentStatus-discrete
contains_intent = contains IntentStatus-discrete

unfoldable pub contains_order : OrderStatus → List OrderStatus → Bool
unfolding contains OrderStatus-discrete
contains_order = contains OrderStatus-discrete

pub contains_intent-head :
    (s : IntentStatus) (xs : List IntentStatus) → contains_intent s (s ∷ xs) ≡ true
unfolding contains_intent
contains_intent-head = contains-head IntentStatus-discrete

pub contains_intent-cons :
    (s t : IntentStatus) (xs : List IntentStatus)
    → contains_intent s xs ≡ true
    → contains_intent s (t ∷ xs) ≡ true
unfolding contains_intent
contains_intent-cons = contains-cons IntentStatus-discrete

pub data StateMachineError : Type 0 where
  invalid_intent_transition : IntentStatus → IntentStatus → StateMachineError
  invalid_order_transition : OrderStatus → OrderStatus → StateMachineError

-- `_INTENT_TRANSITIONS`
unfoldable pub intent_transitions : IntentStatus → List IntentStatus
intent_transitions IntentStatus.received = IntentStatus.validating ∷ []
intent_transitions IntentStatus.validating =
    IntentStatus.rejected ∷ IntentStatus.awaiting_confirmation ∷ IntentStatus.planning ∷ []
intent_transitions IntentStatus.awaiting_confirmation =
    IntentStatus.confirmed ∷ IntentStatus.expired ∷ IntentStatus.cancelled ∷ []
intent_transitions IntentStatus.confirmed = IntentStatus.planning ∷ []
intent_transitions IntentStatus.planning = IntentStatus.plan_ready ∷ IntentStatus.rejected ∷ []
intent_transitions IntentStatus.plan_ready =
    IntentStatus.submitting ∷ IntentStatus.awaiting_confirmation ∷ IntentStatus.rejected ∷ []
intent_transitions IntentStatus.submitting =
    IntentStatus.active ∷ IntentStatus.failed ∷ IntentStatus.cancelled ∷ []
intent_transitions IntentStatus.active =
    IntentStatus.completed ∷ IntentStatus.cancelled ∷ IntentStatus.failed ∷ []
intent_transitions IntentStatus.completed = []
intent_transitions IntentStatus.cancelled = []
intent_transitions IntentStatus.expired = []
intent_transitions IntentStatus.rejected = []
intent_transitions IntentStatus.failed = []

-- `INTENT_TERMINAL_STATES`
abbrev pub intent_terminal_states : List IntentStatus
intent_terminal_states =
    IntentStatus.completed ∷ IntentStatus.cancelled ∷ IntentStatus.expired ∷ IntentStatus.rejected
    ∷ IntentStatus.failed ∷ []

unfoldable pub assert_valid_intent_transition :
    IntentStatus → IntentStatus → Option StateMachineError
unfolding contains_intent intent_transitions
assert_valid_intent_transition current next =
    if contains_intent next (intent_transitions current)
    then none
    else some (invalid_intent_transition current next)

unfoldable pub is_intent_terminal : IntentStatus → Bool
unfolding contains_intent
is_intent_terminal status = contains_intent status intent_terminal_states

-- `_ORDER_TRANSITIONS`
unfoldable pub order_transitions : OrderStatus → List OrderStatus
order_transitions OrderStatus.pending = OrderStatus.submitted ∷ OrderStatus.rejected ∷ []
order_transitions OrderStatus.submitted =
    OrderStatus.accepted ∷ OrderStatus.unknown ∷ OrderStatus.broker_rejected ∷ OrderStatus.cancelled
    ∷ []
order_transitions OrderStatus.accepted =
    OrderStatus.partial ∷ OrderStatus.filled ∷ OrderStatus.cancel_pending
    ∷ OrderStatus.replace_pending ∷ OrderStatus.broker_rejected ∷ OrderStatus.expired ∷ []
order_transitions OrderStatus.partial =
    OrderStatus.partial ∷ OrderStatus.filled ∷ OrderStatus.cancel_pending ∷ []
order_transitions OrderStatus.cancel_pending =
    OrderStatus.cancelled ∷ OrderStatus.partial ∷ OrderStatus.filled ∷ []
order_transitions OrderStatus.replace_pending = OrderStatus.replaced ∷ OrderStatus.accepted ∷ []
order_transitions OrderStatus.unknown =
    OrderStatus.accepted ∷ OrderStatus.partial ∷ OrderStatus.filled ∷ OrderStatus.cancelled
    ∷ OrderStatus.broker_rejected ∷ OrderStatus.expired ∷ []
order_transitions OrderStatus.rejected = []
order_transitions OrderStatus.broker_rejected = []
order_transitions OrderStatus.filled = []
order_transitions OrderStatus.cancelled = []
order_transitions OrderStatus.replaced = []
order_transitions OrderStatus.expired = []

-- `ORDER_TERMINAL_STATES`
abbrev pub order_terminal_states : List OrderStatus
order_terminal_states =
    OrderStatus.rejected ∷ OrderStatus.broker_rejected ∷ OrderStatus.filled ∷ OrderStatus.cancelled
    ∷ OrderStatus.replaced ∷ OrderStatus.expired ∷ []

-- `ORDER_RECONCILIATION_REQUIRED`
abbrev pub order_reconciliation_required : List OrderStatus
order_reconciliation_required = OrderStatus.unknown ∷ []

-- `ORDER_BROKER_ONLY_STATES`
abbrev pub order_broker_only_states : List OrderStatus
order_broker_only_states =
    OrderStatus.accepted ∷ OrderStatus.partial ∷ OrderStatus.filled ∷ OrderStatus.cancelled
    ∷ OrderStatus.replaced ∷ OrderStatus.broker_rejected ∷ OrderStatus.expired ∷ OrderStatus.unknown
    ∷ []

unfoldable pub assert_valid_order_transition : OrderStatus → OrderStatus → Option StateMachineError
unfolding contains_order order_transitions
assert_valid_order_transition current next =
    if contains_order next (order_transitions current)
    then none
    else some (invalid_order_transition current next)

unfoldable pub is_order_terminal : OrderStatus → Bool
unfolding contains_order
is_order_terminal status = contains_order status order_terminal_states

unfoldable pub requires_reconciliation : OrderStatus → Bool
unfolding contains_order
requires_reconciliation status = contains_order status order_reconciliation_required
