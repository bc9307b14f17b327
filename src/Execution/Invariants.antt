-- ===== src/Execution/Invariants.antt =====
-- The guards of src/alpha/engines/execution/invariants.py. A guard that raises returns its
-- exception; `none` means that it returned.
pub mod Guards
use Prim.Native.String.{String}
use alpha_runtime_v.Base.{
  ℕ, ◌-◌, ◌/◌, ◌==◌, ltb, ◌≡◌, Bool, true, false, not, ◌&&◌, ◌||◌, Option, none, some, List, [],
  ◌∷◌, ◌++◌, if◌then◌else◌,
}
use alpha_runtime_v.Base.Int.{
  ℤ, pos, negsuc, ◌+ℤ◌, ◌-ℤ◌, neg, abs, ltb_ℤ, eqb_ℤ, sub_ℕ, pos_part, neg_part,
}
use alpha_runtime_v.Base.Lists.{filter}
use alpha_runtime_v.Base.Dict.{Dict, Eq, nat_eq, lookup}
use alpha_runtime_v.Execution.Enums.{OrderStatus}
use alpha_runtime_v.Execution.StateMachines.{contains_order, order_broker_only_states}
use alpha_runtime_v.Execution.Models.{
  Decimal, OrderId, eq_order_id, SnapshotId, QuoteSnapshot, MarketContextSnapshot,
  ExecutionSnapshot, effective_exposure, position_of, TradeIntent, IntentTradePlan, RiskFlag,
}
use alpha_runtime_v.Execution.Readiness.{
  ExecutionReadiness, ready, blocking_reasons, BlockingReason,
}

-- The four exception classes, and what each guard raises them with.
pub data Violation : Type 0 where
  not_ready : List BlockingReason → Violation
  id_collision : OrderId → Violation
  duplicate_intent_error : ℕ → Violation
  unknown_broker_outcome : OrderId → Violation
  exposure_breach : Decimal → Decimal → Violation
  unprotected_position : ℕ → Decimal → Violation
  not_broker : OrderStatus → Violation
  frontend_price : Violation
  missing_snapshot_id : Violation
  hard_risk_override : List RiskFlag → Violation

-- Invariant 1
unfoldable pub assert_runtime_ready : ExecutionReadiness → Option Violation
assert_runtime_ready r = if ready r then none else some (not_ready (blocking_reasons r))

-- `x in set`
unfoldable pub member {ℓ} : {A : Type ℓ} → (A → A → Bool) → A → List A → Bool
member eq a [] = false
member eq a (x ∷ xs) = eq a x || member eq a xs

-- Invariant 2
unfoldable pub assert_unique_runtime_order_id : OrderId → List OrderId → Option Violation
unfolding member
assert_unique_runtime_order_id i existing_ids =
    if member eq_order_id i existing_ids then some (id_collision i) else none

-- Invariant 3
unfoldable pub assert_not_duplicate_intent : ℕ → List ℕ → Option Violation
unfolding member
assert_not_duplicate_intent key processed_keys =
    if member ◌==◌ key processed_keys then some (duplicate_intent_error key) else none

-- Invariant 4
unfoldable pub assert_no_blind_retry_on_unknown : OrderId → OrderStatus → Option Violation
assert_no_blind_retry_on_unknown i OrderStatus.unknown = some (unknown_broker_outcome i)
assert_no_blind_retry_on_unknown i _ = none

-- Invariant 5
unfoldable pub assert_exposure_within_limit :
    ℕ → Decimal → ExecutionSnapshot → Decimal → Option Violation
assert_exposure_within_limit instrument_id proposed_additional s max_net_contracts =
    let current : Decimal = effective_exposure s instrument_id in
    let projected : Decimal = abs (current +ℤ proposed_additional) in
    if ltb_ℤ max_net_contracts projected then some (exposure_breach current projected) else none

-- Invariant 6
unfoldable pub assert_position_protected : ℕ → ExecutionSnapshot → List ℕ → Bool → Option Violation
unfolding member
assert_position_protected instrument_id s protected_instrument_ids trading_halted =
    let position : Decimal = position_of instrument_id s.positions in
    let has_stop : Bool = member ◌==◌ instrument_id protected_instrument_ids in
    if eqb_ℤ position (pos 0)
    then none
    else if not has_stop && not trading_halted
    then some (unprotected_position instrument_id position)
    else none

-- `mutation_source`: "broker_callback", or anything else.
pub data MutationSource : Type 0 where
  broker_callback : MutationSource
  local_code : ℕ → MutationSource

abbrev is_broker : MutationSource → Bool
is_broker broker_callback = true
is_broker (local_code _) = false

-- The set `broker_only_states` that the guard of invariant 7 builds for itself.
abbrev broker_only_states : List OrderStatus
broker_only_states =
    OrderStatus.accepted ∷ OrderStatus.partial ∷ OrderStatus.filled ∷ OrderStatus.cancelled
    ∷ OrderStatus.replaced ∷ OrderStatus.broker_rejected ∷ OrderStatus.expired ∷ OrderStatus.unknown
    ∷ []

-- Invariant 7
unfoldable pub assert_only_broker_mutates_order_state :
    OrderStatus → OrderStatus → MutationSource → Option Violation
unfolding contains_order
assert_only_broker_mutates_order_state current_status proposed_status source =
    if contains_order proposed_status broker_only_states && not (is_broker source)
    then some (not_broker proposed_status)
    else none

-- `price_source`: "client_quote", or anything else.
pub data PriceSource : Type 0 where
  client_quote : PriceSource
  other_source : ℕ → PriceSource

-- Invariant 8
unfoldable pub assert_price_from_backend : PriceSource → Option Violation
assert_price_from_backend client_quote = some frontend_price
assert_price_from_backend (other_source _) = none

pub data DriftWarning : Type 0 where
  quote_age : ℤ → ℤ → DriftWarning
  bid_drift : Decimal → Decimal → Decimal → Decimal → DriftWarning

-- `int((a - b).total_seconds() * 1000)`: microseconds to whole milliseconds, towards zero.
abbrev pub millis_between : ℕ → ℕ → ℤ
millis_between a b = if ltb a b then neg (pos ((b - a) / 1000)) else pos ((a - b) / 1000)

-- `check_client_quote_drift`, at a quote.
unfoldable pub drift_of : QuoteSnapshot → MarketContextSnapshot → Decimal → ℤ → List DriftWarning
drift_of quote server max_drift_ticks max_age_ms =
    let age_ms : ℤ = millis_between server.as_of quote.timestamp in
    let drift : Decimal = abs (quote.bid -ℤ server.bid) in
    (if ltb_ℤ max_age_ms age_ms then quote_age age_ms max_age_ms ∷ [] else [])
    ++ (if ltb_ℤ max_drift_ticks drift
        then bid_drift quote.bid server.bid drift max_drift_ticks ∷ []
        else [])

unfoldable pub check_client_quote_drift :
    TradeIntent → MarketContextSnapshot → Decimal → ℤ → List DriftWarning
check_client_quote_drift intent server max_drift_ticks max_age_ms = elim intent.client_quote [
  | none ↦ []
  | some quote ↦ drift_of quote server max_drift_ticks max_age_ms
]

abbrev is_blank : SnapshotId → Bool
is_blank SnapshotId.blank = true
is_blank _ = false

abbrev is_empty : String → Bool
is_empty String.[] = true
is_empty (String.◌∷◌ c s) = false

-- Invariant 9
unfoldable pub assert_plan_has_snapshot_ids : IntentTradePlan → Option Violation
assert_plan_has_snapshot_ids plan =
    if is_blank plan.market_context_snapshot_id
    then some missing_snapshot_id
    else if is_blank plan.account_snapshot_id
    then some missing_snapshot_id
    else if is_empty plan.risk_policy_version
    then some missing_snapshot_id
    else none

-- `f in HARD_RISK_REASONS`
unfoldable pub is_hard_risk_reason : RiskFlag → Bool
is_hard_risk_reason RiskFlag.daily_loss_limit_breached = true
is_hard_risk_reason RiskFlag.kill_switch_active = true
is_hard_risk_reason RiskFlag.broker_not_connected = true
is_hard_risk_reason RiskFlag.positions_not_reconciled = true
is_hard_risk_reason RiskFlag.orders_not_reconciled = true
is_hard_risk_reason RiskFlag.market_data_stale = true
is_hard_risk_reason RiskFlag.market_halted = true
is_hard_risk_reason RiskFlag.max_contracts_exceeded = true
is_hard_risk_reason RiskFlag.unmanaged_position = true
is_hard_risk_reason RiskFlag.duplicate_intent = true
is_hard_risk_reason RiskFlag.unknown_broker_order = true
is_hard_risk_reason _ = false

-- Invariant 10
unfoldable pub assert_no_hard_risk_override : List RiskFlag → Bool → Option Violation
assert_no_hard_risk_override risk_flags override_requested =
    if not override_requested then none else elim (filter is_hard_risk_reason risk_flags) [
      | [] ↦ none
      | f ∷ fs ↦ some (hard_risk_override (f ∷ fs))
    ]
