-- ===== src/Execution/Invariants/Guards.antt =====
-- What the guards of src/alpha/engines/execution/invariants.py let through.
use alpha_runtime_v.Base.{ℕ, ◌≡◌, ◌↔◌, Bool, true, false, none, List, [], ◌∷◌, ◌⊎◌, arith}
use alpha_runtime_v.Base.Int.{◌+ℤ◌, abs, ◌≤ℤ◌}
use alpha_runtime_v.Base.Lists.{filter, All}
use alpha_runtime_v.Execution.Enums.{OrderStatus}
use alpha_runtime_v.Execution.StateMachines.{contains_order}
use alpha_runtime_v.Execution.Models.{Decimal, ExecutionSnapshot, effective_exposure, RiskFlag}
use alpha_runtime_v.Execution.Invariants.{
  assert_only_broker_mutates_order_state, local_code, assert_exposure_within_limit,
  assert_no_hard_risk_override, is_hard_risk_reason,
}

-- Local code may put an order into the statuses pending, submitted, cancel pending, replace pending
-- and rejected, whatever its status was, and into no other.
pub local_mutation_iff :
    (current proposed : OrderStatus) (code : ℕ)
    → assert_only_broker_mutates_order_state current proposed (local_code code) ≡ none
      ↔ contains_order proposed (
          OrderStatus.pending ∷ OrderStatus.submitted ∷ OrderStatus.cancel_pending
          ∷ OrderStatus.replace_pending ∷ OrderStatus.rejected ∷ [])
        ≡ true
unfolding assert_only_broker_mutates_order_state contains_order
local_mutation_iff current proposed code = ground arith

-- The exposure guard passes exactly if the effective exposure of the instrument after the proposed
-- change is at most the limit in size, long or short.
pub exposure_guard_iff :
    (instrument : ℕ) (proposed : Decimal) (s : ExecutionSnapshot) (limit : Decimal)
    → assert_exposure_within_limit instrument proposed s limit ≡ none
      ↔ abs (effective_exposure s instrument +ℤ proposed) ≤ℤ limit
unfolding assert_exposure_within_limit
exposure_guard_iff instrument proposed s limit = ground arith

filter-All :
    (fs : List RiskFlag)
    → filter is_hard_risk_reason fs ≡ [] ↔ All (λ f. is_hard_risk_reason f ≡ false) fs
filter-All [] = ground arith
filter-All (f ∷ fs) = ground (arith, filter-All fs)

-- An override passes exactly if none was asked for or no flag is a hard reason.
pub override_guard_iff :
    (flags : List RiskFlag) (requested : Bool)
    → assert_no_hard_risk_override flags requested ≡ none
      ↔ (requested ≡ false ⊎ All (λ f. is_hard_risk_reason f ≡ false) flags)
unfolding assert_no_hard_risk_override
override_guard_iff flags requested = ground (arith, filter-All flags)
