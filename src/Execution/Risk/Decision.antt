-- ===== src/Execution/Risk/Decision.antt =====
-- What the evaluator of v1_risk.py decides, and that it always returns.
use alpha_runtime_v.Base.{
  ◌≡◌, ap, ◌↔◌, inl, inr, true, false, ◌<◌, some, none, arith, ℕ, Bool-cases, Option-cases,
  some_of_ne_none, ◌≢◌,
}
use alpha_runtime_v.Execution.Enums.{RiskDecision, OrderSide}
use alpha_runtime_v.Execution.Models.{
  Decimal, SnapshotId, MarketContextSnapshot, AccountSnapshot, ExecutionSnapshot, TradeIntent,
  IntentTradePlan,
}
use alpha_runtime_v.Execution.Invariants.{assert_plan_has_snapshot_ids}
use alpha_runtime_v.Execution.Risk.Checks.{
  V1RiskEvaluator, FreshIds, is_supported, hard_flags, soft_flags, is_nonempty,
}
use alpha_runtime_v.Execution.Risk.Pricing.{resolve_price, round_to_tick, tick_size_of, size}
use alpha_runtime_v.Execution.Risk.Evaluator.{evaluate, bracket_plan, rejected_plan}
use alpha_runtime_v.Execution.Risk.Flags.{HardRisk, SoftRisk, hard_flags_iff, soft_flags_iff}

approved_ne_rejected :
    {d : RiskDecision} → d ≡ RiskDecision.approved → d ≡ RiskDecision.rejected → ⊥
approved_ne_rejected h k = cc

resolve_price-ne-none :
    (intent : TradeIntent) (market : MarketContextSnapshot) (tick : Decimal)
    → is_supported intent.action ≡ true
    → 0 < size tick
    → resolve_price intent market tick ≢ none
unfolding resolve_price round_to_tick
resolve_price-ne-none intent market tick s t = ground arith

bracket_plan-checked :
    (self : V1RiskEvaluator) (intent : TradeIntent) (market : MarketContextSnapshot)
    (account : AccountSnapshot) (fresh : FreshIds) (now : ℕ) (priced : OrderSide × Decimal)
    → market.snapshot_id ≢ SnapshotId.blank
    → account.snapshot_id ≢ SnapshotId.blank
    → assert_plan_has_snapshot_ids (bracket_plan self intent market account fresh now priced) ≡ none
unfolding bracket_plan assert_plan_has_snapshot_ids
bracket_plan-checked self intent market account fresh now priced m a = ground arith

module _ (self : V1RiskEvaluator) (intent : TradeIntent) (market : MarketContextSnapshot)
    (account : AccountSnapshot) (execution : ExecutionSnapshot) (fresh : FreshIds) (now : ℕ) where
  clean_supported :
      is_nonempty (hard_flags self intent market account execution) ≡ false
      → is_supported intent.action ≡ true
  unfolding hard_flags
  clean_supported h = ground arith

  evaluate-ne-none :
      market.snapshot_id ≢ SnapshotId.blank
      → account.snapshot_id ≢ SnapshotId.blank
      → 0 < size (tick_size_of self intent.instrument_id)
      → evaluate self intent market account execution fresh now ≢ none
  unfolding evaluate
  evaluate-ne-none m a t e =
      elim (Bool-cases (is_nonempty (hard_flags self intent market account execution))) [
        | inl h ↦ ground arith
        | inr h ↦
            let (p, r) = some_of_ne_none _ (
              resolve_price-ne-none intent market (tick_size_of self intent.instrument_id)
                (clean_supported h) t) in
            ground (arith, bracket_plan-checked self intent market account fresh now p m a)
      ]

  stuck :
      {plan : IntentTradePlan}
      → evaluate self intent market account execution fresh now ≡ some plan
      → is_nonempty (hard_flags self intent market account execution) ≡ false
      → resolve_price intent market (tick_size_of self intent.instrument_id) ≡ none
      → none ≡ some plan
  unfolding evaluate
  stuck e h r = ground arith

  -- What a plan with no hard flag is.
  pub clean_plan :
      {plan : IntentTradePlan}
      → evaluate self intent market account execution fresh now ≡ some plan
      → is_nonempty (hard_flags self intent market account execution) ≡ false
      → (priced : OrderSide × Decimal) × (resolve_price intent market
            (tick_size_of self intent.instrument_id)
          ≡ some priced)
        × (bracket_plan self intent market account fresh now priced ≡ plan)
  unfolding evaluate
  clean_plan e h =
      elim (Option-cases (resolve_price intent market (tick_size_of self intent.instrument_id))) [
        | inl r ↦ cc (stuck e h r)
        | inr (p, r) ↦ (p, r, ground arith)
      ]

  clean_approved :
      {plan : IntentTradePlan}
      → evaluate self intent market account execution fresh now ≡ some plan
      → is_nonempty (hard_flags self intent market account execution) ≡ false
      → (plan.decision ≡ RiskDecision.approved) ↔ (is_nonempty (soft_flags intent market) ≡ false)
  unfolding bracket_plan
  clean_approved e h = let (p, r, q) = clean_plan e h in ground arith

  pub clean_decision :
      {plan : IntentTradePlan}
      → evaluate self intent market account execution fresh now ≡ some plan
      → is_nonempty (hard_flags self intent market account execution) ≡ false
      → plan.decision ≢ RiskDecision.rejected
  unfolding bracket_plan
  clean_decision e h = let (p, r, q) = clean_plan e h in ground arith

  pub rejected_decision :
      {plan : IntentTradePlan}
      → evaluate self intent market account execution fresh now ≡ some plan
      → is_nonempty (hard_flags self intent market account execution) ≡ true
      → plan
        ≡ rejected_plan intent
            (hard_flags self intent market account execution)
            market
            account
            fresh
            now
  unfolding evaluate
  rejected_decision e h = ground arith

  -- With ids on both snapshots and a tick size that is not 0 the evaluation returns a plan.
  pub evaluate_returns :
      market.snapshot_id ≢ SnapshotId.blank
      → account.snapshot_id ≢ SnapshotId.blank
      → 0 < size (tick_size_of self intent.instrument_id)
      → (plan : IntentTradePlan) × (evaluate self intent market account execution fresh now
          ≡ some plan)
  evaluate_returns m a t = some_of_ne_none _ (evaluate-ne-none m a t)

  not_soft : ¬ (SoftRisk intent market) → is_nonempty (soft_flags intent market) ≡ false
  not_soft c = elim (Bool-cases (is_nonempty (soft_flags intent market))) [
    | inl h ↦ absurd (c ((soft_flags_iff intent market).0 h))
    | inr h ↦ h
  ]

  module _ {plan : IntentTradePlan}
      (returned : evaluate self intent market account execution fresh now ≡ some plan) where
    -- The decision of a returned plan is REJECTED exactly when the account is halted, its realized loss is above
    -- the daily limit, the action is not supported, the bracket is not the broker's, the market data has FAILED, an
    -- opening order would take the effective exposure past the limit, or a flatten finds no exposure.
    pub rejects_iff :
        (plan.decision ≡ RiskDecision.rejected) ↔ HardRisk self intent market account execution
    unfolding rejected_plan
    rejects_iff =
        elim (Bool-cases (is_nonempty (hard_flags self intent market account execution))) [
          | inl h ↦ (
            λ _. (hard_flags_iff self intent market account execution).0 h,
            λ _. ap (λ p. p.decision) (rejected_decision returned h),
          )
          | inr h ↦ (
            λ d. absurd (clean_decision returned h d),
            λ r. cc ((hard_flags_iff self intent market account execution).1 r),
          )
        ]

    -- The decision is APPROVED exactly when neither the condition of a hard flag nor that of a
    -- contextual one holds.
    pub approves_iff :
        (plan.decision ≡ RiskDecision.approved)
        ↔ ((¬ (HardRisk self intent market account execution)) × (¬ (SoftRisk intent market)))
    unfolding rejected_plan
    approves_iff =
        elim (Bool-cases (is_nonempty (hard_flags self intent market account execution))) [
          | inl h ↦ (
            λ d.
                absurd
                  (approved_ne_rejected d (ap (λ p. p.decision) (rejected_decision returned h))),
            λ c. absurd (c.0 ((hard_flags_iff self intent market account execution).0 h)),
          )
          | inr h ↦ (
            λ d. (
              λ k. cc ((hard_flags_iff self intent market account execution).1 k, h),
              λ k. cc ((soft_flags_iff intent market).1 k, (clean_approved returned h).0 d),
            ),
            λ c. (clean_approved returned h).1 (not_soft c.1),
          )
        ]
