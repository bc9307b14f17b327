-- ===== src/Execution/Risk/Limits.antt =====
-- The exposure that an order of the evaluator of v1_risk.py leads to.
use alpha_runtime_v.Base.{◌≡◌, subst, ◌⊎◌, false, some, arith, ℕ, ◌≢◌}
use alpha_runtime_v.Base.Int.{pos, ◌+ℤ◌, ◌<ℤ◌, ◌≤ℤ◌, neg, abs, +ℤ_parts, neg_parts}
use alpha_runtime_v.Execution.Enums.{TradeAction, RiskDecision, OrderSide}
use alpha_runtime_v.Execution.Models.{
  Decimal, MarketContextSnapshot, AccountSnapshot, ExecutionSnapshot, effective_exposure,
  TradeIntent, IntentTradePlan, signed_quantity, PlannedOrder,
}
use alpha_runtime_v.Execution.Risk.Checks.{
  V1RiskEvaluator, FreshIds, hard_flags, is_nonempty, exposure_flags,
}
use alpha_runtime_v.Execution.Risk.Pricing.{resolve_price, tick_size_of}
use alpha_runtime_v.Execution.Risk.Evaluator.{evaluate, bracket_plan, entry_of}
use alpha_runtime_v.Execution.Risk.Decision.{clean_plan}
use alpha_runtime_v.Execution.Risk.Bracket.{not_rejected}

-- The side that the evaluator takes for an action.
abbrev pub TakesSide : TradeAction → OrderSide → Type 0
TakesSide TradeAction.open_long s = s ≡ OrderSide.buy
TakesSide TradeAction.open_short s = s ≡ OrderSide.sell
TakesSide TradeAction.flatten s = s ≡ OrderSide.sell
TakesSide _ s = ⊥

resolve_price-side :
    (intent : TradeIntent) (market : MarketContextSnapshot) (tick : Decimal) (side : OrderSide)
    (price : Decimal)
    → resolve_price intent market tick ≡ some (side, price)
    → TakesSide intent.action side
unfolding resolve_price
resolve_price-side intent market tick side price e = ground arith

abs_bound :
    (side : OrderSide) (e q limit : Decimal)
    → pos 0 ≤ℤ q
    → abs e +ℤ q ≤ℤ limit
    → abs (e +ℤ signed_quantity side q) ≤ℤ limit
unfolding signed_quantity
abs_bound OrderSide.buy e q limit h k = ground (arith, +ℤ_parts e q, +ℤ_parts (abs e) q)
abs_bound OrderSide.sell e q limit h k =
    ground (arith, +ℤ_parts e (neg q), neg_parts q, +ℤ_parts (abs e) q)

abs_grows :
    (e q : Decimal) → e <ℤ pos 0 → pos 0 <ℤ q → abs e <ℤ abs (e +ℤ signed_quantity OrderSide.sell q)
unfolding signed_quantity
abs_grows e q h k = ground (arith, +ℤ_parts e (neg q), neg_parts q)

sold_of :
    {a : TradeAction} {s : OrderSide} → a ≡ TradeAction.flatten → TakesSide a s → s ≡ OrderSide.sell
sold_of {a} {s} h t = subst (λ b. TakesSide b s) h t

module _ (self : V1RiskEvaluator) (intent : TradeIntent) (market : MarketContextSnapshot)
    (account : AccountSnapshot) (execution : ExecutionSnapshot) (fresh : FreshIds) (now : ℕ)
    {plan : IntentTradePlan}
    (returned : evaluate self intent market account execution fresh now ≡ some plan) where
  entry_facts :
      {entry : PlannedOrder}
      → plan.decision ≢ RiskDecision.rejected
      → plan.entry_order ≡ some entry
      → TakesSide intent.action entry.side × (entry.quantity ≡ intent.quantity)
  unfolding bracket_plan entry_of
  entry_facts d e =
      let (p, r, q) =
        clean_plan self intent market account execution fresh now returned
          (not_rejected self intent market account execution fresh now returned d) in
      ground
        (arith, resolve_price-side intent market (tick_size_of self intent.instrument_id) p.0 p.1)

  within_limit :
      (intent.action ≡ TradeAction.open_long) ⊎ (intent.action ≡ TradeAction.open_short)
      → is_nonempty (hard_flags self intent market account execution) ≡ false
      → abs (effective_exposure execution intent.instrument_id) +ℤ intent.quantity
        ≤ℤ self.max_contracts
  unfolding hard_flags exposure_flags
  within_limit a h = ground arith

  -- An opening order of a quantity that is not negative, once not rejected, keeps the effective
  -- exposure of its instrument, when it is added, within `max_contracts` on either side.
  pub open_within_limit :
      {entry : PlannedOrder}
      → (intent.action ≡ TradeAction.open_long) ⊎ (intent.action ≡ TradeAction.open_short)
      → pos 0 ≤ℤ intent.quantity
      → plan.decision ≢ RiskDecision.rejected
      → plan.entry_order ≡ some entry
      → abs (
          effective_exposure execution intent.instrument_id
          +ℤ signed_quantity entry.side entry.quantity)
        ≤ℤ self.max_contracts
  open_within_limit {entry} a q d e =
      let (side, same) = entry_facts d e in
      rw same (
        abs_bound entry.side (effective_exposure execution intent.instrument_id) intent.quantity
          self.max_contracts q
          (within_limit a (not_rejected self intent market account execution fresh now returned d)))

  -- A FLATTEN of a short position, of a positive quantity, is a sell: added to the exposure it
  -- leaves the position further from zero than it was.
  pub flatten_short_grows :
      {entry : PlannedOrder}
      → intent.action ≡ TradeAction.flatten
      → effective_exposure execution intent.instrument_id <ℤ pos 0
      → pos 0 <ℤ intent.quantity
      → plan.decision ≢ RiskDecision.rejected
      → plan.entry_order ≡ some entry
      → (entry.side ≡ OrderSide.sell)
        × (abs (effective_exposure execution intent.instrument_id)
            <ℤ abs (
                effective_exposure execution intent.instrument_id
                +ℤ signed_quantity entry.side entry.quantity))
  flatten_short_grows {entry} a short q d e =
      let (side, same) = entry_facts d e in
      let sold : entry.side ≡ OrderSide.sell = sold_of a side in
      (
        sold,
        rw (sold, same)
            (abs_grows (effective_exposure execution intent.instrument_id) intent.quantity short q),
      )
