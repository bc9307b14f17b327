-- ===== src/Execution/Risk/Bracket.antt =====
-- The bracket of orders in a plan that the evaluator of v1_risk.py does not reject.
use alpha_runtime_v.Base.{
  ◌≡◌, ap, sym, subst, inl, inr, refl, false, [], some, ℕ, Bool-cases, Option-cases, ◌≢◌,
}
use alpha_runtime_v.Base.Int.{pos, ◌+ℤ◌, ◌-ℤ◌, ◌*ℤ◌, int_laws}
use alpha_runtime_v.Base.Lists.{All}
use alpha_runtime_v.Execution.Enums.{RiskDecision, OrderSide, OrderRole}
use alpha_runtime_v.Execution.Models.{
  Decimal, MarketContextSnapshot, AccountSnapshot, ExecutionSnapshot, TradeIntent, IntentTradePlan,
  signed_quantity, PlannedOrder, all_orders,
}
use alpha_runtime_v.Execution.Risk.Checks.{V1RiskEvaluator, FreshIds, hard_flags, is_nonempty}
use alpha_runtime_v.Execution.Risk.Pricing.{tick_size_of, point_value_of, opposite, stop_at}
use alpha_runtime_v.Execution.Risk.Evaluator.{
  evaluate, bracket_plan, rejected_plan, targets, entry_of, stop_of,
}
use alpha_runtime_v.Execution.Risk.Decision.{clean_plan, clean_decision, rejected_decision}

-- What a unit loses between an entry on a side and a stop.
abbrev pub loss_per_unit : OrderSide → Decimal → Decimal → Decimal
loss_per_unit OrderSide.buy entry stop = entry -ℤ stop
loss_per_unit OrderSide.sell entry stop = stop -ℤ entry

-- A closing order of a bracket: the other side, the same quantity, not an entry.
abbrev pub Closes : PlannedOrder → PlannedOrder → Type 0
Closes entry o =
    (signed_quantity entry.side entry.quantity +ℤ signed_quantity o.side o.quantity ≡ pos 0)
    × (o.role ≢ OrderRole.entry)

-- A bracket: one entry with a price, one stop and the targets, each of which closes the entry, and
-- the plan's risk is the loss at the stop.
pub record IsBracket (point_value : Decimal) (plan : IntentTradePlan) : Type 0 where
  pub entry : PlannedOrder
  pub stop : PlannedOrder
  pub entry_price : Decimal
  pub stop_price : Decimal
  pub has_entry : plan.entry_order ≡ some entry
  pub has_stop : plan.stop_order ≡ some stop
  pub is_entry : entry.role ≡ OrderRole.entry
  pub priced : entry.limit_price ≡ some entry_price
  pub stopped : stop.stop_price ≡ some stop_price
  pub stop_closes : Closes entry stop
  pub targets_close : All (Closes entry) plan.target_orders
  pub risk :
      plan.calculated_risk_usd
      ≡ loss_per_unit entry.side entry_price stop_price *ℤ point_value *ℤ entry.quantity

loss-buy : (p d : Decimal) → p -ℤ (p -ℤ d) ≡ d
loss-buy p d = omega int_laws

loss-sell : (p d : Decimal) → p +ℤ d -ℤ p ≡ d
loss-sell p d = omega int_laws

closes_buy :
    (q : Decimal) → signed_quantity OrderSide.buy q +ℤ signed_quantity OrderSide.sell q ≡ pos 0
unfolding signed_quantity
closes_buy q = omega int_laws

closes_sell :
    (q : Decimal) → signed_quantity OrderSide.sell q +ℤ signed_quantity OrderSide.buy q ≡ pos 0
unfolding signed_quantity
closes_sell q = omega int_laws

closes_opposite :
    (side : OrderSide) (q : Decimal)
    → signed_quantity side q +ℤ signed_quantity (opposite side) q ≡ pos 0
closes_opposite OrderSide.buy q = closes_buy q
closes_opposite OrderSide.sell q = closes_sell q

loss_stop_at : (side : OrderSide) (p d : Decimal) → loss_per_unit side p (stop_at side p d) ≡ d
loss_stop_at OrderSide.buy p d = loss-buy p d
loss_stop_at OrderSide.sell p d = loss-sell p d

module _ (intent : TradeIntent) (side : OrderSide) (price : Decimal) where
  targets-close :
      (tick : Decimal) (id fresh : ℕ)
      → All (Closes (entry_of intent side price id)) (targets intent side price tick fresh)
  unfolding targets entry_of
  targets-close tick id fresh = elim (Option-cases intent.protection_policy.target_distance_ticks) [
    | inl e ↦ rw (e, targets) tt
    | inr (n, e) ↦ rw (e, targets) ((closes_opposite side intent.quantity, λ k. cc), tt)
  ]

module _ (self : V1RiskEvaluator) (intent : TradeIntent) (market : MarketContextSnapshot)
    (account : AccountSnapshot) (fresh : FreshIds) (now : ℕ) where
  bracket_plan-IsBracket :
      (priced : OrderSide × Decimal)
      → IsBracket
          (point_value_of self intent.instrument_id)
          (bracket_plan self intent market account fresh now priced)
  unfolding bracket_plan entry_of stop_of
  bracket_plan-IsBracket (side, p) =
      let d : Decimal =
        intent.protection_policy.stop_distance_ticks *ℤ tick_size_of self intent.instrument_id in
      record {
        entry = entry_of intent side p fresh.entry;
        stop = stop_of intent side p d fresh.stop;
        entry_price = p;
        stop_price = stop_at side p d;
        has_entry = refl;
        has_stop = refl;
        is_entry = refl;
        priced = refl;
        stopped = refl;
        stop_closes = (closes_opposite side intent.quantity, λ k. cc);
        targets_close =
            targets-close intent side p (tick_size_of self intent.instrument_id) fresh.entry
              fresh.target;
        risk =
            ap (λ l. l *ℤ point_value_of self intent.instrument_id *ℤ intent.quantity)
              (sym (loss_stop_at side p d));
      }

pub not_rejected :
    (self : V1RiskEvaluator) (intent : TradeIntent) (market : MarketContextSnapshot)
    (account : AccountSnapshot) (execution : ExecutionSnapshot) (fresh : FreshIds) (now : ℕ)
    {plan : IntentTradePlan}
    → evaluate self intent market account execution fresh now ≡ some plan
    → plan.decision ≢ RiskDecision.rejected
    → is_nonempty (hard_flags self intent market account execution) ≡ false
unfolding rejected_plan
not_rejected self intent market account execution fresh now returned d =
    elim (Bool-cases (is_nonempty (hard_flags self intent market account execution))) [
      | inl h ↦ absurd (
          d (
            ap (λ p. p.decision)
              (rejected_decision self intent market account execution fresh now returned h)))
      | inr h ↦ h
    ]

module _ (self : V1RiskEvaluator) (intent : TradeIntent) (market : MarketContextSnapshot)
    (account : AccountSnapshot) (execution : ExecutionSnapshot) (fresh : FreshIds) (now : ℕ)
    {plan : IntentTradePlan}
    (returned : evaluate self intent market account execution fresh now ≡ some plan) where
  -- A rejected plan holds no order at all.
  pub rejected_no_orders : plan.decision ≡ RiskDecision.rejected → all_orders plan ≡ []
  unfolding all_orders rejected_plan
  rejected_no_orders d =
      elim (Bool-cases (is_nonempty (hard_flags self intent market account execution))) [
        | inl h ↦ rw (rejected_decision self intent market account execution fresh now returned h)
        | inr h ↦
            absurd (clean_decision self intent market account execution fresh now returned h d)
      ]

  -- A plan that is not rejected is a bracket: one entry with a price, one stop, and targets, each
  -- of which undoes the quantity of the entry; and its calculated risk is the loss per unit from the
  -- entry price to the stop price, times the point value and the quantity.
  pub evaluate-IsBracket :
      plan.decision ≢ RiskDecision.rejected
      → IsBracket (point_value_of self intent.instrument_id) plan
  evaluate-IsBracket d =
      let (p, r, e) =
        clean_plan self intent market account execution fresh now returned
          (not_rejected self intent market account execution fresh now returned d) in
      subst (IsBracket (point_value_of self intent.instrument_id)) e
        (bracket_plan-IsBracket self intent market account fresh now p)
