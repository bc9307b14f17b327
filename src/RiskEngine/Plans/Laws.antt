-- ===== src/RiskEngine/Plans/Laws.antt =====
-- What a generated plan keeps, and which setups get one.
use native.Mathlib.Nat.{mul_comm, div-mul-le_self, zero-div}
use alpha_runtime_v.Base.{
  ℕ, ◌*◌, ◌/◌, ◌≤◌, ◌<◌, ◌≡◌, true, none, some, arith, Option-cases, inl, inr, ap,
}
use alpha_runtime_v.Base.Int.{pos, ◌≤ℤ◌, pos_part}
use alpha_runtime_v.Execution.Models.{Decimal}
use alpha_runtime_v.RiskEngine.Model.{
  AccountConfig, AccountContext, TradePlan, Setup, remaining_risk, validate_levels,
}
use alpha_runtime_v.RiskEngine.Plans.{
  Verdict, distance, dollar_risk, position_size, check_daily_limits, plan_of, evaluate_levels,
  evaluate,
}

-- A plan that keeps the account's limits.
pub record IsSound (ctx : AccountContext) (s : Setup) (p : TradePlan) : Type 0 where
  pub of_setup : p.setup_id ≡ s.setup_id
  pub entry : s.entry_trigger ≡ some p.entry_price
  pub stop : s.stop_reference ≡ some p.stop_price
  pub target : s.target_reference ≡ some p.target_price
  pub ordered : validate_levels p ≡ true
  pub sized : 1 ≤ p.position_size
  pub risked : p.risk_amount ≡ distance p.entry_price p.stop_price * p.position_size
  pub risk_bounded : pos p.risk_amount ≤ℤ dollar_risk ctx.config
  pub budgeted : dollar_risk ctx.config ≤ℤ remaining_risk ctx.state
  pub free : ctx.state.open_positions < ctx.config.max_open_positions
  pub rewarded : 2 * p.risk_amount ≤ p.reward_amount

-- The conditions under which `_evaluate` gives the plan of the levels.
pub record IsAdmitted (s : Setup) (ctx : AccountContext) (entry stop target : Decimal)
    (p : TradePlan) : Type 0 where
  pub apart : 0 < distance entry stop
  pub sized : 0 < position_size ctx.config entry stop
  pub limits : check_daily_limits ctx (dollar_risk ctx.config) ≡ none
  pub rewarded : 2 * p.risk_amount ≤ p.reward_amount
  pub ordered : validate_levels p ≡ true

evaluate_levels-IsAdmitted :
    (plan_id : ℕ) (s : Setup) (ctx : AccountContext) (entry stop target : Decimal) (p : TradePlan)
    → evaluate_levels plan_id s ctx entry stop target ≡ Verdict.planned p
    → (p ≡ plan_of plan_id s ctx.config entry stop target) × IsAdmitted s ctx entry stop target p
unfolding evaluate_levels
evaluate_levels-IsAdmitted plan_id s ctx entry stop target p h = (
  ground (arith, h),
  record {
    apart = ground (arith, h);
    sized = ground (arith, h);
    limits = ground (arith, h);
    rewarded = ground (arith, h);
    ordered = ground (arith, h);
  },
)

limits_kept :
    (ctx : AccountContext) (r : Decimal)
    → check_daily_limits ctx r ≡ none
    → (r ≤ℤ remaining_risk ctx.state) × (ctx.state.open_positions < ctx.config.max_open_positions)
unfolding check_daily_limits
limits_kept ctx r h = (ground (arith, h), ground (arith, h))

size_bounded :
    (cfg : AccountConfig) (entry stop : Decimal)
    → 0 < position_size cfg entry stop
    → pos (distance entry stop * position_size cfg entry stop) ≤ℤ dollar_risk cfg
unfolding position_size
size_bounded cfg entry stop h = ground (
  arith,
  div-mul-le_self (pos_part (dollar_risk cfg)) (distance entry stop),
  mul_comm (distance entry stop) (pos_part (dollar_risk cfg) / distance entry stop),
  zero-div (distance entry stop),
  h,
)

-- The levels that a plan was made of.
record HasLevels (plan_id : ℕ) (s : Setup) (ctx : AccountContext) (p : TradePlan) : Type 0 where
  entry : Decimal
  stop : Decimal
  target : Decimal
  has_entry : s.entry_trigger ≡ some entry
  has_stop : s.stop_reference ≡ some stop
  has_target : s.target_reference ≡ some target
  made : p ≡ plan_of plan_id s ctx.config entry stop target
  admitted : IsAdmitted s ctx entry stop target p

evaluate-HasLevels :
    (plan_id : ℕ) (s : Setup) (ctx : AccountContext) (p : TradePlan)
    → evaluate plan_id s ctx ≡ Verdict.planned p
    → HasLevels plan_id s ctx p
unfolding evaluate
evaluate-HasLevels plan_id s ctx p h = elim (Option-cases s.entry_trigger) [
  | inl e ↦ absurd (ground (arith, rw e at h))
  | inr (entry, e) ↦ elim (Option-cases s.stop_reference) [
    | inl f ↦ absurd (ground (arith, rw (e, f) at h))
    | inr (stop, f) ↦ elim (Option-cases s.target_reference) [
      | inl g ↦ absurd (ground (arith, rw (e, f, g) at h))
      | inr (target, g) ↦
          let same : evaluate_levels plan_id s ctx entry stop target ≡ Verdict.planned p =
            ground (arith, h, e, f, g) in
          let facts : _ = evaluate_levels-IsAdmitted plan_id s ctx entry stop target p same in
          record {
            entry = entry;
            stop = stop;
            target = target;
            has_entry = e;
            has_stop = f;
            has_target = g;
            made = facts.0;
            admitted = facts.1;
          }
    ]
  ]
]

-- A generated plan has the setup's levels in order, risks its size times the distance to the stop, which
-- is at most the account's risk per position, which is at most what is left of the daily limit; its
-- reward is at least twice its risk, and a position is free.
pub evaluate-IsSound :
    (plan_id : ℕ) (s : Setup) (ctx : AccountContext) (p : TradePlan)
    → evaluate plan_id s ctx ≡ Verdict.planned p
    → IsSound ctx s p
unfolding plan_of
evaluate-IsSound plan_id s ctx p h =
    let lv : HasLevels plan_id s ctx p = evaluate-HasLevels plan_id s ctx p h in
    let entries : p.entry_price ≡ lv.entry = ap (λ q. q.entry_price) lv.made in
    let stops : p.stop_price ≡ lv.stop = ap (λ q. q.stop_price) lv.made in
    let targets : p.target_price ≡ lv.target = ap (λ q. q.target_price) lv.made in
    let sized : p.position_size ≡ position_size ctx.config lv.entry lv.stop =
      ap (λ q. q.position_size) lv.made in
    let risked : p.risk_amount
        ≡ distance lv.entry lv.stop * position_size ctx.config lv.entry lv.stop =
      ap (λ q. q.risk_amount) lv.made in
    let kept : _ = limits_kept ctx (dollar_risk ctx.config) lv.admitted.limits in
    record {
      of_setup = ap (λ q. q.setup_id) lv.made;
      entry = cc (lv.has_entry, entries);
      stop = cc (lv.has_stop, stops);
      target = cc (lv.has_target, targets);
      ordered = lv.admitted.ordered;
      sized = omega (arith, sized, lv.admitted.sized);
      risked = cc (risked, entries, stops, sized);
      risk_bounded =
          omega (arith, risked, size_bounded ctx.config lv.entry lv.stop lv.admitted.sized);
      budgeted = kept.0;
      free = kept.1;
      rewarded = lv.admitted.rewarded;
    }

-- The other way round: a setup with levels that meet these conditions gets the plan of its levels.
pub evaluate-admits :
    (plan_id : ℕ) (s : Setup) (ctx : AccountContext) (entry stop target : Decimal)
    → s.entry_trigger ≡ some entry
    → s.stop_reference ≡ some stop
    → s.target_reference ≡ some target
    → IsAdmitted s ctx entry stop target (plan_of plan_id s ctx.config entry stop target)
    → evaluate plan_id s ctx ≡ Verdict.planned (plan_of plan_id s ctx.config entry stop target)
unfolding evaluate evaluate_levels
evaluate-admits plan_id s ctx entry stop target e f g h =
    ground (arith, e, f, g, h.apart, h.sized, h.limits, h.rewarded, h.ordered)
