-- ===== src/Thesis/Long/Laws.antt =====
-- What an update leaves alone, and when it goes through.
use alpha_runtime_v.Base.{
  ◌≡◌, ◌≢◌, refl, ◌⊎◌, inl, inr, true, Option, none, some, List, Option-cases, arith,
}
use alpha_runtime_v.Base.Int.{pos, eq_of_parts}
use alpha_runtime_v.Execution.Models.{Decimal}
use alpha_runtime_v.Thesis.Model.{
  Floats, ThesisState, ThesisCandidate, TickFlowSnapshot, LevelMemorySnapshot, BarSnapshot,
  BarEvent, InvalidationReason, CommitCondition, Score,
}
use alpha_runtime_v.Thesis.Long.{
  deepen_sweep, invalidate, invalidation_long, clamp, settle, risk_long, risk_condition,
  commit_conditions_long, update_fake_breakdown_long,
}

-- An update changes no plan and no age, and of states only to an invalidated one.
pub record Keeps {F : Type 0} (t r : ThesisCandidate F) : Type 0 where
  pub same_type : r.thesis_type ≡ t.thesis_type
  pub same_age : r.bars_alive ≡ t.bars_alive
  pub same_entry : r.entry ≡ t.entry
  pub same_stop : r.stop ≡ t.stop
  pub same_target : r.target ≡ t.target
  pub state_of : (r.state ≡ t.state) ⊎ (r.state ≡ ThesisState.invalidated)

module _ {F : Type 0} (fl : Floats F) where
  pub invalidate-Keeps :
      (reason : InvalidationReason) (t : ThesisCandidate F) → Keeps t (invalidate reason t)
  unfolding invalidate
  invalidate-Keeps reason t = record {
    same_type = refl;
    same_age = refl;
    same_entry = refl;
    same_stop = refl;
    same_target = refl;
    state_of = inr refl;
  }

  pub settle-Keeps :
      (conditions : ThesisCandidate F → Option (List CommitCondition)) (s : Score F)
      (t : ThesisCandidate F)
      → Keeps t (settle fl conditions s t).0
  unfolding settle
  settle-Keeps conditions s t = ground arith

  pub Keeps-trans : {t u v : ThesisCandidate F} → Keeps t u → Keeps u v → Keeps t v
  Keeps-trans h k = ground arith

  deepen_sweep-Keeps :
      (snap : BarSnapshot F) (trigger : BarEvent) (t : ThesisCandidate F)
      → Keeps t (deepen_sweep snap trigger t)
  unfolding deepen_sweep
  deepen_sweep-Keeps snap trigger t = ground arith

  pub update_fake_breakdown_long-Keeps :
      (snap : BarSnapshot F) (level : LevelMemorySnapshot) (tick : TickFlowSnapshot F)
      (trigger : BarEvent) (t : ThesisCandidate F)
      → Keeps t (update_fake_breakdown_long fl snap level tick trigger t).0
  unfolding update_fake_breakdown_long
  update_fake_breakdown_long-Keeps snap level tick trigger t =
      let swept = deepen_sweep snap trigger t in
      elim (Option-cases (invalidation_long fl snap trigger swept)) [
        | inl e ↦
            rw (e, update_fake_breakdown_long)
              (Keeps-trans (deepen_sweep-Keeps snap trigger t) (settle-Keeps _ _ swept))
        | inr (reason, e) ↦
            rw (e, update_fake_breakdown_long)
              (Keeps-trans (deepen_sweep-Keeps snap trigger t) (invalidate-Keeps reason swept))
      ]

  -- The risk condition divides by the ATR only where the anchor and the ATR are known.
  pub risk_condition-total :
      (risk atr : Option Decimal) → atr ≢ some (pos 0) → risk_condition fl risk atr ≢ none
  unfolding risk_condition
  risk_condition-total none atr h = ground arith
  risk_condition-total (some risk) none h = ground arith
  risk_condition-total (some risk) (some atr) h = ground (arith, h, eq_of_parts atr (pos 0))

  pub settle_through :
      (conditions : ThesisCandidate F → Option (List CommitCondition)) (s : Score F)
      (t : ThesisCandidate F)
      → ((u : ThesisCandidate F) → conditions u ≢ none)
      → (settle fl conditions s t).1 ≡ true
  unfolding settle
  settle_through conditions s t h = ground (
    arith,
    h (record t { confidence = clamp fl (fl.add t.confidence s.delta); evidence = s.evidence }),
  )

  commit_conditions_long-total :
      (snap : BarSnapshot F) (t : ThesisCandidate F)
      → snap.atr_14 ≢ some (pos 0)
      → commit_conditions_long fl snap t ≢ none
  unfolding commit_conditions_long
  commit_conditions_long-total snap t h =
      ground (arith, risk_condition-total (risk_long snap t) snap.atr_14 h)

  pub update_fake_breakdown_long_through :
      (snap : BarSnapshot F) (level : LevelMemorySnapshot) (tick : TickFlowSnapshot F)
      (trigger : BarEvent) (t : ThesisCandidate F)
      → snap.atr_14 ≢ some (pos 0)
      → (update_fake_breakdown_long fl snap level tick trigger t).1 ≡ true
  unfolding update_fake_breakdown_long
  update_fake_breakdown_long_through snap level tick trigger t h =
      let swept = deepen_sweep snap trigger t in
      elim (Option-cases (invalidation_long fl snap trigger swept)) [
        | inl e ↦
            rw (e, update_fake_breakdown_long)
              (settle_through _ _ swept (λ u. commit_conditions_long-total snap u h))
        | inr (reason, e) ↦ rw (e, update_fake_breakdown_long) refl
      ]
