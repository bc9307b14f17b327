-- ===== src/Thesis/Short/Laws.antt =====
-- What an update of a short thesis leaves alone, and when it goes through.
use alpha_runtime_v.Base.{◌≡◌, ◌≢◌, refl, inl, inr, true, false, none, some, Option-cases, arith}
use alpha_runtime_v.Base.Int.{pos}
use alpha_runtime_v.Thesis.Model.{
  Floats, ThesisCandidate, TickFlowSnapshot, LevelMemorySnapshot, BarSnapshot, BarEvent, Score,
  no_score, support, buyers_in_control,
}
use alpha_runtime_v.Thesis.Long.Laws.{
  Keeps, Keeps-trans, invalidate-Keeps, settle-Keeps, settle_through, risk_condition-total,
}
use alpha_runtime_v.Thesis.Short.{
  raise_rejection, invalidation_before_break, invalidation_short, commit_conditions_short,
  score_before_break, risk_short, update_broken, update_before_break,
  update_vwap_failed_reclaim_short,
}

module _ {F : Type 0} (fl : Floats F) (snap : BarSnapshot F) (level : LevelMemorySnapshot)
    (tick : TickFlowSnapshot F) (trigger : BarEvent) where
  raise_rejection-Keeps : (t : ThesisCandidate F) → Keeps t (raise_rejection snap trigger t)
  unfolding raise_rejection
  raise_rejection-Keeps t = ground arith

  update_broken-Keeps :
      (s : Score F) (t : ThesisCandidate F)
      → Keeps t (update_broken fl snap level tick trigger s t).0
  unfolding update_broken
  update_broken-Keeps s t = elim (Option-cases (invalidation_short fl snap trigger)) [
    | inl e ↦ rw (e, update_broken) (settle-Keeps fl _ _ t)
    | inr (reason, e) ↦ rw (e, update_broken) (invalidate-Keeps fl reason t)
  ]

  confirmed-Keeps : (t : ThesisCandidate F) → Keeps t (record t { pre_vwap_break = false })
  confirmed-Keeps t = ground arith

  update_before_break-Keeps :
      (t : ThesisCandidate F) → Keeps t (update_before_break fl snap level tick trigger t).0
  unfolding update_before_break
  update_before_break-Keeps t = elim (Option-cases (invalidation_before_break fl snap)) [
    | inr (reason, e) ↦ rw (e, update_before_break) (invalidate-Keeps fl reason t)
    | inl e ↦
        rw (e, update_before_break)
          (ground (
            arith,
            Keeps-trans fl (confirmed-Keeps t) (
                update_broken-Keeps (support fl 25 (no_score fl))
                  (record t { pre_vwap_break = false })),
            settle-Keeps fl (commit_conditions_short fl snap) (score_before_break fl snap) t,
          ))
  ]

  pub update_vwap_failed_reclaim_short-Keeps :
      (t : ThesisCandidate F)
      → Keeps t (update_vwap_failed_reclaim_short fl snap level tick trigger t).0
  unfolding update_vwap_failed_reclaim_short
  update_vwap_failed_reclaim_short-Keeps t =
      let raised = raise_rejection snap trigger t in
      let first = raise_rejection-Keeps t in
      ground (
        arith,
        Keeps-trans fl first (update_before_break-Keeps raised),
        Keeps-trans fl first (update_broken-Keeps (no_score fl) raised),
        Keeps-trans fl first (invalidate-Keeps fl buyers_in_control raised),
      )

  module _ (moved : snap.atr_14 ≢ some (pos 0)) where
    commit_conditions_short-total :
        (t : ThesisCandidate F) → commit_conditions_short fl snap t ≢ none
    unfolding commit_conditions_short
    commit_conditions_short-total t =
        ground (arith, risk_condition-total fl (risk_short snap t) snap.atr_14 moved)

    update_broken_through :
        (s : Score F) (t : ThesisCandidate F)
        → (update_broken fl snap level tick trigger s t).1 ≡ true
    unfolding update_broken
    update_broken_through s t = elim (Option-cases (invalidation_short fl snap trigger)) [
      | inl e ↦ rw (e, update_broken) (settle_through fl _ _ t commit_conditions_short-total)
      | inr (reason, e) ↦ rw (e, update_broken) refl
    ]

    update_before_break_through :
        (t : ThesisCandidate F) → (update_before_break fl snap level tick trigger t).1 ≡ true
    unfolding update_before_break
    update_before_break_through t = elim (Option-cases (invalidation_before_break fl snap)) [
      | inr (reason, e) ↦ rw (e, update_before_break) refl
      | inl e ↦
          rw (e, update_before_break)
            (ground (
              arith,
              update_broken_through (support fl 25 (no_score fl))
                  (record t { pre_vwap_break = false }),
              settle_through fl (commit_conditions_short fl snap) (score_before_break fl snap) t
                  commit_conditions_short-total,
            ))
    ]

    pub update_vwap_failed_reclaim_short_through :
        (t : ThesisCandidate F)
        → (update_vwap_failed_reclaim_short fl snap level tick trigger t).1 ≡ true
    unfolding update_vwap_failed_reclaim_short
    update_vwap_failed_reclaim_short_through t =
        let raised = raise_rejection snap trigger t in
        ground
          (arith, update_before_break_through raised, update_broken_through (no_score fl) raised)
