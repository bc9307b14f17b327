-- ===== src/Thesis/Lifecycle/Confidence.antt =====
-- The bounds of the confidence of a thesis.
use alpha_runtime_v.Base.{suc, ◌≡◌, inl, inr, true, false, Option, some, Bool-cases, arith}
use alpha_runtime_v.Base.Int.{pos}
use alpha_runtime_v.Execution.Models.{Decimal}
use alpha_runtime_v.Thesis.Model.{
  Floats, ThesisCandidate, TickFlowSnapshot, LevelMemorySnapshot, BarSnapshot, BarEvent,
  ThesisState, Score, no_score, support,
}
use alpha_runtime_v.Thesis.Long.{
  deepen_sweep, invalidate, clamp, settle, score_long, commit_conditions_long,
  update_fake_breakdown_long,
}
use alpha_runtime_v.Thesis.Short.{
  raise_rejection, score_before_break, score_short, commit_conditions_short, update_broken,
  update_before_break, update_vwap_failed_reclaim_short,
}
use alpha_runtime_v.Thesis.Lifecycle.{
  with_target, plan_by_type, compute_entry_plan, advance_state, update_by_type, update_thesis,
}

-- What IEEE comparisons of numbers that are no NaN satisfy.
pub record FloatLaws {F : Type 0} (fl : Floats F) : Type 0 where
  pub asym : (a b : F) → fl.lt a b ≡ true → fl.lt b a ≡ false
  pub zero_one : fl.lt (fl.lit (pos 0)) (fl.lit (pos 100)) ≡ true

-- A confidence from 0 to 1.
pub record IsBounded {F : Type 0} (fl : Floats F) (c : F) : Type 0 where
  pub not_negative : fl.lt c (fl.lit (pos 0)) ≡ false
  pub not_above : fl.lt (fl.lit (pos 100)) c ≡ false

module _ {F : Type 0} (fl : Floats F) (laws : FloatLaws fl) where
  irrefl : (a : F) → fl.lt a a ≡ false
  irrefl a = elim (Bool-cases (fl.lt a a)) [ inl e ↦ laws.asym a a e | inr e ↦ e ]

  clamp-IsBounded : (x : F) → IsBounded fl (clamp fl x)
  unfolding clamp
  clamp-IsBounded x = ground (
    arith,
    laws.zero_one,
    laws.asym (fl.lit (pos 0)) (fl.lit (pos 100)),
    laws.asym (fl.lit (pos 0)) x,
    laws.asym x (fl.lit (pos 100)),
    irrefl (fl.lit (pos 0)),
    irrefl (fl.lit (pos 100)),
  )

  settle-IsBounded :
      (conditions : ThesisCandidate F → Option _) (s : Score F) (t : ThesisCandidate F)
      → IsBounded fl (settle fl conditions s t).0.confidence
  unfolding settle
  settle-IsBounded conditions s t = ground (arith, clamp-IsBounded (fl.add t.confidence s.delta))

  module _ (snap : BarSnapshot F) (level : LevelMemorySnapshot) (tick : TickFlowSnapshot F)
      (trigger : BarEvent) where
    swept-same : (t : ThesisCandidate F) → (deepen_sweep snap trigger t).confidence ≡ t.confidence
    unfolding deepen_sweep
    swept-same t = ground arith

    raised-same :
        (t : ThesisCandidate F) → (raise_rejection snap trigger t).confidence ≡ t.confidence
    unfolding raise_rejection
    raised-same t = ground arith

    long-IsBounded :
        (t : ThesisCandidate F)
        → IsBounded fl t.confidence
        → IsBounded fl (update_fake_breakdown_long fl snap level tick trigger t).0.confidence
    unfolding update_fake_breakdown_long invalidate
    long-IsBounded t h =
        let swept = deepen_sweep snap trigger t in
        ground (
          arith,
          swept-same t,
          settle-IsBounded (commit_conditions_long fl snap) (score_long fl snap level tick swept)
              swept,
          h,
        )

    broken-IsBounded :
        (s : Score F) (t : ThesisCandidate F)
        → IsBounded fl t.confidence
        → IsBounded fl (update_broken fl snap level tick trigger s t).0.confidence
    unfolding update_broken invalidate
    broken-IsBounded s t h = ground (
      arith,
      settle-IsBounded (commit_conditions_short fl snap) (score_short fl snap level tick t s) t,
      h,
    )

    before_break-IsBounded :
        (t : ThesisCandidate F)
        → IsBounded fl t.confidence
        → IsBounded fl (update_before_break fl snap level tick trigger t).0.confidence
    unfolding update_before_break invalidate
    before_break-IsBounded t h = ground (
      arith,
      broken-IsBounded (support fl 25 (no_score fl)) (record t { pre_vwap_break = false }) h,
      settle-IsBounded (commit_conditions_short fl snap) (score_before_break fl snap) t,
      h,
    )

    short-IsBounded :
        (t : ThesisCandidate F)
        → IsBounded fl t.confidence
        → IsBounded fl (update_vwap_failed_reclaim_short fl snap level tick trigger t).0.confidence
    unfolding update_vwap_failed_reclaim_short invalidate
    short-IsBounded t h =
        let raised = raise_rejection snap trigger t in
        let r : IsBounded fl raised.confidence = rw (raised-same t) h in
        ground (arith, before_break-IsBounded raised r, broken-IsBounded (no_score fl) raised r, r)

    planned-same :
        (ten : Decimal) (t : ThesisCandidate F)
        → (compute_entry_plan ten snap t).confidence ≡ t.confidence
    unfolding compute_entry_plan plan_by_type with_target
    planned-same ten t = ground arith

    advanced-same :
        (ten : Decimal) (t : ThesisCandidate F)
        → (advance_state fl ten snap t).confidence ≡ t.confidence
    unfolding advance_state
    advanced-same ten t = ground (arith, planned-same ten (record t { state = ThesisState.ready }))

    typed-IsBounded :
        (t : ThesisCandidate F)
        → IsBounded fl t.confidence
        → IsBounded fl (update_by_type fl snap level tick trigger t).0.confidence
    unfolding update_by_type
    typed-IsBounded t h = ground (arith, long-IsBounded t h, short-IsBounded t h)

    -- Where comparisons of floats are asymmetric and 0 is below 1, an update leaves a confidence from 0 to 1 in
    -- these bounds, whether it goes through or raises.
    pub update_thesis-IsBounded :
        (ten : Decimal) (t : ThesisCandidate F)
        → IsBounded fl t.confidence
        → IsBounded fl (update_thesis fl ten snap level tick trigger t).0.confidence
    unfolding update_thesis
    update_thesis-IsBounded ten t h =
        let aged : ThesisCandidate F = record t {
          bars_alive = suc t.bars_alive;
          updated_at = some trigger.timestamp;
        } in
        let r = update_by_type fl snap level tick trigger aged in
        ground (arith, typed-IsBounded aged h, advanced-same ten r.0)
