-- ===== src/Thesis/Engine/Stalls.antt =====
-- What a bar does whose ATR is 0.
use alpha_runtime_v.Base.{
  ℕ, suc, ◌≡◌, ◌≢◌, ◌∙◌, refl, inl, inr, false, Option, none, some, List, [], Option-cases, arith,
}
use alpha_runtime_v.Base.Int.{pos}
use alpha_runtime_v.Base.Dict.{Dict, nat_eq, lookup, insert, lookup-insert}
use alpha_runtime_v.Execution.Models.{Decimal}
use alpha_runtime_v.Thesis.Model.{
  Floats, ThesisType, ThesisCandidate, ActiveThesis, TickFlowSnapshot, LevelMemorySnapshot,
  BarSnapshot, BarEvent, CommitCondition, Score,
}
use alpha_runtime_v.Thesis.Long.{
  deepen_sweep, invalidation_long, clamp, settle, score_long, risk_condition,
  commit_conditions_long, update_fake_breakdown_long,
}
use alpha_runtime_v.Thesis.Lifecycle.{update_by_type, update_thesis}
use alpha_runtime_v.Thesis.Engine.{update_active}
use alpha_runtime_v.Thesis.State.{ThesisEngine}

-- A thesis that is one bar older in the same state.
pub record IsStalled {F : Type 0} (t r : ThesisCandidate F) : Type 0 where
  pub same_state : r.state ≡ t.state
  pub older : r.bars_alive ≡ suc t.bars_alive

module _ {F : Type 0} (fl : Floats F) where
  settle_raises :
      (conditions : ThesisCandidate F → Option (List CommitCondition)) (s : Score F)
      (t : ThesisCandidate F)
      → ((u : ThesisCandidate F) → u.sweep_low ≡ t.sweep_low → conditions u ≡ none)
      → ((settle fl conditions s t).1 ≡ false)
        × ((settle fl conditions s t).0.state ≡ t.state)
        × ((settle fl conditions s t).0.bars_alive ≡ t.bars_alive)
  unfolding settle
  settle_raises conditions s t h =
      rw
        (
          h
              (record t {
                confidence = clamp fl (fl.add t.confidence s.delta);
                evidence = s.evidence;
              })
              refl,
          settle,
        )
        (refl, refl, refl)

  no_conditions :
      (snap : BarSnapshot F) (u : ThesisCandidate F) (low : Decimal)
      → u.sweep_low ≡ some low
      → snap.atr_14 ≡ some (pos 0)
      → commit_conditions_long fl snap u ≡ none
  unfolding commit_conditions_long risk_condition
  no_conditions snap u low e z = ground (arith, e, z)

  never_lost :
      (snap : BarSnapshot F) (trigger : BarEvent) (t : ThesisCandidate F) (low : Decimal)
      → t.sweep_low ≡ some low
      → (deepen_sweep snap trigger t).sweep_low ≢ none
  unfolding deepen_sweep
  never_lost snap trigger t low e = ground (arith, e)

  swept_state :
      (snap : BarSnapshot F) (trigger : BarEvent) (t : ThesisCandidate F)
      → (deepen_sweep snap trigger t).state ≡ t.state
  unfolding deepen_sweep
  swept_state snap trigger t = ground arith

  swept_age :
      (snap : BarSnapshot F) (trigger : BarEvent) (t : ThesisCandidate F)
      → (deepen_sweep snap trigger t).bars_alive ≡ t.bars_alive
  unfolding deepen_sweep
  swept_age snap trigger t = ground arith

  found :
      (symbol : ℕ) (b : ActiveThesis F) (active : Dict ℕ (ActiveThesis F))
      → lookup symbol (insert symbol b active) ≡ some b
  found symbol b active = ground (arith, lookup-insert symbol symbol b active)

  -- The thesis that a bar made one bar older.
  abbrev pub one_older : BarEvent → ThesisCandidate F → ThesisCandidate F
  one_older trigger t = record t {
    bars_alive = suc t.bars_alive;
    updated_at = some trigger.timestamp;
  }

  swept_kept :
      (snap : BarSnapshot F) (trigger : BarEvent) (t : ThesisCandidate F) (low : Decimal)
      → t.sweep_low ≡ some low
      → ((l : Decimal) × ((deepen_sweep snap trigger t).sweep_low ≡ some l))
  swept_kept snap trigger t low e = elim (Option-cases (deepen_sweep snap trigger t).sweep_low) [
    | inr found ↦ found
    | inl n ↦ absurd (never_lost snap trigger t low e n)
  ]

  long_raises :
      (snap : BarSnapshot F) (level : LevelMemorySnapshot) (tick : TickFlowSnapshot F)
      (trigger : BarEvent) (t : ThesisCandidate F) (low : Decimal)
      → t.sweep_low ≡ some low
      → snap.atr_14 ≡ some (pos 0)
      → invalidation_long fl snap trigger (deepen_sweep snap trigger t) ≡ none
      → ((update_fake_breakdown_long fl snap level tick trigger t).1 ≡ false)
        × ((update_fake_breakdown_long fl snap level tick trigger t).0.state ≡ t.state)
        × ((update_fake_breakdown_long fl snap level tick trigger t).0.bars_alive ≡ t.bars_alive)
  unfolding update_fake_breakdown_long
  long_raises snap level tick trigger t low e z n =
      let swept = deepen_sweep snap trigger t in
      let kept = swept_kept snap trigger t low e in
      let r =
        settle_raises (commit_conditions_long fl snap) (score_long fl snap level tick swept) swept
          (λ u same. no_conditions snap u kept.0 (same ∙ kept.1) z) in
      rw (n, update_fake_breakdown_long)
        (r.0, r.1 ∙ swept_state snap trigger t, r.2 ∙ swept_age snap trigger t)

  update_by_type-long :
      (snap : BarSnapshot F) (level : LevelMemorySnapshot) (tick : TickFlowSnapshot F)
      (trigger : BarEvent) (t : ThesisCandidate F)
      → t.thesis_type ≡ ThesisType.fake_breakdown_reclaim_long
      → update_by_type fl snap level tick trigger t
        ≡ update_fake_breakdown_long fl snap level tick trigger t
  unfolding update_by_type
  update_by_type-long snap level tick trigger t e = ground (arith, e)

  update_thesis-raised :
      (ten : Decimal) (snap : BarSnapshot F) (level : LevelMemorySnapshot)
      (tick : TickFlowSnapshot F) (trigger : BarEvent) (t : ThesisCandidate F)
      → t.thesis_type ≡ ThesisType.fake_breakdown_reclaim_long
      → (update_fake_breakdown_long fl snap level tick trigger (one_older trigger t)).1 ≡ false
      → update_thesis fl ten snap level tick trigger t
        ≡ update_fake_breakdown_long fl snap level tick trigger (one_older trigger t)
  unfolding update_thesis
  update_thesis-raised ten snap level tick trigger t e r =
      ground (arith, update_by_type-long snap level tick trigger (one_older trigger t) e, r)

  -- At an ATR of 0 the update of a long thesis with a sweep low raises where it invalidates nothing: the bar
  -- sends no event, and the thesis stays one bar older in its state, however long it has waited.
  pub zero_atr_stalls :
      (ten : Decimal) (symbol : ℕ) (snap : BarSnapshot F) (level : LevelMemorySnapshot)
      (tick : TickFlowSnapshot F) (trigger : BarEvent) (a : ActiveThesis F) (e : ThesisEngine F)
      (low : Decimal)
      → a.dominant.thesis_type ≡ ThesisType.fake_breakdown_reclaim_long
      → a.dominant.sweep_low ≡ some low
      → snap.atr_14 ≡ some (pos 0)
      → invalidation_long fl snap trigger (deepen_sweep snap trigger (one_older trigger a.dominant))
        ≡ none
      → ((update_active fl ten symbol snap level tick trigger a e).1 ≡ [])
        × ((b : ActiveThesis F) × (lookup symbol
                (update_active fl ten symbol snap level tick trigger a e).0.active
              ≡ some b)
            × IsStalled a.dominant b.dominant
            × (b.flip ≡ a.flip))
  unfolding update_active
  zero_atr_stalls ten symbol snap level tick trigger a e low type anchor z n =
      let r = long_raises snap level tick trigger (one_older trigger a.dominant) low anchor z n in
      let same = update_thesis-raised ten snap level tick trigger a.dominant type r.0 in
      let raised =
        update_fake_breakdown_long fl snap level tick trigger (one_older trigger a.dominant) in
      rw (same, update_active)
        (rw r.0 (
          refl,
          (
            record a { dominant = raised.0 },
            found symbol (record a { dominant = raised.0 }) e.active,
            record { same_state = r.1; older = r.2 },
            refl,
          ),
        ))
