-- ===== src/Thesis/Engine/Live.antt =====
-- The theses that the engine keeps, over any events.
use alpha_runtime_v.Base.{
  ℕ, ◌≡◌, ◌≢◌, refl, ap, subst, inl, inr, Bool, true, false, ◌==◌, Option, none, some, Option-cases,
  Bool-cases, List, [], arith,
}
use alpha_runtime_v.Base.Int.{pos}
use alpha_runtime_v.Base.Dict.{Dict, nat_eq, lookup, insert, erase, lookup-insert, lookup-erase}
use alpha_runtime_v.Execution.Models.{Decimal}
use alpha_runtime_v.Thesis.Model.{
  Floats, ThesisState, ThesisType, ThesisCandidate, ActiveThesis, TickFlowSnapshot,
  LevelMemorySnapshot, BarSnapshot, BarEvent,
}
use alpha_runtime_v.Thesis.Flow.{TradeRecord}
use alpha_runtime_v.Thesis.Lifecycle.{update_thesis}
use alpha_runtime_v.Thesis.Detection.{detect_thesis, build_flip_candidate, new_thesis}
use alpha_runtime_v.Thesis.Lifecycle.Ages.{Stage, IsLive, Updated, update_thesis-Updated}
use alpha_runtime_v.Thesis.Engine.{detect, update_active}
use alpha_runtime_v.Thesis.State.{
  ThesisEngine, keep_window, update_session_baseline, promote_from, promote, put, emit_current,
}

-- A flip is as it was made: watching, of age 0, at a confidence of 0.05, with no anchor, plan or evidence.
pub record IsUntouched {F : Type 0} (fl : Floats F) (f : ThesisCandidate F) : Type 0 where
  pub watching : f.state ≡ ThesisState.watching
  pub newborn : f.bars_alive ≡ 0
  pub confidence : f.confidence ≡ fl.lit (pos 5)
  pub no_low : f.sweep_low ≡ none
  pub no_high : f.rejection_high ≡ none
  pub no_plan : (f.entry ≡ none) × (f.stop ≡ none) × (f.target ≡ none)
  pub no_evidence : f.evidence ≡ []
  pub no_time : f.updated_at ≡ none

abbrev pub IsFresh : {F : Type 0} → Floats F → Option (ThesisCandidate F) → Type 0
IsFresh fl none = Unit
IsFresh fl (some f) = IsUntouched fl f

pub record IsTracked {F : Type 0} (fl : Floats F) (a : ActiveThesis F) : Type 0 where
  pub live : IsLive a.dominant
  pub fresh : IsFresh fl a.flip

abbrev Tracked? : {F : Type 0} → Floats F → Option (ActiveThesis F) → Type 0
Tracked? fl none = Unit
Tracked? fl (some a) = IsTracked fl a

-- Every thesis that the engine keeps is live, and its flip as it was made.
abbrev pub Tracks : {F : Type 0} → Floats F → Dict ℕ (ActiveThesis F) → Type 0
Tracks {F} fl active =
    (symbol : ℕ) (a : ActiveThesis F) → lookup symbol active ≡ some a → IsTracked fl a

module _ {F : Type 0} (fl : Floats F) where
  some_same : (a b : ActiveThesis F) → some a ≡ some b → a ≡ b
  some_same a b e = cc e

  insert-Tracks :
      (symbol : ℕ) (a : ActiveThesis F) (active : Dict ℕ (ActiveThesis F))
      → IsTracked fl a
      → Tracks fl active
      → Tracks fl (insert symbol a active)
  insert-Tracks symbol a active t h k b e = elim (Bool-cases (k == symbol)) [
    | inl same ↦
        subst (λ x. IsTracked fl x)
          (some_same a b (rw (lookup-insert k symbol a active, same) at e)) t
    | inr other ↦ h k b (rw (lookup-insert k symbol a active, other) at e)
  ]

  erase-Tracks :
      (symbol : ℕ) (active : Dict ℕ (ActiveThesis F))
      → Tracks fl active
      → Tracks fl (erase symbol active)
  erase-Tracks symbol active h k b e = h k b (ground (arith, lookup-erase k symbol active, e))

  put-Tracks :
      (symbol : ℕ) (o : Option (ActiveThesis F)) (active : Dict ℕ (ActiveThesis F))
      → Tracked? fl o
      → Tracks fl active
      → Tracks fl (put symbol o active)
  put-Tracks symbol none active t h = erase-Tracks symbol active h
  put-Tracks symbol (some a) active t h = insert-Tracks symbol a active t h

  stays :
      (a : ActiveThesis F) (s : ThesisState)
      → a.dominant.state ≡ s
      → Stage s a.dominant.bars_alive
      → promote a ≡ some a
  unfolding promote promote_from
  stays a ThesisState.watching e h = ap (λ x. promote_from x a) e
  stays a ThesisState.building e h = ap (λ x. promote_from x a) e
  stays a ThesisState.ready e h = ap (λ x. promote_from x a) e
  stays a ThesisState.expired e h = ap (λ x. promote_from x a) e
  stays a ThesisState.order_working e h = absurd h
  stays a ThesisState.triggered e h = absurd h
  stays a ThesisState.invalidated e h = absurd h
  stays a ThesisState.flipped e h = absurd h

  fresh-IsLive :
      (f : ThesisCandidate F)
      → f.bars_alive ≡ 0
      → IsLive (record f { state = ThesisState.watching })
  fresh-IsLive f e = record { stage = omega (arith, e); planned = tt }

  flips :
      (a : ActiveThesis F)
      → a.dominant.state ≡ ThesisState.invalidated
      → IsFresh fl a.flip
      → Tracked? fl (promote a)
  unfolding promote promote_from
  flips a e f = elim (Option-cases a.flip) [
    | inl n ↦ rw (e, promote) (rw (n, promote_from) tt)
    | inr (g, n) ↦
        let h : IsUntouched fl g = rw n at f in
        rw (e, promote)
          (rw (n, promote_from) (record { live = fresh-IsLive g h.newborn; fresh = tt }))
  ]

  promoted : (a : ActiveThesis F) → Updated a.dominant → IsFresh fl a.flip → Tracked? fl (promote a)
  promoted a (inl l) f = rw (stays a a.dominant.state refl l.stage) (record { live = l; fresh = f })
  promoted a (inr e) f = flips a e f

module _ {F : Type 0} where
  pub emit_current-same : (symbol : ℕ) (e : ThesisEngine F) → (emit_current symbol e).0 ≡ e
  unfolding emit_current
  emit_current-same symbol e = ground arith

  pub baseline-same :
      (symbol ts : ℕ) (e : ThesisEngine F) → (update_session_baseline symbol ts e).active ≡ e.active
  unfolding update_session_baseline
  baseline-same symbol ts e = ground arith

  pub window-same :
      (symbol : ℕ) (window : List TradeRecord) (e : ThesisEngine F)
      → (keep_window symbol window e).active ≡ e.active
  unfolding keep_window
  window-same symbol window e = ground arith

module _ {F : Type 0} (fl : Floats F) (symbol : ℕ) (snap : BarSnapshot F)
    (level : LevelMemorySnapshot) (trigger : BarEvent) where
  new_thesis-IsLive :
      (type : ThesisType) (c : ℕ) (low high : Option Decimal) (early : Bool) (time : Option ℕ)
      → IsLive (new_thesis fl type c snap low high early time)
  unfolding new_thesis
  new_thesis-IsLive type c low high early time = record { stage = omega arith; planned = tt }

  Live? : Option (ThesisCandidate F) → Type 0
  Live? none = Unit
  Live? (some t) = IsLive t

  detect_thesis-IsLive : Live? (detect_thesis fl snap level trigger)
  unfolding detect_thesis Live?
  detect_thesis-IsLive = ground (
    arith,
    new_thesis-IsLive ThesisType.vwap_failed_reclaim_short 10 none (some trigger.high) true
        (some trigger.timestamp),
    new_thesis-IsLive ThesisType.fake_breakdown_reclaim_long 10 (some trigger.low) none false
        (some trigger.timestamp),
    new_thesis-IsLive ThesisType.vwap_failed_reclaim_short 15 none (some trigger.high) false
        (some trigger.timestamp),
  )

  flip-IsFresh : (t : ThesisCandidate F) → IsFresh fl (some (build_flip_candidate fl snap t))
  unfolding build_flip_candidate new_thesis
  flip-IsFresh t = record {
    watching = refl;
    newborn = refl;
    confidence = refl;
    no_low = refl;
    no_high = refl;
    no_plan = (refl, refl, refl);
    no_evidence = refl;
    no_time = refl;
  }

  pub detect-Tracks :
      (e : ThesisEngine F)
      → Tracks fl e.active
      → Tracks fl (detect fl symbol snap level trigger e).active
  unfolding detect Live?
  detect-Tracks e h = elim (Option-cases (detect_thesis fl snap level trigger)) [
    | inl n ↦ rw (n, detect) h
    | inr (t, n) ↦
        rw (n, detect)
          (insert-Tracks fl symbol _ e.active
            (record { live = rw n at detect_thesis-IsLive; fresh = flip-IsFresh t }) h)
  ]

  pub update_active-Tracks :
      (ten : Decimal) (tick : TickFlowSnapshot F) (a : ActiveThesis F) (e : ThesisEngine F)
      → snap.atr_14 ≢ some (pos 0)
      → IsTracked fl a
      → Tracks fl e.active
      → Tracks fl (update_active fl ten symbol snap level tick trigger a e).0.active
  unfolding update_active
  update_active-Tracks ten tick a e moved t h =
      let u = update_thesis-Updated fl ten snap level tick trigger a.dominant moved t.live in
      let after = record a {
        dominant = (update_thesis fl ten snap level tick trigger a.dominant).0;
      } in
      let kept = put-Tracks fl symbol (promote after) e.active (promoted fl after u.1 t.fresh) h in
      rw (u.0, update_active)
        (rw (emit_current-same symbol (record e { active = put symbol (promote after) e.active }))
          kept)
