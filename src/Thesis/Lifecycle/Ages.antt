-- ===== src/Thesis/Lifecycle/Ages.antt =====
-- How long a thesis waits, and what one that is ready has.
use alpha_runtime_v.Base.{
  ℕ, suc, ◌≤◌, ◌<◌, ◌≡◌, ◌≢◌, refl, sym, subst, ◌∙◌, Bool-cases, ◌⊎◌, inl, inr, true, some, is_some,
  arith,
}
use alpha_runtime_v.Base.Int.{pos}
use alpha_runtime_v.Execution.Models.{Decimal}
use alpha_runtime_v.Thesis.Model.{
  Floats, ThesisState, ThesisCandidate, TickFlowSnapshot, LevelMemorySnapshot, BarSnapshot,
  BarEvent,
}
use alpha_runtime_v.Thesis.Long.Laws.{
  Keeps, update_fake_breakdown_long-Keeps, update_fake_breakdown_long_through,
}
use alpha_runtime_v.Thesis.Short.Laws.{
  update_vwap_failed_reclaim_short-Keeps, update_vwap_failed_reclaim_short_through,
}
use alpha_runtime_v.Thesis.Lifecycle.{
  at_least, necessary_conditions_met, plan_by_type, with_target, compute_entry_plan, advance_state,
  update_by_type, update_thesis,
}

-- A thesis waits no longer than its state allows.
abbrev pub Stage : ThesisState → ℕ → Type 0
Stage ThesisState.watching age = age ≤ 8
Stage ThesisState.building age = age ≤ 20
Stage ThesisState.ready age = Unit
Stage ThesisState.expired age = 8 < age
Stage ThesisState.order_working age = ⊥
Stage ThesisState.triggered age = ⊥
Stage ThesisState.invalidated age = ⊥
Stage ThesisState.flipped age = ⊥

abbrev pub Planned : {F : Type 0} → ThesisState → ThesisCandidate F → Type 0
Planned ThesisState.ready t = (is_some t.entry ≡ true) × (is_some t.stop ≡ true)
Planned _ t = Unit

pub record IsLive {F : Type 0} (t : ThesisCandidate F) : Type 0 where
  pub stage : Stage t.state t.bars_alive
  pub planned : Planned t.state t

-- A thesis after an update: live, or invalidated.
abbrev pub Updated : {F : Type 0} → ThesisCandidate F → Type 0
Updated t = IsLive t ⊎ (t.state ≡ ThesisState.invalidated)

module _ {F : Type 0} (fl : Floats F) (ten : Decimal) (snap : BarSnapshot F) where
  pub compute_entry_plan-Planned :
      (t : ThesisCandidate F)
      → (is_some (compute_entry_plan ten snap t).entry ≡ true)
        × (is_some (compute_entry_plan ten snap t).stop ≡ true)
        × ((compute_entry_plan ten snap t).state ≡ t.state)
        × ((compute_entry_plan ten snap t).bars_alive ≡ t.bars_alive)
  unfolding compute_entry_plan plan_by_type with_target
  compute_entry_plan-Planned t = ground arith

  Live_at :
      (s : ThesisState) (u : ThesisCandidate F)
      → u.state ≡ s
      → Stage s u.bars_alive
      → Planned s u
      → IsLive u
  Live_at s u e h p = record {
    stage = subst (λ x. Stage x u.bars_alive) (sym e) h;
    planned = subst (λ x. Planned x u) (sym e) p;
  }

  -- The state after an update, given the state and the age before.
  advance_state-Updated :
      (s : ThesisState) (age : ℕ) (u : ThesisCandidate F)
      → u.state ≡ s
      → u.bars_alive ≡ suc age
      → Stage s age
      → Planned s u
      → Updated (advance_state fl ten snap u)
  unfolding advance_state
  advance_state-Updated ThesisState.watching age u e a h p =
      rw (e, advance_state) (ground (arith, a, h))
  advance_state-Updated ThesisState.building age u e a h p =
      let plan = compute_entry_plan-Planned (record u { state = ThesisState.ready }) in
      let live =
        Live_at ThesisState.ready
          (compute_entry_plan ten snap (record u { state = ThesisState.ready })) plan.2 tt
          (plan.0, plan.1) in
      rw (e, advance_state) (ground (arith, a, h, live))
  advance_state-Updated ThesisState.ready age u e a h p =
      inl (rw (e, advance_state) (Live_at ThesisState.ready u e tt p))
  advance_state-Updated ThesisState.expired age u e a h p =
      inl (rw (e, advance_state) (Live_at ThesisState.expired u e (omega (arith, a, h)) tt))
  advance_state-Updated ThesisState.order_working age u e a h p = absurd h
  advance_state-Updated ThesisState.triggered age u e a h p = absurd h
  advance_state-Updated ThesisState.invalidated age u e a h p = absurd h
  advance_state-Updated ThesisState.flipped age u e a h p = absurd h

ready-ne-invalidated : ThesisState.ready ≢ ThesisState.invalidated
ready-ne-invalidated h = cc

-- How a thesis `u` becomes a ready one `r`: from a building one that is confident enough and meets the
-- necessary conditions, with the plan of that moment.
pub record Readied {F : Type 0} (fl : Floats F) (ten : Decimal) (snap : BarSnapshot F)
    (u r : ThesisCandidate F) : Type 0 where
  pub waited : u.state ≡ ThesisState.building
  pub sure : at_least fl 65 u.confidence ≡ true
  pub met : necessary_conditions_met snap u ≡ true
  pub plan : r ≡ compute_entry_plan ten snap (record u { state = ThesisState.ready })

advance_state-Readied :
    {F : Type 0} (fl : Floats F) (ten : Decimal) (snap : BarSnapshot F) (s : ThesisState)
    (u : ThesisCandidate F)
    → u.state ≡ s
    → s ≢ ThesisState.ready
    → (advance_state fl ten snap u).state ≡ ThesisState.ready
    → Readied fl ten snap u (advance_state fl ten snap u)
unfolding advance_state
advance_state-Readied fl ten snap ThesisState.building u e n h = ground (arith, e, n, h)
advance_state-Readied fl ten snap ThesisState.watching u e n h = ground (arith, e, n, h)
advance_state-Readied fl ten snap ThesisState.ready u e n h = absurd (n refl)
advance_state-Readied fl ten snap ThesisState.expired u e n h = ground (arith, e, n, h)
advance_state-Readied fl ten snap ThesisState.order_working u e n h = ground (arith, e, n, h)
advance_state-Readied fl ten snap ThesisState.triggered u e n h = ground (arith, e, n, h)
advance_state-Readied fl ten snap ThesisState.invalidated u e n h = ground (arith, e, n, h)
advance_state-Readied fl ten snap ThesisState.flipped u e n h = ground (arith, e, n, h)

module _ {F : Type 0} (fl : Floats F) (ten : Decimal) (snap : BarSnapshot F)
    (level : LevelMemorySnapshot) (tick : TickFlowSnapshot F) (trigger : BarEvent) where
  pub update_by_type-Keeps :
      (t : ThesisCandidate F) → Keeps t (update_by_type fl snap level tick trigger t).0
  unfolding update_by_type
  update_by_type-Keeps t = ground (
    arith,
    update_fake_breakdown_long-Keeps fl snap level tick trigger t,
    update_vwap_failed_reclaim_short-Keeps fl snap level tick trigger t,
  )

  update_by_type_through :
      (t : ThesisCandidate F)
      → snap.atr_14 ≢ some (pos 0)
      → (update_by_type fl snap level tick trigger t).1 ≡ true
  unfolding update_by_type
  update_by_type_through t h = ground (
    arith,
    update_fake_breakdown_long_through fl snap level tick trigger t h,
    update_vwap_failed_reclaim_short_through fl snap level tick trigger h t,
  )

  -- The thesis that is one bar older.
  abbrev pub aged : ThesisCandidate F → ThesisCandidate F
  aged t = record t { bars_alive = suc t.bars_alive; updated_at = some trigger.timestamp }

  advance_state_invalidated :
      (u : ThesisCandidate F)
      → u.state ≡ ThesisState.invalidated
      → (advance_state fl ten snap u).state ≡ ThesisState.invalidated
  unfolding advance_state
  advance_state_invalidated u e = rw (e, advance_state) e

  Planned_kept :
      (s : ThesisState) (t u : ThesisCandidate F)
      → u.entry ≡ t.entry
      → u.stop ≡ t.stop
      → Planned s t
      → Planned s u
  Planned_kept ThesisState.ready t u e f p = ground (arith, p)
  Planned_kept ThesisState.watching t u e f p = tt
  Planned_kept ThesisState.building t u e f p = tt
  Planned_kept ThesisState.expired t u e f p = tt
  Planned_kept ThesisState.order_working t u e f p = tt
  Planned_kept ThesisState.triggered t u e f p = tt
  Planned_kept ThesisState.invalidated t u e f p = tt
  Planned_kept ThesisState.flipped t u e f p = tt

  kept-Updated :
      (t u : ThesisCandidate F)
      → IsLive t
      → Keeps (aged t) u
      → Updated (advance_state fl ten snap u)
  kept-Updated t u h k = elim k.state_of [
    | inl e ↦
        advance_state-Updated fl ten snap t.state t.bars_alive u e k.same_age h.stage
          (Planned_kept t.state t u k.same_entry k.same_stop h.planned)
    | inr e ↦ inr (advance_state_invalidated u e)
  ]

  -- An update at an ATR that is not 0 goes through, and leaves a live thesis live or invalidates it.
  pub update_thesis-Updated :
      (t : ThesisCandidate F)
      → snap.atr_14 ≢ some (pos 0)
      → IsLive t
      → ((update_thesis fl ten snap level tick trigger t).1 ≡ true)
        × Updated (update_thesis fl ten snap level tick trigger t).0
  unfolding update_thesis
  update_thesis-Updated t moved h =
      rw (update_by_type_through (aged t) moved, update_thesis)
        (refl, kept-Updated t _ h (update_by_type-Keeps (aged t)))

  -- An update makes a thesis ready only from building, once it is confident enough and its necessary
  -- conditions are met, and gives it the plan of that moment.
  pub update_thesis-Readied :
      (t : ThesisCandidate F)
      → t.state ≢ ThesisState.ready
      → (update_thesis fl ten snap level tick trigger t).0.state ≡ ThesisState.ready
      → Readied fl ten snap
          (update_by_type fl snap level tick trigger (aged t)).0
          (update_thesis fl ten snap level tick trigger t).0
  unfolding update_thesis
  update_thesis-Readied t waits e =
      let u = (update_by_type fl snap level tick trigger (aged t)).0 in
      let k = update_by_type-Keeps (aged t) in
      let n : u.state ≢ ThesisState.ready = λ h. elim k.state_of [
        | inl same ↦ waits (sym same ∙ h)
        | inr gone ↦ ready-ne-invalidated (sym h ∙ gone)
      ] in
      elim (Bool-cases (update_by_type fl snap level tick trigger (aged t)).1) [
        | inl done ↦
            rw (done, update_thesis)
              (advance_state-Readied fl ten snap u.state u refl n (rw (done, update_thesis) at e))
        | inr raised ↦ absurd (n (rw (raised, update_thesis) at e))
      ]
