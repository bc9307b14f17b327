-- ===== src/Thesis/Lifecycle/Waits.antt =====
-- How many bars a thesis can wait.
use alpha_runtime_v.Base.{
  ℕ, suc, ◌+◌, ◌≤◌, ◌<◌, ◌≡◌, ◌≢◌, refl, Bool-cases, ◌⊎◌, inl, inr, Bool, true, false, some, List,
  [], ◌∷◌, if◌then◌else◌, arith,
}
use alpha_runtime_v.Base.Lists.{length, All}
use alpha_runtime_v.Base.Int.{pos}
use alpha_runtime_v.Execution.Models.{Decimal}
use alpha_runtime_v.Thesis.Model.{
  Floats, ThesisState, ThesisCandidate, TickFlowSnapshot, LevelMemorySnapshot, BarSnapshot,
  BarEvent,
}
use alpha_runtime_v.Thesis.Lifecycle.{advance_state, update_by_type, update_thesis}
use alpha_runtime_v.Thesis.Lifecycle.Ages.{
  Stage, IsLive, compute_entry_plan-Planned, aged, update_by_type-Keeps, update_thesis-Updated,
}

-- One bar for a thesis.
pub record Round (F : Type 0) : Type 0 where
  pub snap : BarSnapshot F
  pub level : LevelMemorySnapshot
  pub tick : TickFlowSnapshot F
  pub trigger : BarEvent

-- Whether a thesis waits to become ready.
abbrev pub waits : ThesisState → Bool
waits ThesisState.watching = true
waits ThesisState.building = true
waits _ = false

abbrev pub HasEnded : ThesisState → Type 0
HasEnded s = (s ≡ ThesisState.ready) ⊎ (s ≡ ThesisState.expired) ⊎ (s ≡ ThesisState.invalidated)

module _ {F : Type 0} (fl : Floats F) (ten : Decimal) where
  -- The updates of a thesis over bars, as far as it waits.
  pub updates : List (Round F) → ThesisCandidate F → ThesisCandidate F
  updates [] t = t
  updates (r ∷ rounds) t =
      let rest = updates rounds (update_thesis fl ten r.snap r.level r.tick r.trigger t).0 in
      if waits t.state then rest else t

  gone_at_once :
      (rounds : List (Round F)) (u : ThesisCandidate F)
      → u.state ≡ ThesisState.invalidated
      → HasEnded (updates rounds u).state
  unfolding updates
  gone_at_once [] u e = inr (inr e)
  gone_at_once (r ∷ rounds) u e = rw (e, updates) (inr (inr refl))

  advance_state-age :
      (snap : BarSnapshot F) (u : ThesisCandidate F)
      → (advance_state fl ten snap u).bars_alive ≡ u.bars_alive
  unfolding advance_state
  advance_state-age snap u =
      ground
        (arith, compute_entry_plan-Planned fl ten snap (record u { state = ThesisState.ready }))

  update_thesis-age :
      (r : Round F) (t : ThesisCandidate F)
      → (update_thesis fl ten r.snap r.level r.tick r.trigger t).0.bars_alive ≡ suc t.bars_alive
  unfolding update_thesis
  update_thesis-age r t =
      let k =
        update_by_type-Keeps fl ten r.snap r.level r.tick r.trigger
          (aged fl ten r.snap r.level r.tick r.trigger t) in
      let u =
        (update_by_type fl r.snap r.level r.tick r.trigger
          (aged fl ten r.snap r.level r.tick r.trigger t)).0 in
      ground (arith, k, advance_state-age r.snap u)

  -- A waiting thesis is live only while its age allows.
  waits_in_time : (s : ThesisState) (age : ℕ) → waits s ≡ true → Stage s age → age ≤ 20
  waits_in_time ThesisState.watching age w h = omega (arith, h)
  waits_in_time ThesisState.building age w h = h
  waits_in_time ThesisState.ready age w h = cc
  waits_in_time ThesisState.expired age w h = cc
  waits_in_time ThesisState.order_working age w h = cc
  waits_in_time ThesisState.triggered age w h = cc
  waits_in_time ThesisState.invalidated age w h = cc
  waits_in_time ThesisState.flipped age w h = cc

  -- A live thesis that does not wait has ended.
  not_waiting : (s : ThesisState) (age : ℕ) → waits s ≡ false → Stage s age → HasEnded s
  not_waiting ThesisState.watching age w h = cc
  not_waiting ThesisState.building age w h = cc
  not_waiting ThesisState.ready age w h = inl refl
  not_waiting ThesisState.expired age w h = inr (inl refl)
  not_waiting ThesisState.order_working age w h = absurd h
  not_waiting ThesisState.triggered age w h = absurd h
  not_waiting ThesisState.invalidated age w h = absurd h
  not_waiting ThesisState.flipped age w h = absurd h

  -- A live thesis of any age, over more bars than are left to its age of 20, with ATRs that are not 0, is
  -- ready, expired or invalidated.
  pub updates_end :
      (rounds : List (Round F)) (t : ThesisCandidate F)
      → IsLive t
      → All (λ r. r.snap.atr_14 ≢ some (pos 0)) rounds
      → 20 < length rounds + t.bars_alive
      → HasEnded (updates rounds t).state
  unfolding updates
  updates_end [] t h m n = elim (Bool-cases (waits t.state)) [
    | inl w ↦ absurd (omega (arith, n, waits_in_time t.state t.bars_alive w h.stage))
    | inr w ↦ not_waiting t.state t.bars_alive w h.stage
  ]
  updates_end (r ∷ rounds) t h m n = elim (Bool-cases (waits t.state)) [
    | inr w ↦ rw (w, updates) (not_waiting t.state t.bars_alive w h.stage)
    | inl w ↦
        let u = (update_thesis fl ten r.snap r.level r.tick r.trigger t).0 in
        rw (w, updates)
          (elim (update_thesis-Updated fl ten r.snap r.level r.tick r.trigger t m.0 h).1 [
            | inl live ↦ updates_end rounds u live m.1 (omega (arith, n, update_thesis-age r t))
            | inr gone ↦ gone_at_once rounds u gone
          ])
  ]
