-- ===== src/Execution/StateMachines/Intents.antt =====
-- What the intent transition table of state_machines.py allows over any number of steps.
use alpha_runtime_v.Base.{
  ◌≡◌, refl, ◌≢◌, ◌↔◌, ◌⊎◌, inl, inr, Bool, true, false, List, [], ◌∷◌, none, arith,
}
use alpha_runtime_v.Execution.Enums.{IntentStatus}
use alpha_runtime_v.Execution.StateMachines.{
  assert_valid_intent_transition, is_intent_terminal, contains_intent, contains_intent-head,
  contains_intent-cons,
}

-- One step that the guard lets pass, and any number of them.
pub data Route (s : IntentStatus) : IntentStatus → Type 0 where
  here : Route s s
  step : {t u : IntentStatus} → Route s t → assert_valid_intent_transition t u ≡ none → Route s u

-- A status is terminal exactly when the guard rejects every transition out of it.
pub intent_terminal_iff_stuck :
    (s : IntentStatus)
    → (is_intent_terminal s ≡ true)
      ↔ ((t : IntentStatus) → assert_valid_intent_transition s t ≢ none)
unfolding is_intent_terminal assert_valid_intent_transition
intent_terminal_iff_stuck IntentStatus.received =
    (λ h. cc, λ f. absurd (f IntentStatus.validating refl))
intent_terminal_iff_stuck IntentStatus.validating =
    (λ h. cc, λ f. absurd (f IntentStatus.planning refl))
intent_terminal_iff_stuck IntentStatus.awaiting_confirmation =
    (λ h. cc, λ f. absurd (f IntentStatus.expired refl))
intent_terminal_iff_stuck IntentStatus.confirmed =
    (λ h. cc, λ f. absurd (f IntentStatus.planning refl))
intent_terminal_iff_stuck IntentStatus.planning =
    (λ h. cc, λ f. absurd (f IntentStatus.rejected refl))
intent_terminal_iff_stuck IntentStatus.plan_ready =
    (λ h. cc, λ f. absurd (f IntentStatus.rejected refl))
intent_terminal_iff_stuck IntentStatus.submitting =
    (λ h. cc, λ f. absurd (f IntentStatus.active refl))
intent_terminal_iff_stuck IntentStatus.active = (λ h. cc, λ f. absurd (f IntentStatus.failed refl))
intent_terminal_iff_stuck _ = (λ h t e. cc, λ f. refl)

terminal_step :
    (s t : IntentStatus) → is_intent_terminal s ≡ true → assert_valid_intent_transition s t ≢ none
terminal_step s t h = (intent_terminal_iff_stuck s).0 h t

-- A terminal status is never left.
pub terminal_absorbs : {s t : IntentStatus} → is_intent_terminal s ≡ true → Route s t → t ≡ s
terminal_absorbs h here = refl
terminal_absorbs {s} {t} h (step {t = m} p e) =
    let back : m ≡ s = terminal_absorbs h p in absurd (terminal_step s t h (rw back at e))

Route-trans : {s t u : IntentStatus} → Route s t → Route t u → Route s u
Route-trans r here = r
Route-trans r (step q e) = step (Route-trans r q) e

-- The straight way from each status that is not terminal to `COMPLETED`.
active_completes : Route IntentStatus.active IntentStatus.completed
unfolding assert_valid_intent_transition
active_completes = step here refl

submitting_completes : Route IntentStatus.submitting IntentStatus.completed
unfolding assert_valid_intent_transition
submitting_completes = Route-trans (step here refl) active_completes

plan_ready_completes : Route IntentStatus.plan_ready IntentStatus.completed
unfolding assert_valid_intent_transition
plan_ready_completes = Route-trans (step here refl) submitting_completes

planning_completes : Route IntentStatus.planning IntentStatus.completed
unfolding assert_valid_intent_transition
planning_completes = Route-trans (step here refl) plan_ready_completes

confirmed_completes : Route IntentStatus.confirmed IntentStatus.completed
unfolding assert_valid_intent_transition
confirmed_completes = Route-trans (step here refl) planning_completes

validating_completes : Route IntentStatus.validating IntentStatus.completed
unfolding assert_valid_intent_transition
validating_completes = Route-trans (step here refl) planning_completes

-- From every status that is not terminal the table has a way to `COMPLETED`, and `COMPLETED` is the
-- only terminal status with a way to it.
pub completes_iff :
    (s : IntentStatus)
    → ((is_intent_terminal s ≡ false) ⊎ (s ≡ IntentStatus.completed))
      ↔ Route s IntentStatus.completed
unfolding is_intent_terminal assert_valid_intent_transition
completes_iff IntentStatus.received =
    (λ h. Route-trans (step here refl) validating_completes, λ r. inl refl)
completes_iff IntentStatus.validating = (λ h. validating_completes, λ r. inl refl)
completes_iff IntentStatus.awaiting_confirmation =
    (λ h. Route-trans (step here refl) confirmed_completes, λ r. inl refl)
completes_iff IntentStatus.confirmed = (λ h. confirmed_completes, λ r. inl refl)
completes_iff IntentStatus.planning = (λ h. planning_completes, λ r. inl refl)
completes_iff IntentStatus.plan_ready = (λ h. plan_ready_completes, λ r. inl refl)
completes_iff IntentStatus.submitting = (λ h. submitting_completes, λ r. inl refl)
completes_iff IntentStatus.active = (λ h. active_completes, λ r. inl refl)
completes_iff IntentStatus.completed = (λ h. here, λ r. inr refl)
completes_iff IntentStatus.cancelled =
    (λ h. ground arith, λ r. ground (arith, terminal_absorbs {s = IntentStatus.cancelled} refl r))
completes_iff IntentStatus.expired =
    (λ h. ground arith, λ r. ground (arith, terminal_absorbs {s = IntentStatus.expired} refl r))
completes_iff IntentStatus.rejected =
    (λ h. ground arith, λ r. ground (arith, terminal_absorbs {s = IntentStatus.rejected} refl r))
completes_iff IntentStatus.failed =
    (λ h. ground arith, λ r. ground (arith, terminal_absorbs {s = IntentStatus.failed} refl r))

-- The statuses that a route has passed, the last one first.
abbrev pub visited : {s t : IntentStatus} → Route s t → List IntentStatus
visited {s} here = s ∷ []
visited {t = u} (step r e) = u ∷ visited r

-- The statuses that can be had without a plan.
early : IntentStatus → Bool
early IntentStatus.plan_ready = false
early IntentStatus.submitting = false
early IntentStatus.active = false
early IntentStatus.completed = false
early IntentStatus.failed = false
early _ = true

early-step :
    (s t : IntentStatus)
    → assert_valid_intent_transition s t ≡ none
    → early s ≡ true
    → (early t ≡ true) ⊎ (t ≡ IntentStatus.plan_ready)
unfolding assert_valid_intent_transition early
early-step s t e h = ground arith

late :
    (t : IntentStatus)
    → contains_intent t (
        IntentStatus.submitting ∷ IntentStatus.active ∷ IntentStatus.completed ∷ IntentStatus.failed
        ∷ [])
      ≡ true
    → early t ≡ true
    → true ≡ false
unfolding contains_intent early
late t h k = ground arith

planned :
    {t : IntentStatus} (r : Route IntentStatus.received t)
    → (early t ≡ true) ⊎ (contains_intent IntentStatus.plan_ready (visited r) ≡ true)
unfolding early
planned here = inl refl
planned {t} (step {t = s} r e) = elim (planned r) [
  | inl h ↦ elim (early-step s t e h) [
    | inl k ↦ inl k
    | inr k ↦ inr (rw k (contains_intent-head IntentStatus.plan_ready (visited r)))
  ]
  | inr h ↦ inr (contains_intent-cons IntentStatus.plan_ready t (visited r) h)
]

-- An intent that starts at `RECEIVED` has passed `PLAN_READY` before it is `SUBMITTING`, `ACTIVE`,
-- `COMPLETED` or `FAILED`: nothing reaches the broker without a plan.
pub submitted_needs_plan :
    {t : IntentStatus} (r : Route IntentStatus.received t)
    → contains_intent t (
        IntentStatus.submitting ∷ IntentStatus.active ∷ IntentStatus.completed ∷ IntentStatus.failed
        ∷ [])
      ≡ true
    → contains_intent IntentStatus.plan_ready (visited r) ≡ true
submitted_needs_plan {t} r h = elim (planned r) [ inl k ↦ cc (late t h k) | inr k ↦ k ]
