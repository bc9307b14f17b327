-- ===== src/EventBus/Sound.antt =====
-- Every queue of the bus, over any steps.
use alpha_runtime_v.Base.{
  ℕ, ◌==◌, ◌≡◌, refl, inl, inr, Bool, true, false, Option, none, some, Option-cases, List, [], ◌∷◌,
  arith,
}
use alpha_runtime_v.Base.Dict.{Dict, nat_eq, lookup}
use alpha_runtime_v.Base.Lists.{length, All}
use alpha_runtime_v.EventBus.{
  EventBus, Publisher, new, start, update, fresh_subscription, subscribe, unsubscribe, stop,
  publish_next, is_drained, flushes,
}
use alpha_runtime_v.EventBus.Subscriptions.{Event, Subscription, take, task_done}
use alpha_runtime_v.EventBus.Queues.{
  busy, IsSound, put-IsSound, take-IsSound, task_done-IsSound, cancel-IsSound, make_room-IsSound,
}
use alpha_runtime_v.EventBus.Steps.{
  AllOf, IsKept, update-AllOf, subscribe-AllOf, unsubscribe-AllOf, cancel_lists-AllOf,
  publish_next-AllOf,
}

-- All queues of a store are sound.
abbrev pub AllSound : Dict ℕ Subscription → Type 0
AllSound store = AllOf (λ id s. IsSound s) store

IsSound-IsKept : IsKept (λ id s. IsSound s)
IsSound-IsKept = record {
  on_put = λ id s e room h. put-IsSound s e room h;
  on_room = λ id s h. make_room-IsSound s h;
  on_take = λ id s h. take-IsSound s h;
  on_done = λ id s h. task_done-IsSound s h;
  on_cancel = λ id s h. cancel-IsSound s h;
}

fresh-IsSound :
    (event_type : ℕ) (symbol size : Option ℕ) (drop : Bool) (b : EventBus)
    → IsSound (fresh_subscription event_type symbol size drop b)
unfolding fresh_subscription
fresh-IsSound event_type symbol size drop b = record {
  bounded = λ n. omega arith;
  counted = omega arith;
}

-- The states of a bus: any calls, publishers and workers, in any order.
pub data Reached : EventBus → Type 0 where
  created : (queue_size : ℕ) → Reached (new queue_size)
  started : (b : EventBus) → Reached b → Reached (start b)
  stopped : (b : EventBus) → Reached b → Reached (stop b)
  subscribed :
      (id event_type : ℕ) (symbol size : Option ℕ) (drop : Bool) (b : EventBus)
      → Reached b
      → Reached (subscribe id event_type symbol size drop b)
  unsubscribed : (id : ℕ) (b : EventBus) → Reached b → Reached (unsubscribe id b)
  published : (p : Publisher) (b : EventBus) → Reached b → Reached (publish_next p b).0
  took : (id : ℕ) (b : EventBus) → Reached b → Reached (update id take b)
  handled : (id : ℕ) (b : EventBus) → Reached b → Reached (update id task_done b)

-- In every state of the bus each queue with a bound holds at most so many events, and its unfinished tasks
-- are the events in it and in its handler.
pub Reached-AllSound : (b : EventBus) → Reached b → AllSound b.store
unfolding new start stop lookup
Reached-AllSound _ (created n) = λ id s e. absurd (cc e)
Reached-AllSound _ (started b r) = Reached-AllSound b r
Reached-AllSound _ (stopped b r) =
    cancel_lists-AllOf (λ id s. IsSound s) IsSound-IsKept b.subscriptions
      (record b { running = false }) (Reached-AllSound b r)
Reached-AllSound _ (subscribed id t symbol size drop b r) =
    subscribe-AllOf (λ id s. IsSound s) IsSound-IsKept id t symbol size drop b
      (fresh-IsSound t symbol size drop b) (Reached-AllSound b r)
Reached-AllSound _ (unsubscribed id b r) =
    unsubscribe-AllOf (λ id s. IsSound s) IsSound-IsKept id b (Reached-AllSound b r)
Reached-AllSound _ (published p b r) =
    publish_next-AllOf (λ id s. IsSound s) IsSound-IsKept p b (Reached-AllSound b r)
Reached-AllSound _ (took id b r) =
    update-AllOf (λ id s. IsSound s) IsSound-IsKept id take b take-IsSound (Reached-AllSound b r)
Reached-AllSound _ (handled id b r) =
    update-AllOf (λ id s. IsSound s) IsSound-IsKept id task_done b task_done-IsSound
      (Reached-AllSound b r)

-- A queue that was drained.
abbrev pub Drained : Option Subscription → Type 0
Drained none = Unit
Drained (some s) = (s.queue ≡ []) × (s.handling ≡ none)

empty : (queue : List Event) → length queue ≡ 0 → queue ≡ []
empty [] h = refl
empty (e ∷ queue) h = absurd (omega (arith, h))

idle : (o : Option Event) → busy o ≡ 0 → o ≡ none
idle none h = refl
idle (some e) h = absurd (omega (arith, h))

finished-Drained : (s : Subscription) → IsSound s → (s.unfinished == 0) ≡ true → Drained (some s)
finished-Drained s h d =
    (empty s.queue (ground (arith, h.counted, d)), idle s.handling (ground (arith, h.counted, d)))

is_drained-Drained :
    (b : EventBus) (ids : List ℕ)
    → AllSound b.store
    → is_drained b ids ≡ true
    → All (λ id. Drained (lookup id b.store)) ids
is_drained-Drained b [] all d = tt
is_drained-Drained b (id ∷ ids) all d = elim (Option-cases (lookup id b.store)) [
  | inl n ↦ (rw n tt, is_drained-Drained b ids all (ground (arith, d)))
  | inr (s, n) ↦
      let e : (s.unfinished == 0) ≡ true = ground (arith, rw n at d) in
      (rw n (finished-Drained s (all id s n) e), is_drained-Drained b ids all (ground (arith, d)))
]

flushes-Drained :
    (b : EventBus) (lists : Dict ℕ (List ℕ))
    → AllSound b.store
    → flushes b lists ≡ true
    → All (λ l. All (λ id. Drained (lookup id b.store)) l.1) lists
flushes-Drained b [] all d = tt
flushes-Drained b ((t, ids) ∷ lists) all d = (
  is_drained-Drained b ids all (ground (arith, d)),
  flushes-Drained b lists all (ground (arith, d)),
)

-- Where `flush` returns without a wait, in any state of the bus, every subscription that is listed has an empty
-- queue and no event in its handler.
pub flush_drains :
    (b : EventBus)
    → Reached b
    → flushes b b.subscriptions ≡ true
    → All (λ l. All (λ id. Drained (lookup id b.store)) l.1) b.subscriptions
flush_drains b r d = flushes-Drained b b.subscriptions (Reached-AllSound b r) d
