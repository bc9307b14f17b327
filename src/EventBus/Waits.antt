-- ===== src/EventBus/Waits.antt =====
-- Publishers across an `unsubscribe`.
use alpha_runtime_v.Base.{
  ℕ, zero, suc, ◌≤◌, ◌≡◌, ◌≢◌, refl, sym, ◌∙◌, subst, inl, inr, Bool, true, false, Option, none,
  some, Option-cases, List, [], ◌∷◌, arith,
}
use alpha_runtime_v.Base.Dict.{nat_eq, lookup, insert, lookup-insert}
use alpha_runtime_v.EventBus.{
  EventBus, Publisher, start, targets, remove, update, subscribe, unsubscribe, stop, get_elem?,
  wake, offer, publish_next,
}
use alpha_runtime_v.EventBus.Subscriptions.{
  Subscription, is_full, make_room, take, task_done, cancel,
}
use alpha_runtime_v.EventBus.Steps.{
  AllOf, IsKept, update-AllOf, subscribe-AllOf, unsubscribe-AllOf, cancel_lists-AllOf,
  publish_next-AllOf,
}

-- A subscription whose worker is cancelled, with a full queue that drops nothing.
pub record IsStuck (s : Subscription) : Type 0 where
  pub ended : s.is_running ≡ false
  pub keeps : s.drop_if_full ≡ false
  pub full : is_full s ≡ true

make_room-IsStuck : (s : Subscription) → IsStuck s → IsStuck (make_room s)
unfolding make_room is_full
make_room-IsStuck s h = ground (arith, h)

take-IsStuck : (s : Subscription) → IsStuck s → IsStuck (take s)
unfolding take
take-IsStuck s h = ground (arith, h)

task_done-IsStuck : (s : Subscription) → IsStuck s → IsStuck (task_done s)
unfolding task_done is_full
task_done-IsStuck s h = ground (arith, h)

cancel-IsStuck_kept : (s : Subscription) → IsStuck s → IsStuck (cancel s)
unfolding cancel task_done is_full
cancel-IsStuck_kept s h = ground (arith, h)

true-ne-false : true ≢ false
true-ne-false h = cc

-- A subscription of an id is stuck.
abbrev StuckAt : ℕ → ℕ → Subscription → Type 0
StuckAt id i s = i ≡ id → IsStuck s

StuckAt-IsKept : (id : ℕ) → IsKept (StuckAt id)
StuckAt-IsKept id = record {
  on_put = λ i s e room h same. absurd (true-ne-false (sym (h same).full ∙ room));
  on_room = λ i s h same. make_room-IsStuck s (h same);
  on_take = λ i s h same. take-IsStuck s (h same);
  on_done = λ i s h same. task_done-IsStuck s (h same);
  on_cancel = λ i s h same. cancel-IsStuck_kept s (h same);
}

-- What others do from a state on: any steps, with other ids for new subscriptions.
pub data Later (id : ℕ) (from : EventBus) : EventBus → Type 0 where
  now : Later id from from
  started : (b : EventBus) → Later id from b → Later id from (start b)
  stopped : (b : EventBus) → Later id from b → Later id from (stop b)
  subscribed :
      (i event_type : ℕ) (symbol size : Option ℕ) (drop : Bool) (b : EventBus)
      → i ≢ id
      → Later id from b
      → Later id from (subscribe i event_type symbol size drop b)
  unsubscribed : (i : ℕ) (b : EventBus) → Later id from b → Later id from (unsubscribe i b)
  published : (p : Publisher) (b : EventBus) → Later id from b → Later id from (publish_next p b).0
  took : (i : ℕ) (b : EventBus) → Later id from b → Later id from (update i take b)
  handled : (i : ℕ) (b : EventBus) → Later id from b → Later id from (update i task_done b)

Later-AllOf :
    (id : ℕ) (from b : EventBus)
    → AllOf (StuckAt id) from.store
    → Later id from b
    → AllOf (StuckAt id) b.store
unfolding start stop
Later-AllOf id from _ h now = h
Later-AllOf id from _ h (started b l) = Later-AllOf id from b h l
Later-AllOf id from _ h (stopped b l) =
    cancel_lists-AllOf (StuckAt id) (StuckAt-IsKept id) b.subscriptions
      (record b { running = false }) (Later-AllOf id from b h l)
Later-AllOf id from _ h (subscribed i t symbol size drop b other l) =
    subscribe-AllOf (StuckAt id) (StuckAt-IsKept id) i t symbol size drop b
      (λ same. absurd (other same)) (Later-AllOf id from b h l)
Later-AllOf id from _ h (unsubscribed i b l) =
    unsubscribe-AllOf (StuckAt id) (StuckAt-IsKept id) i b (Later-AllOf id from b h l)
Later-AllOf id from _ h (published p b l) =
    publish_next-AllOf (StuckAt id) (StuckAt-IsKept id) p b (Later-AllOf id from b h l)
Later-AllOf id from _ h (took i b l) =
    update-AllOf (StuckAt id) (StuckAt-IsKept id) i take b ((StuckAt-IsKept id).on_take i)
      (Later-AllOf id from b h l)
Later-AllOf id from _ h (handled i b l) =
    update-AllOf (StuckAt id) (StuckAt-IsKept id) i task_done b ((StuckAt-IsKept id).on_done i)
      (Later-AllOf id from b h l)

wake-stuck :
    (id : ℕ) (p : Publisher) (b : EventBus) → AllOf (StuckAt id) b.store → wake id p b ≡ (b, p)
unfolding wake
wake-stuck id p b h = elim (Option-cases (lookup id b.store)) [
  | inl n ↦ rw (n, wake)
  | inr (s, n) ↦ ground (arith, n, h id s n refl)
]

cancel-IsStuck : (s : Subscription) → s.drop_if_full ≡ false → is_full s ≡ true → IsStuck (cancel s)
unfolding cancel task_done is_full
cancel-IsStuck s d f = ground (arith, d, f)

unsubscribed-AllOf :
    (id : ℕ) (s : Subscription) (b : EventBus)
    → lookup id b.store ≡ some s
    → s.drop_if_full ≡ false
    → is_full s ≡ true
    → AllOf (StuckAt id) (unsubscribe id b).store
unfolding unsubscribe
unsubscribed-AllOf id s b n d f i t e same =
    let q : lookup i (insert id (cancel s) b.store) ≡ some t = rw (n, unsubscribe) at e in
    let r : cancel s ≡ t = ground (arith, lookup-insert i id (cancel s) b.store, q, same) in
    subst (λ x. IsStuck x) r (cancel-IsStuck s d f)

-- A publisher that waits for the full queue of a subscription when it is unsubscribed waits for ever, whatever
-- other publishers, workers and calls do from then on.
pub unsubscribed_waits_forever :
    (id : ℕ) (s : Subscription) (p : Publisher) (b later : EventBus)
    → lookup id b.store ≡ some s
    → s.drop_if_full ≡ false
    → is_full s ≡ true
    → p.waits_for ≡ some id
    → Later id (unsubscribe id b) later
    → publish_next p later ≡ (later, some p)
unfolding publish_next
unsubscribed_waits_forever id s p b later n d f w l =
    let stuck = Later-AllOf id (unsubscribe id b) later (unsubscribed-AllOf id s b n d f) l in
    ground (arith, w, wake-stuck id p later stuck)

remove_shifts :
    (id i j : ℕ) (ids : List ℕ)
    → get_elem? ids j ≡ some id
    → j ≤ i
    → get_elem? (remove id ids) i ≡ get_elem? ids (suc i)
unfolding remove
remove_shifts id i j [] e h = cc
remove_shifts id i zero (x ∷ ids) e h = ground (arith, e)
remove_shifts id zero (suc j) (x ∷ ids) e h = absurd (omega (arith, h))
remove_shifts id (suc i) (suc j) (x ∷ ids) e h =
    ground (arith, remove_shifts id i j ids e (omega (arith, h)))

-- The place of the list that a publisher comes to next, if the subscription is there.
publish_next-offers :
    (next : ℕ) (p : Publisher) (b : EventBus)
    → p.waits_for ≡ none
    → get_elem? (targets p.event.event_type b) p.index ≡ some next
    → publish_next p b ≡ ((offer next p b).0, some (offer next p b).1)
unfolding publish_next
publish_next-offers next p b w e = ground (arith, w, e)

removed_shifts :
    (id i j : ℕ) (s : Subscription) (b : EventBus)
    → lookup id b.store ≡ some s
    → get_elem? (targets s.event_type b) j ≡ some id
    → j ≤ i
    → get_elem? (targets s.event_type (unsubscribe id b)) i
      ≡ get_elem? (targets s.event_type b) (suc i)
unfolding unsubscribe
removed_shifts id i j s b n e h =
    rw (n, unsubscribe)
      (ground (
        arith,
        remove_shifts id i j (targets s.event_type b) e h,
        lookup-insert s.event_type s.event_type (remove id (targets s.event_type b))
            b.subscriptions,
      ))

-- A publisher that has done the places up to i offers its event to the subscription at i + 1 next. If one at i
-- or before is unsubscribed meanwhile, that subscription moves to i, which the publisher has passed, and the
-- publisher offers its event to the one that was at i + 2.
pub unsubscribe_skips :
    (id i j missed next : ℕ) (s : Subscription) (p : Publisher) (b : EventBus)
    → lookup id b.store ≡ some s
    → p.event.event_type ≡ s.event_type
    → p.waits_for ≡ none
    → p.index ≡ suc i
    → get_elem? (targets s.event_type b) j ≡ some id
    → j ≤ i
    → get_elem? (targets s.event_type b) (suc i) ≡ some missed
    → get_elem? (targets s.event_type b) (suc (suc i)) ≡ some next
    → (publish_next p b ≡ ((offer missed p b).0, some (offer missed p b).1))
      × (get_elem? (targets s.event_type (unsubscribe id b)) i ≡ some missed)
      × (publish_next p (unsubscribe id b)
          ≡ ((offer next p (unsubscribe id b)).0, some (offer next p (unsubscribe id b)).1))
unsubscribe_skips id i j missed next s p b n t w x e h m k = (
  publish_next-offers missed p b w (rw (t, x) m),
  removed_shifts id i j s b n e h ∙ m,
  publish_next-offers next p (unsubscribe id b) w
      (rw (t, x) (removed_shifts id (suc i) j s b n e (omega (arith, h)) ∙ k)),
)
