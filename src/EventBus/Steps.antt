-- ===== src/EventBus/Steps.antt =====
-- What the steps of a bus keep of every subscription.
use alpha_runtime_v.Base.{
  ℕ, ◌==◌, ◌≡◌, subst, inl, inr, Bool, false, Option, some, Bool-cases, Option-cases, List, [], ◌∷◌,
  arith,
}
use alpha_runtime_v.Base.Dict.{Dict, nat_eq, lookup, insert, lookup-insert}
use alpha_runtime_v.EventBus.{
  EventBus, Publisher, targets, update, fresh_subscription, subscribe, unsubscribe, cancel_all,
  cancel_lists, get_elem?, put_or_wait, offer, wake, publish_next,
}
use alpha_runtime_v.EventBus.Subscriptions.{
  Event, Subscription, is_full, make_room, put, takes, take, task_done, cancel,
}

-- A property of every subscription of a store, by its id.
abbrev pub AllOf : (ℕ → Subscription → Type 0) → Dict ℕ Subscription → Type 0
AllOf P store = (id : ℕ) (s : Subscription) → lookup id store ≡ some s → P id s

-- A property that every operation on a subscription keeps.
pub record IsKept (P : ℕ → Subscription → Type 0) : Type 0 where
  pub on_put : (id : ℕ) (s : Subscription) (e : Event) → is_full s ≡ false → P id s → P id (put e s)
  pub on_room : (id : ℕ) (s : Subscription) → P id s → P id (make_room s)
  pub on_take : (id : ℕ) (s : Subscription) → P id s → P id (take s)
  pub on_done : (id : ℕ) (s : Subscription) → P id s → P id (task_done s)
  pub on_cancel : (id : ℕ) (s : Subscription) → P id s → P id (cancel s)

some_same : (s t : Subscription) → some s ≡ some t → s ≡ t
some_same s t e = cc e

module _ (P : ℕ → Subscription → Type 0) (k : IsKept P) where
  insert-AllOf :
      (id : ℕ) (s : Subscription) (store : Dict ℕ Subscription)
      → P id s
      → AllOf P store
      → AllOf P (insert id s store)
  insert-AllOf id s store h all i t e = elim (Bool-cases (i == id)) [
    | inl same ↦
        let key : id ≡ i = ground (arith, same) in
        subst (λ k. P k t) key
          (subst (λ x. P id x) (some_same s t (rw (lookup-insert i id s store, same) at e)) h)
    | inr other ↦ all i t (rw (lookup-insert i id s store, other) at e)
  ]

  pub update-AllOf :
      (id : ℕ) (f : Subscription → Subscription) (b : EventBus)
      → ((s : Subscription) → P id s → P id (f s))
      → AllOf P b.store
      → AllOf P (update id f b).store
  update-AllOf id f b keep all = elim (Option-cases (lookup id b.store)) [
    | inl n ↦ rw (n, update) all
    | inr (s, n) ↦ rw (n, update) (insert-AllOf id (f s) b.store (keep s (all id s n)) all)
  ]

  pub subscribe-AllOf :
      (id event_type : ℕ) (symbol size : Option ℕ) (drop : Bool) (b : EventBus)
      → P id (fresh_subscription event_type symbol size drop b)
      → AllOf P b.store
      → AllOf P (subscribe id event_type symbol size drop b).store
  unfolding subscribe
  subscribe-AllOf id event_type symbol size drop b h all = insert-AllOf id _ b.store h all

  pub unsubscribe-AllOf :
      (id : ℕ) (b : EventBus) → AllOf P b.store → AllOf P (unsubscribe id b).store
  unfolding unsubscribe
  unsubscribe-AllOf id b all = elim (Option-cases (lookup id b.store)) [
    | inl n ↦ rw (n, unsubscribe) all
    | inr (s, n) ↦
        rw (n, unsubscribe) (insert-AllOf id (cancel s) b.store (k.on_cancel id s (all id s n)) all)
  ]

  cancel_all-AllOf :
      (ids : List ℕ) (b : EventBus) → AllOf P b.store → AllOf P (cancel_all ids b).store
  cancel_all-AllOf [] b all = all
  cancel_all-AllOf (id ∷ ids) b all =
      cancel_all-AllOf ids (update id cancel b) (update-AllOf id cancel b (k.on_cancel id) all)

  pub cancel_lists-AllOf :
      (lists : Dict ℕ (List ℕ)) (b : EventBus)
      → AllOf P b.store
      → AllOf P (cancel_lists lists b).store
  cancel_lists-AllOf [] b all = all
  cancel_lists-AllOf ((t, ids) ∷ lists) b all =
      cancel_lists-AllOf lists (cancel_all ids b) (cancel_all-AllOf ids b all)

  put_or_wait-AllOf :
      (id : ℕ) (s : Subscription) (p : Publisher) (b : EventBus)
      → P id s
      → AllOf P b.store
      → AllOf P (put_or_wait id s p b).0.store
  unfolding put_or_wait
  put_or_wait-AllOf id s p b h all = elim (Bool-cases (is_full s)) [
    | inl full ↦ rw (full, put_or_wait) (insert-AllOf id s b.store h all)
    | inr room ↦
        rw (room, put_or_wait)
          (insert-AllOf id (put p.event s) b.store (k.on_put id s p.event room h) all)
  ]

  offer-AllOf :
      (id : ℕ) (p : Publisher) (b : EventBus) → AllOf P b.store → AllOf P (offer id p b).0.store
  unfolding offer
  offer-AllOf id p b all = elim (Option-cases (lookup id b.store)) [
    | inl n ↦ rw (n, offer) all
    | inr (s, n) ↦ elim (Bool-cases (takes p.event s)) [
      | inl yes_it ↦
          rw (n, yes_it, offer)
            (put_or_wait-AllOf id (make_room s) p b (k.on_room id s (all id s n)) all)
      | inr no_it ↦ rw (n, no_it, offer) all
    ]
  ]

  wake-AllOf :
      (id : ℕ) (p : Publisher) (b : EventBus) → AllOf P b.store → AllOf P (wake id p b).0.store
  unfolding wake
  wake-AllOf id p b all = elim (Option-cases (lookup id b.store)) [
    | inl n ↦ rw (n, wake) all
    | inr (s, n) ↦ elim (Bool-cases (is_full s)) [
      | inl full ↦ rw (n, full, wake) all
      | inr room ↦
          rw (n, room, wake)
            (insert-AllOf id (put p.event s) b.store (k.on_put id s p.event room (all id s n)) all)
    ]
  ]

  pub publish_next-AllOf :
      (p : Publisher) (b : EventBus) → AllOf P b.store → AllOf P (publish_next p b).0.store
  unfolding publish_next
  publish_next-AllOf p b all = elim (Option-cases p.waits_for) [
    | inr (id, w) ↦ ground (arith, w, wake-AllOf id p b all)
    | inl w ↦ elim (Option-cases (get_elem? (targets p.event.event_type b) p.index)) [
      | inl n ↦ rw (w, publish_next) (rw n all)
      | inr (id, n) ↦ rw (w, publish_next) (rw n (offer-AllOf id p b all))
    ]
  ]
