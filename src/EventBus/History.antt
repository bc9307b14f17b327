-- ===== src/EventBus/History.antt =====
-- The history of one subscription's queue.
use alpha_runtime_v.Base.{
  ℕ, ◌+◌, ◌-◌, ◌≡◌, refl, sym, ap, ◌∙◌, inl, inr, true, false, none, some, Bool-cases, List, [],
  ◌∷◌, ◌++◌, arith,
}
use alpha_runtime_v.Base.Lists.{length, length-append}
use mathlib.Core.List.{append_assoc}
use alpha_runtime_v.EventBus.Subscriptions.{
  Event, Subscription, is_full, evict, make_room, put, take_from, take, task_done, cancel,
}
use alpha_runtime_v.EventBus.Queues.{
  busy, IsSound, put-IsSound, take-IsSound, task_done-IsSound, cancel-IsSound, make_room-IsSound,
}

-- A part of a list in its order.
pub data IsWithin : List Event → List Event → Type 0 where
  nothing : IsWithin [] []
  both : (e : Event) (xs ys : List Event) → IsWithin xs ys → IsWithin (xs ++ e ∷ []) (ys ++ e ∷ [])
  only : (e : Event) (xs ys : List Event) → IsWithin xs ys → IsWithin xs (ys ++ e ∷ [])

-- How a subscription comes by the events that were put into its queue and those that its worker took.
pub data QueueRun : List Event → List Event → Subscription → Type 0 where
  opened :
      (s : Subscription)
      → s.queue ≡ []
      → s.unfinished ≡ 0
      → s.handling ≡ none
      → s.drop_count ≡ 0
      → QueueRun [] [] s
  offered :
      (e : Event) (given taken : List Event) (s : Subscription)
      → QueueRun given taken s
      → is_full (make_room s) ≡ false
      → QueueRun (given ++ e ∷ []) taken (put e (make_room s))
  blocked :
      (given taken : List Event) (s : Subscription)
      → QueueRun given taken s
      → is_full (make_room s) ≡ true
      → QueueRun given taken (make_room s)
  woken :
      (e : Event) (given taken : List Event) (s : Subscription)
      → QueueRun given taken s
      → is_full s ≡ false
      → QueueRun (given ++ e ∷ []) taken (put e s)
  took :
      (e : Event) (queue given taken : List Event) (s : Subscription)
      → QueueRun given taken s
      → s.queue ≡ e ∷ queue
      → s.is_running ≡ true
      → s.handling ≡ none
      → QueueRun given (taken ++ e ∷ []) (take s)
  finished :
      (given taken : List Event) (s : Subscription)
      → QueueRun given taken s
      → QueueRun given taken (task_done s)
  cancelled :
      (given taken : List Event) (s : Subscription)
      → QueueRun given taken s
      → QueueRun given taken (cancel s)

-- What a queue holds are the latest events that were given; of those before them the worker took all but as
-- many as were dropped, in their order, and all of them where nothing may be dropped.
pub record IsHeld (given taken : List Event) (s : Subscription) : Type 0 where
  pub gone : List Event
  pub splits : given ≡ gone ++ s.queue
  pub within : IsWithin taken gone
  pub accounted : length gone ≡ length taken + s.drop_count
  pub keeps : s.drop_if_full ≡ false → gone ≡ taken
  pub sound : IsSound s

-- The split of a queue after one more event.
given_more :
    (e : Event) (given gone queue : List Event)
    → given ≡ gone ++ queue
    → given ++ e ∷ [] ≡ gone ++ (queue ++ e ∷ [])
given_more e given gone queue h = ap (λ xs. xs ++ e ∷ []) h ∙ append_assoc gone queue (e ∷ [])

-- The split of a queue whose first event goes.
gone_more :
    (e : Event) (given gone queue : List Event)
    → given ≡ gone ++ e ∷ queue
    → given ≡ (gone ++ e ∷ []) ++ queue
gone_more e given gone queue h = h ∙ sym (append_assoc gone (e ∷ []) queue)

module _ (given taken : List Event) (s : Subscription) where
  put-IsHeld :
      (e : Event)
      → is_full s ≡ false
      → IsHeld given taken s
      → IsHeld (given ++ e ∷ []) taken (put e s)
  unfolding put
  put-IsHeld e room h = record {
    gone = h.gone;
    splits = given_more e given h.gone s.queue h.splits;
    within = h.within;
    accounted = h.accounted;
    keeps = h.keeps;
    sound = put-IsSound s e room h.sound;
  }

  take_lem :
      (e : Event) (queue : List Event)
      → s.queue ≡ e ∷ queue
      → s.is_running ≡ true
      → s.handling ≡ none
      → take s ≡ record s { queue = queue; handling = some e }
  unfolding take take_from
  take_lem e queue q r n = ground (arith, q, r, n)

  take-IsHeld :
      (e : Event) (queue : List Event)
      → s.queue ≡ e ∷ queue
      → s.is_running ≡ true
      → s.handling ≡ none
      → IsHeld given taken s
      → IsHeld given (taken ++ e ∷ []) (take s)
  take-IsHeld e queue q r n h =
      let sound = take-IsSound s h.sound in
      let same = take_lem e queue q r n in
      rw same (record {
        gone = h.gone ++ e ∷ [];
        splits = gone_more e given h.gone queue (h.splits ∙ ap (λ xs. h.gone ++ xs) q);
        within = both e taken h.gone h.within;
        accounted =
            omega (arith, h.accounted, length-append h.gone (e ∷ []), length-append taken (e ∷ []));
        keeps = λ d. ap (λ xs. xs ++ e ∷ []) (h.keeps d);
        sound = rw same at sound;
      })

  -- What leaves the queue alone leaves its history alone.
  same-IsHeld :
      (t : Subscription)
      → t.queue ≡ s.queue
      → t.drop_count ≡ s.drop_count
      → t.drop_if_full ≡ s.drop_if_full
      → IsSound t
      → IsHeld given taken s
      → IsHeld given taken t
  same-IsHeld t q c d sound h = record {
    gone = h.gone;
    splits = h.splits ∙ ap (λ xs. h.gone ++ xs) (sym q);
    within = h.within;
    accounted = h.accounted ∙ ap (λ (n : ℕ). length taken + n) (sym c);
    keeps = λ e. h.keeps (sym d ∙ e);
    sound = sound;
  }

  task_done-IsHeld : IsHeld given taken s → IsHeld given taken (task_done s)
  unfolding task_done
  task_done-IsHeld h =
      same-IsHeld (task_done s) (ground arith) (ground arith) (ground arith)
        (task_done-IsSound s h.sound) h

  cancel-IsHeld : IsHeld given taken s → IsHeld given taken (cancel s)
  unfolding cancel task_done
  cancel-IsHeld h =
      same-IsHeld (cancel s) (ground arith) (ground arith) (ground arith) (cancel-IsSound s h.sound)
        h

  evict_lem :
      (x : Event) (queue : List Event)
      → s.queue ≡ x ∷ queue
      → is_full s ≡ true
      → s.drop_if_full ≡ true
      → make_room s ≡ record s {
        queue = queue;
        unfinished = s.unfinished - 1;
        full_count = s.full_count + 1;
        drop_count = s.drop_count + 1;
      }
  unfolding make_room evict
  evict_lem x queue q f d = ground (arith, q, f, d)

  evict-IsHeld :
      (queue : List Event)
      → s.queue ≡ queue
      → is_full s ≡ true
      → s.drop_if_full ≡ true
      → IsHeld given taken s
      → IsHeld given taken (make_room s)
  unfolding is_full
  evict-IsHeld [] q f d h = ground (arith, ap length q, f)
  evict-IsHeld (x ∷ queue) q f d h =
      let sound = make_room-IsSound s h.sound in
      let same = evict_lem x queue q f d in
      rw same (record {
        gone = h.gone ++ x ∷ [];
        splits = gone_more x given h.gone queue (h.splits ∙ ap (λ xs. h.gone ++ xs) q);
        within = only x taken h.gone h.within;
        accounted = omega (arith, h.accounted, length-append h.gone (x ∷ []));
        keeps = λ e. cc (d, e);
        sound = rw same at sound;
      })

  make_room-IsHeld : IsHeld given taken s → IsHeld given taken (make_room s)
  unfolding make_room
  make_room-IsHeld h = elim (Bool-cases (is_full s)) [
    | inr room ↦ rw (room, make_room) h
    | inl full ↦ elim (Bool-cases s.drop_if_full) [
      | inl d ↦ evict-IsHeld s.queue refl full d h
      | inr d ↦
          same-IsHeld (make_room s) (ground (arith, full, d)) (ground (arith, full, d))
            (ground (arith, full, d)) (make_room-IsSound s h.sound) h
    ]
  ]

opened-IsHeld :
    (s : Subscription)
    → s.queue ≡ []
    → s.unfinished ≡ 0
    → s.handling ≡ none
    → s.drop_count ≡ 0
    → IsHeld [] [] s
opened-IsHeld s q u n d = record {
  gone = [];
  splits = sym q;
  within = nothing;
  accounted = omega (arith, d);
  keeps = λ e. refl;
  sound = record {
    bounded = λ m. omega (arith, ap length q);
    counted = omega (arith, ap length q, ap busy n, u);
  };
}

-- In any run of a queue, publishers' waits and cancellations included, what the queue holds are the latest
-- events that were put into it, within its size; of those before them the worker took, in their order, all
-- but as many as were dropped, and all of them where nothing may be dropped.
pub QueueRun-IsHeld :
    (given taken : List Event) (s : Subscription) → QueueRun given taken s → IsHeld given taken s
QueueRun-IsHeld _ _ _ (opened s q u n d) = opened-IsHeld s q u n d
QueueRun-IsHeld _ _ _ (offered e before taken t r room) =
    put-IsHeld before taken (make_room t) e room
      (make_room-IsHeld before taken t (QueueRun-IsHeld before taken t r))
QueueRun-IsHeld _ _ _ (blocked given taken t r full) =
    make_room-IsHeld given taken t (QueueRun-IsHeld given taken t r)
QueueRun-IsHeld _ _ _ (woken e before taken t r room) =
    put-IsHeld before taken t e room (QueueRun-IsHeld before taken t r)
QueueRun-IsHeld _ _ _ (took e queue given before t r q run n) =
    take-IsHeld given before t e queue q run n (QueueRun-IsHeld given before t r)
QueueRun-IsHeld _ _ _ (finished given taken t r) =
    task_done-IsHeld given taken t (QueueRun-IsHeld given taken t r)
QueueRun-IsHeld _ _ _ (cancelled given taken t r) =
    cancel-IsHeld given taken t (QueueRun-IsHeld given taken t r)
