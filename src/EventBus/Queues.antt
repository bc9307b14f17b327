-- ===== src/EventBus/Queues.antt =====
-- What one subscription's queue does with the events that are put into it.
use alpha_runtime_v.Base.{
  ℕ, ◌+◌, ◌≤◌, ◌≡◌, ◌≢◌, refl, ap, inl, inr, true, false, Option, none, some, Bool-cases,
  Option-cases, List, [], ◌∷◌, arith,
}
use alpha_runtime_v.Base.Lists.{length, length-append}
use alpha_runtime_v.EventBus.Subscriptions.{
  Event, Subscription, is_full, evict, make_room, put, take_from, take, task_done, cancel,
}

abbrev pub busy : Option Event → ℕ
busy none = 0
busy (some e) = 1

-- A bounded queue holds at most its size, and unfinished tasks are those in the queue and in the handler.
pub record IsSound (s : Subscription) : Type 0 where
  pub bounded : s.maxsize ≢ 0 → length s.queue ≤ s.maxsize
  pub counted : s.unfinished ≡ length s.queue + busy s.handling

module _ (s : Subscription) where
  evict-IsSound : (queue : List Event) → s.queue ≡ queue → IsSound s → IsSound (evict queue s)
  unfolding evict
  evict-IsSound [] e h = h
  evict-IsSound (x ∷ queue) e h = record {
    bounded = λ n. omega (arith, ap length e, h.bounded n);
    counted = omega (arith, ap length e, h.counted);
  }

  counted-IsSound : IsSound s → IsSound (record s { full_count = s.full_count + 1 })
  counted-IsSound h = record { bounded = h.bounded; counted = h.counted }

  pub put-IsSound : (e : Event) → is_full s ≡ false → IsSound s → IsSound (put e s)
  unfolding is_full put
  put-IsSound e room h = record {
    bounded = λ n. ground (arith, room, n, length-append s.queue (e ∷ []));
    counted = omega (arith, h.counted, length-append s.queue (e ∷ []));
  }

  take_from-IsSound :
      (queue : List Event)
      → s.queue ≡ queue
      → s.handling ≡ none
      → IsSound s
      → IsSound (take_from queue s)
  unfolding take_from
  take_from-IsSound [] e f h = h
  take_from-IsSound (x ∷ queue) e f h = record {
    bounded = λ n. omega (arith, ap length e, h.bounded n);
    counted = omega (arith, ap length e, ap busy f, h.counted);
  }

  pub task_done-IsSound : IsSound s → IsSound (task_done s)
  unfolding task_done
  task_done-IsSound h = elim (Option-cases s.handling) [
    | inl n ↦ rw (n, task_done) h
    | inr (e, n) ↦
        rw (n, task_done)
          (record { bounded = h.bounded; counted = omega (arith, h.counted, ap busy n) })
  ]

pub make_room-IsSound : (s : Subscription) → IsSound s → IsSound (make_room s)
unfolding make_room
make_room-IsSound s h = ground (
  arith,
  evict-IsSound (record s { full_count = s.full_count + 1 }) s.queue refl (counted-IsSound s h),
  counted-IsSound s h,
  h,
)

pub take-IsSound : (s : Subscription) → IsSound s → IsSound (take s)
unfolding take
take-IsSound s h = elim (Option-cases s.handling) [
  | inl n ↦ ground (arith, take_from-IsSound s s.queue refl n h, h)
  | inr (e, n) ↦ ground (arith, n, h)
]

pub cancel-IsSound : (s : Subscription) → IsSound s → IsSound (cancel s)
unfolding cancel
cancel-IsSound s h =
    let d = task_done-IsSound s h in record { bounded = d.bounded; counted = d.counted }

evict-has_room :
    (queue : List Event) (s : Subscription)
    → s.queue ≡ queue
    → (s.maxsize ≢ 0 → length s.queue ≤ s.maxsize)
    → is_full (evict queue s) ≡ false
unfolding is_full evict
evict-has_room [] s e h = ground (arith, ap length e)
evict-has_room (x ∷ queue) s e h = ground (arith, ap length e, h)

-- A queue that gives up its oldest event when full never makes a publisher wait.
pub make_room-has_room :
    (s : Subscription) → s.drop_if_full ≡ true → IsSound s → is_full (make_room s) ≡ false
unfolding make_room
make_room-has_room s d h = elim (Bool-cases (is_full s)) [
  | inl full ↦
      rw (full, make_room)
        (ground (
          arith,
          d,
          evict-has_room s.queue (record s { full_count = s.full_count + 1 }) refl h.bounded,
        ))
  | inr room ↦ ground (arith, room)
]
