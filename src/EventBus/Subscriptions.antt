-- ===== src/EventBus/Subscriptions.antt =====
-- `_Subscription` of src/alpha/core/event_bus.py: its queue, what a publisher and the worker do to it between
-- two awaits, and its end.
use alpha_runtime_v.Base.{
  ℕ, ◌+◌, ◌-◌, ◌==◌, Bool, true, false, not, ◌&&◌, Option, none, some, List, [], ◌∷◌, ◌++◌, leb,
  is_some, if◌then◌else◌,
}
use alpha_runtime_v.Base.Dict.{nat_eq}
use alpha_runtime_v.Base.Lists.{length}

pub record Event : Type 0 where
  pub event_type : ℕ
  pub symbol : ℕ
  pub body : ℕ

-- `maxsize` and the items of the queue are the queue's; `unfinished` is its count of unfinished tasks;
-- `handling` is the event that the worker's handler has. The worker ends when its task is cancelled.
pub record Subscription : Type 0 where
  pub event_type : ℕ
  pub symbol : Option ℕ
  pub queue : List Event
  pub maxsize : ℕ
  pub unfinished : ℕ
  pub drop_if_full : Bool
  pub is_running : Bool
  pub handling : Option Event
  pub full_count : ℕ
  pub drop_count : ℕ

-- `queue.full()`; a queue of size 0 has no bound.
unfoldable pub is_full : Subscription → Bool
is_full s = not (s.maxsize == 0) && leb s.maxsize (length s.queue)

-- `queue.get_nowait()` and `task_done()` for an event that is given up.
unfoldable pub evict : List Event → Subscription → Subscription
evict [] s = s
evict (e ∷ queue) s = record s {
  queue = queue;
  unfinished = s.unfinished - 1;
  drop_count = s.drop_count + 1;
}

-- What a publisher does to a queue before its `put`.
unfoldable pub make_room : Subscription → Subscription
make_room s =
    let counted : Subscription = record s { full_count = s.full_count + 1 } in
    if is_full s then (if s.drop_if_full then evict s.queue counted else counted) else s

-- `queue.put(event)` where the queue has room.
unfoldable pub put : Event → Subscription → Subscription
put e s = record s { queue = s.queue ++ e ∷ []; unfinished = s.unfinished + 1 }

unfoldable pub takes : Event → Subscription → Bool
takes e s = elim s.symbol [ none ↦ true | some symbol ↦ symbol == e.symbol ]

-- The worker of `_drain` takes an event and hands it to the handler.
unfoldable pub take_from : List Event → Subscription → Subscription
take_from [] s = s
take_from (e ∷ queue) s = record s { queue = queue; handling = some e }

unfoldable pub take : Subscription → Subscription
take s = if s.is_running && not (is_some s.handling) then take_from s.queue s else s

-- The handler ended, with an exception or without.
unfoldable pub task_done : Subscription → Subscription
task_done s = elim s.handling [
  | none ↦ s
  | some e ↦ record s { handling = none; unfinished = s.unfinished - 1 }
]

-- `_task.cancel()`: a handler that is cancelled is done too.
unfoldable pub cancel : Subscription → Subscription
cancel s = record (task_done s) { is_running = false }
