-- ===== src/EventBus.antt =====
-- `EventBus` of src/alpha/core/event_bus.py. A subscription is an object that publishers, its worker and the
-- lists of subscriptions share: it stands in a store under its id. What happens between two awaits is one
-- function: a publisher's way from one queue to the next, and a worker's start and end of a handler. How a
-- handler ends makes no difference to the bus.
pub mod Queues
pub mod History
pub mod Steps
pub mod Sound
pub mod Waits
pub mod Tests
pub mod Subscriptions
use alpha_runtime_v.Base.{
  ℕ, zero, suc, ◌+◌, ◌-◌, ◌==◌, Bool, true, false, not, ◌&&◌, Option, none, some, List, [], ◌∷◌,
  ◌++◌, ltb, leb, is_some, if◌then◌else◌, map,
}
use alpha_runtime_v.Base.Dict.{Dict, nat_eq, lookup, insert}
use alpha_runtime_v.Base.Lists.{length}
use alpha_runtime_v.EventBus.Subscriptions.{
  Event, Subscription, cancel, is_full, make_room, put, takes,
}

-- `subscriptions` lists ids for an event type.
pub record EventBus : Type 0 where
  pub queue_size : ℕ
  pub subscriptions : Dict ℕ (List ℕ)
  pub store : Dict ℕ Subscription
  pub running : Bool

-- A call of `publish` on its way: the place of its iterator in the list, and the subscription for whose
-- queue it waits in `put`.
pub record Publisher : Type 0 where
  pub event : Event
  pub index : ℕ
  pub waits_for : Option ℕ

unfoldable pub new : ℕ → EventBus
new queue_size = record { queue_size = queue_size; subscriptions = []; store = []; running = false }

unfoldable pub start : EventBus → EventBus
start b = record b { running = true }

abbrev pub targets : ℕ → EventBus → List ℕ
targets event_type b = elim (lookup event_type b.subscriptions) [ none ↦ [] | some ids ↦ ids ]

abbrev pub update : ℕ → (Subscription → Subscription) → EventBus → EventBus
update id f b = elim (lookup id b.store) [
  | none ↦ b
  | some s ↦ record b { store = insert id (f s) b.store }
]

-- `queue_size or self._queue_size`
abbrev pub size_or : Option ℕ → ℕ → ℕ
size_or none default = default
size_or (some n) default = if n == 0 then default else n

-- The subscription that `subscribe` makes, its worker running.
unfoldable pub fresh_subscription : ℕ → Option ℕ → Option ℕ → Bool → EventBus → Subscription
fresh_subscription event_type symbol queue_size drop_if_full b = record {
  event_type = event_type;
  symbol = symbol;
  queue = [];
  maxsize = size_or queue_size b.queue_size;
  unfinished = 0;
  drop_if_full = drop_if_full;
  is_running = true;
  handling = none;
  full_count = 0;
  drop_count = 0;
}

-- `subscribe`, with a fresh id.
unfoldable pub subscribe : ℕ → ℕ → Option ℕ → Option ℕ → Bool → EventBus → EventBus
subscribe id event_type symbol queue_size drop_if_full b = record b {
  subscriptions = insert event_type (targets event_type b ++ id ∷ []) b.subscriptions;
  store = insert id (fresh_subscription event_type symbol queue_size drop_if_full b) b.store;
}

-- `subs.remove(sub)`
unfoldable pub remove : ℕ → List ℕ → List ℕ
remove id [] = []
remove id (i ∷ ids) = let rest = remove id ids in if i == id then ids else i ∷ rest

unfoldable pub unsubscribe : ℕ → EventBus → EventBus
unsubscribe id b = elim (lookup id b.store) [
  | none ↦ b
  | some s ↦ record b {
    store = insert id (cancel s) b.store;
    subscriptions = insert s.event_type (remove id (targets s.event_type b)) b.subscriptions;
  }
]

abbrev pub cancel_all : List ℕ → EventBus → EventBus
cancel_all [] b = b
cancel_all (id ∷ ids) b = cancel_all ids (update id cancel b)

abbrev pub cancel_lists : Dict ℕ (List ℕ) → EventBus → EventBus
cancel_lists [] b = b
cancel_lists ((event_type, ids) ∷ lists) b = cancel_lists lists (cancel_all ids b)

unfoldable pub stop : EventBus → EventBus
stop b = cancel_lists b.subscriptions (record b { running = false })

-- The start of `publish`; a bus that does not run drops the event.
unfoldable pub publish : Event → EventBus → Option Publisher
publish e b = if b.running then some (record { event = e; index = 0; waits_for = none }) else none

abbrev pub get_elem? : List ℕ → ℕ → Option ℕ
get_elem? [] i = none
get_elem? (x ∷ xs) zero = some x
get_elem? (x ∷ xs) (suc i) = get_elem? xs i

abbrev pub moved_on : Publisher → Publisher
moved_on p = record p { index = suc p.index; waits_for = none }

-- `put` for a queue: at once, or as soon as it has room.
unfoldable pub put_or_wait : ℕ → Subscription → Publisher → EventBus → EventBus × Publisher
put_or_wait id s p b =
    if is_full s
    then (record b { store = insert id s b.store }, record p { waits_for = some id })
    else (record b { store = insert id (put p.event s) b.store }, moved_on p)

-- The round of the loop for a subscription, up to its `put`.
unfoldable pub offer : ℕ → Publisher → EventBus → EventBus × Publisher
offer id p b = elim (lookup id b.store) [
  | none ↦ (b, moved_on p)
  | some s ↦ if takes p.event s then put_or_wait id (make_room s) p b else (b, moved_on p)
]

-- The wake of a publisher that waits in `put`.
unfoldable pub wake : ℕ → Publisher → EventBus → EventBus × Publisher
wake id p b = elim (lookup id b.store) [
  | none ↦ (b, p)
  | some s ↦
      if is_full s
      then (b, p)
      else (record b { store = insert id (put p.event s) b.store }, moved_on p)
]

-- The next stretch of `publish`; `none` once the loop is over.
unfoldable pub publish_next : Publisher → EventBus → EventBus × Option Publisher
publish_next p b = elim p.waits_for [
  | some id ↦ let r : EventBus × Publisher = wake id p b in (r.0, some r.1)
  | none ↦ elim (get_elem? (targets p.event.event_type b) p.index) [
    | none ↦ (b, none)
    | some id ↦ let r : EventBus × Publisher = offer id p b in (r.0, some r.1)
  ]
]

-- Whether `flush` returns without a wait: no listed queue has an unfinished task.
abbrev pub is_drained : EventBus → List ℕ → Bool
is_drained b [] = true
is_drained b (id ∷ ids) =
    (elim (lookup id b.store) [ none ↦ true | some s ↦ s.unfinished == 0 ]) && is_drained b ids

abbrev pub flushes : EventBus → Dict ℕ (List ℕ) → Bool
flushes b [] = true
flushes b ((event_type, ids) ∷ lists) = is_drained b ids && flushes b lists

-- `queue_depths`
pub record QueueDepth : Type 0 where
  pub event_type : ℕ
  pub symbol : Option ℕ
  pub depth : ℕ
  pub maxsize : ℕ
  pub full_count : ℕ
  pub drop_count : ℕ
  pub drop_if_full : Bool

unfoldable pub depth_of : Subscription → QueueDepth
depth_of s = record {
  event_type = s.event_type;
  symbol = s.symbol;
  depth = length s.queue;
  maxsize = s.maxsize;
  full_count = s.full_count;
  drop_count = s.drop_count;
  drop_if_full = s.drop_if_full;
}

abbrev pub depths_of : EventBus → List ℕ → List QueueDepth
depths_of b [] = []
depths_of b (id ∷ ids) = elim (lookup id b.store) [
  | none ↦ depths_of b ids
  | some s ↦ depth_of s ∷ depths_of b ids
]

abbrev pub depths_in : EventBus → Dict ℕ (List ℕ) → List QueueDepth
depths_in b [] = []
depths_in b ((event_type, ids) ∷ lists) = depths_of b ids ++ depths_in b lists

unfoldable pub queue_depths : EventBus → List QueueDepth
queue_depths b = depths_in b b.subscriptions
