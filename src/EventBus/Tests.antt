-- ===== src/EventBus/Tests.antt =====
-- A bus with a bounded queue or two.
use alpha_runtime_v.Base.{◌≡◌, refl, true, false, none, some, [], ◌∷◌, arith}
use alpha_runtime_v.Base.Dict.{nat_eq, lookup, insert}
use alpha_runtime_v.Base.Lists.{All}
use alpha_runtime_v.EventBus.{
  EventBus, Publisher, new, start, targets, fresh_subscription, subscribe, unsubscribe, get_elem?,
  put_or_wait, offer, publish_next,
}
use alpha_runtime_v.EventBus.Subscriptions.{
  Event, Subscription, is_full, evict, make_room, put, takes,
}
use alpha_runtime_v.EventBus.Sound.{Reached, Drained, flush_drains}
use alpha_runtime_v.EventBus.History.{QueueRun, IsHeld, QueueRun-IsHeld}
use alpha_runtime_v.EventBus.Waits.{Later, unsubscribed_waits_forever, unsubscribe_skips}

abbrev first : Event
first = record { event_type = 1; symbol = 7; body = 10 }

abbrev second : Event
second = record { event_type = 1; symbol = 7; body = 20 }

-- A queue for one event that drops the oldest.
abbrev latest : Subscription
latest = record {
  event_type = 1;
  symbol = none;
  queue = [];
  maxsize = 1;
  unfinished = 0;
  drop_if_full = true;
  is_running = true;
  handling = none;
  full_count = 0;
  drop_count = 0;
}

-- The second event drives the first one out.
two_offers :
    put second (make_room (put first (make_room latest)))
    ≡ record latest { queue = second ∷ []; unfinished = 1; full_count = 1; drop_count = 1 }
unfolding put make_room is_full evict
two_offers = refl

QueueRun-IsHeld_example :
    IsHeld (first ∷ second ∷ []) [] (put second (make_room (put first (make_room latest))))
unfolding put make_room is_full evict
QueueRun-IsHeld_example =
    QueueRun-IsHeld (first ∷ second ∷ []) [] (put second (make_room (put first (make_room latest))))
      (QueueRun.offered second (first ∷ []) [] (put first (make_room latest))
        (QueueRun.offered first [] [] latest (QueueRun.opened latest refl refl refl refl) refl)
        refl)

-- A bus with a subscription 5 to event type 1, and ones with two and three.
abbrev one_subscribed : EventBus
one_subscribed = subscribe 5 1 none (some 1) false (start (new 2000))

abbrev two_subscribed : EventBus
two_subscribed = subscribe 6 1 none none false one_subscribed

abbrev three_subscribed : EventBus
three_subscribed = subscribe 8 1 none none false two_subscribed

flush_drains_example :
    All (λ l. All (λ id. Drained (lookup id one_subscribed.store)) l.1) one_subscribed.subscriptions
unfolding subscribe start new fresh_subscription insert lookup
flush_drains_example =
    flush_drains one_subscribed
      (Reached.subscribed 5 1 none (some 1) false (start (new 2000))
        (Reached.started (new 2000) (Reached.created 2000)))
      refl

-- A publisher that has put one event goes on to wait with the next.
abbrev full : Subscription
full = put first (fresh_subscription 1 none (some 1) false (start (new 2000)))

abbrev full_bus : EventBus
full_bus = record one_subscribed { store = (5, full) ∷ [] }

abbrev waiting : Publisher
waiting = record { event = second; index = 0; waits_for = some 5 }

comes_to_wait :
    (publish_next (record { event = second; index = 0; waits_for = none }) full_bus).1
    ≡ some waiting
unfolding publish_next offer put_or_wait takes make_room is_full put fresh_subscription subscribe
    start new insert lookup
comes_to_wait = refl

unsubscribed_waits_forever_example :
    publish_next waiting (unsubscribe 5 full_bus) ≡ (unsubscribe 5 full_bus, some waiting)
unfolding is_full put fresh_subscription subscribe start new insert lookup
unsubscribed_waits_forever_example =
    unsubscribed_waits_forever 5 full waiting full_bus (unsubscribe 5 full_bus) refl refl refl refl
      Later.now

-- A publisher that is done with subscription 5.
abbrev passing : Publisher
passing = record { event = second; index = 1; waits_for = none }

unsubscribe_skips_example :
    (publish_next passing three_subscribed
      ≡ ((offer 6 passing three_subscribed).0, some (offer 6 passing three_subscribed).1))
    × (get_elem? (targets 1 (unsubscribe 5 three_subscribed)) 0 ≡ some 6)
    × (publish_next passing (unsubscribe 5 three_subscribed) ≡ (
      (offer 8 passing (unsubscribe 5 three_subscribed)).0,
      some (offer 8 passing (unsubscribe 5 three_subscribed)).1,
    ))
unfolding fresh_subscription subscribe start new insert lookup
unsubscribe_skips_example =
    unsubscribe_skips 5 0 0 6 8 (fresh_subscription 1 none (some 1) false (start (new 2000)))
      passing three_subscribed refl refl refl refl refl (omega arith) refl refl
