-- ===== src/Execution/Projector/Current.antt =====
-- What the snapshots of projector.py are over any order of events.
use alpha_runtime_v.Base.{
  ℕ, ◌+◌, ◌==◌, ◌≡◌, ◌≢◌, refl, ap, Option, none, some, ◌∙◌, arith, if◌then◌else◌, ◌⊎◌, inl, inr,
  Option-cases, Bool-cases,
}
use alpha_runtime_v.Base.Int.{ℤ}
use alpha_runtime_v.Base.Dict.{nat_eq, lookup, lookup-insert, ==_iff}
use alpha_runtime_v.Execution.Enums.{DataQualityState, TrendState, DayType}
use alpha_runtime_v.Execution.Models.{Decimal, MarketContextSnapshot}
use alpha_runtime_v.Execution.Projector.{
  MarketStateProjector, BarSnapshot, MarketStateEvent, BarBundleEvent, QuoteEvent, empty_projector,
  snapshot, quote_of, version_of, state_quote, bar_quote, state_snapshot, publish, on_market_state,
  bar_snapshot, on_bar_bundle, is_m1, quote_snapshot, on_quote,
}
use alpha_runtime_v.Execution.Projector.Events.{
  Event, Events, market_states, bar_bundles, quotes_come, no_event, then_event, snapshot-publish,
  version_of-publish, quote_of-publish, Events-Moves, with_quote, Moves, IsShown, IsCurrent,
}

AllCurrent : MarketStateProjector → Type 0
AllCurrent p = (i : ℕ) (m : MarketContextSnapshot) → snapshot i p ≡ some m → IsCurrent i p m

carry :
    {i k v w : ℕ} {q r : Decimal × Decimal} {m n : MarketContextSnapshot}
    → i ≡ k
    → v ≡ w
    → q ≡ r
    → n ≡ m
    → IsShown k w r m
    → IsShown i v q n
carry e f g h s = rw (e, f, g, h) s

-- Every snapshot but that of one instrument.
OthersCurrent : ℕ → MarketStateProjector → Type 0
OthersCurrent k p =
    (i : ℕ) (m : MarketContextSnapshot) → i ≢ k → snapshot i p ≡ some m → IsCurrent i p m

published :
    (i k : ℕ) (m n : MarketContextSnapshot) (p : MarketStateProjector)
    → snapshot i (publish k m p) ≡ some n
    → ((i ≡ k) × (version_of i (publish k m p) ≡ version_of k p + 1) × (n ≡ m))
      ⊎ ((i ≢ k) × (version_of i (publish k m p) ≡ version_of i p) × (snapshot i p ≡ some n))
published i k m n p e =
    ground (arith, snapshot-publish i k m p, version_of-publish i k m p, ==_iff i k)

publish-AllCurrent :
    (k : ℕ) (m : MarketContextSnapshot) (p : MarketStateProjector)
    → OthersCurrent k p
    → IsShown k (version_of k p + 1) (quote_of k p) m
    → AllCurrent (publish k m p)
unfolding AllCurrent OthersCurrent
publish-AllCurrent k m p h new i n e = elim (published i k m n p e) [
  | inl (s, v, same) ↦ carry s v (quote_of-publish i k m p ∙ ap (λ j. quote_of j p) s) same new
  | inr (o, v, old) ↦ carry refl v (quote_of-publish i k m p) refl (h i n o old)
]

drop_one : (k : ℕ) (p : MarketStateProjector) → AllCurrent p → OthersCurrent k p
unfolding AllCurrent OthersCurrent
drop_one k p h i m o e = h i m e

stays_clean :
    (k : ℕ) (p : MarketStateProjector) (m : MarketContextSnapshot)
    → AllCurrent p
    → lookup k p.snapshots ≡ some m
    → m.data_quality ≡ DataQualityState.clean
unfolding AllCurrent snapshot
stays_clean k p m h e = (h k m e).clean

state_snapshot-IsShown :
    (now : ℕ) (bar : Option BarSnapshot) (event : MarketStateEvent) (trend : TrendState)
    (day : DayType) (version : ℕ) (quote : Decimal × Decimal) (last : Decimal)
    → IsShown event.symbol version quote
        (state_snapshot now event trend day bar version (state_quote quote last))
unfolding state_snapshot state_quote
state_snapshot-IsShown now bar event trend day version quote last = record {
  named = ground arith;
  clean = ground arith;
  quoted = ground arith;
}

bar_snapshot-IsShown :
    (now : ℕ) (event : BarBundleEvent) (version : ℕ) (quote : Decimal × Decimal)
    (m : MarketContextSnapshot)
    → m.data_quality ≡ DataQualityState.clean
    → IsShown event.symbol version quote
        (bar_snapshot now event version (bar_quote quote event.close) m)
unfolding bar_snapshot bar_quote
bar_snapshot-IsShown now event version quote m c = record {
  named = ground arith;
  clean = ground arith;
  quoted = ground arith;
}

quote_of-with_quote :
    (i : ℕ) (event : QuoteEvent) (p : MarketStateProjector)
    → quote_of i (with_quote event p)
      ≡ (if i == event.symbol then (event.bid_price, event.ask_price) else quote_of i p)
unfolding quote_of
quote_of-with_quote i event p = ground (
  arith,
  lookup-insert i event.symbol (event.bid_price, event.ask_price) p.quotes,
  ==_iff i event.symbol,
)

with_quote-OthersCurrent :
    (event : QuoteEvent) (p : MarketStateProjector)
    → AllCurrent p
    → OthersCurrent event.symbol (with_quote event p)
unfolding AllCurrent OthersCurrent snapshot version_of
with_quote-OthersCurrent event p h i m o e =
    carry refl refl (ground (arith, quote_of-with_quote i event p, ==_iff i event.symbol)) refl
      (h i m e)

quote_snapshot-IsShown :
    (now : ℕ) (event : QuoteEvent) (version : ℕ) (p : MarketStateProjector)
    (m : MarketContextSnapshot)
    → m.data_quality ≡ DataQualityState.clean
    → IsShown event.symbol version
        (quote_of event.symbol (with_quote event p))
        (quote_snapshot now event version m)
unfolding quote_snapshot
quote_snapshot-IsShown now event version p m c = record {
  named = ground arith;
  clean = ground arith;
  quoted =
      ground (arith, quote_of-with_quote event.symbol event p, ==_iff event.symbol event.symbol);
}

on_market_state-AllCurrent :
    (now : ℕ) (bar : Option BarSnapshot) (event : MarketStateEvent) (p : MarketStateProjector)
    → AllCurrent p
    → AllCurrent (on_market_state now bar event p)
unfolding on_market_state
on_market_state-AllCurrent now bar event p h = elim (Option-cases event.state) [
  | inl e ↦ rw (e, on_market_state) h
  | inr ((trend, day), e) ↦
      rw (e, on_market_state)
        (publish-AllCurrent event.symbol _ p (drop_one event.symbol p h) (
          state_snapshot-IsShown now bar event trend day (version_of event.symbol p + 1)
            (quote_of event.symbol p) _))
]

on_bar_bundle-AllCurrent :
    (now : ℕ) (event : BarBundleEvent) (p : MarketStateProjector)
    → AllCurrent p
    → AllCurrent (on_bar_bundle now event p)
unfolding on_bar_bundle
on_bar_bundle-AllCurrent now event p h = elim (Bool-cases (is_m1 event.timeframe)) [
  | inr b ↦ rw (b, on_bar_bundle) h
  | inl b ↦ elim (Option-cases (lookup event.symbol p.snapshots)) [
    | inl e ↦ rw (b, e, on_bar_bundle) h
    | inr (m, e) ↦
        rw (b, e, on_bar_bundle)
          (publish-AllCurrent event.symbol _ p (drop_one event.symbol p h) (
            bar_snapshot-IsShown now event (version_of event.symbol p + 1) (quote_of event.symbol p)
              m (stays_clean event.symbol p m h e)))
  ]
]

absent-AllCurrent :
    (k : ℕ) (p : MarketStateProjector) → snapshot k p ≡ none → OthersCurrent k p → AllCurrent p
unfolding AllCurrent OthersCurrent
absent-AllCurrent k p a h i m e = h i m (λ s. cc (s, a, e)) e

on_quote-AllCurrent :
    (now : ℕ) (event : QuoteEvent) (p : MarketStateProjector)
    → AllCurrent p
    → AllCurrent (on_quote now event p)
unfolding on_quote version_of snapshot
on_quote-AllCurrent now event p h = elim (Option-cases (lookup event.symbol p.snapshots)) [
  | inl e ↦
      rw (e, on_quote)
        (absent-AllCurrent event.symbol (with_quote event p) e (with_quote-OthersCurrent event p h))
  | inr (m, e) ↦
      rw (e, on_quote)
        (publish-AllCurrent event.symbol _ (with_quote event p) (with_quote-OthersCurrent event p h)
          (quote_snapshot-IsShown now event (version_of event.symbol p + 1) p m
            (stays_clean event.symbol p m h e)))
]

Event-AllCurrent : {p q : MarketStateProjector} → Event p q → AllCurrent p → AllCurrent q
Event-AllCurrent {p} (market_states now bar event) h = on_market_state-AllCurrent now bar event p h
Event-AllCurrent {p} (bar_bundles now event) h = on_bar_bundle-AllCurrent now event p h
Event-AllCurrent {p} (quotes_come now event) h = on_quote-AllCurrent now event p h

Events-AllCurrent : {p q : MarketStateProjector} → Events p q → AllCurrent p → AllCurrent q
Events-AllCurrent no_event h = h
Events-AllCurrent (then_event r e) h = Event-AllCurrent e (Events-AllCurrent r h)

empty-AllCurrent : (f : ℤ) → AllCurrent (empty_projector f)
unfolding AllCurrent empty_projector snapshot version_of quote_of lookup
empty-AllCurrent f i m e = cc e

-- After any events from an empty projector the snapshot of an instrument is named by the instrument
-- and its version, and shows the bid and the ask of the last quote unless that has no bid. Its data
-- quality is CLEAN, whatever the feed did.
pub Events-IsCurrent :
    {p : MarketStateProjector} {m : MarketContextSnapshot} (max_freshness_ms : ℤ) (i : ℕ)
    → Events (empty_projector max_freshness_ms) p
    → snapshot i p ≡ some m
    → IsCurrent i p m
unfolding AllCurrent
Events-IsCurrent {m = m} f i r e = Events-AllCurrent r (empty-AllCurrent f) i m e

same_name :
    (i : ℕ) (p q : MarketStateProjector) (m n : MarketContextSnapshot)
    → Moves i p q
    → IsCurrent i p m
    → IsCurrent i q n
    → snapshot i p ≡ some m
    → snapshot i q ≡ some n
    → m.snapshot_id ≡ n.snapshot_id
    → m ≡ n
same_name i p q m n moved cm cn em en same = ground (arith, cm.named, cn.named)

-- A snapshot id names one snapshot: if at two moments of a history the snapshots of an instrument have
-- the same id, they are the same snapshot.
id_names_one :
    {p q : MarketStateProjector} {m n : MarketContextSnapshot} (max_freshness_ms : ℤ) (i : ℕ)
    → Events (empty_projector max_freshness_ms) p
    → Events p q
    → snapshot i p ≡ some m
    → snapshot i q ≡ some n
    → m.snapshot_id ≡ n.snapshot_id
    → m ≡ n
unfolding AllCurrent
id_names_one {p} {q} {m} {n} f i r later em en same =
    let current : AllCurrent p = Events-AllCurrent r (empty-AllCurrent f) in
    same_name i p q m n (Events-Moves i later) (current i m em)
      (Events-AllCurrent later current i n en) em en same
