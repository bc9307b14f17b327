-- ===== src/Execution/Projector/Events.antt =====
-- Histories of events of projector.py, and how the versions move in them.
use alpha_runtime_v.Base.{
  ℕ, ◌+◌, ◌<◌, ◌==◌, ◌≡◌, refl, true, Option, some, arith, if◌then◌else◌, ◌⊎◌, inl,
}
use alpha_runtime_v.Base.Int.{pos, eqb_ℤ}
use alpha_runtime_v.Base.Dict.{nat_eq, insert, lookup-insert, ==_iff}
use alpha_runtime_v.Execution.Enums.{DataQualityState}
use alpha_runtime_v.Execution.Models.{Decimal, SnapshotId, MarketContextSnapshot}
use alpha_runtime_v.Execution.Projector.{
  MarketStateProjector, BarSnapshot, MarketStateEvent, BarBundleEvent, QuoteEvent, snapshot,
  quote_of, version_of, publish, on_market_state, on_bar_bundle, on_quote,
}

-- One event.
pub data Event (p : MarketStateProjector) : MarketStateProjector → Type 0 where
  market_states :
      (now : ℕ) (bar : Option BarSnapshot) (event : MarketStateEvent)
      → Event p (on_market_state now bar event p)
  bar_bundles : (now : ℕ) (event : BarBundleEvent) → Event p (on_bar_bundle now event p)
  quotes_come : (now : ℕ) (event : QuoteEvent) → Event p (on_quote now event p)

pub data Events (p : MarketStateProjector) : MarketStateProjector → Type 0 where
  no_event : Events p p
  then_event : {q r : MarketStateProjector} → Events p q → Event q r → Events p r

-- A snapshot of an instrument: named by the instrument and a version, with clean data, and at a quote
-- unless that has no bid.
pub record IsShown (i version : ℕ) (quote : Decimal × Decimal) (m : MarketContextSnapshot)
    : Type 0 where
  pub named : m.snapshot_id ≡ SnapshotId.versioned i version
  pub clean : m.data_quality ≡ DataQualityState.clean
  pub quoted : (eqb_ℤ quote.0 (pos 0) ≡ true) ⊎ ((m.bid, m.ask) ≡ quote)

-- The same at the instrument's version and last quote.
abbrev pub IsCurrent : ℕ → MarketStateProjector → MarketContextSnapshot → Type 0
IsCurrent i p m = IsShown i (version_of i p) (quote_of i p) m

pub snapshot-publish :
    (i k : ℕ) (m : MarketContextSnapshot) (p : MarketStateProjector)
    → snapshot i (publish k m p) ≡ (if i == k then some m else snapshot i p)
unfolding snapshot publish
snapshot-publish i k m p = lookup-insert i k m p.snapshots

pub version_of-publish :
    (i k : ℕ) (m : MarketContextSnapshot) (p : MarketStateProjector)
    → version_of i (publish k m p) ≡ (if i == k then version_of k p + 1 else version_of i p)
unfolding version_of publish
version_of-publish i k m p =
    ground (arith, lookup-insert i k (version_of k p + 1) p.version, ==_iff i k)

pub quote_of-publish :
    (i k : ℕ) (m : MarketContextSnapshot) (p : MarketStateProjector)
    → quote_of i (publish k m p) ≡ quote_of i p
unfolding quote_of publish
quote_of-publish i k m p = refl

-- How the state of one instrument moves: not at all, or to a new version.
abbrev pub Moves : ℕ → MarketStateProjector → MarketStateProjector → Type 0
Moves i p q =
    ((snapshot i q ≡ snapshot i p) × (version_of i q ≡ version_of i p))
    ⊎ (version_of i p < version_of i q)

publish-Moves :
    (i k : ℕ) (m : MarketContextSnapshot) (p : MarketStateProjector) → Moves i p (publish k m p)
publish-Moves i k m p =
    ground (arith, snapshot-publish i k m p, version_of-publish i k m p, ==_iff i k)

-- The state of `_on_quote` before it publishes.
abbrev pub with_quote : QuoteEvent → MarketStateProjector → MarketStateProjector
with_quote event p = record p {
  quotes = insert event.symbol (event.bid_price, event.ask_price) p.quotes;
}

with_quote-Moves :
    (i k : ℕ) (event : QuoteEvent) (m : MarketContextSnapshot) (p : MarketStateProjector)
    → Moves i p (publish k m (with_quote event p))
unfolding snapshot version_of
with_quote-Moves i k event m p = publish-Moves i k m (with_quote event p)

Event-Moves : {p q : MarketStateProjector} (i : ℕ) → Event p q → Moves i p q
unfolding on_market_state on_bar_bundle on_quote snapshot version_of
Event-Moves {p} i (market_states now bar event) = grind (arith, publish-Moves)
Event-Moves {p} i (bar_bundles now event) = grind (arith, publish-Moves)
Event-Moves {p} i (quotes_come now event) = grind (arith, with_quote-Moves)

pub Events-Moves : {p q : MarketStateProjector} (i : ℕ) → Events p q → Moves i p q
Events-Moves i no_event = inl (refl, refl)
Events-Moves i (then_event h e) = ground (arith, Events-Moves i h, Event-Moves i e)
