-- ===== src/Execution/Projector.antt =====
-- The market state projector, src/alpha/engines/execution/projector.py. The feature engine's answer and
-- the clock are arguments of a handler. Half of a sum is exact for prices in whole units of 1/10000.
pub mod Events
pub mod Current
use alpha_runtime_v.Base.{
  ℕ, suc, ◌+◌, ◌/◌, ◌≡◌, Bool, true, false, not, ◌&&◌, Option, none, some, List, [], ◌∷◌,
  if◌then◌else◌,
}
use alpha_runtime_v.Base.Int.{ℤ, pos, negsuc, ◌+ℤ◌, ◌-ℤ◌, neg, ltb_ℤ, leb_ℤ, eqb_ℤ}
use alpha_runtime_v.Base.Dict.{Dict, nat_eq, lookup, insert}
use alpha_runtime_v.Execution.Enums.{BarTimeframe, TrendState, DayType, DataQualityState}
use alpha_runtime_v.Execution.Models.{Decimal, units, SnapshotId, MarketContextSnapshot}
use alpha_runtime_v.Execution.Invariants.{millis_between}

-- What the projector reads of a `BarSnapshot`.
pub record BarSnapshot : Type 0 where
  pub close : Decimal
  pub vwap : Decimal
  pub ema_9 : Option Decimal
  pub ema_21 : Option Decimal
  pub or_high : Option Decimal
  pub or_low : Option Decimal
  pub relative_volume : Option Decimal

-- What the handlers read of an event; `state` is `none` where `model_validate` raises.
pub record MarketStateEvent : Type 0 where
  pub symbol : ℕ
  pub timestamp : ℕ
  pub state : Option (TrendState × DayType)

pub record BarBundleEvent : Type 0 where
  pub symbol : ℕ
  pub timestamp : ℕ
  pub timeframe : BarTimeframe
  pub close : Decimal

pub record QuoteEvent : Type 0 where
  pub symbol : ℕ
  pub bid_price : Decimal
  pub ask_price : Decimal

pub record MarketStateProjector : Type 0 where
  pub max_freshness_ms : ℤ
  pub snapshots : Dict ℕ MarketContextSnapshot
  pub quotes : Dict ℕ (Decimal × Decimal)
  pub version : Dict ℕ ℕ

-- `MarketStateProjector.__init__`
unfoldable pub empty_projector : ℤ → MarketStateProjector
empty_projector max_freshness_ms = record {
  max_freshness_ms = max_freshness_ms;
  snapshots = [];
  quotes = [];
  version = [];
}

-- `snapshot`
unfoldable pub snapshot : ℕ → MarketStateProjector → Option MarketContextSnapshot
snapshot i p = lookup i p.snapshots

-- `latest_snapshot_id`
unfoldable pub latest_snapshot_id : ℕ → MarketStateProjector → Option SnapshotId
latest_snapshot_id i p = elim (lookup i p.snapshots) [ none ↦ none | some s ↦ some s.snapshot_id ]

-- `self._quotes.get(symbol, (Decimal("0"), Decimal("0")))`
unfoldable pub quote_of : ℕ → MarketStateProjector → Decimal × Decimal
quote_of i p = elim (lookup i p.quotes) [ none ↦ (pos 0, pos 0) | some q ↦ q ]

-- `self._version.get(symbol, 0)`
unfoldable pub version_of : ℕ → MarketStateProjector → ℕ
version_of i p = elim (lookup i p.version) [ none ↦ 0 | some v ↦ v ]

-- Half a tick below and above the last price, 0.125.
abbrev pub proxy : Decimal → Decimal × Decimal
proxy last_price = (last_price -ℤ units 2500, last_price +ℤ units 2500)

-- The bid and the ask of `_on_market_state`.
unfoldable pub state_quote : Decimal × Decimal → Decimal → Decimal × Decimal
state_quote (bid, ask) last_price =
    if eqb_ℤ bid (pos 0) && ltb_ℤ (pos 0) last_price then proxy last_price else (bid, ask)

-- The bid and the ask of `_on_bar_bundle`.
unfoldable pub bar_quote : Decimal × Decimal → Decimal → Decimal × Decimal
bar_quote (bid, ask) last_price = if eqb_ℤ bid (pos 0) then proxy last_price else (bid, ask)

abbrev close_of : Option BarSnapshot → Decimal
close_of none = pos 0
close_of (some b) = b.close

abbrev vwap_of : Option BarSnapshot → Decimal
vwap_of none = pos 0
vwap_of (some b) = b.vwap

-- `bar_snap.field if bar_snap else None`
abbrev field_of : Option BarSnapshot → (BarSnapshot → Option Decimal) → Option Decimal
field_of none field = none
field_of (some b) field = field b

-- The `MarketContextSnapshot` of `_on_market_state`.
unfoldable pub state_snapshot :
    ℕ
    → MarketStateEvent
    → TrendState
    → DayType
    → Option BarSnapshot
    → ℕ
    → Decimal × Decimal
    → MarketContextSnapshot
state_snapshot now event trend day_type bar version (bid, ask) = record {
  instrument_id = event.symbol;
  snapshot_id = SnapshotId.versioned event.symbol version;
  as_of = now;
  bar_timestamp = event.timestamp;
  regime = trend;
  day_type = day_type;
  last_price = close_of bar;
  bid = bid;
  ask = ask;
  vwap = vwap_of bar;
  above_vwap = if ltb_ℤ (pos 0) (vwap_of bar) then leb_ℤ (vwap_of bar) (close_of bar) else false;
  bars_since_vwap_cross = 0;
  ema9 = field_of bar (λ b. b.ema_9);
  ema21 = field_of bar (λ b. b.ema_21);
  opening_range_high = field_of bar (λ b. b.or_high);
  opening_range_low = field_of bar (λ b. b.or_low);
  rvol = field_of bar (λ b. b.relative_volume);
  signal_freshness_ms = 0;
  data_quality = DataQualityState.clean;
  setup_scores = [];
}

-- The next version, and the snapshot that it numbers.
unfoldable pub publish : ℕ → MarketContextSnapshot → MarketStateProjector → MarketStateProjector
publish symbol snap p = record p {
  version = insert symbol (version_of symbol p + 1) p.version;
  snapshots = insert symbol snap p.snapshots;
}

-- `_on_market_state`
unfoldable pub on_market_state :
    ℕ → Option BarSnapshot → MarketStateEvent → MarketStateProjector → MarketStateProjector
on_market_state now bar event p = elim event.state [
  | none ↦ p
  | some (trend, day_type) ↦
      publish event.symbol
        (state_snapshot now event trend day_type bar (version_of event.symbol p + 1)
          (state_quote (quote_of event.symbol p) (close_of bar)))
        p
]

abbrev pub is_m1 : BarTimeframe → Bool
is_m1 BarTimeframe.m1 = true
is_m1 _ = false

-- The copy of a snapshot in `_on_bar_bundle`.
unfoldable pub bar_snapshot :
    ℕ → BarBundleEvent → ℕ → Decimal × Decimal → MarketContextSnapshot → MarketContextSnapshot
bar_snapshot now event version (bid, ask) snap = record snap {
  snapshot_id = SnapshotId.versioned event.symbol version;
  as_of = now;
  bar_timestamp = event.timestamp;
  last_price = event.close;
  bid = bid;
  ask = ask;
  signal_freshness_ms = 0;
}

-- `_on_bar_bundle`
unfoldable pub on_bar_bundle : ℕ → BarBundleEvent → MarketStateProjector → MarketStateProjector
on_bar_bundle now event p =
    if not (is_m1 event.timeframe) then p else elim (lookup event.symbol p.snapshots) [
      | none ↦ p
      | some snap ↦
          publish event.symbol
            (bar_snapshot now event (version_of event.symbol p + 1)
              (bar_quote (quote_of event.symbol p) event.close) snap)
            p
    ]

-- `x / 2`
abbrev pub half : Decimal → Decimal
half (pos n) = pos (n / 2)
half (negsuc n) = neg (pos (suc n / 2))

-- The copy of a snapshot in `_on_quote`.
unfoldable pub quote_snapshot : ℕ → QuoteEvent → ℕ → MarketContextSnapshot → MarketContextSnapshot
quote_snapshot now event version snap = record snap {
  snapshot_id = SnapshotId.versioned event.symbol version;
  as_of = now;
  bid = event.bid_price;
  ask = event.ask_price;
  last_price = half (event.bid_price +ℤ event.ask_price);
}

-- `_on_quote`
unfoldable pub on_quote : ℕ → QuoteEvent → MarketStateProjector → MarketStateProjector
on_quote now event p =
    let p' : MarketStateProjector = record p {
      quotes = insert event.symbol (event.bid_price, event.ask_price) p.quotes;
    } in
    elim (lookup event.symbol p.snapshots) [
      | none ↦ p'
      | some snap ↦
          publish event.symbol (quote_snapshot now event (version_of event.symbol p + 1) snap) p'
    ]

-- `freshness_ms`
unfoldable pub freshness_ms : ℕ → ℕ → MarketStateProjector → ℤ
freshness_ms now i p = elim (lookup i p.snapshots) [
  | none ↦ pos 999999
  | some snap ↦ millis_between now snap.as_of
]

-- `is_fresh`
unfoldable pub is_fresh : ℕ → ℕ → MarketStateProjector → Bool
is_fresh now i p = leb_ℤ (freshness_ms now i p) p.max_freshness_ms
