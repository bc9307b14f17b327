-- ===== src/Execution/Tests/Projector.antt =====
-- The projector at a market state, a quote and a bar.
use alpha_runtime_v.Base.{◌≡◌, refl, none, some}
use alpha_runtime_v.Base.Int.{pos}
use alpha_runtime_v.Base.Dict.{lookup, insert, nat_eq}
use alpha_runtime_v.Execution.Enums.{BarTimeframe, TrendState, DayType}
use alpha_runtime_v.Execution.Models.{units, MarketContextSnapshot}
use alpha_runtime_v.Execution.Projector.{
  MarketStateProjector, BarSnapshot, MarketStateEvent, BarBundleEvent, QuoteEvent, empty_projector,
  snapshot, quote_of, version_of, state_quote, state_snapshot, publish, on_market_state,
  on_bar_bundle, quote_snapshot, on_quote, proxy,
}
use alpha_runtime_v.Execution.Projector.Events.{
  Events, market_states, bar_bundles, quotes_come, no_event, then_event, IsCurrent,
}
use alpha_runtime_v.Execution.Projector.Current.{Events-IsCurrent}

abbrev bar : BarSnapshot
bar = record {
  close = units 100000000;
  vwap = units 99900000;
  ema_9 = none;
  ema_21 = none;
  or_high = none;
  or_low = none;
  relative_volume = none;
}

abbrev state_event : MarketStateEvent
state_event = record {
  symbol = 1;
  timestamp = 10;
  state = some (TrendState.choppy, DayType.balanced);
}

abbrev quote_event : QuoteEvent
quote_event = record { symbol = 1; bid_price = units 100000000; ask_price = units 100005000 }

abbrev five_minutes : BarBundleEvent
five_minutes = record {
  symbol = 1;
  timestamp = 20;
  timeframe = BarTimeframe.m5;
  close = units 100010000;
}

abbrev p1 : MarketStateProjector
p1 = on_market_state 11 (some bar) state_event (empty_projector (pos 5000))

abbrev p2 : MarketStateProjector
p2 = on_quote 12 quote_event p1

-- A bar of five minutes changes nothing.
abbrev p3 : MarketStateProjector
p3 = on_bar_bundle 21 five_minutes p2

abbrev first_snapshot : MarketContextSnapshot
first_snapshot =
    state_snapshot 11 state_event TrendState.choppy DayType.balanced (some bar) 1
      (proxy (units 100000000))

abbrev quoted_snapshot : MarketContextSnapshot
quoted_snapshot = quote_snapshot 12 quote_event 2 first_snapshot

is_quoted : snapshot 1 p2 ≡ some quoted_snapshot
unfolding snapshot on_quote on_market_state publish empty_projector quote_of version_of lookup
    insert state_quote state_snapshot quote_snapshot
is_quoted = refl

is_still_quoted : snapshot 1 p3 ≡ some quoted_snapshot
unfolding on_bar_bundle
is_still_quoted = is_quoted

up_to_quote : Events (empty_projector (pos 5000)) p2
up_to_quote =
    then_event (then_event no_event (market_states 11 (some bar) state_event))
      (quotes_come 12 quote_event)

bar_after : Events p2 p3
bar_after = then_event no_event (bar_bundles 21 five_minutes)

Events-IsCurrent_example : IsCurrent 1 p2 quoted_snapshot
Events-IsCurrent_example = Events-IsCurrent (pos 5000) 1 up_to_quote is_quoted
