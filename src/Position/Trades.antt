-- ===== src/Position/Trades.antt =====
-- Entry and exit in src/alpha/engines/position/engine.py. A handler returns the state and the signals that
-- it publishes, in order. The flow engine's delta, the answer of the ingestion monitor and a new id are
-- arguments. The push of flow data to the web clients is left out.
use alpha_runtime_v.Base.{
  ℕ, ◌+◌, ◌==◌, leb, Bool, false, Option, none, some, List, [], ◌∷◌, if◌then◌else◌,
}
use alpha_runtime_v.Base.Int.{ℤ, pos, ◌-ℤ◌, neg, ltb_ℤ, leb_ℤ}
use alpha_runtime_v.Base.Dict.{nat_eq, lookup, insert, erase}
use alpha_runtime_v.Execution.Enums.{OrderSide}
use alpha_runtime_v.Execution.Models.{Decimal}
use alpha_runtime_v.Execution.Invariants.{member}
use alpha_runtime_v.Position.Model.{
  Candidate, ShadowPosition, ExitReason, Signal, PositionMonitor, direction_of, stop_hit,
  target_hit, thesis_invalidated, timeout, would_enter, would_hold, would_exit,
}
use alpha_runtime_v.Position.Watchlist.{compute_bai, reached, confirms_entry, sorted}

-- The `ShadowPosition` that `_check_entry` opens.
unfoldable pub open_position : ℕ → ℕ → Candidate → Decimal → ℕ → Option ℕ → ShadowPosition
open_position id sym c price ts thesis_type = record {
  position_id = id;
  symbol = sym;
  setup_id = c.setup_id;
  setup_type = c.setup_type;
  direction = direction_of c.setup_type;
  entry_price = price;
  stop = c.stop_reference;
  target = c.target_reference;
  grade = c.grade;
  entered_at = ts;
  thesis_type_at_entry = thesis_type;
  bars_held = 0;
  mfe = pos 0;
  mae = pos 0;
  last_price = none;
  pending_thesis_invalidation = false;
}

-- The loop of `_check_entry`: the first candidate that did not exit lately and is confirmed.
unfoldable pub find_entry :
    List ℕ → Decimal → Option ℤ → Option (ℕ × ℕ) → List Candidate → Option Candidate
find_entry exited price delta bai [] = none
find_entry exited price delta bai (c ∷ cs) =
    let rest = find_entry exited price delta bai cs in
    if member ◌==◌ c.setup_id exited
    then rest
    else if confirms_entry c price delta bai
    then some c
    else rest

-- `self._pending_setups.get(symbol, {})`
unfoldable pub pending_of : ℕ → PositionMonitor → List Candidate
pending_of sym m = elim (lookup sym m.pending_setups) [ none ↦ [] | some cs ↦ cs ]

-- `_check_entry`
unfoldable pub check_entry :
    ℕ → Option ℤ → ℕ → Decimal → ℕ → PositionMonitor → PositionMonitor × List Signal
check_entry id delta sym price ts m =
    elim (find_entry m.recently_exited price delta (compute_bai sym m)
      (sorted (pending_of sym m))) [
        | none ↦ (m, [])
        | some c ↦
            let p : ShadowPosition =
              open_position id sym c price ts (lookup sym m.latest_thesis_type) in
            (
              record m { shadow_positions = insert sym p m.shadow_positions },
              would_enter p price ∷ [],
            )
      ]

-- What a position gains at a price, in points.
unfoldable pub excursion : ShadowPosition → Decimal → Decimal
excursion p price = elim p.direction [
  | OrderSide.buy ↦ price -ℤ p.entry_price
  | OrderSide.sell ↦ p.entry_price -ℤ price
]

-- The part of `_check_exit` that updates the position.
unfoldable pub track : Decimal → ShadowPosition → ShadowPosition
track price p = record p {
  bars_held = p.bars_held + 1;
  last_price = some price;
  mfe = if ltb_ℤ p.mfe (excursion p price) then excursion p price else p.mfe;
  mae = if ltb_ℤ (excursion p price) (neg p.mae) then neg (excursion p price) else p.mae;
}

-- `_is_stop_hit`
unfoldable pub is_stop_hit : ShadowPosition → Decimal → Bool
is_stop_hit p price = elim p.direction [
  | OrderSide.buy ↦ leb_ℤ price p.stop
  | OrderSide.sell ↦ leb_ℤ p.stop price
]

-- `_is_target_hit`
unfoldable pub is_target_hit : ShadowPosition → Decimal → Bool
is_target_hit p price = reached p.direction price p.target

-- The `reason` of `_check_exit`, at the updated position.
unfoldable pub exit_reason : ℕ → ShadowPosition → Decimal → Option ExitReason
exit_reason timeout_bars p price =
    if is_stop_hit p price
    then some stop_hit
    else if is_target_hit p price
    then some target_hit
    else if p.pending_thesis_invalidation
    then some thesis_invalidated
    else if leb timeout_bars p.bars_held
    then some timeout
    else none

-- `_check_exit`, at the position that is stored under the symbol.
unfoldable pub check_exit :
    ℕ → ShadowPosition → Decimal → PositionMonitor → PositionMonitor × List Signal
check_exit sym p price m =
    let p' : ShadowPosition = track price p in
    elim (exit_reason m.timeout_bars p' price) [
      | none ↦ (
        record m { shadow_positions = insert sym p' m.shadow_positions },
        would_hold p' price ∷ [],
      )
      | some reason ↦ (
        record m {
          recently_exited = p.setup_id ∷ m.recently_exited;
          shadow_positions = erase p.symbol m.shadow_positions;
        },
        would_exit p' price reason (excursion p' price) ∷ [],
      )
    ]

-- `_on_s1_bar`, at a bar of one second.
unfoldable pub on_s1_bar :
    ℕ → Bool → Option ℤ → ℕ → Decimal → ℕ → PositionMonitor → PositionMonitor × List Signal
on_s1_bar id allowed delta sym price ts m = elim (lookup sym m.shadow_positions) [
  | some p ↦ check_exit sym p price m
  | none ↦ if allowed then check_entry id delta sym price ts m else (m, [])
]
