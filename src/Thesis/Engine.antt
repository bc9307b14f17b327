-- ===== src/Thesis/Engine.antt =====
-- `ThesisEngine` of src/alpha/engines/thesis/engine.py: its state and handlers. Of the collaborators the
-- feature engine answers by arguments; a bar's stage of the pipeline also gets a market state, which it
-- does not read. Wall times, and what 10 is in the unit of the prices, are arguments.
pub mod Live
pub mod Runs
pub mod Stalls
use alpha_runtime_v.Base.{
  ℕ, zero, suc, ◌+◌, Bool, true, false, not, ◌&&◌, ◌||◌, Option, none, some, List, [], ◌∷◌, ◌++◌,
  if◌then◌else◌,
}
use alpha_runtime_v.Base.Int.{ℤ, pos, ◌+ℤ◌, ◌-ℤ◌}
use alpha_runtime_v.Base.Dict.{Dict, nat_eq, lookup, insert, erase}
use alpha_runtime_v.Execution.Models.{Decimal}
use alpha_runtime_v.Thesis.Model.{
  Floats, ThesisState, ThesisType, ThesisCandidate, ActiveThesis, TickFlowSnapshot,
  LevelMemorySnapshot, BarSnapshot, BarEvent,
}
use alpha_runtime_v.Thesis.Flow.{TradeRecord, Quote, session_avg_tps, compute_tick_flow}
use alpha_runtime_v.Thesis.Lifecycle.{is_set, update_thesis}
use alpha_runtime_v.Thesis.Detection.{detect_thesis, build_flip_candidate}
use alpha_runtime_v.Thesis.State.{
  ThesisEngine, ThesisEvent, Features, or_zero, or_empty, is_over, risk_of, risk_reward, new,
  handle_trade, handle_quote, keep_window, update_session_baseline, emit, promote_from, promote,
  put, emit_current,
}

module _ {F : Type 0} (fl : Floats F) where
  -- A new thesis in place of none, or of one that is over.
  unfoldable pub detect :
      ℕ → BarSnapshot F → LevelMemorySnapshot → BarEvent → ThesisEngine F → ThesisEngine F
  detect symbol snap level trigger e = elim (detect_thesis fl snap level trigger) [
    | none ↦ e
    | some t ↦ record e {
      active =
          insert symbol (record { dominant = t; flip = some (build_flip_candidate fl snap t) })
            e.active;
      thesis_created = e.thesis_created + 1;
    }
  ]

  -- An update of a symbol's thesis, and what becomes of it; an exception leaves it in its place and sends
  -- no event.
  unfoldable pub update_active :
      Decimal
      → ℕ
      → BarSnapshot F
      → LevelMemorySnapshot
      → TickFlowSnapshot F
      → BarEvent
      → ActiveThesis F
      → ThesisEngine F
      → ThesisEngine F × List ThesisEvent
  update_active ten symbol snap level tick trigger a e =
      let r : ThesisCandidate F × Bool = update_thesis fl ten snap level tick trigger a.dominant in
      let updated : ActiveThesis F = record a { dominant = r.0 } in
      if r.1
      then emit_current symbol (record e { active = put symbol (promote updated) e.active })
      else (record e { active = insert symbol updated e.active }, [])

  -- What a bar does to a symbol's thesis, given the tick flow.
  unfoldable pub follow :
      Decimal
      → ℕ
      → BarSnapshot F
      → LevelMemorySnapshot
      → TickFlowSnapshot F
      → BarEvent
      → ThesisEngine F
      → ThesisEngine F × List ThesisEvent
  follow ten symbol snap level tick trigger e = elim (lookup symbol e.active) [
    | none ↦ emit_current symbol (detect symbol snap level trigger e)
    | some a ↦
        if is_over a.dominant.state
        then emit_current symbol (detect symbol snap level trigger e)
        else update_active ten symbol snap level tick trigger a e
  ]

  -- The rest of a bar, once the engine has its features.
  unfoldable pub on_features :
      Decimal
      → ℕ
      → ℕ
      → BarSnapshot F
      → LevelMemorySnapshot
      → BarEvent
      → ThesisEngine F
      → ThesisEngine F × List ThesisEvent
  on_features ten now symbol snap level trigger e =
      let average : F =
        session_avg_tps fl now (lookup symbol e.session_start)
          (or_zero (lookup symbol e.session_trades)) in
      let flow : TickFlowSnapshot F × List TradeRecord =
        compute_tick_flow fl trigger.timestamp average (lookup symbol e.latest_quotes)
          (or_empty (lookup symbol e.trade_windows)) in
      follow ten symbol snap level flow.0 trigger
        (update_session_baseline symbol trigger.timestamp (keep_window symbol flow.1 e))

  -- `process_bar`: the stage of the pipeline, with the snapshot of the stage before. The feature engine may
  -- not be set. What it returns is the thesis that the state keeps for the symbol.
  unfoldable pub process_bar :
      Decimal
      → ℕ
      → ℕ
      → Option (Features F)
      → BarSnapshot F
      → BarEvent
      → ThesisEngine F
      → ThesisEngine F × List ThesisEvent
  process_bar ten now symbol none snap trigger e = (e, [])
  process_bar ten now symbol (some features) snap trigger e = elim features.level_memory [
    | none ↦ (e, [])
    | some level ↦
        on_features ten now symbol snap level trigger
          (record e { bars_processed = e.bars_processed + 1 })
  ]

  -- The rest of `_handle_bar` for a bar that it takes.
  unfoldable pub handle_complete_bar :
      Decimal
      → ℕ
      → ℕ
      → Option (Features F)
      → BarEvent
      → ThesisEngine F
      → ThesisEngine F × List ThesisEvent
  handle_complete_bar ten now symbol none trigger e = (e, [])
  handle_complete_bar ten now symbol (some f) trigger e = elim f.snapshot [
    | none ↦ (e, [])
    | some snap ↦ elim f.level_memory [
      | none ↦ (e, [])
      | some level ↦ on_features ten now symbol snap level trigger e
    ]
  ]

  -- `_handle_bar`
  unfoldable pub handle_bar :
      Decimal
      → ℕ
      → ℕ
      → Option (Features F)
      → BarEvent
      → ThesisEngine F
      → ThesisEngine F × List ThesisEvent
  handle_bar ten now symbol features trigger e =
      if not trigger.is_m1 || (trigger.is_partial || e.pipeline_mode)
      then (e, [])
      else handle_complete_bar ten now symbol features trigger
          (record e { bars_processed = e.bars_processed + 1 })
