-- ===== src/Thesis/Engine/Runs.antt =====
-- The theses that the engine keeps, over any events that it handles.
use alpha_runtime_v.Base.{
  ℕ, ◌+◌, ◌≢◌, inl, inr, not, ◌||◌, Option, none, some, Option-cases, Bool-cases,
}
use alpha_runtime_v.Base.Int.{pos}
use alpha_runtime_v.Base.Dict.{nat_eq, lookup}
use alpha_runtime_v.Execution.Models.{Decimal}
use alpha_runtime_v.Thesis.Model.{
  Floats, TickFlowSnapshot, LevelMemorySnapshot, BarSnapshot, BarEvent,
}
use alpha_runtime_v.Thesis.Flow.{TradeRecord, Quote}
use alpha_runtime_v.Thesis.Engine.{
  detect, follow, on_features, process_bar, handle_complete_bar, handle_bar,
}
use alpha_runtime_v.Thesis.State.{
  ThesisEngine, Features, new, handle_trade, handle_quote, is_over, emit_current,
}
use alpha_runtime_v.Thesis.Engine.Live.{
  Tracks, detect-Tracks, update_active-Tracks, emit_current-same, baseline-same, window-same,
}

-- A snapshot whose ATR is not 0, if there is one.
abbrev pub Moving : {F : Type 0} → Option (BarSnapshot F) → Type 0
Moving none = Unit
Moving (some snap) = snap.atr_14 ≢ some (pos 0)

abbrev pub Feeds : {F : Type 0} → Option (Features F) → Type 0
Feeds none = Unit
Feeds (some f) = Moving f.snapshot

module _ {F : Type 0} (fl : Floats F) (ten : Decimal) where
  follow-Tracks :
      (symbol : ℕ) (snap : BarSnapshot F) (level : LevelMemorySnapshot) (tick : TickFlowSnapshot F)
      (trigger : BarEvent) (e : ThesisEngine F)
      → snap.atr_14 ≢ some (pos 0)
      → Tracks fl e.active
      → Tracks fl (follow fl ten symbol snap level tick trigger e).0.active
  unfolding follow
  follow-Tracks symbol snap level tick trigger e moved h =
      let fresh : Tracks fl (emit_current symbol (detect fl symbol snap level trigger e)).0.active =
        rw (emit_current-same symbol (detect fl symbol snap level trigger e))
          (detect-Tracks fl symbol snap level trigger e h) in
      elim (Option-cases (lookup symbol e.active)) [
        | inl n ↦ rw (n, follow) fresh
        | inr (a, n) ↦ elim (Bool-cases (is_over a.dominant.state)) [
          | inl over ↦ rw (n, over, follow) fresh
          | inr more ↦
              rw (n, more, follow)
                (update_active-Tracks fl symbol snap level trigger ten tick a e moved (h symbol a n)
                  h)
        ]
      ]

  on_features-Tracks :
      (now symbol : ℕ) (snap : BarSnapshot F) (level : LevelMemorySnapshot) (trigger : BarEvent)
      (e : ThesisEngine F)
      → snap.atr_14 ≢ some (pos 0)
      → Tracks fl e.active
      → Tracks fl (on_features fl ten now symbol snap level trigger e).0.active
  unfolding on_features
  on_features-Tracks now symbol snap level trigger e moved h =
      follow-Tracks symbol snap level _ trigger _ moved (rw (baseline-same, window-same) h)

  -- What leads from a new engine to a state: trades, quotes, and bars of either path whose ATR, where it is
  -- known, is not 0.
  pub data Reached : ThesisEngine F → Type 0 where
    start : Reached new
    trade :
        (symbol : ℕ) (r : TradeRecord) (e : ThesisEngine F)
        → Reached e
        → Reached (handle_trade symbol r e)
    quote :
        (symbol : ℕ) (q : Quote) (e : ThesisEngine F)
        → Reached e
        → Reached (handle_quote symbol q e)
    piped :
        (now symbol : ℕ) (features : Option (Features F)) (snap : BarSnapshot F)
        (trigger : BarEvent) (e : ThesisEngine F)
        → snap.atr_14 ≢ some (pos 0)
        → Reached e
        → Reached (process_bar fl ten now symbol features snap trigger e).0
    alone :
        (now symbol : ℕ) (features : Option (Features F)) (trigger : BarEvent) (e : ThesisEngine F)
        → Feeds features
        → Reached e
        → Reached (handle_bar fl ten now symbol features trigger e).0

  process_bar-Tracks :
      (now symbol : ℕ) (features : Option (Features F)) (snap : BarSnapshot F) (trigger : BarEvent)
      (e : ThesisEngine F)
      → snap.atr_14 ≢ some (pos 0)
      → Tracks fl e.active
      → Tracks fl (process_bar fl ten now symbol features snap trigger e).0.active
  unfolding process_bar
  process_bar-Tracks now symbol none snap trigger e moved h = h
  process_bar-Tracks now symbol (some f) snap trigger e moved h =
      elim (Option-cases f.level_memory) [
        | inl n ↦ rw (n, process_bar) h
        | inr (level, n) ↦
            rw (n, process_bar)
              (on_features-Tracks now symbol snap level trigger
                (record e { bars_processed = e.bars_processed + 1 }) moved h)
      ]

  handle_complete_bar-Tracks :
      (now symbol : ℕ) (features : Option (Features F)) (trigger : BarEvent) (e : ThesisEngine F)
      → Feeds features
      → Tracks fl e.active
      → Tracks fl (handle_complete_bar fl ten now symbol features trigger e).0.active
  unfolding handle_complete_bar
  handle_complete_bar-Tracks now symbol none trigger e fed h = h
  handle_complete_bar-Tracks now symbol (some f) trigger e fed h = elim (Option-cases f.snapshot) [
    | inl n ↦ rw (n, handle_complete_bar) h
    | inr (snap, n) ↦ elim (Option-cases f.level_memory) [
      | inl m ↦ rw (n, m, handle_complete_bar) h
      | inr (level, m) ↦
          rw (n, m, handle_complete_bar)
            (on_features-Tracks now symbol snap level trigger e (rw n at fed) h)
    ]
  ]

  -- In every state that trades, quotes and bars with ATRs that are not 0 lead to from a new engine, each thesis
  -- that is kept is watching for at most 8 bars, building for at most 20, expired, or ready with an entry and a
  -- stop, and its flip, if any, is as it was made: watching, of age 0, at a confidence of 0.05, with no anchor,
  -- plan or evidence of its own.
  pub Reached-Tracks : (e : ThesisEngine F) → Reached e → Tracks fl e.active
  unfolding new handle_trade handle_quote handle_bar lookup
  Reached-Tracks e start = λ symbol a h. absurd (cc h)
  Reached-Tracks e (trade symbol r before h) = Reached-Tracks before h
  Reached-Tracks e (quote symbol q before h) = Reached-Tracks before h
  Reached-Tracks e (piped now symbol features snap trigger before moved h) =
      process_bar-Tracks now symbol features snap trigger before moved (Reached-Tracks before h)
  Reached-Tracks e (alone now symbol features trigger before fed h) =
      elim (Bool-cases (not trigger.is_m1 || (trigger.is_partial || before.pipeline_mode))) [
        | inl skip ↦ rw (skip, handle_bar) (Reached-Tracks before h)
        | inr run ↦
            rw (run, handle_bar)
              (handle_complete_bar-Tracks now symbol features trigger
                (record before { bars_processed = before.bars_processed + 1 }) fed
                (Reached-Tracks before h))
      ]
