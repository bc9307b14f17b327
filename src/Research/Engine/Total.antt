-- ===== src/Research/Engine/Total.antt =====
-- No event makes the manager raise.
use alpha_runtime_v.Base.{
  ℕ, suc, ◌<◌, ◌≡◌, refl, Bool, true, Option, some, List, [], ◌∷◌, arith, some_of_ne_none,
}
use alpha_runtime_v.Base.Dict.{lookup}
use alpha_runtime_v.Base.Lists.{All}
use alpha_runtime_v.Research.Texts.{Text, text_eq}
use alpha_runtime_v.Research.Model.{
  key_eq, EpisodeManager, LevelSnapshot, InteractionFrame, LevelDistanceConfig,
}
use alpha_runtime_v.Research.Episodes.{process, process_level}
use alpha_runtime_v.Research.Opening.{geometry_for_level}
use alpha_runtime_v.Research.Engine.{
  LevelInteractionEngine, with_ids, roll_session, detect_gap, process_frame, process_bar, handle,
  frame_of, other_session, handle_bar,
}
use alpha_runtime_v.Research.Levels.{
  Env, PipelineOutput, BarSnapshot, Bar, get_tick_size, resolve_levels, build_session_id,
}
use alpha_runtime_v.Research.Geometry.Laws.{geometry_some}
use alpha_runtime_v.Research.Opening.{is_vwap}
use alpha_runtime_v.Research.Engine.Bars.{resolve_levels-All}

abbrev pub event_of : Text → ℕ → Option (Option ℕ × Bool) → BarSnapshot → PipelineOutput
event_of symbol ts meta snap = record {
  symbol = symbol;
  timestamp = ts;
  bar_snapshot = some snap;
  metadata = meta;
}

module _ (env : Env) where
  get_tick_size-positive : (symbol : Text) → 0 < env.default_tick → 0 < get_tick_size env symbol
  unfolding get_tick_size
  get_tick_size-positive symbol h = ground (arith, h)

  process_level-total :
      (cfg : LevelDistanceConfig) (frame : InteractionFrame) (l : LevelSnapshot × ℕ)
      (m : EpisodeManager)
      → 0 < l.0.tick_size
      → (n : EpisodeManager) × (process_level cfg frame l m ≡ some n)
  unfolding process_level geometry_for_level
  process_level-total cfg frame (level, id) m h =
      let here : _ =
        geometry_some frame.open_price frame.high frame.low frame.close level.level_value
          level.tick_size frame.atr_14 (is_vwap level.level_type) h in
      some_of_ne_none (process_level cfg frame (level, id) m) (λ q. absurd (cc (rw here at q)))

  process-total :
      (cfg : LevelDistanceConfig) (frame : InteractionFrame) (levels : List LevelSnapshot)
      (ids : ℕ → ℕ) (i : ℕ) (m : EpisodeManager)
      → All (λ l. 0 < l.tick_size) levels
      → (process cfg frame (with_ids ids i levels) m).1 ≡ true
  unfolding process
  process-total cfg frame [] ids i m h = refl
  process-total cfg frame (l ∷ levels) ids i m h =
      let done : _ = process_level-total cfg frame (l, ids i) m h.0 in
      rw (done.1, process) (process-total cfg frame levels ids (suc i) done.0 h.1)

  process_frame-total :
      (cfg : LevelDistanceConfig) (frame : InteractionFrame) (ids : ℕ → ℕ)
      (e : LevelInteractionEngine)
      → All (λ l. 0 < l.tick_size) frame.levels
      → (process_frame env cfg frame ids e).1 ≡ true
  unfolding process_frame
  process_frame-total cfg frame ids e h =
      ground (arith, process-total cfg frame frame.levels ids 0 e.manager h)

  process_bar-fine :
      (cfg : LevelDistanceConfig) (event : PipelineOutput) (snap : BarSnapshot) (bar : Bar)
      (ids : ℕ → ℕ) (e : LevelInteractionEngine)
      → 0 < env.default_tick
      → (process_bar env cfg event snap bar ids e).1 ≡ true
  unfolding process_bar
  process_bar-fine cfg event snap bar ids e h =
      let symbol : Text = event.symbol in
      let sid : Text = build_session_id env symbol bar.timestamp in
      let frame : InteractionFrame =
        frame_of event snap bar sid (resolve_levels env symbol sid snap) in
      let positive : All (λ l. 0 < l.tick_size) frame.levels =
        resolve_levels-All env (λ l. 0 < l.tick_size) symbol sid snap
          (λ name type v dynamic scope. get_tick_size-positive symbol h) in
      let rolled : LevelInteractionEngine = roll_session env symbol sid bar.timestamp e in
      let done : _ =
        process_frame-total cfg frame ids
          (detect_gap env cfg (other_session (lookup symbol e.last_session_key) sid) symbol sid
            bar.timestamp rolled)
          positive in
      done

  -- With a default tick size that is not 0 no bar makes the manager raise: an event with a bar is
  -- processed, and no episode is closed for a processing error.
  pub process_bar-total :
      (cfg : LevelDistanceConfig) (symbol : Text) (ts : ℕ) (meta : Option (Option ℕ × Bool))
      (snap : BarSnapshot) (bar : Bar) (ids : ℕ → ℕ) (e : LevelInteractionEngine)
      → 0 < env.default_tick
      → snap.bar ≡ some bar
      → ((process_bar env cfg (event_of symbol ts meta snap) snap bar ids e).1 ≡ true)
        × (handle env cfg (event_of symbol ts meta snap) ids e
            ≡ (process_bar env cfg (event_of symbol ts meta snap) snap bar ids e).0)
  unfolding handle handle_bar
  process_bar-total cfg symbol ts meta snap bar ids e h b =
      let fine : _ = process_bar-fine cfg (event_of symbol ts meta snap) snap bar ids e h in
      (fine, simp (b, fine))
