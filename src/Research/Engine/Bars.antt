-- ===== src/Research/Engine/Bars.antt =====
-- Every event keeps the engine settled.
use alpha_runtime_v.Base.{
  ℕ, ◌<◌, ◌≡◌, refl, Bool, true, false, Option, none, some, List, [], ◌++◌, arith, inl, inr,
  Bool-cases, ◌∙◌, sym,
}
use alpha_runtime_v.Base.Dict.{lookup}
use alpha_runtime_v.Base.Lists.{All, All-append}
use alpha_runtime_v.Research.Texts.{Text, eq_text_iff, text_eq}
use alpha_runtime_v.Research.Model.{
  key_eq, EpisodeManager, LevelSnapshot, LevelType, SessionScope, InteractionFrame,
  LevelDistanceConfig,
}
use alpha_runtime_v.Research.Episodes.Closing.{of_session}
use alpha_runtime_v.Research.Episodes.Ends.{on_processing_error-lookup}
use alpha_runtime_v.Research.Episodes.{process}
use alpha_runtime_v.Research.Engine.{
  LevelInteractionEngine, with_manager, with_ids, roll_session, process_frame, process_bar, handle,
  other_session, is_empty, handle_bar,
}
use alpha_runtime_v.Research.Levels.{
  Env, PipelineOutput, BarSnapshot, Bar, resolve_levels, build_session_id, admit, level_of,
  full_session_vwap_level, rth_vwap_level, orh_level, orl_level,
}
use alpha_runtime_v.Research.Engine.Sessions.{OfSession, process-other}
use alpha_runtime_v.Research.Episodes.Kept.Steps.{process-IsKept, on_processing_error-IsKept}
use alpha_runtime_v.Research.Engine.Settled.{
  IsSettled, roll_session-IsSettled, roll_session-current, detect_gap-IsSettled,
  with_manager-IsSettled,
}
use alpha_runtime_v.Execution.Models.{Decimal}
use alpha_runtime_v.Research.Writer.{new_writer}

admit-All :
    (P : LevelSnapshot → Type 0) (b : Bool) (v : Option Decimal) (f : Decimal → LevelSnapshot)
    → ((d : Decimal) → P (f d))
    → All P (admit b v f)
admit-All P false v f h = tt
admit-All P true none f h = tt
admit-All P true (some v) f h = (h v, tt)

module _ (env : Env) where
  -- What holds of every level that is built holds of all that are resolved.
  pub resolve_levels-All :
      (P : LevelSnapshot → Type 0) (symbol session_id : Text) (snap : BarSnapshot)
      → ((name : _) (type : _) (v : Decimal) (dynamic : Bool) (scope : _)
          → P (level_of env symbol session_id name type v dynamic scope))
      → All P (resolve_levels env symbol session_id snap)
  unfolding resolve_levels full_session_vwap_level rth_vwap_level orh_level orl_level
  resolve_levels-All P symbol sid snap h =
      let full : List LevelSnapshot = full_session_vwap_level env symbol sid snap in
      let rth : List LevelSnapshot = rth_vwap_level env symbol sid snap in
      let orh : List LevelSnapshot = orh_level env symbol sid snap in
      let orl : List LevelSnapshot = orl_level env symbol sid snap in
      All-append P full (rth ++ (orh ++ orl))
        (admit-All P _ _ _
          (λ v. h "vwap:full_session" LevelType.vwap v true SessionScope.full_session))
        (All-append P rth (orh ++ orl)
          (admit-All P _ _ _ (λ v. h "vwap:rth" LevelType.vwap v true SessionScope.rth))
          (All-append P orh orl
            (admit-All P _ _ _ (λ v. h "orh:rth" LevelType.orh v false SessionScope.rth))
            (admit-All P _ _ _ (λ v. h "orl:rth" LevelType.orl v false SessionScope.rth))))

  -- A frame of one session keeps the engine settled.
  process_frame-IsSettled :
      (cfg : LevelDistanceConfig) (frame : InteractionFrame) (symbol session_id : Text)
      (ids : ℕ → ℕ) (e : LevelInteractionEngine)
      → 0 < cfg.min_separation_bars
      → IsSettled cfg e
      → lookup symbol e.last_session_key ≡ some session_id
      → All (OfSession symbol session_id) frame.levels
      → IsSettled cfg (process_frame env cfg frame ids e).0
  unfolding process_frame
  process_frame-IsSettled cfg frame symbol session_id ids e z h c o =
      let done : EpisodeManager × Bool =
        process cfg frame (with_ids ids 0 frame.levels) e.manager in
      let after : IsSettled cfg (with_manager env done.0 e) =
        with_manager-IsSettled env cfg done.0 e (process-IsKept cfg frame _ e.manager z h.kept)
          (λ k a l. elim (Bool-cases (of_session symbol session_id k)) [
            | inl q ↦
                ground
                  (arith, eq_text_iff k.symbol symbol, eq_text_iff k.session_id session_id, q, c)
            | inr q ↦ h.settled k a (
                sym (process-other cfg frame frame.levels ids 0 symbol session_id k e.manager o q)
                ∙ l)
          ]) in
      elim (Bool-cases (is_empty frame.levels)) [
        | inl n ↦ rw (n, process_frame) h
        | inr n ↦ elim (Bool-cases done.1) [
          | inl d ↦ rw (n, d, process_frame) (record { kept = after.kept; settled = after.settled })
          | inr d ↦ rw (n, d, process_frame) after
        ]
      ]

  process_bar-IsSettled :
      (cfg : LevelDistanceConfig) (event : PipelineOutput) (snap : BarSnapshot) (bar : Bar)
      (ids : ℕ → ℕ) (e : LevelInteractionEngine)
      → 0 < cfg.min_separation_bars
      → IsSettled cfg e
      → IsSettled cfg (process_bar env cfg event snap bar ids e).0
  unfolding process_bar
  process_bar-IsSettled cfg event snap bar ids e z h =
      let symbol : Text = event.symbol in
      let sid : Text = build_session_id env symbol bar.timestamp in
      let over : Bool = other_session (lookup symbol e.last_session_key) sid in
      let rolled : LevelInteractionEngine = roll_session env symbol sid bar.timestamp e in
      let checked : _ =
        detect_gap-IsSettled env cfg over symbol sid bar.timestamp rolled
          (roll_session-IsSettled env cfg symbol sid bar.timestamp e h) in
      process_frame-IsSettled cfg _ symbol sid ids _ z checked.0
        (rw checked.1 (roll_session-current env symbol sid bar.timestamp e))
        (resolve_levels-All (OfSession symbol sid) symbol sid snap
          (λ name type v dynamic scope. (refl, refl)))

  handle_bar-IsSettled :
      (cfg : LevelDistanceConfig) (event : PipelineOutput) (snap : BarSnapshot) (bar : Bar)
      (ids : ℕ → ℕ) (e : LevelInteractionEngine)
      → 0 < cfg.min_separation_bars
      → IsSettled cfg e
      → IsSettled cfg (handle_bar env cfg event snap bar ids e)
  unfolding handle_bar
  handle_bar-IsSettled cfg event snap bar ids e z h =
      let done : LevelInteractionEngine × Bool = process_bar env cfg event snap bar ids e in
      let fine : IsSettled cfg done.0 = process_bar-IsSettled cfg event snap bar ids e z h in
      elim (Bool-cases done.1) [
        | inl d ↦ rw (d, handle_bar) fine
        | inr d ↦
            rw (d, handle_bar)
              (with_manager-IsSettled env cfg _ done.0
                (on_processing_error-IsKept cfg event.symbol bar.timestamp done.0.manager fine.kept)
                (λ k a l. fine.settled k a (
                  ground (
                    arith,
                    on_processing_error-lookup k event.symbol bar.timestamp done.0.manager,
                    l,
                  ))))
      ]

  pub handle-IsSettled :
      (cfg : LevelDistanceConfig) (event : PipelineOutput) (ids : ℕ → ℕ)
      (e : LevelInteractionEngine)
      → 0 < cfg.min_separation_bars
      → IsSettled cfg e
      → IsSettled cfg (handle env cfg event ids e)
  unfolding handle
  handle-IsSettled cfg event ids e z h = go event.bar_snapshot
    where
      inner :
          (snap : BarSnapshot) (o : Option Bar)
          → IsSettled cfg (elim o [ none ↦ e | some bar ↦ handle_bar env cfg event snap bar ids e ])
      inner snap none = h
      inner snap (some bar) = handle_bar-IsSettled cfg event snap bar ids e z h

      go :
          (o : Option BarSnapshot)
          → IsSettled cfg (elim o [
            | none ↦ e
            | some snap ↦ elim snap.bar [
              | none ↦ e
              | some bar ↦ handle_bar env cfg event snap bar ids e
            ]
          ])
      go none = h
      go (some snap) = inner snap snap.bar

-- `LevelInteractionEngine.__init__`
unfoldable pub new_engine : LevelInteractionEngine
unfolding new_writer
new_engine = record {
  manager = record {
    active = [];
    last_geo = [];
    last_episode_id = [];
    interaction_index = [];
    completed = [];
  };
  writer = new_writer;
  last_bar_ts = [];
  last_session_key = [];
  frames_processed = 0;
  completed_episode_count = 0;
}

-- Events in any order.
pub data EngineRun (env : Env) (cfg : LevelDistanceConfig) : LevelInteractionEngine → Type 0 where
  created : EngineRun env cfg new_engine
  handled :
      {e : LevelInteractionEngine} (event : PipelineOutput) (ids : ℕ → ℕ)
      → EngineRun env cfg e
      → EngineRun env cfg (handle env cfg event ids e)

-- After any events, where a separation takes at least one bar, each open episode has a summary that its
-- bar records bear out, is shorter than the limits allow, and belongs to the last session that its
-- symbol was seen in.
pub EngineRun-IsSettled :
    (env : Env) (cfg : LevelDistanceConfig) {e : LevelInteractionEngine}
    → 0 < cfg.min_separation_bars
    → EngineRun env cfg e
    → IsSettled cfg e
unfolding new_engine lookup
EngineRun-IsSettled env cfg z created = record {
  kept = record { ongoing = λ k a l. absurd (cc l); ended = tt };
  settled = λ k a l. absurd (cc l);
}
EngineRun-IsSettled env cfg z (handled {e} event ids r) =
    handle-IsSettled env cfg event ids e z (EngineRun-IsSettled env cfg z r)
