-- ===== src/Research/Engine.antt =====
-- `LevelInteractionEngine` of src/alpha/research/interaction/engine.py. An event comes with the ids that
-- `uuid4` gives. The manager hands a completed episode over at once; here that is done when the manager's
-- call is over, which neither of them can tell, and `completed` is then empty.
pub mod Sessions
pub mod Settled
pub mod Bars
pub mod Total
use Prim.Native.String.{String}
use alpha_runtime_v.Base.{
  ℕ, zero, suc, ◌+◌, ◌*◌, ◌%◌, ◌==◌, ◌≡◌, Bool, true, false, not, ◌&&◌, ◌||◌, Option, none, some,
  List, [], ◌∷◌, ◌++◌, if◌then◌else◌, ltb,
}
use alpha_runtime_v.Base.Int.{ℤ, pos, ltb_ℤ}
use alpha_runtime_v.Base.Dict.{Dict, Eq, keys, lookup, insert}
use alpha_runtime_v.Execution.Models.{Decimal}
use alpha_runtime_v.Research.Texts.{
  Text, codes, colon, eq_text, text_eq, session_id_of, level_session_date,
}
use alpha_runtime_v.Research.Model.{
  SessionPhase, LevelType, SessionScope, LevelSnapshot, InteractionFrame, EpisodeBarRecord,
  EpisodeSummary, LevelDistanceConfig, EpisodeManager,
}
use alpha_runtime_v.Research.Episodes.{process}
use alpha_runtime_v.Research.Episodes.Closing.{on_session_end, on_gap, on_processing_error, flush}
use alpha_runtime_v.Research.Writer.{EpisodeWriter, Attempt, write, flush_writer}
use alpha_runtime_v.Research.Levels.{
  Bar, BarSnapshot, Env, PipelineOutput, build_session_id, resolve_levels,
}

pub record LevelInteractionEngine : Type 0 where
  pub manager : EpisodeManager
  pub writer : EpisodeWriter
  pub last_bar_ts : Dict Text ℕ
  pub last_session_key : Dict Text Text
  pub frames_processed : ℕ
  pub completed_episode_count : ℕ

abbrev pub is_empty : List LevelSnapshot → Bool
is_empty [] = true
is_empty (l ∷ levels) = false

-- The levels with an id for each, from the n-th of the event's ids on.
abbrev pub with_ids : (ℕ → ℕ) → ℕ → List LevelSnapshot → List (LevelSnapshot × ℕ)
with_ids ids n [] = []
with_ids ids n (l ∷ levels) = (l, ids n) ∷ with_ids ids (suc n) levels

-- Is the symbol's last session known and another one?
abbrev pub other_session : Option Text → Text → Bool
other_session none session_id = false
other_session (some last) session_id = not (eq_text session_id last)

-- Is the bar more than the longest gap after the last one?
abbrev pub is_gap : ℕ → Option ℕ → ℕ → Bool
is_gap longest none ts = false
is_gap longest (some last) ts = ltb (last + longest * 1000000) ts

abbrev pub frame_of :
    PipelineOutput → BarSnapshot → Bar → Text → List LevelSnapshot → InteractionFrame
frame_of event snap bar session_id levels = record {
  bar_timestamp = bar.timestamp;
  symbol = event.symbol;
  session_id = session_id;
  sequence_num = elim event.metadata [ none ↦ none | some d ↦ d.0 ];
  open_price = bar.open_price;
  high = bar.high;
  low = bar.low;
  close = bar.close;
  volume = bar.volume;
  atr_14 = snap.atr_14;
  session_phase = snap.session_phase;
  is_replay = elim event.metadata [ none ↦ false | some d ↦ d.1 ];
  levels = levels;
}

module _ (env : Env) where
  -- `_on_episode_complete`: the buffers are flushed at every tenth episode.
  unfoldable pub on_episode_complete :
      EpisodeSummary × List EpisodeBarRecord → LevelInteractionEngine → LevelInteractionEngine
  on_episode_complete (s, bars) e =
      let count : ℕ = e.completed_episode_count + 1 in
      let written : EpisodeWriter = write s bars e.writer in
      record e {
        completed_episode_count = count;
        writer = if count % 10 == 0 then flush_writer env.disk written else written;
      }

  unfoldable pub deliver :
      List (EpisodeSummary × List EpisodeBarRecord)
      → LevelInteractionEngine
      → LevelInteractionEngine
  deliver [] e = e
  deliver (c ∷ completed) e = deliver completed (on_episode_complete c e)

  -- A call of the manager, with the episodes that it completes handed over.
  unfoldable pub with_manager : EpisodeManager → LevelInteractionEngine → LevelInteractionEngine
  with_manager m e = deliver m.completed (record e { manager = record m { completed = [] } })

  -- Session rollover, with the session's key stored.
  unfoldable pub roll_session : Text → Text → ℕ → LevelInteractionEngine → LevelInteractionEngine
  roll_session symbol session_id ts e =
      let ended : LevelInteractionEngine = elim (lookup symbol e.last_session_key) [
        | none ↦ e
        | some last ↦
            if eq_text session_id last
            then e
            else let closed : LevelInteractionEngine =
                with_manager (on_session_end symbol last ts e.manager) e in
              record closed { writer = flush_writer env.disk closed.writer }
      ] in
      record ended { last_session_key = insert symbol session_id ended.last_session_key }

  -- `flush`
  unfoldable pub flush_engine : LevelInteractionEngine → LevelInteractionEngine
  flush_engine e =
      let closed : LevelInteractionEngine = with_manager (flush e.manager) e in
      record closed { writer = flush_writer env.disk closed.writer }

module _ (env : Env) (cfg : LevelDistanceConfig) where
  -- Gap detection, with the bar's time stored.
  unfoldable pub detect_gap :
      Bool → Text → Text → ℕ → LevelInteractionEngine → LevelInteractionEngine
  detect_gap is_rollover symbol session_id ts e =
      let checked : LevelInteractionEngine =
        if is_gap cfg.max_bar_gap_seconds (lookup symbol e.last_bar_ts) ts && not is_rollover
        then with_manager env (on_gap symbol session_id ts e.manager) e
        else e in
      record checked { last_bar_ts = insert symbol ts checked.last_bar_ts }

  -- The frame of the levels that are there: false if the manager raises.
  unfoldable pub process_frame :
      InteractionFrame → (ℕ → ℕ) → LevelInteractionEngine → LevelInteractionEngine × Bool
  process_frame frame ids e =
      let done : EpisodeManager × Bool =
        process cfg frame (with_ids ids 0 frame.levels) e.manager in
      let after : LevelInteractionEngine = with_manager env done.0 e in
      if is_empty frame.levels
      then (e, true)
      else if done.1
      then (record after { frames_processed = after.frames_processed + 1 }, true)
      else (after, false)

  -- `_process`, of an event with a bar.
  unfoldable pub process_bar :
      PipelineOutput
      → BarSnapshot
      → Bar
      → (ℕ → ℕ)
      → LevelInteractionEngine
      → LevelInteractionEngine × Bool
  process_bar event snap bar ids e =
      let symbol : Text = event.symbol in
      let ts : ℕ = bar.timestamp in
      let session_id : Text = build_session_id env symbol ts in
      let is_rollover : Bool = other_session (lookup symbol e.last_session_key) session_id in
      let rolled : LevelInteractionEngine = roll_session env symbol session_id ts e in
      let checked : LevelInteractionEngine = detect_gap is_rollover symbol session_id ts rolled in
      process_frame (frame_of event snap bar session_id (resolve_levels env symbol session_id snap))
        ids checked

  -- An exception closes the symbol's episodes.
  unfoldable pub handle_bar :
      PipelineOutput → BarSnapshot → Bar → (ℕ → ℕ) → LevelInteractionEngine → LevelInteractionEngine
  handle_bar event snap bar ids e =
      let done : LevelInteractionEngine × Bool = process_bar event snap bar ids e in
      if done.1
      then done.0
      else with_manager env (on_processing_error event.symbol bar.timestamp done.0.manager) done.0

  -- `_handle`
  unfoldable pub handle : PipelineOutput → (ℕ → ℕ) → LevelInteractionEngine → LevelInteractionEngine
  handle event ids e = elim event.bar_snapshot [
    | none ↦ e
    | some snap ↦ elim snap.bar [ none ↦ e | some bar ↦ handle_bar event snap bar ids e ]
  ]
