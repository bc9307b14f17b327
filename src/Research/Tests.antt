-- ===== src/Research/Tests.antt =====
-- The interaction research at one level of VWAP and a few bars.
use alpha_runtime_v.Base.{
  ℕ, suc, zero, map, ◌≡◌, refl, true, false, none, some, Option, [], ◌∷◌, arith,
}
use alpha_runtime_v.Base.Int.{neg, pos, negsuc, ◌-ℤ◌}
use alpha_runtime_v.Base.Lists.{All}
use alpha_runtime_v.Base.Dict.{insert, erase, lookup}
use alpha_runtime_v.Execution.Models.{Decimal}
use alpha_runtime_v.Research.Texts.{
  eq_text, Text, codes, session_id_of, session_date_from_id, session_date_from_id-session_id_of,
  has_colon,
}
use alpha_runtime_v.Research.Geometry.{
  tick_distance, ticks_of, proximity_band, toward_zero, Side, BarLevelGeometry, compute_geometry,
  geometry_of, half_up, half_up_ℕ, side,
}
use alpha_runtime_v.Research.Geometry.Laws.{IsOrdered, compute_geometry-IsOrdered}
use alpha_runtime_v.Research.Model.{
  proximity_ticks, threshold, eq_key, separation_ticks, SessionPhase, LevelType, SessionScope,
  LevelSnapshot, InteractionFrame, LevelDistanceConfig, EndReason, EpisodeKey, key_eq,
  EpisodeManager, ActiveEpisode,
}
use alpha_runtime_v.Research.Episodes.{
  process_level, handle_outside, continue_episode, count_separation, handle_active, separated_side,
  process,
}
use alpha_runtime_v.Research.Opening.{
  geometry_for_level, open_episode, bar_record, infer_approach_side, new_episode, key_of,
}
use alpha_runtime_v.Research.Episodes.Closing.{close_episode, close_summary}
use alpha_runtime_v.Research.Episodes.Sequence.{
  close_loop, is_flip, next_above, next_below, next_close, derive_close_sequence,
}
use alpha_runtime_v.Research.Episodes.Runs.{flips, longest, derive_close_sequence_lem}
use alpha_runtime_v.Research.Episodes.Kept.Steps.{new_manager, created}
use alpha_runtime_v.Research.Writer.{
  EpisodeWriter, Attempt, Bucket, write, flush_writer, WriterRun, wrote, flushed, new_writer,
}
use alpha_runtime_v.Research.Writer.Laws.{Held, WriterRun-Held}
use alpha_runtime_v.Research.Engine.{process_bar, handle}
use alpha_runtime_v.Research.Levels.{Env, PipelineOutput, BarSnapshot, Bar}
use alpha_runtime_v.Research.Engine.Settled.{IsSettled}
use alpha_runtime_v.Research.Engine.Bars.{EngineRun, handled, new_engine, EngineRun-IsSettled}
use alpha_runtime_v.Research.Engine.Total.{event_of, process_bar-total}

abbrev cfg : LevelDistanceConfig
cfg = record {
  proximity_raw = λ atr tick. pos 10;
  separation_raw = λ atr tick. pos 25;
  min_separation_bars = 2;
  max_episode_bars = 60;
  max_bar_gap_seconds = 90;
  fallback_proximity_ticks = pos 10;
  fallback_separation_ticks = pos 25;
}

abbrev mnq : Text
mnq = codes "MNQ"

abbrev date : Text
date = codes "2026-07-10"

abbrev sid : Text
sid = session_id_of mnq date

abbrev vwap_level : LevelSnapshot
vwap_level = record {
  level_id = codes "MNQ:vwap:rth:2026-07-10";
  symbol = mnq;
  session_id = sid;
  level_type = LevelType.vwap;
  level_value = pos 1000;
  tick_size = 4;
  is_dynamic = true;
  session_scope = SessionScope.rth;
}

abbrev frame_at : ℕ → Decimal → Decimal → Decimal → Decimal → InteractionFrame
frame_at ts o h l c = record {
  bar_timestamp = ts;
  symbol = mnq;
  session_id = sid;
  sequence_num = none;
  open_price = o;
  high = h;
  low = l;
  close = c;
  volume = 7;
  atr_14 = some (pos 100);
  session_phase = SessionPhase.early;
  is_replay = true;
  levels = vwap_level ∷ [];
}

abbrev touch : InteractionFrame
touch = frame_at 60 (pos 1010) (pos 1020) (pos 998) (pos 1012)

abbrev far : ℕ → InteractionFrame
far ts = frame_at ts (pos 1200) (pos 1210) (pos 1190) (pos 1205)

abbrev opened : EpisodeManager
opened = (process cfg touch ((vwap_level, 1) ∷ []) new_manager).0

abbrev apart_once : EpisodeManager
apart_once = (process cfg (far 120) ((vwap_level, 2) ∷ []) opened).0

abbrev apart_twice : EpisodeManager
apart_twice = (process cfg (far 180) ((vwap_level, 3) ∷ []) apart_once).0

-- One bar at the level and two far above it make one episode, ended for its separation.
separated :
    map {B = ℕ × Option EndReason} (λ c. (c.0.bar_count, c.0.end_reason)) apart_twice.completed
    ≡ (3, some EndReason.separation) ∷ []
unfolding process process_level geometry_for_level compute_geometry tick_distance lookup new_manager
    handle_outside geometry_of ticks_of half_up ◌-ℤ◌ neg half_up_ℕ proximity_ticks threshold
    open_episode insert erase close_episode close_summary close_loop derive_close_sequence is_flip
    next_above next_below next_close bar_record continue_episode count_separation handle_active
    infer_approach_side new_episode separated_side proximity_band side toward_zero eq_key
    separation_ticks eq_text has_colon session_date_from_id session_id_of
separated = refl

session_date_from_id-session_id_of_example : session_date_from_id sid ≡ date
unfolding has_colon
session_date_from_id-session_id_of_example = session_date_from_id-session_id_of mnq date refl

compute_geometry-IsOrdered_example :
    (g : BarLevelGeometry) × (compute_geometry
        (pos 1010)
        (pos 1020)
        (pos 998)
        (pos 1012)
        (pos 1000)
        4
        none
        true
      ≡ some g)
    × IsOrdered g
compute_geometry-IsOrdered_example =
    compute_geometry-IsOrdered (pos 1010) (pos 1020) (pos 998) (pos 1012) (pos 1000) 4 none true
      (omega arith) (omega arith) (omega arith) (omega arith) (omega arith)

derive_close_sequence_lem_example :
    ((derive_close_sequence (Side.above ∷ Side.above ∷ Side.below ∷ [])).flip_count
      ≡ flips (Side.above ∷ Side.above ∷ Side.below ∷ []))
    × ((derive_close_sequence (Side.above ∷ Side.above ∷ Side.below ∷ [])).max_above
        ≡ longest Side.above (Side.above ∷ Side.above ∷ Side.below ∷ []))
    × ((derive_close_sequence (Side.above ∷ Side.above ∷ Side.below ∷ [])).max_below
        ≡ longest Side.below (Side.above ∷ Side.above ∷ Side.below ∷ []))
derive_close_sequence_lem_example =
    derive_close_sequence_lem (Side.above ∷ Side.above ∷ Side.below ∷ [])

abbrev key : EpisodeKey
key = key_of vwap_level

abbrev geometry : BarLevelGeometry
geometry = geometry_of (pos 3) (pos 5) (negsuc 0) (pos 3) (pos 10)

abbrev episode : ActiveEpisode
episode = new_episode 1 none 1 none key touch vwap_level geometry (pos 10) (pos 25)

abbrev one_open : EpisodeManager
one_open = record {
  active = (key, episode) ∷ [];
  last_geo = [];
  last_episode_id = [];
  interaction_index = (key, 1) ∷ [];
  completed = [];
}

abbrev disk : ℕ → Attempt
disk zero = Attempt.stored
disk (suc zero) = Attempt.no_file
disk (suc (suc n)) = Attempt.stored

abbrev written : EpisodeWriter
written = write episode.summary episode.bar_records new_writer

WriterRun-Held_example : All (λ s. Held s (flush_writer disk written)) (episode.summary ∷ [])
WriterRun-Held_example =
    WriterRun-Held (flushed disk (wrote episode.summary episode.bar_records WriterRun.created))

abbrev bucket : Bucket
bucket = record { symbol = mnq; session_date = date }

abbrev waiting : EpisodeWriter
waiting = record {
  ep_buf = (bucket, episode.summary ∷ []) ∷ [];
  bar_buf = (bucket, episode.bar_records) ∷ [];
  ep_seq = [];
  bar_seq = [];
  ep_parts = [];
  bar_parts = [];
  episodes_written = 0;
  bars_written = 0;
  attempts = 0;
}

abbrev env : Env
env = record {
  registered_tick = λ s. none;
  calendar_date = λ s ts. some date;
  utc_date = λ ts. date;
  default_tick = 4;
  disk = disk;
}

abbrev first_bar : Bar
first_bar = record {
  timestamp = 60;
  open_price = pos 1010;
  high = pos 1020;
  low = pos 998;
  close = pos 1012;
  volume = 7;
}

abbrev snap : BarSnapshot
snap = record {
  bar = some first_bar;
  full_session_vwap = some (pos 1000);
  rth_vwap = none;
  or_established = false;
  or_high = none;
  or_low = none;
  atr_14 = none;
  session_phase = SessionPhase.early;
}

abbrev output : PipelineOutput
output = event_of mnq 61 none snap

process_bar-total_example :
    ((process_bar env cfg output snap first_bar (λ n. n) new_engine).1 ≡ true)
    × (handle env cfg output (λ n. n) new_engine
        ≡ (process_bar env cfg output snap first_bar (λ n. n) new_engine).0)
process_bar-total_example =
    process_bar-total env cfg mnq 61 none snap first_bar (λ n. n) new_engine (omega arith) refl

EngineRun-IsSettled_example : IsSettled cfg (handle env cfg output (λ n. n) new_engine)
EngineRun-IsSettled_example =
    EngineRun-IsSettled env cfg (omega arith) (handled output (λ n. n) EngineRun.created)
