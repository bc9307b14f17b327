-- ===== src/Research/Opening.antt =====
-- `_open_episode` of `InteractionEpisodeManager` of src/alpha/research/interaction/episode.py, with what it and
-- the other handlers compute from a frame and a level: the geometry, the approach and the bar's record.
use alpha_runtime_v.Base.{
  ℕ, ◌+◌, Bool, true, false, not, Option, none, some, [], ◌∷◌, if◌then◌else◌, ◌>>=◌, is_some,
}
use alpha_runtime_v.Base.Int.{ℤ}
use alpha_runtime_v.Base.Dict.{lookup, insert}
use alpha_runtime_v.Research.Texts.{Text, session_date_from_id}
use alpha_runtime_v.Research.Geometry.{Side, BarLevelGeometry, compute_geometry}
use alpha_runtime_v.Research.Model.{
  LevelType, LevelSnapshot, InteractionFrame, EpisodeBarRecord, ApproachSide, EpisodeKey, key_eq,
  ActiveEpisode, EpisodeManager,
}

abbrev pub is_vwap : LevelType → Bool
is_vwap LevelType.vwap = true
is_vwap _ = false

-- `_compute_geo_for_level`
unfoldable pub geometry_for_level : InteractionFrame → LevelSnapshot → Option BarLevelGeometry
geometry_for_level frame level =
    compute_geometry frame.open_price frame.high frame.low frame.close level.level_value
      level.tick_size frame.atr_14 (is_vwap level.level_type)

-- `_infer_approach_side`
unfoldable pub infer_approach_side : Option Side → Side → ApproachSide
infer_approach_side (some Side.above) open_side = ApproachSide.from_above
infer_approach_side (some Side.below) open_side = ApproachSide.from_below
infer_approach_side _ Side.above = ApproachSide.from_above
infer_approach_side _ Side.below = ApproachSide.from_below
infer_approach_side _ Side.at_level = ApproachSide.unknown

abbrev pub key_of : LevelSnapshot → EpisodeKey
key_of level = record {
  symbol = level.symbol;
  session_id = level.session_id;
  level_id = level.level_id;
}

-- The record of a bar, from the episode's id, symbol and session and the bar's place in it.
unfoldable pub bar_record :
    ℕ
    → ℕ
    → Text
    → Text
    → InteractionFrame
    → LevelSnapshot
    → BarLevelGeometry
    → ℤ
    → ℤ
    → EpisodeBarRecord
bar_record episode_id bar_seq symbol session_id frame level geo prox sep = record {
  episode_id = episode_id;
  bar_seq = bar_seq;
  bar_timestamp = frame.bar_timestamp;
  symbol = symbol;
  session_id = session_id;
  session_date = session_date_from_id session_id;
  open_side = geo.open_side;
  close_side = geo.close_side;
  range_spans_level = geo.range_spans_level;
  high_distance_ticks = geo.high_distance_ticks;
  low_distance_ticks = geo.low_distance_ticks;
  close_distance_ticks = geo.close_distance_ticks;
  level_value_at_timestamp = level.level_value;
  atr_14 = frame.atr_14;
  proximity_ticks = prox;
  separation_ticks = sep;
  sequence_num = frame.sequence_num;
}

-- What `_open_episode` stores under the key. `seen` is the close of the bar before.
unfoldable pub new_episode :
    ℕ
    → Option ℕ
    → ℕ
    → Option (Side × ℤ)
    → EpisodeKey
    → InteractionFrame
    → LevelSnapshot
    → BarLevelGeometry
    → ℤ
    → ℤ
    → ActiveEpisode
new_episode id prior idx seen key frame level geo prox sep = record {
  summary = record {
    episode_id = id;
    prior_episode_id = prior;
    level_id = key.level_id;
    level_type = level.level_type;
    symbol = key.symbol;
    session_id = key.session_id;
    session_date = session_date_from_id key.session_id;
    interaction_index = idx;
    started_at = frame.bar_timestamp;
    ended_at = none;
    pre_entry_close_side = seen >>= (λ p. some p.0);
    pre_entry_close_distance_ticks = seen >>= (λ p. some p.1);
    approach_side = infer_approach_side (seen >>= (λ p. some p.0)) geo.open_side;
    bar_count = 1;
    range_span_count = if geo.range_spans_level then 1 else 0;
    max_above_ticks = geo.high_distance_ticks;
    max_below_ticks = geo.low_distance_ticks;
    end_side = geo.close_side;
    end_reason = none;
    close_side_flip_count = 0;
    max_consecutive_closes_above = 0;
    max_consecutive_closes_below = 0;
    is_valid_for_research = is_some frame.atr_14;
    session_scope = level.session_scope;
    start_session_phase = frame.session_phase;
    end_session_phase = none;
  };
  bar_records = bar_record id 0 key.symbol key.session_id frame level geo prox sep ∷ [];
  bars_at_separation = 0;
  separation_direction = none;
  last_bar_ts = some frame.bar_timestamp;
  atr_at_start_was_none = not (is_some frame.atr_14);
  last_session_phase = some frame.session_phase;
}

abbrev pub index_of : EpisodeKey → EpisodeManager → ℕ
index_of key m = elim (lookup key m.interaction_index) [ none ↦ 0 | some n ↦ n ]

-- `_open_episode`
unfoldable pub open_episode :
    ℕ
    → Option (Side × ℤ)
    → EpisodeKey
    → InteractionFrame
    → LevelSnapshot
    → BarLevelGeometry
    → ℤ
    → ℤ
    → EpisodeManager
    → EpisodeManager
open_episode id seen key frame level geo prox sep m =
    let idx : ℕ = index_of key m + 1 in
    record m {
      interaction_index = insert key idx m.interaction_index;
      active =
          insert key
            (new_episode id (lookup key m.last_episode_id) idx seen key frame level geo prox sep)
            m.active;
    }
