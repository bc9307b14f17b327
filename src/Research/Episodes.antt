-- ===== src/Research/Episodes.antt =====
-- `InteractionEpisodeManager` of src/alpha/research/interaction/episode.py. A bar of one level comes
-- with the id that `uuid4` gives if an episode opens; what a handler does to the manager is returned.
pub mod Closing
pub mod Sequence
pub mod Runs
pub mod Records
pub mod Kept
pub mod Ends
use alpha_runtime_v.Base.{
  ℕ, zero, suc, ◌+◌, ◌==◌, ◌≡◌, Bool, true, false, not, ◌&&◌, ◌||◌, Option, none, some, List, [],
  ◌∷◌, ◌++◌, map, if◌then◌else◌, ◌>>=◌, leb, is_some,
}
use alpha_runtime_v.Base.Int.{ℤ, pos, neg, ltb_ℤ, leb_ℤ}
use alpha_runtime_v.Base.Lists.{length, filter}
use alpha_runtime_v.Base.Dict.{Dict, Eq, keys, lookup, insert, erase}
use alpha_runtime_v.Research.Texts.{Text, eq_text, session_date_from_id}
use alpha_runtime_v.Research.Geometry.{
  Side, eq_side, BarLevelGeometry, compute_geometry, max_ℤ, min_ℤ,
}
use alpha_runtime_v.Research.Model.{
  LevelType, LevelSnapshot, InteractionFrame, EpisodeBarRecord, EpisodeSummary, ApproachSide,
  EndReason, LevelDistanceConfig, proximity_ticks, separation_ticks, EpisodeKey, key_eq,
  ActiveEpisode, EpisodeManager,
}
use alpha_runtime_v.Research.Episodes.Closing.{close_episode}
use alpha_runtime_v.Research.Opening.{bar_record, geometry_for_level, key_of, open_episode}

abbrev pub see : EpisodeKey → BarLevelGeometry → EpisodeManager → EpisodeManager
see key geo m = record m {
  last_geo = insert key (geo.close_side, geo.close_distance_ticks) m.last_geo;
}

-- `_handle_outside`
unfoldable pub handle_outside :
    LevelDistanceConfig
    → ℕ
    → EpisodeKey
    → InteractionFrame
    → LevelSnapshot
    → BarLevelGeometry
    → EpisodeManager
    → EpisodeManager
handle_outside cfg id key frame level geo m =
    let prox : ℤ = proximity_ticks cfg frame.atr_14 level.tick_size in
    let sep : ℤ = separation_ticks cfg frame.atr_14 level.tick_size in
    if leb_ℤ geo.low_distance_ticks prox && leb_ℤ (neg prox) geo.high_distance_ticks
    then open_episode id (lookup key m.last_geo) key frame level geo prox sep (see key geo m)
    else see key geo m

-- `this_dir`: the side beyond the threshold on which the whole bar lies.
unfoldable pub separated_side : ℤ → BarLevelGeometry → Option Side
separated_side sep geo =
    if ltb_ℤ sep geo.low_distance_ticks
    then some Side.above
    else if ltb_ℤ geo.high_distance_ticks (neg sep)
    then some Side.below
    else none

-- The counter and the side after a bar on `this_dir`.
unfoldable pub count_separation : Option Side → ℕ → Option Side → ℕ × Option Side
count_separation none n old = (0, none)
count_separation (some d) n none = (1, some d)
count_separation (some d) n (some e) = if eq_side d e then (suc n, some e) else (1, some d)

-- The bar appended to the episode, with its running aggregates.
unfoldable pub continue_episode :
    InteractionFrame → LevelSnapshot → BarLevelGeometry → ℤ → ℤ → ActiveEpisode → ActiveEpisode
continue_episode frame level geo prox sep a =
    let s : EpisodeSummary = a.summary in
    record a {
      last_bar_ts = some frame.bar_timestamp;
      last_session_phase = some frame.session_phase;
      bar_records =
          a.bar_records
          ++ bar_record s.episode_id (length a.bar_records) s.symbol s.session_id frame level geo
              prox sep
            ∷ [];
      summary = record s {
        bar_count = s.bar_count + 1;
        range_span_count = s.range_span_count + (if geo.range_spans_level then 1 else 0);
        max_above_ticks = max_ℤ s.max_above_ticks geo.high_distance_ticks;
        max_below_ticks = min_ℤ s.max_below_ticks geo.low_distance_ticks;
        end_side = geo.close_side;
      };
    }

abbrev pub separate : Option Side → ActiveEpisode → ActiveEpisode
separate this_dir a =
    let counted : ℕ × Option Side =
      count_separation this_dir a.bars_at_separation a.separation_direction in
    record a { bars_at_separation = counted.0; separation_direction = counted.1 }

-- `_handle_active`
unfoldable pub handle_active :
    LevelDistanceConfig
    → EpisodeKey
    → ActiveEpisode
    → InteractionFrame
    → LevelSnapshot
    → BarLevelGeometry
    → EpisodeManager
    → EpisodeManager
handle_active cfg key active frame level geo m =
    let prox : ℤ = proximity_ticks cfg frame.atr_14 level.tick_size in
    let sep : ℤ = separation_ticks cfg frame.atr_14 level.tick_size in
    let longer : ActiveEpisode = continue_episode frame level geo prox sep active in
    let apart : ActiveEpisode = separate (separated_side sep geo) longer in
    let kept : ActiveEpisode → EpisodeManager =
      λ a. record (see key geo m) { active = insert key a m.active } in
    if leb cfg.max_episode_bars longer.summary.bar_count
    then close_episode key frame.bar_timestamp EndReason.timeout (kept longer)
    else if leb cfg.min_separation_bars apart.bars_at_separation
    then close_episode key frame.bar_timestamp EndReason.separation (kept apart)
    else kept apart

-- One level of a frame; none is an exception.
unfoldable pub process_level :
    LevelDistanceConfig
    → InteractionFrame
    → LevelSnapshot × ℕ
    → EpisodeManager
    → Option EpisodeManager
process_level cfg frame (level, id) m = do
  geo ← geometry_for_level frame level
  some (elim (lookup (key_of level) m.active) [
    | none ↦ handle_outside cfg id (key_of level) frame level geo m
    | some a ↦ handle_active cfg (key_of level) a frame level geo m
  ])

-- `process`, over the frame's levels with an id for each: false if it was cut off by an exception,
-- which keeps what the levels before did.
unfoldable pub process :
    LevelDistanceConfig
    → InteractionFrame
    → List (LevelSnapshot × ℕ)
    → EpisodeManager
    → EpisodeManager × Bool
process cfg frame [] m = (m, true)
process cfg frame (l ∷ levels) m = elim (process_level cfg frame l m) [
  | none ↦ (m, false)
  | some n ↦ process cfg frame levels n
]
