-- ===== src/Research/Model.antt =====
-- The records of src/alpha/research/interaction: models.py, config.py and the manager of episode.py.
-- A time is a number of microseconds, an episode's id the number that `uuid4` gives. The version
-- tags and the hash of the configuration that a summary carries are constants and left out.
use alpha_runtime_v.Base.{ℕ, zero, ◌≡◌, ◌↔◌, Bool, true, ◌&&◌, Option, none, some, List, arith}
use alpha_runtime_v.Base.Int.{ℤ, pos}
use alpha_runtime_v.Base.Dict.{Dict, Eq}
use alpha_runtime_v.Execution.Models.{Decimal}
use alpha_runtime_v.Research.Texts.{Text, eq_text, eq_text_iff}
use alpha_runtime_v.Research.Geometry.{Side, max_ℤ}

pub data SessionPhase : Type 0 where
  pre_market opening_range early mid power_hour closing after_hours closed : SessionPhase

pub data LevelType : Type 0 where
  vwap orh orl : LevelType

pub data SessionScope : Type 0 where
  full_session rth : SessionScope

-- `sampling_note` is a constant of the level's type and scope, and left out.
pub record LevelSnapshot : Type 0 where
  pub level_id : Text
  pub symbol : Text
  pub session_id : Text
  pub level_type : LevelType
  pub level_value : Decimal
  pub tick_size : ℕ
  pub is_dynamic : Bool
  pub session_scope : SessionScope

pub record InteractionFrame : Type 0 where
  pub bar_timestamp : ℕ
  pub symbol : Text
  pub session_id : Text
  pub sequence_num : Option ℕ
  pub open_price : Decimal
  pub high : Decimal
  pub low : Decimal
  pub close : Decimal
  pub volume : ℕ
  pub atr_14 : Option Decimal
  pub session_phase : SessionPhase
  pub is_replay : Bool
  pub levels : List LevelSnapshot

pub record EpisodeBarRecord : Type 0 where
  pub episode_id : ℕ
  pub bar_seq : ℕ
  pub bar_timestamp : ℕ
  pub symbol : Text
  pub session_id : Text
  pub session_date : Text
  pub open_side : Side
  pub close_side : Side
  pub range_spans_level : Bool
  pub high_distance_ticks : ℤ
  pub low_distance_ticks : ℤ
  pub close_distance_ticks : ℤ
  pub level_value_at_timestamp : Decimal
  pub atr_14 : Option Decimal
  pub proximity_ticks : ℤ
  pub separation_ticks : ℤ
  pub sequence_num : Option ℕ

pub data ApproachSide : Type 0 where
  from_above from_below unknown : ApproachSide

pub data EndReason : Type 0 where
  separation timeout session_ended gap_detected processing_error replay_completed : EndReason

-- `end_reason` is none for the empty text, before the episode is closed.
pub record EpisodeSummary : Type 0 where
  pub episode_id : ℕ
  pub prior_episode_id : Option ℕ
  pub level_id : Text
  pub level_type : LevelType
  pub symbol : Text
  pub session_id : Text
  pub session_date : Text
  pub interaction_index : ℕ
  pub started_at : ℕ
  pub ended_at : Option ℕ
  pub pre_entry_close_side : Option Side
  pub pre_entry_close_distance_ticks : Option ℤ
  pub approach_side : ApproachSide
  pub bar_count : ℕ
  pub range_span_count : ℕ
  pub max_above_ticks : ℤ
  pub max_below_ticks : ℤ
  pub end_side : Side
  pub end_reason : Option EndReason
  pub close_side_flip_count : ℕ
  pub max_consecutive_closes_above : ℕ
  pub max_consecutive_closes_below : ℕ
  pub is_valid_for_research : Bool
  pub session_scope : SessionScope
  pub start_session_phase : SessionPhase
  pub end_session_phase : Option SessionPhase

-- `int(float(atr_14) * fraction / float(tick_size))`, for the two fractions, is floating point: two
-- fields give the function.
pub record LevelDistanceConfig : Type 0 where
  pub proximity_raw : Decimal → ℕ → ℤ
  pub separation_raw : Decimal → ℕ → ℤ
  pub min_separation_bars : ℕ
  pub max_episode_bars : ℕ
  pub max_bar_gap_seconds : ℕ
  pub fallback_proximity_ticks : ℤ
  pub fallback_separation_ticks : ℤ

-- The body that both thresholds share.
unfoldable pub threshold : ℤ → (Decimal → ℕ → ℤ) → Option Decimal → ℕ → ℤ
threshold fallback raw none tick_size = fallback
threshold fallback raw (some (pos zero)) tick_size = fallback
threshold fallback raw (some atr) tick_size = max_ℤ (pos 1) (raw atr tick_size)

unfoldable pub proximity_ticks : LevelDistanceConfig → Option Decimal → ℕ → ℤ
proximity_ticks cfg = threshold cfg.fallback_proximity_ticks cfg.proximity_raw

unfoldable pub separation_ticks : LevelDistanceConfig → Option Decimal → ℕ → ℤ
separation_ticks cfg = threshold cfg.fallback_separation_ticks cfg.separation_raw

-- `_EpisodeKey`
pub record EpisodeKey : Type 0 where
  pub symbol : Text
  pub session_id : Text
  pub level_id : Text

unfoldable pub eq_key : EpisodeKey → EpisodeKey → Bool
eq_key a b =
    eq_text a.symbol b.symbol && eq_text a.session_id b.session_id && eq_text a.level_id b.level_id

pub eq_key_iff : (a b : EpisodeKey) → (eq_key a b ≡ true) ↔ (a ≡ b)
unfolding eq_key
eq_key_iff a b = ground (
  arith,
  eq_text_iff a.symbol b.symbol,
  eq_text_iff a.session_id b.session_id,
  eq_text_iff a.level_id b.level_id,
)

instance abbrev pub key_eq : Eq EpisodeKey
key_eq = record { beq = eq_key; beq_iff = eq_key_iff }

-- `_ActiveEpisode`: `separation_direction` is never "on".
pub record ActiveEpisode : Type 0 where
  pub summary : EpisodeSummary
  pub bar_records : List EpisodeBarRecord
  pub bars_at_separation : ℕ
  pub separation_direction : Option Side
  pub last_bar_ts : Option ℕ
  pub atr_at_start_was_none : Bool
  pub last_session_phase : Option SessionPhase

-- `InteractionEpisodeManager`: `completed` is what its callback was given, in order.
pub record EpisodeManager : Type 0 where
  pub active : Dict EpisodeKey ActiveEpisode
  pub last_geo : Dict EpisodeKey (Side × ℤ)
  pub last_episode_id : Dict EpisodeKey ℕ
  pub interaction_index : Dict EpisodeKey ℕ
  pub completed : List (EpisodeSummary × List EpisodeBarRecord)
