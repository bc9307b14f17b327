-- ===== src/Research/Episodes/Closing.antt =====
-- How `InteractionEpisodeManager` closes episodes: `_close` and the methods that close many.
use alpha_runtime_v.Base.{
  ℕ, Bool, true, false, ◌&&◌, none, some, List, [], ◌∷◌, ◌++◌, map, if◌then◌else◌,
}
use alpha_runtime_v.Base.Lists.{filter}
use alpha_runtime_v.Base.Dict.{keys, lookup, insert, erase}
use alpha_runtime_v.Research.Texts.{Text, eq_text}
use alpha_runtime_v.Research.Geometry.{Side}
use alpha_runtime_v.Research.Model.{
  EpisodeBarRecord, EpisodeSummary, EndReason, EpisodeKey, key_eq, ActiveEpisode, EpisodeManager,
}
use alpha_runtime_v.Research.Episodes.Sequence.{CloseSequence, derive_close_sequence}

abbrev pub sides_of : List EpisodeBarRecord → List Side
sides_of = map (λ b. b.close_side)

-- `end_reason in ("gap_detected", "processing_error")`
abbrev pub invalidates : EndReason → Bool
invalidates EndReason.gap_detected = true
invalidates EndReason.processing_error = true
invalidates _ = false

-- The summary that `_close` completes.
unfoldable pub close_summary : ActiveEpisode → ℕ → EndReason → EpisodeSummary
close_summary a timestamp reason =
    let derived : CloseSequence = derive_close_sequence (sides_of a.bar_records) in
    record a.summary {
      ended_at = some timestamp;
      end_reason = some reason;
      end_session_phase = elim a.last_session_phase [
        | some phase ↦ some phase
        | none ↦ some a.summary.start_session_phase
      ];
      close_side_flip_count = derived.flip_count;
      max_consecutive_closes_above = derived.max_above;
      max_consecutive_closes_below = derived.max_below;
      is_valid_for_research = if invalidates reason then false else a.summary.is_valid_for_research;
    }

-- `_close`
unfoldable pub close_episode : EpisodeKey → ℕ → EndReason → EpisodeManager → EpisodeManager
close_episode key timestamp reason m = elim (lookup key m.active) [
  | none ↦ m
  | some a ↦ record m {
    active = erase key m.active;
    last_episode_id = insert key a.summary.episode_id m.last_episode_id;
    completed = m.completed ++ (close_summary a timestamp reason, a.bar_records) ∷ [];
  }
]

unfoldable pub close_all : List EpisodeKey → ℕ → EndReason → EpisodeManager → EpisodeManager
close_all [] timestamp reason m = m
close_all (k ∷ ks) timestamp reason m =
    close_all ks timestamp reason (close_episode k timestamp reason m)

abbrev pub of_session : Text → Text → EpisodeKey → Bool
of_session symbol session_id k = eq_text k.symbol symbol && eq_text k.session_id session_id

-- The loop of `on_session_end` over the keys of the counters.
unfoldable pub clear_keys : List EpisodeKey → EpisodeManager → EpisodeManager
clear_keys [] m = m
clear_keys (k ∷ ks) m = clear_keys ks (record m {
  interaction_index = erase k m.interaction_index;
  last_episode_id = erase k m.last_episode_id;
  last_geo = erase k m.last_geo;
})

-- `on_session_end`
unfoldable pub on_session_end : Text → Text → ℕ → EpisodeManager → EpisodeManager
on_session_end symbol session_id timestamp m =
    let closed : EpisodeManager =
      close_all (filter (of_session symbol session_id) (keys m.active)) timestamp
        EndReason.session_ended m in
    clear_keys (filter (of_session symbol session_id) (keys closed.interaction_index)) closed

-- `on_gap`
unfoldable pub on_gap : Text → Text → ℕ → EpisodeManager → EpisodeManager
on_gap symbol session_id timestamp m =
    close_all (filter (of_session symbol session_id) (keys m.active)) timestamp
      EndReason.gap_detected m

-- `on_processing_error`
unfoldable pub on_processing_error : Text → ℕ → EpisodeManager → EpisodeManager
on_processing_error symbol timestamp m =
    close_all (filter (λ k. eq_text k.symbol symbol) (keys m.active)) timestamp
      EndReason.processing_error m

-- `ep.last_bar_ts or ep.summary.started_at`
unfoldable pub flush_time : ActiveEpisode → ℕ
flush_time a = elim a.last_bar_ts [ none ↦ a.summary.started_at | some ts ↦ ts ]

unfoldable pub flush_keys : List EpisodeKey → EpisodeManager → EpisodeManager
flush_keys [] m = m
flush_keys (k ∷ ks) m = flush_keys ks (elim (lookup k m.active) [
  | none ↦ m
  | some a ↦ close_episode k (flush_time a) EndReason.replay_completed m
])

-- `flush`
unfoldable pub flush : EpisodeManager → EpisodeManager
flush m = flush_keys (keys m.active) m
