-- ===== src/Research/Episodes/Kept/Steps.antt =====
-- Every call of the manager keeps its episodes right.
use alpha_runtime_v.Base.{
  ℕ, ◌+◌, ◌<◌, ◌≡◌, refl, ◌&&◌, Option, none, some, List, [], ◌∷◌, arith, inl, inr, Bool-cases,
  Option-cases, subst,
}
use alpha_runtime_v.Base.Int.{ℤ, neg, leb_ℤ}
use alpha_runtime_v.Base.Dict.{lookup}
use alpha_runtime_v.Research.Texts.{Text}
use alpha_runtime_v.Research.Geometry.{Side, BarLevelGeometry}
use alpha_runtime_v.Research.Model.{
  EpisodeBarRecord, InteractionFrame, LevelSnapshot, LevelDistanceConfig, EndReason, EpisodeKey,
  key_eq, EpisodeManager, proximity_ticks, separation_ticks,
}
use alpha_runtime_v.Research.Episodes.Closing.{
  close_episode, close_all, clear_keys, flush_keys, flush_time, on_session_end, on_gap,
  on_processing_error, flush,
}
use alpha_runtime_v.Research.Episodes.{handle_outside, handle_active, process_level, process}
use alpha_runtime_v.Research.Opening.{
  bar_record, new_episode, open_episode, geometry_for_level, key_of, index_of,
}
use alpha_runtime_v.Research.Episodes.Records.{nothing_trails}
use alpha_runtime_v.Research.Episodes.Kept.{
  IsOngoing, IsKept, Justified, close_summary-IsEnded, close_episode-IsKept, insert-IsKept,
  handle_active-IsKept,
}

new_episode-IsOngoing :
    (cfg : LevelDistanceConfig) (id : ℕ) (prior : Option ℕ) (idx : ℕ) (seen : Option (Side × ℤ))
    (key : EpisodeKey) (frame : InteractionFrame) (level : LevelSnapshot) (geo : BarLevelGeometry)
    (prox sep : ℤ)
    → 0 < cfg.min_separation_bars
    → IsOngoing cfg key (new_episode id prior idx seen key frame level geo prox sep)
unfolding new_episode bar_record
new_episode-IsOngoing cfg id prior idx seen key frame level geo prox sep z = record {
  aggregate = record {
    counted = refl;
    spanned = ground arith;
    highest = (omega arith, tt);
    highest_reached = inl refl;
    lowest = (omega arith, tt);
    lowest_reached = inl refl;
    ends = refl;
    own = (refl, tt);
    numbered = (refl, tt);
  };
  trailing = nothing_trails none _;
  waiting = z;
  short = ground arith;
  symbol_kept = refl;
  session_kept = refl;
  level_kept = refl;
}

handle_outside-IsKept :
    (cfg : LevelDistanceConfig) (id : ℕ) (key : EpisodeKey) (frame : InteractionFrame)
    (level : LevelSnapshot) (geo : BarLevelGeometry) (m : EpisodeManager)
    → 0 < cfg.min_separation_bars
    → IsKept cfg m
    → IsKept cfg (handle_outside cfg id key frame level geo m)
unfolding handle_outside open_episode
handle_outside-IsKept cfg id key frame level geo m z h =
    let prox : ℤ = proximity_ticks cfg frame.atr_14 level.tick_size in
    let sep : ℤ = separation_ticks cfg frame.atr_14 level.tick_size in
    elim (Bool-cases
      (leb_ℤ geo.low_distance_ticks prox && leb_ℤ (neg prox) geo.high_distance_ticks)) [
        | inl t ↦
            rw (t, handle_outside)
              (record {
                ongoing = insert-IsKept cfg key _ m h (
                    new_episode-IsOngoing cfg id (lookup key m.last_episode_id) (index_of key m + 1)
                      (lookup key m.last_geo) key frame level geo prox sep z);
                ended = h.ended;
              })
        | inr t ↦ rw (t, handle_outside) (record { ongoing = h.ongoing; ended = h.ended })
      ]

process_level-IsKept :
    (cfg : LevelDistanceConfig) (frame : InteractionFrame) (l : LevelSnapshot × ℕ)
    (m n : EpisodeManager)
    → 0 < cfg.min_separation_bars
    → IsKept cfg m
    → process_level cfg frame l m ≡ some n
    → IsKept cfg n
unfolding process_level
process_level-IsKept cfg frame (level, id) m n z h e =
    elim (Option-cases (geometry_for_level frame level)) [
      | inl g ↦ absurd (cc (rw g at e))
      | inr (geo, g) ↦ elim (Option-cases (lookup (key_of level) m.active)) [
        | inl a ↦
            let same : handle_outside cfg id (key_of level) frame level geo m ≡ n =
              ground (arith, e, g, a) in
            subst (IsKept cfg) same
              (handle_outside-IsKept cfg id (key_of level) frame level geo m z h)
        | inr (a, q) ↦
            let same : handle_active cfg (key_of level) a frame level geo m ≡ n =
              ground (arith, e, g, q) in
            subst (IsKept cfg) same
              (handle_active-IsKept cfg (key_of level) a frame level geo m h q)
      ]
    ]

pub process-IsKept :
    (cfg : LevelDistanceConfig) (frame : InteractionFrame) (levels : List (LevelSnapshot × ℕ))
    (m : EpisodeManager)
    → 0 < cfg.min_separation_bars
    → IsKept cfg m
    → IsKept cfg (process cfg frame levels m).0
unfolding process
process-IsKept cfg frame [] m z h = h
process-IsKept cfg frame (l ∷ levels) m z h = elim (Option-cases (process_level cfg frame l m)) [
  | inl e ↦ rw (e, process) h
  | inr (n, e) ↦
      rw (e, process)
        (process-IsKept cfg frame levels n z (process_level-IsKept cfg frame l m n z h e))
]

-- A reason that needs nothing of the episode closes any.
any_close-IsKept :
    (cfg : LevelDistanceConfig) (k : EpisodeKey) (ts : ℕ) (r : EndReason) (m : EpisodeManager)
    → ((count : ℕ) (bars : List EpisodeBarRecord) → Justified cfg r count bars)
    → IsKept cfg m
    → IsKept cfg (close_episode k ts r m)
any_close-IsKept cfg k ts r m j h =
    close_episode-IsKept cfg k ts r m (λ i a l q. h.ongoing i a l) h.ended
      (λ a l.
        let o : IsOngoing cfg k a = h.ongoing k a l in
        close_summary-IsEnded cfg a ts r o.aggregate (omega (arith, o.short))
          (j a.summary.bar_count a.bar_records))

pub close_all-IsKept :
    (cfg : LevelDistanceConfig) (ks : List EpisodeKey) (ts : ℕ) (r : EndReason) (m : EpisodeManager)
    → ((count : ℕ) (bars : List EpisodeBarRecord) → Justified cfg r count bars)
    → IsKept cfg m
    → IsKept cfg (close_all ks ts r m)
unfolding close_all
close_all-IsKept cfg [] ts r m j h = h
close_all-IsKept cfg (k ∷ ks) ts r m j h =
    close_all-IsKept cfg ks ts r (close_episode k ts r m) j (any_close-IsKept cfg k ts r m j h)

clear_keys-IsKept :
    (cfg : LevelDistanceConfig) (ks : List EpisodeKey) (m : EpisodeManager)
    → IsKept cfg m
    → IsKept cfg (clear_keys ks m)
unfolding clear_keys
clear_keys-IsKept cfg [] m h = h
clear_keys-IsKept cfg (k ∷ ks) m h =
    clear_keys-IsKept cfg ks _ (record { ongoing = h.ongoing; ended = h.ended })

pub on_session_end-IsKept :
    (cfg : LevelDistanceConfig) (symbol session_id : Text) (ts : ℕ) (m : EpisodeManager)
    → IsKept cfg m
    → IsKept cfg (on_session_end symbol session_id ts m)
unfolding on_session_end
on_session_end-IsKept cfg symbol session_id ts m h =
    clear_keys-IsKept cfg _ _ (close_all-IsKept cfg _ ts EndReason.session_ended m (λ c b. tt) h)

pub on_gap-IsKept :
    (cfg : LevelDistanceConfig) (symbol session_id : Text) (ts : ℕ) (m : EpisodeManager)
    → IsKept cfg m
    → IsKept cfg (on_gap symbol session_id ts m)
unfolding on_gap
on_gap-IsKept cfg symbol session_id ts m h =
    close_all-IsKept cfg _ ts EndReason.gap_detected m (λ c b. tt) h

pub on_processing_error-IsKept :
    (cfg : LevelDistanceConfig) (symbol : Text) (ts : ℕ) (m : EpisodeManager)
    → IsKept cfg m
    → IsKept cfg (on_processing_error symbol ts m)
unfolding on_processing_error
on_processing_error-IsKept cfg symbol ts m h =
    close_all-IsKept cfg _ ts EndReason.processing_error m (λ c b. tt) h

flush_keys-IsKept :
    (cfg : LevelDistanceConfig) (ks : List EpisodeKey) (m : EpisodeManager)
    → IsKept cfg m
    → IsKept cfg (flush_keys ks m)
unfolding flush_keys
flush_keys-IsKept cfg [] m h = h
flush_keys-IsKept cfg (k ∷ ks) m h = elim (Option-cases (lookup k m.active)) [
  | inl e ↦ rw (e, flush_keys) (flush_keys-IsKept cfg ks m h)
  | inr (a, e) ↦
      rw (e, flush_keys)
        (flush_keys-IsKept cfg ks _
          (any_close-IsKept cfg k (flush_time a) EndReason.replay_completed m (λ c b. tt) h))
]

pub flush-IsKept :
    (cfg : LevelDistanceConfig) (m : EpisodeManager) → IsKept cfg m → IsKept cfg (flush m)
unfolding flush
flush-IsKept cfg m h = flush_keys-IsKept cfg _ m h

-- `InteractionEpisodeManager.__init__`
unfoldable pub new_manager : EpisodeManager
new_manager = record {
  active = [];
  last_geo = [];
  last_episode_id = [];
  interaction_index = [];
  completed = [];
}

-- The manager's calls in any order.
pub data ManagerRun (cfg : LevelDistanceConfig) : EpisodeManager → Type 0 where
  created : ManagerRun cfg new_manager
  processed :
      {m : EpisodeManager} (frame : InteractionFrame) (levels : List (LevelSnapshot × ℕ))
      → ManagerRun cfg m
      → ManagerRun cfg (process cfg frame levels m).0
  session_over :
      {m : EpisodeManager} (symbol session_id : Text) (ts : ℕ)
      → ManagerRun cfg m
      → ManagerRun cfg (on_session_end symbol session_id ts m)
  gap :
      {m : EpisodeManager} (symbol session_id : Text) (ts : ℕ)
      → ManagerRun cfg m
      → ManagerRun cfg (on_gap symbol session_id ts m)
  failure :
      {m : EpisodeManager} (symbol : Text) (ts : ℕ)
      → ManagerRun cfg m
      → ManagerRun cfg (on_processing_error symbol ts m)
  flushed : {m : EpisodeManager} → ManagerRun cfg m → ManagerRun cfg (flush m)
