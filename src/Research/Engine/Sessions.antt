-- ===== src/Research/Engine/Sessions.antt =====
-- A frame touches no episode of another session.
use alpha_runtime_v.Base.{
  ℕ, suc, ◌≡◌, refl, false, ◌&&◌, some, List, [], ◌∷◌, arith, inl, inr, Bool-cases, Option-cases,
  ◌∙◌, leb,
}
use alpha_runtime_v.Base.Dict.{Dict, lookup, insert, lookup-insert}
use alpha_runtime_v.Base.Lists.{All}
use alpha_runtime_v.Base.Int.{ℤ, leb_ℤ, neg}
use alpha_runtime_v.Research.Texts.{Text, eq_text_iff, text_eq}
use alpha_runtime_v.Research.Geometry.{BarLevelGeometry}
use alpha_runtime_v.Research.Model.{
  ActiveEpisode, EndReason, EpisodeKey, eq_key, eq_key_iff, key_eq, EpisodeManager, LevelSnapshot,
  InteractionFrame, LevelDistanceConfig, proximity_ticks, separation_ticks,
}
use alpha_runtime_v.Research.Episodes.Closing.{close_episode, of_session}
use alpha_runtime_v.Research.Episodes.Ends.{close_episode-lookup}
use alpha_runtime_v.Research.Episodes.{
  process, process_level, handle_outside, handle_active, continue_episode, separate, separated_side,
}
use alpha_runtime_v.Research.Opening.{geometry_for_level, open_episode, key_of}
use alpha_runtime_v.Research.Engine.{with_ids}

lookup_other :
    {V : Type 0} (k j : EpisodeKey) (v : V) (d : Dict EpisodeKey V)
    → eq_key k j ≡ false
    → lookup k (insert j v d) ≡ lookup k d
lookup_other k j v d h = ground (arith, lookup-insert k j v d, h)

handle_outside-other :
    (cfg : LevelDistanceConfig) (id : ℕ) (key k : EpisodeKey) (frame : InteractionFrame)
    (level : LevelSnapshot) (geo : BarLevelGeometry) (m : EpisodeManager)
    → eq_key k key ≡ false
    → lookup k (handle_outside cfg id key frame level geo m).active ≡ lookup k m.active
unfolding handle_outside open_episode
handle_outside-other cfg id key k frame level geo m h =
    let prox : ℤ = proximity_ticks cfg frame.atr_14 level.tick_size in
    elim (Bool-cases
      (leb_ℤ geo.low_distance_ticks prox && leb_ℤ (neg prox) geo.high_distance_ticks)) [
        | inl t ↦ rw t (lookup_other k key _ m.active h)
        | inr t ↦ rw t refl
      ]

closed_other :
    (key k : EpisodeKey) (ts : ℕ) (r : EndReason) (a : ActiveEpisode) (m n : EpisodeManager)
    → eq_key k key ≡ false
    → n.active ≡ insert key a m.active
    → lookup k (close_episode key ts r n).active ≡ lookup k m.active
closed_other key k ts r a m n h e =
    ground (arith, close_episode-lookup k key ts r n, h, e, lookup_other k key a m.active h)

handle_active-other :
    (cfg : LevelDistanceConfig) (key k : EpisodeKey) (a : ActiveEpisode) (frame : InteractionFrame)
    (level : LevelSnapshot) (geo : BarLevelGeometry) (m : EpisodeManager)
    → eq_key k key ≡ false
    → lookup k (handle_active cfg key a frame level geo m).active ≡ lookup k m.active
unfolding handle_active
handle_active-other cfg key k a frame level geo m h =
    let prox : ℤ = proximity_ticks cfg frame.atr_14 level.tick_size in
    let sep : ℤ = separation_ticks cfg frame.atr_14 level.tick_size in
    let longer : ActiveEpisode = continue_episode frame level geo prox sep a in
    let apart : ActiveEpisode = separate (separated_side sep geo) longer in
    elim (Bool-cases (leb cfg.max_episode_bars longer.summary.bar_count)) [
      | inl t ↦ rw t (closed_other key k _ _ longer m _ h refl)
      | inr t ↦ elim (Bool-cases (leb cfg.min_separation_bars apart.bars_at_separation)) [
        | inl u ↦ rw (t, u) (closed_other key k _ _ apart m _ h refl)
        | inr u ↦ rw (t, u) (lookup_other k key apart m.active h)
      ]
    ]

process_level-other :
    (cfg : LevelDistanceConfig) (frame : InteractionFrame) (level : LevelSnapshot) (id : ℕ)
    (k : EpisodeKey) (m n : EpisodeManager)
    → eq_key k (key_of level) ≡ false
    → process_level cfg frame (level, id) m ≡ some n
    → lookup k n.active ≡ lookup k m.active
unfolding process_level
process_level-other cfg frame level id k m n h e =
    elim (Option-cases (geometry_for_level frame level)) [
      | inl g ↦ absurd (cc (rw g at e))
      | inr (geo, g) ↦ elim (Option-cases (lookup (key_of level) m.active)) [
        | inl a ↦
            ground
              (arith, e, g, a, handle_outside-other cfg id (key_of level) k frame level geo m h)
        | inr (a, q) ↦
            ground (arith, e, g, q, handle_active-other cfg (key_of level) k a frame level geo m h)
      ]
    ]

-- The levels of one symbol and session.
abbrev pub OfSession : Text → Text → LevelSnapshot → Type 0
OfSession symbol session_id l = (l.symbol ≡ symbol) × (l.session_id ≡ session_id)

pub process-other :
    (cfg : LevelDistanceConfig) (frame : InteractionFrame) (levels : List LevelSnapshot)
    (ids : ℕ → ℕ) (i : ℕ) (symbol session_id : Text) (k : EpisodeKey) (m : EpisodeManager)
    → All (OfSession symbol session_id) levels
    → of_session symbol session_id k ≡ false
    → lookup k (process cfg frame (with_ids ids i levels) m).0.active ≡ lookup k m.active
unfolding process
process-other cfg frame [] ids i symbol session_id k m h o = refl
process-other cfg frame (l ∷ levels) ids i symbol session_id k m h o =
    elim (Option-cases (process_level cfg frame (l, ids i) m)) [
      | inl e ↦ rw (e, process) refl
      | inr (n, e) ↦
          let differs : eq_key k (key_of l) ≡ false = ground (
            arith,
            eq_key_iff k (key_of l),
            eq_text_iff k.symbol symbol,
            eq_text_iff k.session_id session_id,
            h.0.0,
            h.0.1,
            o,
          ) in
          rw (e, process)
            (process-other cfg frame levels ids (suc i) symbol session_id k n h.1 o
              ∙ process_level-other cfg frame l (ids i) k m n differs e)
    ]
