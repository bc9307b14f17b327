-- ===== src/Research/Episodes/Kept.antt =====
-- What the manager keeps of its episodes, open and completed, over any order of calls.
pub mod Steps
use alpha_runtime_v.Base.{
  ℕ, zero, suc, ◌+◌, ◌≤◌, ◌<◌, max, ◌≡◌, refl, Bool, true, false, not, ◌&&◌, Option, none, some,
  List, [], ◌∷◌, ◌++◌, if◌then◌else◌, arith, inl, inr, sym, ◌⊎◌, Bool-cases, Option-cases, leb,
  is_some,
}
use alpha_runtime_v.Base.Int.{ℤ, pos, neg, ◌≤ℤ◌, ◌<ℤ◌, ltb_ℤ, leb_ℤ}
use alpha_runtime_v.Base.Dict.{lookup, insert, erase, lookup-insert, lookup-erase}
use alpha_runtime_v.Base.Lists.{length, filter, All, All-append}
use alpha_runtime_v.Research.Texts.{Text}
use alpha_runtime_v.Research.Geometry.{Side, BarLevelGeometry}
use alpha_runtime_v.Research.Model.{
  EpisodeBarRecord, EpisodeSummary, ActiveEpisode, InteractionFrame, LevelSnapshot,
  LevelDistanceConfig, EndReason, EpisodeKey, eq_key, eq_key_iff, key_eq, EpisodeManager,
  proximity_ticks, separation_ticks,
}
use alpha_runtime_v.Research.Episodes.Sequence.{derive_close_sequence}
use alpha_runtime_v.Research.Episodes.Closing.{sides_of, close_summary, close_episode, invalidates}
use alpha_runtime_v.Research.Episodes.{
  handle_outside, handle_active, continue_episode, separated_side, separate, process_level, process,
  see,
}
use alpha_runtime_v.Research.Opening.{
  bar_record, new_episode, open_episode, geometry_for_level, key_of,
}
use alpha_runtime_v.Research.Episodes.Runs.{flips, longest, derive_close_sequence_lem}
use alpha_runtime_v.Research.Episodes.Records.{
  IsAggregate, IsTrailing, continue_episode-IsAggregate, separate-IsTrailing,
}

-- An open episode under its key: a summary that is right, shorter than the longest that is allowed
-- (an episode of one bar is not checked), and with too few separated bars at its end.
pub record IsOngoing (cfg : LevelDistanceConfig) (k : EpisodeKey) (a : ActiveEpisode) : Type 0 where
  pub aggregate : IsAggregate a.summary a.bar_records
  pub trailing : IsTrailing a.bars_at_separation a.separation_direction a.bar_records
  pub waiting : a.bars_at_separation < cfg.min_separation_bars
  pub short : a.summary.bar_count < max 2 cfg.max_episode_bars
  pub symbol_kept : a.summary.symbol ≡ k.symbol
  pub session_kept : a.summary.session_id ≡ k.session_id
  pub level_kept : a.summary.level_id ≡ k.level_id

-- What must be so for an episode to end for a reason.
abbrev pub Justified : LevelDistanceConfig → EndReason → ℕ → List EpisodeBarRecord → Type 0
Justified cfg EndReason.timeout count bars = cfg.max_episode_bars ≤ count
Justified cfg EndReason.separation count bars =
    (n : ℕ) × (dir : Option Side) × (cfg.min_separation_bars ≤ n) × IsTrailing n dir bars
Justified cfg _ count bars = Unit

-- A completed episode: a summary that is right, its close sequence counted, at most as long as is
-- allowed, with an end and a reason that holds.
pub record IsEnded (cfg : LevelDistanceConfig) (s : EpisodeSummary) (bars : List EpisodeBarRecord)
    : Type 0 where
  pub aggregate : IsAggregate s bars
  pub flipped : s.close_side_flip_count ≡ flips (sides_of bars)
  pub above : s.max_consecutive_closes_above ≡ longest Side.above (sides_of bars)
  pub below : s.max_consecutive_closes_below ≡ longest Side.below (sides_of bars)
  pub bounded : s.bar_count ≤ max 2 cfg.max_episode_bars
  pub timed : is_some s.ended_at ≡ true
  pub reason : EndReason
  pub named : s.end_reason ≡ some reason
  pub justified : Justified cfg reason s.bar_count bars
  pub invalid : invalidates reason && s.is_valid_for_research ≡ false

pub record IsKept (cfg : LevelDistanceConfig) (m : EpisodeManager) : Type 0 where
  pub ongoing :
      (k : EpisodeKey) (a : ActiveEpisode) → lookup k m.active ≡ some a → IsOngoing cfg k a
  pub ended : All (λ p. IsEnded cfg p.0 p.1) m.completed

pub close_summary-IsEnded :
    (cfg : LevelDistanceConfig) (a : ActiveEpisode) (ts : ℕ) (r : EndReason)
    → IsAggregate a.summary a.bar_records
    → a.summary.bar_count ≤ max 2 cfg.max_episode_bars
    → Justified cfg r a.summary.bar_count a.bar_records
    → IsEnded cfg (close_summary a ts r) a.bar_records
unfolding close_summary
close_summary-IsEnded cfg a ts r h b j =
    let derived : _ = derive_close_sequence_lem (sides_of a.bar_records) in
    record {
      aggregate = record {
        counted = h.counted;
        spanned = h.spanned;
        highest = h.highest;
        highest_reached = h.highest_reached;
        lowest = h.lowest;
        lowest_reached = h.lowest_reached;
        ends = h.ends;
        own = h.own;
        numbered = h.numbered;
      };
      flipped = derived.0;
      above = derived.1;
      below = derived.2;
      bounded = b;
      timed = refl;
      reason = r;
      named = refl;
      justified = j;
      invalid = ground arith;
    }

pub close_episode-IsKept :
    (cfg : LevelDistanceConfig) (key : EpisodeKey) (ts : ℕ) (r : EndReason) (m : EpisodeManager)
    → ((k : EpisodeKey) (a : ActiveEpisode)
        → lookup k m.active ≡ some a
        → eq_key k key ≡ false
        → IsOngoing cfg k a)
    → All (λ p. IsEnded cfg p.0 p.1) m.completed
    → ((a : ActiveEpisode)
        → lookup key m.active ≡ some a
        → IsEnded cfg (close_summary a ts r) a.bar_records)
    → IsKept cfg (close_episode key ts r m)
unfolding close_episode
close_episode-IsKept cfg key ts r m h e c = elim (Option-cases (lookup key m.active)) [
  | inl n ↦
      rw (n, close_episode)
        (record {
          ongoing = λ k a l. elim (Bool-cases (eq_key k key)) [
            | inl q ↦ absurd (ground (arith, eq_key_iff k key, l, n, q))
            | inr q ↦ h k a l q
          ];
          ended = e;
        })
  | inr (a, n) ↦
      rw (n, close_episode)
        (record {
          ongoing = λ k b l.
              h k b (ground (arith, lookup-erase k key m.active, l))
                (ground (arith, lookup-erase k key m.active, l));
          ended = All-append _ m.completed _ e (c a n, tt);
        })
]

pub insert-IsKept :
    (cfg : LevelDistanceConfig) (key : EpisodeKey) (a : ActiveEpisode) (m : EpisodeManager)
    → IsKept cfg m
    → IsOngoing cfg key a
    → (k : EpisodeKey) (b : ActiveEpisode) → lookup k (insert key a m.active) ≡ some b
    → IsOngoing cfg k b
insert-IsKept cfg key a m h o k b l = elim (Bool-cases (eq_key k key)) [
  | inl q ↦
      let same : k ≡ key = ground (arith, eq_key_iff k key, q) in
      let here : b ≡ a = ground (arith, lookup-insert k key a m.active, l, q) in rw (same, here) o
  | inr q ↦ h.ongoing k b (ground (arith, lookup-insert k key a m.active, l, q))
]

-- An episode that was put back under its key and is then closed.
closed_after_insert :
    (cfg : LevelDistanceConfig) (key : EpisodeKey) (a : ActiveEpisode) (ts : ℕ) (r : EndReason)
    (geo : BarLevelGeometry) (m : EpisodeManager)
    → IsKept cfg m
    → IsEnded cfg (close_summary a ts r) a.bar_records
    → IsKept cfg
        (close_episode key ts r (record (see key geo m) { active = insert key a m.active }))
closed_after_insert cfg key a ts r geo m h e =
    close_episode-IsKept cfg key ts r _
      (λ k b l q. h.ongoing k b (ground (arith, lookup-insert k key a m.active, l, q))) h.ended
      (λ b l.
        let here : b ≡ a =
          ground (arith, lookup-insert key key a m.active, l, eq_key_iff key key) in
        rw here e)

-- What a bar does to an open episode, before it is tested for its end.
longer_facts :
    (cfg : LevelDistanceConfig) (k : EpisodeKey) (frame : InteractionFrame) (level : LevelSnapshot)
    (geo : BarLevelGeometry) (prox sep : ℤ) (a : ActiveEpisode)
    → IsOngoing cfg k a
    → IsAggregate
        (continue_episode frame level geo prox sep a).summary
        (continue_episode frame level geo prox sep a).bar_records
      × ((continue_episode frame level geo prox sep a).summary.bar_count
          ≤ max 2 cfg.max_episode_bars)
unfolding continue_episode
longer_facts cfg k frame level geo prox sep a o =
    (continue_episode-IsAggregate frame level geo prox sep a o.aggregate, ground (arith, o.short))

-- An episode that is not at its end stays open.
apart-IsOngoing :
    (cfg : LevelDistanceConfig) (k : EpisodeKey) (frame : InteractionFrame) (level : LevelSnapshot)
    (geo : BarLevelGeometry) (prox sep : ℤ) (a : ActiveEpisode)
    → IsOngoing cfg k a
    → leb cfg.max_episode_bars (continue_episode frame level geo prox sep a).summary.bar_count
      ≡ false
    → leb cfg.min_separation_bars
        (separate
          (separated_side sep geo)
          (continue_episode frame level geo prox sep a)).bars_at_separation
      ≡ false
    → IsOngoing cfg k
        (separate (separated_side sep geo) (continue_episode frame level geo prox sep a))
unfolding continue_episode
apart-IsOngoing cfg k frame level geo prox sep a o t u = record {
  aggregate = continue_episode-IsAggregate frame level geo prox sep a o.aggregate;
  trailing = separate-IsTrailing frame level geo prox sep a o.trailing;
  waiting = ground (arith, u);
  short = ground (arith, t);
  symbol_kept = o.symbol_kept;
  session_kept = o.session_kept;
  level_kept = o.level_kept;
}

pub handle_active-IsKept :
    (cfg : LevelDistanceConfig) (key : EpisodeKey) (a : ActiveEpisode) (frame : InteractionFrame)
    (level : LevelSnapshot) (geo : BarLevelGeometry) (m : EpisodeManager)
    → IsKept cfg m
    → lookup key m.active ≡ some a
    → IsKept cfg (handle_active cfg key a frame level geo m)
unfolding handle_active
handle_active-IsKept cfg key a frame level geo m h l =
    let prox : ℤ = proximity_ticks cfg frame.atr_14 level.tick_size in
    let sep : ℤ = separation_ticks cfg frame.atr_14 level.tick_size in
    let longer : ActiveEpisode = continue_episode frame level geo prox sep a in
    let apart : ActiveEpisode = separate (separated_side sep geo) longer in
    let o : IsOngoing cfg key a = h.ongoing key a l in
    let facts : _ = longer_facts cfg key frame level geo prox sep a o in
    elim (Bool-cases (leb cfg.max_episode_bars longer.summary.bar_count)) [
      | inl t ↦
          rw (t, handle_active)
            (closed_after_insert cfg key longer frame.bar_timestamp EndReason.timeout geo m h (
              close_summary-IsEnded cfg longer frame.bar_timestamp EndReason.timeout facts.0 facts.1
                (ground (arith, t))))
      | inr t ↦ elim (Bool-cases (leb cfg.min_separation_bars apart.bars_at_separation)) [
        | inl u ↦
            rw (t, u, handle_active)
              (closed_after_insert cfg key apart frame.bar_timestamp EndReason.separation geo m h (
                close_summary-IsEnded cfg apart frame.bar_timestamp EndReason.separation facts.0
                  facts.1
                  (
                    _,
                    _,
                    ground (arith, u),
                    separate-IsTrailing frame level geo prox sep a o.trailing,
                  )))
        | inr u ↦
            rw (t, u, handle_active)
              (record {
                ongoing =
                    insert-IsKept cfg key apart m h
                      (apart-IsOngoing cfg key frame level geo prox sep a o t u);
                ended = h.ended;
              })
      ]
    ]
