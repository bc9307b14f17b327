-- ===== src/Research/Engine/Settled.antt =====
-- The engine over any bars: its episodes are right, and belong to their symbol's current session.
use alpha_runtime_v.Base.{
  ℕ, ◌≡◌, refl, Bool, false, not, ◌&&◌, some, List, [], ◌∷◌, arith, inl, inr, ◌⊎◌, Bool-cases,
  Option-cases, ap,
}
use alpha_runtime_v.Base.Dict.{Dict, lookup, insert, lookup-insert}
use alpha_runtime_v.Research.Texts.{Text, eq_text, eq_text_iff, text_eq}
use alpha_runtime_v.Research.Model.{
  EpisodeBarRecord, EpisodeSummary, ActiveEpisode, EpisodeKey, key_eq, EpisodeManager,
  LevelDistanceConfig,
}
use alpha_runtime_v.Research.Episodes.Closing.{of_session, on_session_end, on_gap}
use alpha_runtime_v.Research.Episodes.Ends.{on_session_end-lookup, on_gap-lookup}
use alpha_runtime_v.Research.Engine.{
  LevelInteractionEngine, on_episode_complete, deliver, with_manager, roll_session, detect_gap,
  is_gap,
}
use alpha_runtime_v.Research.Levels.{Env}
use alpha_runtime_v.Research.Episodes.Kept.{IsKept}
use alpha_runtime_v.Research.Episodes.Kept.Steps.{on_session_end-IsKept, on_gap-IsKept}

-- Each open episode is right, and belongs to the last session that its symbol was seen in.
pub record IsSettled (cfg : LevelDistanceConfig) (e : LevelInteractionEngine) : Type 0 where
  pub kept : IsKept cfg e.manager
  pub settled :
      (k : EpisodeKey) (a : ActiveEpisode)
      → lookup k e.manager.active ≡ some a
      → lookup k.symbol e.last_session_key ≡ some k.session_id

module _ (env : Env) where
  deliver-same :
      (cs : List (EpisodeSummary × List EpisodeBarRecord)) (e : LevelInteractionEngine)
      → ((deliver env cs e).manager ≡ e.manager)
        × ((deliver env cs e).last_session_key ≡ e.last_session_key)
        × ((deliver env cs e).last_bar_ts ≡ e.last_bar_ts)
  unfolding deliver on_episode_complete
  deliver-same [] e = (refl, refl, refl)
  deliver-same ((s, bars) ∷ cs) e = deliver-same cs (on_episode_complete env (s, bars) e)

  -- A call of the manager that keeps its episodes and opens none keeps the engine settled.
  pub with_manager-IsSettled :
      (cfg : LevelDistanceConfig) (m : EpisodeManager) (e : LevelInteractionEngine)
      → IsKept cfg m
      → ((k : EpisodeKey) (a : ActiveEpisode)
          → lookup k m.active ≡ some a
          → lookup k.symbol e.last_session_key ≡ some k.session_id)
      → IsSettled cfg (with_manager env m e)
  unfolding with_manager
  with_manager-IsSettled cfg m e h s =
      let same : _ =
        deliver-same m.completed (record e { manager = record m { completed = [] } }) in
      record {
        kept = rw same.0 (record { ongoing = h.ongoing; ended = tt });
        settled = λ k a l. rw same.1 (s k a (rw same.0 at l));
      }

  pub with_manager-keys :
      (m : EpisodeManager) (e : LevelInteractionEngine)
      → ((with_manager env m e).last_session_key ≡ e.last_session_key)
        × ((with_manager env m e).manager.active ≡ m.active)
  unfolding with_manager
  with_manager-keys m e =
      let same : _ =
        deliver-same m.completed (record e { manager = record m { completed = [] } }) in
      (same.1, ap (λ n. n.active) same.0)

  -- Once a session is stored for its symbol, the other symbols' sessions stay.
  stored_session :
      (k : EpisodeKey) (symbol session_id : Text) (d : Dict Text Text)
      → lookup k.symbol d ≡ some k.session_id
      → (eq_text k.symbol symbol ≡ false) ⊎ (k.session_id ≡ session_id)
      → lookup k.symbol (insert symbol session_id d) ≡ some k.session_id
  stored_session k symbol session_id d h o =
      ground (arith, h, o, lookup-insert k.symbol symbol session_id d)

  pub roll_session-IsSettled :
      (cfg : LevelDistanceConfig) (symbol session_id : Text) (ts : ℕ) (e : LevelInteractionEngine)
      → IsSettled cfg e
      → IsSettled cfg (roll_session env symbol session_id ts e)
  unfolding roll_session
  roll_session-IsSettled cfg symbol session_id ts e h =
      elim (Option-cases (lookup symbol e.last_session_key)) [
        | inl n ↦
            rw (n, roll_session)
              (record {
                kept = h.kept;
                settled = λ k a l.
                    stored_session k symbol session_id e.last_session_key (h.settled k a l)
                      (ground (arith, eq_text_iff k.symbol symbol, h.settled k a l, n));
              })
        | inr (last, n) ↦ elim (Bool-cases (eq_text session_id last)) [
          | inl q ↦
              rw (n, q, roll_session)
                (record {
                  kept = h.kept;
                  settled = λ k a l.
                      stored_session k symbol session_id e.last_session_key (h.settled k a l) (
                        ground (
                          arith,
                          eq_text_iff k.symbol symbol,
                          eq_text_iff session_id last,
                          h.settled k a l,
                          n,
                          q,
                        ));
                })
          | inr q ↦
              let m : EpisodeManager = on_session_end symbol last ts e.manager in
              let before : (k : EpisodeKey) (a : ActiveEpisode)
                  → lookup k m.active ≡ some a
                  → (lookup k e.manager.active ≡ some a) × (of_session symbol last k ≡ false) =
                λ k a l. (
                  ground (arith, on_session_end-lookup k symbol last ts e.manager, l),
                  ground (arith, on_session_end-lookup k symbol last ts e.manager, l),
                ) in
              let closed : IsSettled cfg (with_manager env m e) =
                with_manager-IsSettled cfg m e
                  (on_session_end-IsKept cfg symbol last ts e.manager h.kept)
                  (λ k a l. h.settled k a (before k a l).0) in
              let same : _ = with_manager-keys m e in
              rw (n, q, roll_session)
                (record {
                  kept = record { ongoing = closed.kept.ongoing; ended = closed.kept.ended };
                  settled = λ k a l.
                      let was : (lookup k e.manager.active ≡ some a)
                          × (of_session symbol last k ≡ false) =
                        before k a (rw same.1 at l) in
                      stored_session k symbol session_id (with_manager env m e).last_session_key
                        (closed.settled k a l)
                        (ground (
                          arith,
                          eq_text_iff k.symbol symbol,
                          eq_text_iff k.session_id last,
                          h.settled k a was.0,
                          was.1,
                          n,
                        ));
                })
        ]
      ]

  pub roll_session-current :
      (symbol session_id : Text) (ts : ℕ) (e : LevelInteractionEngine)
      → lookup symbol (roll_session env symbol session_id ts e).last_session_key ≡ some session_id
  unfolding roll_session
  roll_session-current symbol session_id ts e =
      rw (lookup-insert symbol symbol session_id _) (ground (arith, eq_text_iff symbol symbol))

  pub detect_gap-IsSettled :
      (cfg : LevelDistanceConfig) (rollover : Bool) (symbol session_id : Text) (ts : ℕ)
      (e : LevelInteractionEngine)
      → IsSettled cfg e
      → IsSettled cfg (detect_gap env cfg rollover symbol session_id ts e)
        × ((detect_gap env cfg rollover symbol session_id ts e).last_session_key
            ≡ e.last_session_key)
  unfolding detect_gap
  detect_gap-IsSettled cfg rollover symbol session_id ts e h =
      elim (Bool-cases
        (is_gap cfg.max_bar_gap_seconds (lookup symbol e.last_bar_ts) ts && not rollover)) [
          | inr q ↦ rw (q, detect_gap) (record { kept = h.kept; settled = h.settled }, refl)
          | inl q ↦
              let m : EpisodeManager = on_gap symbol session_id ts e.manager in
              let closed : IsSettled cfg (with_manager env m e) =
                with_manager-IsSettled cfg m e
                  (on_gap-IsKept cfg symbol session_id ts e.manager h.kept)
                  (λ k a l.
                    h.settled k a
                      (ground (arith, on_gap-lookup k symbol session_id ts e.manager, l))) in
              rw (q, detect_gap)
                (record { kept = closed.kept; settled = closed.settled }, (with_manager-keys m e).0)
        ]
