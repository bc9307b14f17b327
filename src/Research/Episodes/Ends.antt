-- ===== src/Research/Episodes/Ends.antt =====
-- Which episodes the calls that end many close, and what becomes of them.
use alpha_runtime_v.Base.{
  ℕ, ◌≡◌, refl, Bool, true, false, ◌&&◌, ◌||◌, none, some, List, [], ◌∷◌, if◌then◌else◌, arith, inl,
  inr, Bool-cases, Option-cases, is_some,
}
use alpha_runtime_v.Base.Dict.{Dict, lookup, lookup-erase, keys}
use alpha_runtime_v.Base.Lists.{filter, Any, Any-append_left, Any-append_right}
use alpha_runtime_v.Research.Texts.{Text, eq_text}
use alpha_runtime_v.Research.Model.{
  EpisodeBarRecord, EpisodeSummary, ActiveEpisode, EndReason, EpisodeKey, eq_key, eq_key_iff,
  key_eq, EpisodeManager,
}
use alpha_runtime_v.Research.Episodes.Closing.{
  close_summary, close_episode, close_all, clear_keys, of_session, on_session_end, on_gap,
  on_processing_error,
}

abbrev member_key : EpisodeKey → List EpisodeKey → Bool
member_key j [] = false
member_key j (k ∷ ks) = eq_key j k || member_key j ks

member_key-keys :
    {V : Type 0} (j : EpisodeKey) (d : Dict EpisodeKey V)
    → member_key j (keys d) ≡ is_some (lookup j d)
unfolding lookup
member_key-keys j [] = refl
member_key-keys j ((k, v) ∷ d) = ground (arith, member_key-keys j d)

member_key-filter :
    (p : EpisodeKey → Bool) (j : EpisodeKey) (ks : List EpisodeKey)
    → member_key j (filter p ks) ≡ p j && member_key j ks
member_key-filter p j [] = ground arith
member_key-filter p j (k ∷ ks) = ground (arith, eq_key_iff j k, member_key-filter p j ks)

pub close_episode-lookup :
    (j k : EpisodeKey) (ts : ℕ) (r : EndReason) (m : EpisodeManager)
    → lookup j (close_episode k ts r m).active ≡ (if eq_key j k then none else lookup j m.active)
unfolding close_episode
close_episode-lookup j k ts r m = ground (arith, eq_key_iff j k, lookup-erase j k m.active)

close_all-lookup :
    (j : EpisodeKey) (ks : List EpisodeKey) (ts : ℕ) (r : EndReason) (m : EpisodeManager)
    → lookup j (close_all ks ts r m).active ≡ (if member_key j ks then none else lookup j m.active)
unfolding close_all
close_all-lookup j [] ts r m = refl
close_all-lookup j (k ∷ ks) ts r m =
    ground
      (arith, close_all-lookup j ks ts r (close_episode k ts r m), close_episode-lookup j k ts r m)

-- Closing the episodes of the keys that a test admits.
close_filtered-lookup :
    (p : EpisodeKey → Bool) (j : EpisodeKey) (ts : ℕ) (r : EndReason) (m : EpisodeManager)
    → lookup j (close_all (filter p (keys m.active)) ts r m).active
      ≡ (if p j then none else lookup j m.active)
close_filtered-lookup p j ts r m = ground (
  arith,
  close_all-lookup j (filter p (keys m.active)) ts r m,
  member_key-filter p j (keys m.active),
  member_key-keys j m.active,
)

-- The callback's episodes only grow, and an episode that is closed is handed over.
close_episode-grows :
    (P : EpisodeSummary × List EpisodeBarRecord → Type 0) (k : EpisodeKey) (ts : ℕ) (r : EndReason)
    (m : EpisodeManager)
    → Any P m.completed
    → Any P (close_episode k ts r m).completed
unfolding close_episode
close_episode-grows P k ts r m h = elim (Option-cases (lookup k m.active)) [
  | inl e ↦ rw (e, close_episode) h
  | inr (a, e) ↦ rw (e, close_episode) (Any-append_left P m.completed _ h)
]

close_all-grows :
    (P : EpisodeSummary × List EpisodeBarRecord → Type 0) (ks : List EpisodeKey) (ts : ℕ)
    (r : EndReason) (m : EpisodeManager)
    → Any P m.completed
    → Any P (close_all ks ts r m).completed
unfolding close_all
close_all-grows P [] ts r m h = h
close_all-grows P (k ∷ ks) ts r m h =
    close_all-grows P ks ts r (close_episode k ts r m) (close_episode-grows P k ts r m h)

close_episode-hands :
    (k : EpisodeKey) (a : ActiveEpisode) (ts : ℕ) (r : EndReason) (m : EpisodeManager)
    → lookup k m.active ≡ some a
    → Any (λ c. c ≡ (close_summary a ts r, a.bar_records)) (close_episode k ts r m).completed
unfolding close_episode
close_episode-hands k a ts r m e =
    rw (e, close_episode) (Any-append_right _ m.completed _ (inl refl))

close_all-hands :
    (j : EpisodeKey) (a : ActiveEpisode) (ks : List EpisodeKey) (ts : ℕ) (r : EndReason)
    (m : EpisodeManager)
    → lookup j m.active ≡ some a
    → member_key j ks ≡ true
    → Any (λ c. c ≡ (close_summary a ts r, a.bar_records)) (close_all ks ts r m).completed
unfolding close_all
close_all-hands j a [] ts r m e h = absurd (cc h)
close_all-hands j a (k ∷ ks) ts r m e h = elim (Bool-cases (eq_key j k)) [
  | inl q ↦
      let same : j ≡ k = ground (arith, eq_key_iff j k, q) in
      close_all-grows _ ks ts r _ (close_episode-hands k a ts r m (rw same at e))
  | inr q ↦
      close_all-hands j a ks ts r _ (ground (arith, close_episode-lookup j k ts r m, e, q))
        (ground (arith, h, q))
]

clear_keys-active :
    (ks : List EpisodeKey) (m : EpisodeManager)
    → ((clear_keys ks m).active ≡ m.active) × ((clear_keys ks m).completed ≡ m.completed)
unfolding clear_keys
clear_keys-active [] m = (refl, refl)
clear_keys-active (k ∷ ks) m = clear_keys-active ks _

-- The end of a session closes exactly the episodes of that symbol and session.
pub on_session_end-lookup :
    (j : EpisodeKey) (symbol session_id : Text) (ts : ℕ) (m : EpisodeManager)
    → lookup j (on_session_end symbol session_id ts m).active
      ≡ (if of_session symbol session_id j then none else lookup j m.active)
unfolding on_session_end
on_session_end-lookup j symbol session_id ts m =
    rw ((clear_keys-active _ _).0)
      (close_filtered-lookup (of_session symbol session_id) j ts EndReason.session_ended m)

-- So does a gap, for the other reason.
pub on_gap-lookup :
    (j : EpisodeKey) (symbol session_id : Text) (ts : ℕ) (m : EpisodeManager)
    → lookup j (on_gap symbol session_id ts m).active
      ≡ (if of_session symbol session_id j then none else lookup j m.active)
unfolding on_gap
on_gap-lookup j symbol session_id ts m =
    close_filtered-lookup (of_session symbol session_id) j ts EndReason.gap_detected m

pub on_processing_error-lookup :
    (j : EpisodeKey) (symbol : Text) (ts : ℕ) (m : EpisodeManager)
    → lookup j (on_processing_error symbol ts m).active
      ≡ (if eq_text j.symbol symbol then none else lookup j m.active)
unfolding on_processing_error
on_processing_error-lookup j symbol ts m =
    close_filtered-lookup (λ k. eq_text k.symbol symbol) j ts EndReason.processing_error m

close_filtered-hands :
    (p : EpisodeKey → Bool) (j : EpisodeKey) (a : ActiveEpisode) (ts : ℕ) (r : EndReason)
    (m : EpisodeManager)
    → lookup j m.active ≡ some a
    → p j ≡ true
    → Any
        (λ c. c ≡ (close_summary a ts r, a.bar_records))
        (close_all (filter p (keys m.active)) ts r m).completed
close_filtered-hands p j a ts r m e h =
    close_all-hands j a (filter p (keys m.active)) ts r m e
      (ground (arith, member_key-filter p j (keys m.active), member_key-keys j m.active, e, h))

-- An episode that is open when its session ends is handed over, closed at that time for that reason,
-- with all its bars, and is open no longer.
pub on_session_end-hands :
    (j : EpisodeKey) (a : ActiveEpisode) (symbol session_id : Text) (ts : ℕ) (m : EpisodeManager)
    → lookup j m.active ≡ some a
    → of_session symbol session_id j ≡ true
    → (lookup j (on_session_end symbol session_id ts m).active ≡ none)
      × Any
          (λ c. c ≡ (close_summary a ts EndReason.session_ended, a.bar_records))
          (on_session_end symbol session_id ts m).completed
unfolding on_session_end
on_session_end-hands j a symbol session_id ts m e h = (
  ground (arith, on_session_end-lookup j symbol session_id ts m, h),
  rw ((clear_keys-active _ _).1)
      (close_filtered-hands (of_session symbol session_id) j a ts EndReason.session_ended m e h),
)
