-- ===== src/Research/Episodes/Records.antt =====
-- What an episode's summary says of its bar records.
use mathlib.Core.List.{append-nil, append_assoc}
use alpha_runtime_v.Base.{
  ℕ, suc, ◌+◌, ◌≡◌, refl, Bool, true, false, Option, none, some, List, [], ◌∷◌, ◌++◌, arith, inl,
  inr, sym, ◌⊎◌, Bool-cases,
}
use alpha_runtime_v.Base.Int.{ℤ, neg, ◌≤ℤ◌, ltb_ℤ}
use alpha_runtime_v.Base.Lists.{
  length, filter, All, All-append, All-map, Any, Any-append_left, Any-append_right, length-append,
  length-filter_append,
}
use alpha_runtime_v.Research.Geometry.{Side, BarLevelGeometry, eq_side, max_ℤ, min_ℤ}
use alpha_runtime_v.Research.Model.{
  EpisodeBarRecord, EpisodeSummary, ActiveEpisode, InteractionFrame, LevelSnapshot,
}
use alpha_runtime_v.Research.Episodes.{continue_episode, separated_side, count_separation, separate}
use alpha_runtime_v.Research.Opening.{bar_record}

-- Each record's `bar_seq` is its place.
abbrev pub Numbered : ℕ → List EpisodeBarRecord → Type 0
Numbered n [] = Unit
Numbered n (b ∷ bars) = (b.bar_seq ≡ n) × Numbered (suc n) bars

abbrev pub last_side : List EpisodeBarRecord → Option Side
last_side [] = none
last_side (b ∷ []) = some b.close_side
last_side (b ∷ c ∷ bars) = last_side (c ∷ bars)

-- The counts of a summary are those of the records, its extremes bound the records' and are reached,
-- its end side is the last record's, and the records are its own, numbered from 0.
pub record IsAggregate (s : EpisodeSummary) (bars : List EpisodeBarRecord) : Type 0 where
  pub counted : s.bar_count ≡ length bars
  pub spanned : s.range_span_count ≡ length (filter (λ b. b.range_spans_level) bars)
  pub highest : All (λ b. b.high_distance_ticks ≤ℤ s.max_above_ticks) bars
  pub highest_reached : Any (λ b. b.high_distance_ticks ≡ s.max_above_ticks) bars
  pub lowest : All (λ b. s.max_below_ticks ≤ℤ b.low_distance_ticks) bars
  pub lowest_reached : Any (λ b. b.low_distance_ticks ≡ s.max_below_ticks) bars
  pub ends : last_side bars ≡ some s.end_side
  pub own : All (λ b. b.episode_id ≡ s.episode_id) bars
  pub numbered : Numbered 0 bars

Numbered-snoc :
    (n : ℕ) (bars : List EpisodeBarRecord) (b : EpisodeBarRecord)
    → Numbered n bars
    → b.bar_seq ≡ n + length bars
    → Numbered n (bars ++ b ∷ [])
Numbered-snoc n [] b h e = (omega (arith, e), tt)
Numbered-snoc n (c ∷ bars) b h e = (h.0, Numbered-snoc (suc n) bars b h.1 (omega (arith, e)))

last_side-snoc :
    (bars : List EpisodeBarRecord) (b : EpisodeBarRecord)
    → last_side (bars ++ b ∷ []) ≡ some b.close_side
last_side-snoc [] b = refl
last_side-snoc (c ∷ []) b = refl
last_side-snoc (c ∷ d ∷ bars) b = last_side-snoc (d ∷ bars) b

module _ {A : Type 0} where
  All-snoc : (P : A → Type 0) (xs : List A) (y : A) → All P xs → P y → All P (xs ++ y ∷ [])
  All-snoc P xs y h p = All-append P xs (y ∷ []) h (p, tt)

-- The greater of a bound that is reached and a new value bounds, and is reached.
highest_snoc :
    (m : ℤ) (bars : List EpisodeBarRecord) (b : EpisodeBarRecord)
    → All (λ c. c.high_distance_ticks ≤ℤ m) bars
    → Any (λ c. c.high_distance_ticks ≡ m) bars
    → All (λ c. c.high_distance_ticks ≤ℤ max_ℤ m b.high_distance_ticks) (bars ++ b ∷ [])
      × Any (λ c. c.high_distance_ticks ≡ max_ℤ m b.high_distance_ticks) (bars ++ b ∷ [])
highest_snoc m bars b h k = elim (Bool-cases (ltb_ℤ m b.high_distance_ticks)) [
  | inl e ↦ rw e (
    All-snoc _ bars b (All-map _ _ (λ c g. ground (arith, g, e)) bars h) (omega arith),
    Any-append_right _ bars (b ∷ []) (inl refl),
  )
  | inr e ↦ rw e (All-snoc _ bars b h (ground (arith, e)), Any-append_left _ bars (b ∷ []) k)
]

lowest_snoc :
    (m : ℤ) (bars : List EpisodeBarRecord) (b : EpisodeBarRecord)
    → All (λ c. m ≤ℤ c.low_distance_ticks) bars
    → Any (λ c. c.low_distance_ticks ≡ m) bars
    → All (λ c. min_ℤ m b.low_distance_ticks ≤ℤ c.low_distance_ticks) (bars ++ b ∷ [])
      × Any (λ c. c.low_distance_ticks ≡ min_ℤ m b.low_distance_ticks) (bars ++ b ∷ [])
lowest_snoc m bars b h k = elim (Bool-cases (ltb_ℤ b.low_distance_ticks m)) [
  | inl e ↦ rw e (
    All-snoc _ bars b (All-map _ _ (λ c g. ground (arith, g, e)) bars h) (omega arith),
    Any-append_right _ bars (b ∷ []) (inl refl),
  )
  | inr e ↦ rw e (All-snoc _ bars b h (ground (arith, e)), Any-append_left _ bars (b ∷ []) k)
]

-- A bar that continues an episode keeps its summary right.
pub continue_episode-IsAggregate :
    (frame : InteractionFrame) (level : LevelSnapshot) (geo : BarLevelGeometry) (prox sep : ℤ)
    (a : ActiveEpisode)
    → IsAggregate a.summary a.bar_records
    → IsAggregate
        (continue_episode frame level geo prox sep a).summary
        (continue_episode frame level geo prox sep a).bar_records
unfolding continue_episode bar_record
continue_episode-IsAggregate frame level geo prox sep a h =
    let b : EpisodeBarRecord =
      bar_record a.summary.episode_id (length a.bar_records) a.summary.symbol a.summary.session_id
        frame level geo prox sep in
    record {
      counted = ground (arith, h.counted, length-append a.bar_records (b ∷ []));
      spanned = ground (
        arith,
        h.spanned,
        length-filter_append (λ c. c.range_spans_level) a.bar_records (b ∷ []),
      );
      highest =
          (highest_snoc a.summary.max_above_ticks a.bar_records b h.highest h.highest_reached).0;
      highest_reached =
          (highest_snoc a.summary.max_above_ticks a.bar_records b h.highest h.highest_reached).1;
      lowest = (lowest_snoc a.summary.max_below_ticks a.bar_records b h.lowest h.lowest_reached).0;
      lowest_reached =
          (lowest_snoc a.summary.max_below_ticks a.bar_records b h.lowest h.lowest_reached).1;
      ends = last_side-snoc a.bar_records b;
      own = All-snoc _ a.bar_records b h.own refl;
      numbered = Numbered-snoc 0 a.bar_records b h.numbered (omega arith);
    }

-- Whether a recorded bar lies on a side of the level with its whole range beyond the threshold.
unfoldable pub is_apart : Option Side → EpisodeBarRecord → Bool
is_apart (some Side.above) b = ltb_ℤ b.separation_ticks b.low_distance_ticks
is_apart (some Side.below) b = ltb_ℤ b.high_distance_ticks (neg b.separation_ticks)
is_apart _ b = false

-- The last `n` bars are apart on the given side.
pub record IsTrailing (n : ℕ) (dir : Option Side) (bars : List EpisodeBarRecord) : Type 0 where
  pub before : List EpisodeBarRecord
  pub run : List EpisodeBarRecord
  pub split : bars ≡ before ++ run
  pub counted : length run ≡ n
  pub apart : All (λ b. is_apart dir b ≡ true) run

pub nothing_trails : (dir : Option Side) (bars : List EpisodeBarRecord) → IsTrailing 0 dir bars
nothing_trails dir bars = record {
  before = bars;
  run = [];
  split = sym (append-nil bars);
  counted = refl;
  apart = tt;
}

one_trails :
    (dir : Option Side) (bars : List EpisodeBarRecord) (b : EpisodeBarRecord)
    → is_apart dir b ≡ true
    → IsTrailing 1 dir (bars ++ b ∷ [])
one_trails dir bars b e = record {
  before = bars;
  run = b ∷ [];
  split = refl;
  counted = refl;
  apart = (e, tt);
}

one_more_trails :
    (n : ℕ) (dir : Option Side) (bars : List EpisodeBarRecord) (b : EpisodeBarRecord)
    → IsTrailing n dir bars
    → is_apart dir b ≡ true
    → IsTrailing (suc n) dir (bars ++ b ∷ [])
one_more_trails n dir bars b h e = record {
  before = h.before;
  run = h.run ++ b ∷ [];
  split = simp (h.split, append_assoc);
  counted = omega (arith, h.counted, length-append h.run (b ∷ []));
  apart = All-snoc _ h.run b h.apart e;
}

eq_side_sound : (d e : Side) → eq_side d e ≡ true → d ≡ e
eq_side_sound d e h = ground (arith, h)

counted_trails :
    (this old : Option Side) (n : ℕ) (bars : List EpisodeBarRecord) (b : EpisodeBarRecord)
    → IsTrailing n old bars
    → (this ≡ none) ⊎ (is_apart this b ≡ true)
    → IsTrailing (count_separation this n old).0 (count_separation this n old).1 (bars ++ b ∷ [])
unfolding count_separation
counted_trails none old n bars b h e = nothing_trails none (bars ++ b ∷ [])
counted_trails (some d) old n bars b h (inl e) = absurd (cc e)
counted_trails (some d) none n bars b h (inr e) = one_trails (some d) bars b e
counted_trails (some d) (some c) n bars b h (inr e) = elim (Bool-cases (eq_side d c)) [
  | inl q ↦ rw q (one_more_trails n (some c) bars b h (rw (eq_side_sound d c q) at e))
  | inr q ↦ rw q (one_trails (some d) bars b e)
]

-- The counter of a bar that continues an episode counts the last bars on one side.
pub separate-IsTrailing :
    (frame : InteractionFrame) (level : LevelSnapshot) (geo : BarLevelGeometry) (prox sep : ℤ)
    (a : ActiveEpisode)
    → IsTrailing a.bars_at_separation a.separation_direction a.bar_records
    → IsTrailing
        (separate
          (separated_side sep geo)
          (continue_episode frame level geo prox sep a)).bars_at_separation
        (separate
          (separated_side sep geo)
          (continue_episode frame level geo prox sep a)).separation_direction
        (continue_episode frame level geo prox sep a).bar_records
unfolding continue_episode separated_side bar_record is_apart
separate-IsTrailing frame level geo prox sep a h =
    counted_trails (separated_side sep geo) a.separation_direction a.bars_at_separation
      a.bar_records _ h (ground arith)
