-- ===== src/Research/Episodes/Sequence.antt =====
-- `_derive_close_sequence` of src/alpha/research/interaction/episode.py.
use alpha_runtime_v.Base.{
  ℕ, ◌+◌, max, Bool, false, not, ◌&&◌, Option, none, some, List, [], ◌∷◌, if◌then◌else◌,
}
use alpha_runtime_v.Research.Geometry.{Side, eq_side, is_at_level}

-- The variables of its loop.
pub record CloseSequence : Type 0 where
  pub flip_count : ℕ
  pub max_above : ℕ
  pub max_below : ℕ
  pub cur_above : ℕ
  pub cur_below : ℕ
  pub prev_side : Option Side

unfoldable pub is_flip : Option Side → Side → Bool
is_flip none s = false
is_flip (some p) s = not (eq_side s p) && not (is_at_level p) && not (is_at_level s)

unfoldable pub next_above : Side → ℕ → ℕ
next_above Side.above n = n + 1
next_above _ n = 0

unfoldable pub next_below : Side → ℕ → ℕ
next_below Side.below n = n + 1
next_below _ n = 0

unfoldable pub next_close : CloseSequence → Side → CloseSequence
next_close c s =
    let above : ℕ = next_above s c.cur_above in
    let below : ℕ = next_below s c.cur_below in
    record {
      flip_count = c.flip_count + (if is_flip c.prev_side s then 1 else 0);
      max_above = max c.max_above above;
      max_below = max c.max_below below;
      cur_above = above;
      cur_below = below;
      prev_side = some s;
    }

unfoldable pub close_loop : CloseSequence → List Side → CloseSequence
close_loop c [] = c
close_loop c (s ∷ sides) = close_loop (next_close c s) sides

abbrev pub no_closes : CloseSequence
no_closes = record {
  flip_count = 0;
  max_above = 0;
  max_below = 0;
  cur_above = 0;
  cur_below = 0;
  prev_side = none;
}

-- The loop over the closing sides of an episode's bars.
unfoldable pub derive_close_sequence : List Side → CloseSequence
derive_close_sequence = close_loop no_closes
