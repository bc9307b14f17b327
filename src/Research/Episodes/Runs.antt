-- ===== src/Research/Episodes/Runs.antt =====
-- The loop over an episode's closes against plain definitions of what it counts.
use alpha_runtime_v.Base.{
  ℕ, suc, ◌+◌, ◌≤◌, max, ◌≡◌, Bool, true, false, some, List, [], ◌∷◌, if◌then◌else◌, arith, refl,
}
use alpha_runtime_v.Research.Geometry.{Side, eq_side}
use alpha_runtime_v.Research.Episodes.Sequence.{
  CloseSequence, is_flip, next_above, next_below, next_close, close_loop, no_closes,
  derive_close_sequence,
}

-- How many sides in a row, from the first on, are `s`.
unfoldable pub leading : Side → List Side → ℕ
leading s [] = 0
leading s (t ∷ sides) = let rest = leading s sides in if eq_side t s then suc rest else 0

-- The longest stretch of `s`, over all places where it could start.
unfoldable pub longest : Side → List Side → ℕ
longest s [] = 0
longest s (t ∷ sides) = max (leading s (t ∷ sides)) (longest s sides)

abbrev pub opposite : Side → Side → Bool
opposite Side.above Side.below = true
opposite Side.below Side.above = true
opposite _ _ = false

-- The neighbours that lie on opposite sides.
unfoldable pub flips : List Side → ℕ
flips [] = 0
flips (s ∷ []) = 0
flips (s ∷ t ∷ sides) = (if opposite s t then 1 else 0) + flips (t ∷ sides)

flip_opposite : (s t : Side) → is_flip (some s) t ≡ opposite s t
unfolding is_flip
flip_opposite s t = ground arith

loop_flips :
    (c : CloseSequence) (s : Side) (sides : List Side)
    → c.prev_side ≡ some s
    → (close_loop c sides).flip_count ≡ c.flip_count + flips (s ∷ sides)
unfolding close_loop next_close flips
loop_flips c s [] e = ground arith
loop_flips c s (t ∷ sides) e =
    ground (arith, e, flip_opposite s t, loop_flips (next_close c t) t sides refl)

leading-longest : (s : Side) (sides : List Side) → leading s sides ≤ longest s sides
unfolding leading longest
leading-longest s [] = omega arith
leading-longest s (t ∷ sides) = ground arith

loop_above :
    (c : CloseSequence) (sides : List Side)
    → c.cur_above ≤ c.max_above
    → (close_loop c sides).max_above
      ≡ max c.max_above (max (c.cur_above + leading Side.above sides) (longest Side.above sides))
unfolding close_loop next_close next_above leading longest
loop_above c [] h = ground arith
loop_above c (t ∷ sides) h =
    ground (arith, loop_above (next_close c t) sides, leading-longest Side.above sides)

loop_below :
    (c : CloseSequence) (sides : List Side)
    → c.cur_below ≤ c.max_below
    → (close_loop c sides).max_below
      ≡ max c.max_below (max (c.cur_below + leading Side.below sides) (longest Side.below sides))
unfolding close_loop next_close next_below leading longest
loop_below c [] h = ground arith
loop_below c (t ∷ sides) h =
    ground (arith, loop_below (next_close c t) sides, leading-longest Side.below sides)

first_flips : (sides : List Side) → (derive_close_sequence sides).flip_count ≡ flips sides
unfolding derive_close_sequence close_loop next_close is_flip flips
first_flips [] = refl
first_flips (s ∷ sides) = ground (arith, loop_flips (next_close no_closes s) s sides refl)

-- The flips of an episode are the direct neighbours of closes that lie above and below, so that a close on the
-- level between two sides makes no flip, and its two runs are the longest stretches of closes above and below.
pub derive_close_sequence_lem :
    (sides : List Side)
    → ((derive_close_sequence sides).flip_count ≡ flips sides)
      × ((derive_close_sequence sides).max_above ≡ longest Side.above sides)
      × ((derive_close_sequence sides).max_below ≡ longest Side.below sides)
unfolding derive_close_sequence
derive_close_sequence_lem sides = (
  first_flips sides,
  ground (arith, loop_above no_closes sides, leading-longest Side.above sides),
  ground (arith, loop_below no_closes sides, leading-longest Side.below sides),
)
