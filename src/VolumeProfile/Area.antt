-- ===== src/VolumeProfile/Area.antt =====
-- What the value area of a profile is.
use alpha_runtime_v.Base.{
  ℕ, zero, suc, ◌+◌, ◌≤◌, ◌<◌, ◌≡◌, refl, List, [], ◌∷◌, ◌++◌, arith, ap, ◌⊎◌, inr,
}
use alpha_runtime_v.Base.Int.{ℤ}
use alpha_runtime_v.Base.Lists.{length}
use alpha_runtime_v.VolumeProfile.{next_volume, Step, next_step, ValueArea, expand}

abbrev pub volumes : List (ℤ × ℕ) → ℕ
volumes [] = 0
volumes (l ∷ levels) = l.1 + volumes levels

abbrev last_level : ℤ → List (ℤ × ℕ) → ℤ
last_level b [] = b
last_level b (l ∷ levels) = last_level l.0 levels

-- The way of a value area: short of the target it takes the next level above, if that holds something and no
-- less than the next one below, or the next one below, if that holds more than the next above.
pub data Grows (target : ℕ) : ValueArea → List (ℤ × ℕ) → List (ℤ × ℕ) → ValueArea → Type 0 where
  done :
      (a : ValueArea) (below above : List (ℤ × ℕ))
      → (target ≤ a.va_volume) ⊎ (next_volume above ≡ 0 × next_volume below ≡ 0)
      → Grows target a below above a
  up :
      (a r : ValueArea) (below above : List (ℤ × ℕ)) (l : ℤ × ℕ)
      → a.va_volume < target
      → 0 < l.1
      → next_volume below ≤ l.1
      → Grows target (record a { vah = l.0; va_volume = a.va_volume + l.1 }) below above r
      → Grows target a below (l ∷ above) r
  down :
      (a r : ValueArea) (below above : List (ℤ × ℕ)) (l : ℤ × ℕ)
      → a.va_volume < target
      → next_volume above < l.1
      → Grows target (record a { val = l.0; va_volume = a.va_volume + l.1 }) below above r
      → Grows target a (l ∷ below) above r

-- Where a value area is grown from one with the levels below and above it, nearest first: it takes up some of each side's
-- nearest levels, its bounds are the last it took, its volume is theirs, it stops at the target or where the
-- next level on each side is missing or holds nothing, and it chose the side that holds more each time.
pub record IsGrown (target : ℕ) (a : ValueArea) (below above : List (ℤ × ℕ)) (r : ValueArea)
    : Type 0 where
  downs : List (ℤ × ℕ)
  ups : List (ℤ × ℕ)
  left_below : List (ℤ × ℕ)
  left_above : List (ℤ × ℕ)
  splits_below : below ≡ downs ++ left_below
  splits_above : above ≡ ups ++ left_above
  top : r.vah ≡ last_level a.vah ups
  bottom : r.val ≡ last_level a.val downs
  holds : r.va_volume ≡ a.va_volume + volumes ups + volumes downs
  ends : (target ≤ r.va_volume) ⊎ (next_volume left_above ≡ 0 × next_volume left_below ≡ 0)
  way : Grows target a below above r

stays :
    (target : ℕ) (a : ValueArea) (below above : List (ℤ × ℕ))
    → (target ≤ a.va_volume) ⊎ (next_volume above ≡ 0 × next_volume below ≡ 0)
    → IsGrown target a below above a
stays target a below above h = record {
  downs = [];
  ups = [];
  left_below = below;
  left_above = above;
  splits_below = refl;
  splits_above = refl;
  top = refl;
  bottom = refl;
  holds = omega arith;
  ends = h;
  way = Grows.done a below above h;
}

goes_up :
    (target : ℕ) (a r : ValueArea) (below above : List (ℤ × ℕ)) (l : ℤ × ℕ)
    → a.va_volume < target
    → 0 < l.1
    → next_volume below ≤ l.1
    → IsGrown target (record a { vah = l.0; va_volume = a.va_volume + l.1 }) below above r
    → IsGrown target a below (l ∷ above) r
goes_up target a r below above l v p c g = record {
  downs = g.downs;
  ups = l ∷ g.ups;
  left_below = g.left_below;
  left_above = g.left_above;
  splits_below = g.splits_below;
  splits_above = ap (λ ls. l ∷ ls) g.splits_above;
  top = g.top;
  bottom = g.bottom;
  holds = omega (arith, g.holds);
  ends = g.ends;
  way = Grows.up a r below above l v p c g.way;
}

goes_down :
    (target : ℕ) (a r : ValueArea) (below above : List (ℤ × ℕ)) (l : ℤ × ℕ)
    → a.va_volume < target
    → next_volume above < l.1
    → IsGrown target (record a { val = l.0; va_volume = a.va_volume + l.1 }) below above r
    → IsGrown target a (l ∷ below) above r
goes_down target a r below above l v c g = record {
  downs = l ∷ g.downs;
  ups = g.ups;
  left_below = g.left_below;
  left_above = g.left_above;
  splits_below = ap (λ ls. l ∷ ls) g.splits_below;
  splits_above = g.splits_above;
  top = g.top;
  bottom = g.bottom;
  holds = omega (arith, g.holds);
  ends = g.ends;
  way = Grows.down a r below above l v c g.way;
}

-- What a step says of the volumes.
Chooses : ℕ → ℕ → List (ℤ × ℕ) → List (ℤ × ℕ) → Step → Type 0
Chooses target va below above Step.stop =
    (target ≤ va) ⊎ (next_volume above ≡ 0 × next_volume below ≡ 0)
Chooses target va below above Step.up =
    (va < target) × (0 < next_volume above) × (next_volume below ≤ next_volume above)
Chooses target va below above Step.down = (va < target) × (next_volume above < next_volume below)

next_step-Chooses :
    (target va : ℕ) (below above : List (ℤ × ℕ))
    → Chooses target va below above (next_step target va below above)
unfolding next_step Chooses
next_step-Chooses target va below above = ground arith

expand_after :
    (n target : ℕ) (a : ValueArea) (below above : List (ℤ × ℕ)) (s : Step)
    → ((b : ValueArea) (ds us : List (ℤ × ℕ))
        → length ds + length us ≤ n
        → IsGrown target b ds us (expand n target b ds us))
    → next_step target a.va_volume below above ≡ s
    → Chooses target a.va_volume below above s
    → length below + length above ≤ suc n
    → IsGrown target a below above (expand (suc n) target a below above)
unfolding expand Chooses
expand_after n target a below above Step.stop ih e c h =
    rw (e, expand) (stays target a below above c)
expand_after n target a below [] Step.up ih e c h = ground (arith, c)
expand_after n target a below (l ∷ above) Step.up ih e c h =
    rw (e, expand)
      (goes_up target a _ below above l c.0 c.1 c.2 (ih _ below above (omega (arith, h))))
expand_after n target a [] above Step.down ih e c h = ground (arith, c)
expand_after n target a (l ∷ below) above Step.down ih e c h =
    rw (e, expand)
      (goes_down target a _ below above l c.0 c.1 (ih _ below above (omega (arith, h))))

pub expand-IsGrown :
    (n target : ℕ) (a : ValueArea) (below above : List (ℤ × ℕ))
    → length below + length above ≤ n
    → IsGrown target a below above (expand n target a below above)
unfolding expand
expand-IsGrown zero target a [] [] h = stays target a [] [] (inr (refl, refl))
expand-IsGrown zero target a (l ∷ below) above h = ground (arith, h)
expand-IsGrown zero target a [] (l ∷ above) h = ground (arith, h)
expand-IsGrown (suc n) target a below above h =
    expand_after n target a below above (next_step target a.va_volume below above)
      (expand-IsGrown n target) refl (next_step-Chooses target a.va_volume below above) h
