-- ===== src/Execution/Risk/Rounding.antt =====
-- The rounding of a price to the tick grid in v1_risk.py.
use alpha_runtime_v.Base.{
  ℕ, suc, zero, ◌+◌, ◌*◌, ◌≤◌, ◌<◌, ◌≡◌, refl, some, none, arith, ◌==◌, if◌then◌else◌,
}
use native.Mathlib.Nat.{div-add-mod, mod-lt, mul_comm, mul-div_cancel, mul-mod_left}
use alpha_runtime_v.Base.Int.{ℤ, pos, negsuc, ◌*ℤ◌, ◌-ℤ◌, neg, -ℤ_parts, neg_parts}
use alpha_runtime_v.Execution.Models.{Decimal}
use alpha_runtime_v.Execution.Risk.Pricing.{half_even, round_to_tick, size}

-- Half a divisor at most lies between a number and its rounding.
half_even_bounds :
    (n d : ℕ)
    → 0 < d
    → (2 * n ≤ 2 * (d * half_even n d) + d) × (2 * (d * half_even n d) ≤ 2 * n + d)
unfolding half_even
half_even_bounds n d h = grind (arith, div-add-mod n d, mod-lt n h)

half_even_exact : (q d : ℕ) → 0 < d → half_even (q * d) d ≡ q
unfolding half_even
half_even_exact q d h = ground (arith, mul-mod_left q d, mul-div_cancel q h)

pos-* : (k t : ℕ) → pos k *ℤ pos t ≡ pos (k * t)
unfolding ◌*ℤ◌
pos-* k t = ground arith

neg-* : (k t : ℕ) → neg (pos k) *ℤ pos t ≡ neg (pos (k * t))
unfolding ◌*ℤ◌ neg
neg-* zero t = ground arith
neg-* (suc k) zero = ground arith
neg-* (suc k) (suc t) = ground arith

-- A rounded price: on the grid, and at most half a tick from the price.
pub record IsRounded (price : Decimal) (tick : ℕ) (rounded : Decimal) : Type 0 where
  pub ticks : ℤ
  pub on_grid : rounded ≡ ticks *ℤ pos tick
  pub near : 2 * size (price -ℤ rounded) ≤ tick

near_pos : (n t : ℕ) → 0 < t → 2 * size (pos n -ℤ pos (half_even n t) *ℤ pos t) ≤ t
near_pos n t h = rw (pos-*) (
    ground (
      arith,
      half_even_bounds n t h,
      mul_comm t (half_even n t),
      -ℤ_parts (pos n) (pos (half_even n t * t)),
    ))

near_neg : (n t : ℕ) → 0 < t → 2 * size (negsuc n -ℤ neg (pos (half_even (suc n) t)) *ℤ pos t) ≤ t
near_neg n t h = rw neg-* (
    ground (
      arith,
      half_even_bounds (suc n) t h,
      mul_comm t (half_even (suc n) t),
      -ℤ_parts (negsuc n) (neg (pos (half_even (suc n) t * t))),
      neg_parts (pos (half_even (suc n) t * t)),
    ))

rounded_some : (t : ℕ) (r : Decimal) → 0 < t → (if t == 0 then none else some r) ≡ some r
rounded_some t r h = ground arith

-- On a tick size that is not 0 the rounding returns a price, which lies on the tick grid and at most
-- half a tick from the price that it was given.
pub round_to_tick-IsRounded :
    (price tick : Decimal)
    → 0 < size tick
    → (rounded : Decimal) × (round_to_tick price tick ≡ some rounded)
      × IsRounded price (size tick) rounded
unfolding round_to_tick
round_to_tick-IsRounded (pos n) tick h = (
  pos (half_even n (size tick)) *ℤ pos (size tick),
  rounded_some (size tick) _ h,
  record { ticks = pos (half_even n (size tick)); on_grid = refl; near = near_pos n (size tick) h },
)
round_to_tick-IsRounded (negsuc n) tick h = (
  neg (pos (half_even (suc n) (size tick))) *ℤ pos (size tick),
  rounded_some (size tick) _ h,
  record {
    ticks = neg (pos (half_even (suc n) (size tick)));
    on_grid = refl;
    near = near_neg n (size tick) h;
  },
)

-- A price on the tick grid is returned as it is.
pub round_to_tick-on_grid :
    (k : ℕ) (tick : Decimal)
    → 0 < size tick
    → round_to_tick (pos (k * size tick)) tick ≡ some (pos (k * size tick))
unfolding round_to_tick
round_to_tick-on_grid k tick h =
    rw (half_even_exact k (size tick) h, pos-*) (rounded_some (size tick) _ h)
