-- ===== src/Research/Geometry/Laws.antt =====
-- What the geometry of a bar says of its prices.
use native.Mathlib.Nat.{
  div-add-mod, mod-lt, div-zero, div-eq_of_lt, zero-div, le-div_iff_mul-le, div-mul-le_self,
}
use alpha_runtime_v.Base.{
  ℕ, zero, suc, ◌+◌, ◌*◌, ◌/◌, ◌≤◌, ◌<◌, ◌≡◌, ◌≢◌, Bool, true, false, Option, some, arith,
}
use alpha_runtime_v.Base.Int.{ℤ, pos, negsuc, ◌-ℤ◌, ◌≤ℤ◌, neg_parts, int_laws, abs, pos_part}
use alpha_runtime_v.Execution.Models.{Decimal}
use alpha_runtime_v.Research.Geometry.{
  Side, BarLevelGeometry, ticks_of, half_up, half_up_ℕ, toward_zero, tick_distance, side,
  proximity_band, geometry_of, compute_geometry,
}

div_mono : (a b d : ℕ) → a ≤ b → a / d ≤ b / d
div_mono a b zero h = ground (arith, div-zero a, div-zero b)
div_mono a b (suc d) h = ground (
  arith,
  le-div_iff_mul-le {k = suc d} {x = a / suc d} {y = b} (omega arith),
  div-mul-le_self a (suc d),
)

half_up_ℕ_mono : (a b d : ℕ) → a ≤ b → half_up_ℕ a d ≤ half_up_ℕ b d
unfolding half_up_ℕ
half_up_ℕ_mono a b d h = div_mono (2 * a + d) (2 * b + d) (2 * d) (omega (arith, h))

half_up_ℕ_near :
    (n d : ℕ)
    → 0 < d
    → (2 * n ≤ 2 * (d * half_up_ℕ n d) + d) × (2 * (d * half_up_ℕ n d) ≤ 2 * n + d)
unfolding half_up_ℕ
half_up_ℕ_near n d h =
    grind
      (arith, div-add-mod (2 * n + d) (2 * d), mod-lt (2 * n + d) {m = 2 * d} (omega (arith, h)))

half_up_mono : (a b : ℤ) (d : ℕ) → a ≤ℤ b → half_up a d ≤ℤ half_up b d
unfolding half_up
half_up_mono (pos n) (pos m) d h = ground (arith, half_up_ℕ_mono n m d)
half_up_mono (pos n) (negsuc m) d h = ground arith
half_up_mono (negsuc n) (pos m) d h = omega (arith, neg_parts (pos (half_up_ℕ (suc n) d)))
half_up_mono (negsuc n) (negsuc m) d h = ground (
  arith,
  neg_parts (pos (half_up_ℕ (suc n) d)),
  neg_parts (pos (half_up_ℕ (suc m) d)),
  half_up_ℕ_mono (suc m) (suc n) d,
)

pub toward_zero_mono : (a b : ℤ) (d : ℕ) → a ≤ℤ b → toward_zero a d ≤ℤ toward_zero b d
unfolding toward_zero
toward_zero_mono (pos n) (pos m) d h = ground (arith, div_mono n m d)
toward_zero_mono (pos n) (negsuc m) d h = ground arith
toward_zero_mono (negsuc n) (pos m) d h = omega (arith, neg_parts (pos (suc n / d)))
toward_zero_mono (negsuc n) (negsuc m) d h =
    ground
      (arith, neg_parts (pos (suc n / d)), neg_parts (pos (suc m / d)), div_mono (suc m) (suc n) d)

ticks_of_mono : (vwap : Bool) (a b : ℤ) (d : ℕ) → a ≤ℤ b → ticks_of vwap a d ≤ℤ ticks_of vwap b d
unfolding ticks_of
ticks_of_mono true a b d h = half_up_mono a b d h
ticks_of_mono false a b d h = toward_zero_mono a b d h

ticks_of_price_mono :
    (vwap : Bool) (p q level : Decimal) (d : ℕ)
    → p ≤ℤ q
    → ticks_of vwap (p -ℤ level) d ≤ℤ ticks_of vwap (q -ℤ level) d
ticks_of_price_mono vwap p q level d h =
    ticks_of_mono vwap (p -ℤ level) (q -ℤ level) d (omega (int_laws, h))

ticks_of_zero : (vwap : Bool) (d : ℕ) → 0 < d → ticks_of vwap (pos 0) d ≡ pos 0
unfolding ticks_of half_up half_up_ℕ toward_zero
ticks_of_zero true d h = ground (arith, div-eq_of_lt {n = 2 * 0 + d} {m = 2 * d} (omega (arith, h)))
ticks_of_zero false d h = ground (arith, zero-div d)

pub geometry_some :
    (o h l c level : Decimal) (tick : ℕ) (atr : Option Decimal) (vwap : Bool)
    → 0 < tick
    → compute_geometry o h l c level tick atr vwap
      ≡ some (
          geometry_of
            (ticks_of vwap (o -ℤ level) tick)
            (ticks_of vwap (h -ℤ level) tick)
            (ticks_of vwap (l -ℤ level) tick)
            (ticks_of vwap (c -ℤ level) tick)
            (proximity_band atr tick))
unfolding compute_geometry tick_distance
geometry_some o h l c level tick atr vwap z = ground arith

-- The distances of a bar's prices are ordered as the prices are, and the band is at least one tick.
pub record IsOrdered (g : BarLevelGeometry) : Type 0 where
  pub low_open : g.low_distance_ticks ≤ℤ g.open_distance_ticks
  pub open_high : g.open_distance_ticks ≤ℤ g.high_distance_ticks
  pub low_close : g.low_distance_ticks ≤ℤ g.close_distance_ticks
  pub close_high : g.close_distance_ticks ≤ℤ g.high_distance_ticks
  pub band : pos 1 ≤ℤ g.proximity_band_ticks

band_positive : (atr : Option Decimal) (tick : ℕ) → pos 1 ≤ℤ proximity_band atr tick
unfolding proximity_band
band_positive atr tick = ground arith

-- On a tick size that is not 0 the geometry is computed, and the distances of a bar whose low and high
-- enclose its open and close are ordered as the prices are, whatever the kind of level.
pub compute_geometry-IsOrdered :
    (o h l c level : Decimal) (tick : ℕ) (atr : Option Decimal) (vwap : Bool)
    → 0 < tick
    → l ≤ℤ o
    → o ≤ℤ h
    → l ≤ℤ c
    → c ≤ℤ h
    → (g : BarLevelGeometry) × (compute_geometry o h l c level tick atr vwap ≡ some g) × IsOrdered g
unfolding geometry_of
compute_geometry-IsOrdered o h l c level tick atr vwap z lo oh lc ch = (
  _,
  geometry_some o h l c level tick atr vwap z,
  record {
    low_open = ticks_of_price_mono vwap l o level tick lo;
    open_high = ticks_of_price_mono vwap o h level tick oh;
    low_close = ticks_of_price_mono vwap l c level tick lc;
    close_high = ticks_of_price_mono vwap c h level tick ch;
    band = band_positive atr tick;
  },
)

-- A bar whose range holds the level spans it in ticks, whatever the kind of level.
pub touched-spans :
    (o h l c level : Decimal) (tick : ℕ) (atr : Option Decimal) (vwap : Bool)
    → 0 < tick
    → l ≤ℤ level
    → level ≤ℤ h
    → (g : BarLevelGeometry) × (compute_geometry o h l c level tick atr vwap ≡ some g)
      × (g.range_spans_level ≡ true)
unfolding geometry_of
touched-spans o h l c level tick atr vwap z ll lh = (
  _,
  geometry_some o h l c level tick atr vwap z,
  ground (
    arith,
    ticks_of_zero vwap tick z,
    ticks_of_mono vwap (l -ℤ level) (pos 0) tick (omega (int_laws, ll)),
    ticks_of_mono vwap (pos 0) (h -ℤ level) tick (omega (int_laws, lh)),
  ),
)

-- A bar that spans the level, and opens and closes off it on one side, counts as crossed.
pub crossed_same_side :
    (o h l c band : ℤ) (s : Side)
    → l ≤ℤ pos 0
    → pos 0 ≤ℤ h
    → side o ≡ s
    → side c ≡ s
    → s ≢ Side.at_level
    → ((geometry_of o h l c band).crossed_within_bar ≡ true)
      × ((geometry_of o h l c band).close_side ≡ (geometry_of o h l c band).open_side)
unfolding geometry_of
crossed_same_side o h l c band s ll lh e f n = ground (arith, e, f)

-- The distance of a VWAP is at most half a tick off the exact quotient, away from 0 or not.
pub half_up_near :
    (raw : ℤ) (tick : ℕ)
    → 0 < tick
    → (2 * pos_part (abs raw) ≤ 2 * (tick * pos_part (abs (half_up raw tick))) + tick)
      × (2 * (tick * pos_part (abs (half_up raw tick))) ≤ 2 * pos_part (abs raw) + tick)
unfolding half_up
half_up_near (pos n) tick h = ground (arith, half_up_ℕ_near n tick h)
half_up_near (negsuc n) tick h =
    ground (arith, half_up_ℕ_near (suc n) tick h, neg_parts (pos (half_up_ℕ (suc n) tick)))
