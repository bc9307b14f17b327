-- ===== src/Research/Geometry.antt =====
-- src/alpha/research/interaction/geometry.py: where a bar lies to a level, in ticks. Prices and
-- levels are multiples of any fixed unit, a tick size is a number of that unit, and a quotient of
-- them is exact, where Python's `Decimal` keeps 28 digits. A division by 0 raises, which is `none`.
pub mod Laws
use alpha_runtime_v.Base.{
  ℕ, zero, suc, ◌+◌, ◌*◌, ◌/◌, max, ◌==◌, ◌≡◌, Bool, true, false, not, ◌&&◌, Option, none, some,
  if◌then◌else◌, ◌>>=◌,
}
use alpha_runtime_v.Base.Int.{ℤ, pos, negsuc, ◌-ℤ◌, neg, leb_ℤ, ltb_ℤ}
use alpha_runtime_v.Execution.Models.{Decimal}

-- "above", "below" and "on".
pub data Side : Type 0 where
  above below at_level : Side

abbrev pub is_at_level : Side → Bool
is_at_level Side.at_level = true
is_at_level _ = false

abbrev pub eq_side : Side → Side → Bool
eq_side Side.above Side.above = true
eq_side Side.below Side.below = true
eq_side Side.at_level Side.at_level = true
eq_side _ _ = false

pub record BarLevelGeometry : Type 0 where
  pub open_distance_ticks : ℤ
  pub high_distance_ticks : ℤ
  pub low_distance_ticks : ℤ
  pub close_distance_ticks : ℤ
  pub open_side : Side
  pub close_side : Side
  pub range_spans_level : Bool
  pub crossed_within_bar : Bool
  pub proximity_band_ticks : ℤ

-- The quotient of two numbers, rounded with halves upwards.
unfoldable pub half_up_ℕ : ℕ → ℕ → ℕ
half_up_ℕ n d = (2 * n + d) / (2 * d)

-- `int((n / d).to_integral_value(rounding=ROUND_HALF_UP))`: halves go away from 0.
unfoldable pub half_up : ℤ → ℕ → ℤ
half_up (pos n) d = pos (half_up_ℕ n d)
half_up (negsuc n) d = neg (pos (half_up_ℕ (suc n) d))

-- `int(n / d)` goes towards 0.
unfoldable pub toward_zero : ℤ → ℕ → ℤ
toward_zero (pos n) d = pos (n / d)
toward_zero (negsuc n) d = neg (pos (suc n / d))

-- The distance in ticks of a raw distance: the level of a VWAP is not on the tick grid.
unfoldable pub ticks_of : Bool → ℤ → ℕ → ℤ
ticks_of vwap raw tick_size = if vwap then half_up raw tick_size else toward_zero raw tick_size

-- `_tick_distance`
unfoldable pub tick_distance : Decimal → Decimal → ℕ → Bool → Option ℤ
tick_distance price level tick_size vwap =
    if tick_size == 0 then none else some (ticks_of vwap (price -ℤ level) tick_size)

-- `_side`
unfoldable pub side : ℤ → Side
side d =
    if ltb_ℤ (pos 0) d then Side.above else if ltb_ℤ d (pos 0) then Side.below else Side.at_level

abbrev pub max_ℤ : ℤ → ℤ → ℤ
max_ℤ a b = if ltb_ℤ a b then b else a

abbrev pub min_ℤ : ℤ → ℤ → ℤ
min_ℤ a b = if ltb_ℤ b a then b else a

-- `_proximity_band`, for a tick size that is not 0: 0.20 is a fifth.
unfoldable pub proximity_band : Option Decimal → ℕ → ℤ
proximity_band none tick_size = pos 10
proximity_band (some (pos zero)) tick_size = pos 10
proximity_band (some atr) tick_size = max_ℤ (pos 1) (half_up atr (5 * tick_size))

-- The rest of `compute_geometry`, once the distances are known.
unfoldable pub geometry_of : ℤ → ℤ → ℤ → ℤ → ℤ → BarLevelGeometry
geometry_of open_d high_d low_d close_d band =
    let range_spans : Bool = leb_ℤ low_d (pos 0) && leb_ℤ (pos 0) high_d in
    record {
      open_distance_ticks = open_d;
      high_distance_ticks = high_d;
      low_distance_ticks = low_d;
      close_distance_ticks = close_d;
      open_side = side open_d;
      close_side = side close_d;
      range_spans_level = range_spans;
      crossed_within_bar =
          range_spans && not (is_at_level (side open_d)) && not (is_at_level (side close_d));
      proximity_band_ticks = band;
    }

unfoldable pub compute_geometry :
    Decimal
    → Decimal
    → Decimal
    → Decimal
    → Decimal
    → ℕ
    → Option Decimal
    → Bool
    → Option BarLevelGeometry
compute_geometry open_price high_price low_price close_price level_value tick_size atr_14 is_vwap =
    do
      open_d ← tick_distance open_price level_value tick_size is_vwap
      high_d ← tick_distance high_price level_value tick_size is_vwap
      low_d ← tick_distance low_price level_value tick_size is_vwap
      close_d ← tick_distance close_price level_value tick_size is_vwap
      some (geometry_of open_d high_d low_d close_d (proximity_band atr_14 tick_size))
