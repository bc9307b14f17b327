-- ===== src/VolumeProfile.antt =====
-- `VolumeProfileBuilder` of src/alpha/features/volume_profile.py. A bin is named by its number, its lower
-- price divided by the bin size, which is above 0; prices are multiples of any fixed unit. The target of
-- the value area, `math.ceil(total_volume * pct)` in floating point, is a parameter.
pub mod Volumes
pub mod Conserved
pub mod Area
pub mod Poc
pub mod Nodes
pub mod Build
pub mod Merges
pub mod Whole
pub mod Tests
use alpha_runtime_v.Base.{
  ℕ, zero, suc, ◌+◌, ◌-◌, ◌*◌, ◌/◌, ◌==◌, ◌≡◌, Bool, true, false, not, ◌&&◌, Option, none, some,
  List, [], ◌∷◌, ◌++◌, if◌then◌else◌, ltb, leb,
}
use alpha_runtime_v.Base.Int.{ℤ, pos, ◌+ℤ◌, ◌-ℤ◌, leb_ℤ, ltb_ℤ, eqb_ℤ, pos_part}
use alpha_runtime_v.Base.Lists.{length}
use alpha_runtime_v.Base.Dict.{Dict, Eq, keys, lookup, insert}
use alpha_runtime_v.Execution.Models.{Decimal}
use alpha_runtime_v.Research.Geometry.{toward_zero}
use alpha_runtime_v.VolumeProfile.Volumes.{int_eq, add_at, delta_at, total}

pub record Bar : Type 0 where
  pub high : Decimal
  pub low : Decimal
  pub volume : ℕ

pub data TakerSide : Type 0 where
  buy sell unknown : TakerSide

pub record Trade : Type 0 where
  pub price : Decimal
  pub size : ℕ
  pub taker_side : TakerSide

-- `_bin`
unfoldable pub bin_of : ℕ → Decimal → ℤ
bin_of bin_size price = toward_zero price bin_size

-- `count` bins from a bin on.
unfoldable pub bins_from : ℤ → ℕ → List ℤ
bins_from b zero = []
bins_from b (suc count) = b ∷ bins_from (b +ℤ pos 1) count

-- The loop from the low bin to the high bin.
unfoldable pub bins_of : ℕ → Bar → List ℤ
bins_of bin_size bar =
    let low_bin : ℤ = bin_of bin_size bar.low in
    let high_bin : ℤ = bin_of bin_size bar.high in
    if leb_ℤ low_bin high_bin then bins_from low_bin (suc (pos_part (high_bin -ℤ low_bin))) else []

-- `base` for every bin, and one more for the first `remainder`.
unfoldable pub allocate : ℕ → ℕ → List ℤ → Dict ℤ ℕ → Dict ℤ ℕ
allocate base zero [] dist = dist
allocate base (suc left) [] dist = dist
allocate base zero (b ∷ bins) dist = allocate base zero bins (add_at b base dist)
allocate base (suc left) (b ∷ bins) dist = allocate base left bins (add_at b (base + 1) dist)

-- A bar's volume over its bins.
unfoldable pub add_bar : ℕ → Bar → Dict ℤ ℕ → Dict ℤ ℕ
add_bar bin_size bar dist =
    let bins : List ℤ = bins_of bin_size bar in
    let base : ℕ = bar.volume / length bins in
    allocate base (bar.volume - base * length bins) bins dist

-- `_build_distribution`, from the dict that is built so far.
unfoldable pub build_distribution : ℕ → List Bar → Dict ℤ ℕ → Dict ℤ ℕ
build_distribution bin_size [] dist = dist
build_distribution bin_size (bar ∷ bars) dist =
    build_distribution bin_size bars (add_bar bin_size bar dist)

-- The volumes and the deltas, buys less sells, per bin.
pub record Flow : Type 0 where
  pub vol : Dict ℤ ℕ
  pub delta : Dict ℤ ℤ

unfoldable pub add_delta : ℤ → ℤ → Dict ℤ ℤ → Dict ℤ ℤ
add_delta b v delta = insert b (delta_at b delta +ℤ v) delta

unfoldable pub add_side : ℤ → Trade → Dict ℤ ℤ → Dict ℤ ℤ
add_side b t delta = elim t.taker_side [
  | buy ↦ add_delta b (pos t.size) delta
  | sell ↦ add_delta b (pos 0 -ℤ pos t.size) delta
  | unknown ↦ delta
]

-- `_build_distribution_from_trades`, from the dicts that are built so far.
unfoldable pub build_distribution_from_trades : ℕ → List Trade → Flow → Flow
build_distribution_from_trades bin_size [] f = f
build_distribution_from_trades bin_size (t ∷ trades) f =
    let b : ℤ = bin_of bin_size t.price in
    build_distribution_from_trades bin_size trades
      (record { vol = add_at b t.size f.vol; delta = add_side b t f.delta })

-- `sorted(dist.keys())`, with the volumes.
abbrev pub insert_level : ℤ × ℕ → List (ℤ × ℕ) → List (ℤ × ℕ)
insert_level l [] = l ∷ []
insert_level l (k ∷ levels) =
    let rest = insert_level l levels in if leb_ℤ l.0 k.0 then l ∷ k ∷ levels else k ∷ rest

unfoldable pub sorted_levels : Dict ℤ ℕ → List (ℤ × ℕ)
sorted_levels [] = []
sorted_levels (l ∷ dist) = insert_level l (sorted_levels dist)

-- The highest volume, and the lowest level that has it: the point of control.
abbrev pub max_volume : List (ℤ × ℕ) → ℕ
max_volume [] = 0
max_volume (l ∷ levels) = let rest = max_volume levels in if ltb rest l.1 then l.1 else rest

-- The levels below the point of control, the nearest first, the point, and the levels above it.
unfoldable pub split_at_poc :
    ℕ → List (ℤ × ℕ) → List (ℤ × ℕ) → Option (List (ℤ × ℕ) × (ℤ × ℕ) × List (ℤ × ℕ))
split_at_poc most below [] = none
split_at_poc most below (l ∷ levels) =
    if l.1 == most then some (below, l, levels) else split_at_poc most (l ∷ below) levels

abbrev pub next_volume : List (ℤ × ℕ) → ℕ
next_volume [] = 0
next_volume (l ∷ levels) = l.1

pub data Step : Type 0 where
  up down stop : Step

-- What the loop of `_value_area` does next.
unfoldable pub next_step : ℕ → ℕ → List (ℤ × ℕ) → List (ℤ × ℕ) → Step
next_step target va below above =
    if leb target va
    then Step.stop
    else if next_volume above == 0 && next_volume below == 0
    then Step.stop
    else if leb (next_volume below) (next_volume above)
    then Step.up
    else Step.down

abbrev pub first_level : ℤ → List (ℤ × ℕ) → ℤ
first_level b [] = b
first_level b (l ∷ levels) = l.0

abbrev pub rest_of : List (ℤ × ℕ) → List (ℤ × ℕ)
rest_of [] = []
rest_of (l ∷ levels) = levels

-- The bounds and the volume of a value area.
pub record ValueArea : Type 0 where
  pub vah : ℤ
  pub val : ℤ
  pub va_volume : ℕ

-- The loop of `_value_area`, on fuel.
unfoldable pub expand : ℕ → ℕ → ValueArea → List (ℤ × ℕ) → List (ℤ × ℕ) → ValueArea
expand zero target a below above = a
expand (suc n) target a below above = elim (next_step target a.va_volume below above) [
  | Step.stop ↦ a
  | Step.up ↦
      expand n target
        (record a { vah = first_level a.vah above; va_volume = a.va_volume + next_volume above })
        below (rest_of above)
  | Step.down ↦
      expand n target
        (record a { val = first_level a.val below; va_volume = a.va_volume + next_volume below })
        (rest_of below) above
]

-- `_value_area`, from the levels around the point of control: each round takes one of them.
unfoldable pub value_area : ℕ → List (ℤ × ℕ) → ℤ × ℕ → List (ℤ × ℕ) → ValueArea
value_area target below poc above =
    expand (length below + length above) target
      (record { vah = poc.0; val = poc.0; va_volume = poc.1 }) below above
