-- ===== src/VolumeProfile/Conserved.antt =====
-- The bins of bars and trades hold the volume that came in.
use native.Mathlib.Nat.{div-add-mod, mod-lt, mul_comm}
use alpha_runtime_v.Base.{
  ℕ, zero, suc, ◌+◌, ◌-◌, ◌*◌, ◌/◌, ◌≤◌, ◌<◌, ◌≡◌, refl, List, [], ◌∷◌, arith, ◌⊎◌, inl, inr,
}
use alpha_runtime_v.Base.Int.{ℤ, pos, ◌+ℤ◌, ◌-ℤ◌, ◌≤ℤ◌, pos_part}
use alpha_runtime_v.Base.Lists.{length, All}
use alpha_runtime_v.Base.Dict.{Dict, insert}
use alpha_runtime_v.Research.Geometry.Laws.{toward_zero_mono}
use alpha_runtime_v.VolumeProfile.Volumes.{int_eq, total, total-add_at, add_at}
use alpha_runtime_v.VolumeProfile.{
  Bar, Trade, bin_of, bins_from, bins_of, allocate, add_bar, build_distribution,
  build_distribution_from_trades, Flow, add_side,
}

allocate-total :
    (base left : ℕ) (bins : List ℤ) (dist : Dict ℤ ℕ)
    → left ≤ length bins
    → total (allocate base left bins dist) ≡ total dist + base * length bins + left
unfolding allocate
allocate-total base zero [] dist h = ground arith
allocate-total base (suc left) [] dist h = ground (arith, h)
allocate-total base zero (b ∷ bins) dist h =
    grind (arith, allocate-total base zero bins (add_at b base dist), total-add_at b base dist)
allocate-total base (suc left) (b ∷ bins) dist h = grind (
  arith,
  allocate-total base left bins (add_at b (base + 1) dist),
  total-add_at b (base + 1) dist,
  h,
)

length-bins_from : (b : ℤ) (n : ℕ) → length (bins_from b n) ≡ n
unfolding bins_from
length-bins_from b zero = refl
length-bins_from b (suc n) = omega (arith, length-bins_from (b +ℤ pos 1) n)

bins_positive : (bin_size : ℕ) (bar : Bar) → bar.low ≤ℤ bar.high → 0 < length (bins_of bin_size bar)
unfolding bins_of bin_of
bins_positive bin_size bar h = ground (
  arith,
  toward_zero_mono bar.low bar.high bin_size h,
  length-bins_from (bin_of bin_size bar.low)
      (suc (pos_part (bin_of bin_size bar.high -ℤ bin_of bin_size bar.low))),
)

-- What the floor leaves over is less than the number of bins.
shares : (v n : ℕ) → 0 < n → (n * (v / n) + (v - v / n * n) ≡ v) × (v - v / n * n ≤ n)
shares v n h = grind (arith, div-add-mod v n, mod-lt v h, mul_comm n (v / n))

add_bar-total :
    (bin_size : ℕ) (bar : Bar) (dist : Dict ℤ ℕ)
    → bar.low ≤ℤ bar.high
    → total (add_bar bin_size bar dist) ≡ total dist + bar.volume
unfolding add_bar
add_bar-total bin_size bar dist h =
    let bins = bins_of bin_size bar in
    let base = bar.volume / length bins in
    let s = shares bar.volume (length bins) (bins_positive bin_size bar h) in
    omega (
      arith,
      allocate-total base (bar.volume - base * length bins) bins dist s.1,
      s.0,
      mul_comm base (length bins),
    )

abbrev pub bar_volumes : List Bar → ℕ
bar_volumes [] = 0
bar_volumes (bar ∷ bars) = bar.volume + bar_volumes bars

abbrev pub trade_sizes : List Trade → ℕ
trade_sizes [] = 0
trade_sizes (t ∷ trades) = t.size + trade_sizes trades

-- The bins of bars whose lows are at most their highs hold exactly the bars' volumes, on top of what they
-- held.
build_distribution-total :
    (bin_size : ℕ) (bars : List Bar) (dist : Dict ℤ ℕ)
    → All (λ bar. bar.low ≤ℤ bar.high) bars
    → total (build_distribution bin_size bars dist) ≡ total dist + bar_volumes bars
unfolding build_distribution
build_distribution-total bin_size [] dist h = omega arith
build_distribution-total bin_size (bar ∷ bars) dist h = omega (
  arith,
  build_distribution-total bin_size bars (add_bar bin_size bar dist) h.1,
  add_bar-total bin_size bar dist h.0,
)

build_distribution_from_trades-total :
    (bin_size : ℕ) (trades : List Trade) (f : Flow)
    → total (build_distribution_from_trades bin_size trades f).vol
      ≡ total f.vol + trade_sizes trades
unfolding build_distribution_from_trades
build_distribution_from_trades-total bin_size [] f = omega arith
build_distribution_from_trades-total bin_size (t ∷ trades) f =
    let b = bin_of bin_size t.price in
    omega (
      arith,
      build_distribution_from_trades-total bin_size trades
          (record { vol = add_at b t.size f.vol; delta = add_side b t f.delta }),
      total-add_at b t.size f.vol,
    )

some_insert : (b : ℤ) (w : ℕ) (dist : Dict ℤ ℕ) → 0 < length (insert b w dist)
unfolding insert
some_insert b w [] = ground arith
some_insert b w (l ∷ dist) = ground arith

some_allocate :
    (base left : ℕ) (bins : List ℤ) (dist : Dict ℤ ℕ)
    → (0 < length bins) ⊎ (0 < length dist)
    → 0 < length (allocate base left bins dist)
unfolding allocate add_at
some_allocate base zero [] dist h = ground (arith, h)
some_allocate base (suc left) [] dist h = ground (arith, h)
some_allocate base zero (b ∷ bins) dist h =
    some_allocate base zero bins (add_at b base dist) (inr (some_insert b _ dist))
some_allocate base (suc left) (b ∷ bins) dist h =
    some_allocate base left bins (add_at b (base + 1) dist) (inr (some_insert b _ dist))

some_distribution :
    (bin_size : ℕ) (bars : List Bar) (dist : Dict ℤ ℕ)
    → 0 < length dist
    → 0 < length (build_distribution bin_size bars dist)
unfolding build_distribution add_bar
some_distribution bin_size [] dist h = h
some_distribution bin_size (bar ∷ bars) dist h =
    some_distribution bin_size bars _ (some_allocate _ _ (bins_of bin_size bar) dist (inr h))

pub bars-total :
    (bin_size : ℕ) (bars : List Bar)
    → All (λ bar. bar.low ≤ℤ bar.high) bars
    → total (build_distribution bin_size bars []) ≡ bar_volumes bars
unfolding total
bars-total bin_size bars h = omega (arith, build_distribution-total bin_size bars [] h)

pub trades-total :
    (bin_size : ℕ) (trades : List Trade)
    → total (build_distribution_from_trades bin_size trades (record { vol = []; delta = [] })).vol
      ≡ trade_sizes trades
unfolding total
trades-total bin_size trades =
    omega (
      arith,
      build_distribution_from_trades-total bin_size trades (record { vol = []; delta = [] }),
    )

pub some_bins :
    (bin_size : ℕ) (bar : Bar) (bars : List Bar)
    → bar.low ≤ℤ bar.high
    → 0 < length (build_distribution bin_size (bar ∷ bars) [])
unfolding build_distribution add_bar
some_bins bin_size bar bars h =
    some_distribution bin_size bars _
      (some_allocate _ _ (bins_of bin_size bar) [] (inl (bins_positive bin_size bar h)))

pub some_trade_bins :
    (bin_size : ℕ) (trades : List Trade) (f : Flow)
    → (0 < length trades) ⊎ (0 < length f.vol)
    → 0 < length (build_distribution_from_trades bin_size trades f).vol
unfolding build_distribution_from_trades add_at
some_trade_bins bin_size [] f h = ground (arith, h)
some_trade_bins bin_size (t ∷ trades) f h =
    some_trade_bins bin_size trades _ (inr (some_insert (bin_of bin_size t.price) _ f.vol))
