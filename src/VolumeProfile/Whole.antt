-- ===== src/VolumeProfile/Whole.antt =====
-- Profiles of bars and of trades as a whole.
use alpha_runtime_v.Base.{
  ℕ, ◌+◌, ◌≤◌, ◌<◌, ◌≡◌, refl, sym, inl, Option, none, some, List, [], ◌∷◌, arith,
}
use alpha_runtime_v.Base.Int.{ℤ, ◌≤ℤ◌}
use alpha_runtime_v.Base.Lists.{length, All, Any}
use alpha_runtime_v.Base.Dict.{Dict}
use alpha_runtime_v.VolumeProfile.{
  Bar, Trade, insert_level, sorted_levels, max_volume, split_at_poc, build_distribution,
  build_distribution_from_trades, value_area,
}
use alpha_runtime_v.VolumeProfile.Nodes.{Settings}
use alpha_runtime_v.VolumeProfile.Build.{
  VolumeProfile, first_of, profile_of, finalize, build, build_from_trades,
}
use alpha_runtime_v.VolumeProfile.Merges.{
  Full, sorted_levels-Full, hvn-some, lvn-some, length-first_of, Disjoint, kept-Disjoint,
}
use alpha_runtime_v.VolumeProfile.Volumes.{total}
use alpha_runtime_v.VolumeProfile.Area.{volumes, IsGrown, expand-IsGrown}
use alpha_runtime_v.VolumeProfile.Poc.{
  IsSorted, Around, restack, split_at_poc-Around, IsPoc, Found, split_at_poc-Found,
  sorted_levels-IsSorted, volumes-sorted_levels, max_volume-is_most, max_volume-Any,
}
use alpha_runtime_v.VolumeProfile.Conserved.{
  bar_volumes, trade_sizes, bars-total, trades-total, some_bins, some_trade_bins,
}

-- A profile of a distribution that holds `held`: the point of control is the lowest of the levels that
-- hold the most, the others lie around it in the order of their bins, the value area is grown from it to the
-- target, and no more high and low nodes are kept than the settings allow, none as both.
pub record IsProfile (cfg : Settings) (dist : Dict ℤ ℕ) (held : ℕ) (p : VolumeProfile)
    : Type 0 where
  most : ℕ
  below : List (ℤ × ℕ)
  above : List (ℤ × ℕ)
  levels : restack below ((p.poc, most) ∷ above) ≡ sorted_levels dist
  ordered : IsSorted (sorted_levels dist)
  point : IsPoc below (p.poc, most) above
  holds : volumes below + most + volumes above ≡ held
  counts : p.total_volume ≡ held
  grown :
      IsGrown
        (cfg.target held)
        (record { vah = p.poc; val = p.poc; va_volume = most })
        below
        above
        p.area
  few_hvn : length p.hvn_levels ≤ cfg.max_hvn
  few_lvn : length p.lvn_levels ≤ cfg.max_lvn
  disjoint : Disjoint p.hvn_levels p.lvn_levels

abbrev pub Makes : Settings → Dict ℤ ℕ → ℕ → Option VolumeProfile → Type 0
Makes cfg dist held none = ⊥
Makes cfg dist held (some p) = IsProfile cfg dist held p

value_area-IsGrown :
    (target : ℕ) (below above : List (ℤ × ℕ)) (poc : ℤ × ℕ)
    → IsGrown target
        (record { vah = poc.0; val = poc.0; va_volume = poc.1 })
        below
        above
        (value_area target below poc above)
unfolding value_area
value_area-IsGrown target below above poc =
    expand-IsGrown (length below + length above) target _ below above (omega arith)

profile_of-IsProfile :
    (cfg : Settings) (dist : Dict ℤ ℕ) (below above : List (ℤ × ℕ)) (poc : ℤ × ℕ)
    (hvns lvns : List ℤ)
    → restack below (poc ∷ above) ≡ sorted_levels dist
    → IsPoc below poc above
    → volumes below + poc.1 + volumes above ≡ total dist
    → IsProfile cfg dist (total dist) (profile_of cfg dist below poc above hvns lvns)
unfolding profile_of
profile_of-IsProfile cfg dist below above poc hvns lvns a p v = record {
  most = poc.1;
  below = below;
  above = above;
  levels = a;
  ordered = sorted_levels-IsSorted dist;
  point = p;
  holds = v;
  counts = refl;
  grown = value_area-IsGrown (cfg.target (total dist)) below above poc;
  few_hvn = length-first_of cfg.max_hvn hvns;
  few_lvn = length-first_of cfg.max_lvn _;
  disjoint = kept-Disjoint cfg.max_lvn (first_of cfg.max_hvn hvns) lvns;
}

finalize-Found :
    (cfg : Settings) (dist : Dict ℤ ℕ) (most : ℕ)
    (found : Option (List (ℤ × ℕ) × (ℤ × ℕ) × List (ℤ × ℕ)))
    → found ≡ split_at_poc (max_volume (sorted_levels dist)) [] (sorted_levels dist)
    → Full (sorted_levels dist)
    → Found most (total dist) found
    → Around (sorted_levels dist) found
    → Makes cfg dist (total dist) (finalize cfg dist)
unfolding finalize
finalize-Found cfg dist most none e full f a = absurd f
finalize-Found cfg dist most (some (below, poc, above)) e full f a =
    let (hvns, h) = hvn-some cfg poc.0 (sorted_levels dist) full in
    let (lvns, l) = lvn-some cfg (sorted_levels dist) full in
    rw (sym e, h, l, finalize) (profile_of-IsProfile cfg dist below above poc hvns lvns a f.0 f.2)

some_level : (l : ℤ × ℕ) (levels : List (ℤ × ℕ)) → 0 < length (insert_level l levels)
some_level l [] = omega arith
some_level l (k ∷ levels) = ground arith

Any-most : (levels : List (ℤ × ℕ)) → 0 < length levels → Any (λ k. k.1 ≡ max_volume levels) levels
Any-most [] h = ground (arith, h)
Any-most (l ∷ levels) h = max_volume-Any l levels

levels_hold : (dist : Dict ℤ ℕ) → 0 + volumes (sorted_levels dist) ≡ total dist
levels_hold dist = omega (arith, volumes-sorted_levels dist)

finalize-Makes :
    (cfg : Settings) (dist : Dict ℤ ℕ)
    → 0 < length dist
    → Full dist
    → Makes cfg dist (total dist) (finalize cfg dist)
unfolding sorted_levels
finalize-Makes cfg [] h full = ground (arith, h)
finalize-Makes cfg (l ∷ dist) h full =
    let levels = sorted_levels (l ∷ dist) in
    finalize-Found cfg (l ∷ dist) (max_volume levels) (split_at_poc (max_volume levels) [] levels)
      refl (sorted_levels-Full (l ∷ dist) full)
      (rw (levels_hold (l ∷ dist)) at (
        split_at_poc-Found (max_volume levels) [] levels (sorted_levels-IsSorted (l ∷ dist))
          (max_volume-is_most levels) (Any-most levels (some_level l (sorted_levels dist))) tt))
      (split_at_poc-Around (max_volume levels) [] levels)

-- Bars, at least one, whose lows are at most their highs and whose distribution has no empty bin make a profile of
-- exactly their volume: its point of control is the lowest of the bins that hold the most; its value area takes
-- the neighbouring bin that holds more, the upper one where both hold the same, until it holds the target or no
-- bin is left; and at most as many high and low nodes are kept as the settings allow, none as both.
pub build-Makes :
    (cfg : Settings) (bar : Bar) (bars : List Bar)
    → All (λ b. b.low ≤ℤ b.high) (bar ∷ bars)
    → Full (build_distribution cfg.bin_size (bar ∷ bars) [])
    → Makes cfg
        (build_distribution cfg.bin_size (bar ∷ bars) [])
        (bar_volumes (bar ∷ bars))
        (build cfg (bar ∷ bars))
unfolding build
build-Makes cfg bar bars h full = rw (bars-total cfg.bin_size (bar ∷ bars) h) at (
    finalize-Makes cfg (build_distribution cfg.bin_size (bar ∷ bars) [])
      (some_bins cfg.bin_size bar bars h.0) full)

-- Trades, at least one, whose distribution has no empty bin make a profile of exactly their sizes, as bars do.
pub build_from_trades-Makes :
    (cfg : Settings) (t : Trade) (trades : List Trade)
    → Full
        (build_distribution_from_trades cfg.bin_size
          (t ∷ trades)
          (record { vol = []; delta = [] })).vol
    → Makes cfg
        (build_distribution_from_trades cfg.bin_size
          (t ∷ trades)
          (record { vol = []; delta = [] })).vol
        (trade_sizes (t ∷ trades))
        (build_from_trades cfg (t ∷ trades))
unfolding build_from_trades
build_from_trades-Makes cfg t trades full = rw (trades-total cfg.bin_size (t ∷ trades)) at (
    finalize-Makes cfg _
      (some_trade_bins cfg.bin_size (t ∷ trades) (record { vol = []; delta = [] })
        (inl (omega arith)))
      full)
