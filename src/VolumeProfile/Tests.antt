-- ===== src/VolumeProfile/Tests.antt =====
-- Profiles of a few bars and trades, at a bin size of 4 ticks.
use alpha_runtime_v.Base.{ℕ, ◌≡◌, refl, none, some, [], ◌∷◌, ◌+◌, ◌*◌, ◌/◌, arith}
use alpha_runtime_v.Base.Int.{pos, ◌-ℤ◌, ◌+ℤ◌}
use alpha_runtime_v.Base.Dict.{lookup, insert}
use alpha_runtime_v.Research.Geometry.{toward_zero}
use alpha_runtime_v.VolumeProfile.Volumes.{int_eq, add_at, total}
use alpha_runtime_v.VolumeProfile.{
  Bar, TakerSide, Trade, bin_of, bins_from, bins_of, allocate, add_bar, sorted_levels, split_at_poc,
  value_area, expand, next_step, build_distribution,
}
use alpha_runtime_v.VolumeProfile.Nodes.{
  Settings, peaks, troughs, insert_node, sort_nodes, clusters_of, merge_clusters, merge_nodes, hvn,
  lvn,
}
use alpha_runtime_v.VolumeProfile.Build.{first_of, without_hvn, profile_of, finalize, build}
use alpha_runtime_v.VolumeProfile.Whole.{Makes, build-Makes}

abbrev wide : Bar
wide = record { high = pos 11; low = pos 0; volume = 20 }

abbrev narrow : Bar
narrow = record { high = pos 7; low = pos 4; volume = 9 }

abbrev thin : Bar
thin = record { high = pos 11; low = pos 0; volume = 1 }

abbrev apart : Bar
apart = record { high = pos 13; low = pos 12; volume = 1 }

-- 70 of 100, rounded up.
abbrev target : ℕ → ℕ
target v = (v * 7 + 9) / 10

abbrev cfg : Settings
cfg = record {
  bin_size = 4;
  target = target;
  max_hvn = 5;
  max_lvn = 5;
  min_merge_distance = pos 8;
  snap = toward_zero;
}

two_bars : build_distribution 4 (wide ∷ narrow ∷ []) [] ≡ (pos 0, 7) ∷ (pos 1, 16) ∷ (pos 2, 6) ∷ []
unfolding build_distribution add_bar allocate bins_of bins_from bin_of toward_zero add_at insert
    lookup ◌-ℤ◌ ◌+ℤ◌
two_bars = refl

-- 23 of 29, over the two lower bins.
two_bars_profile :
    build cfg (wide ∷ narrow ∷ [])
    ≡ some (record {
      poc = pos 1;
      area = record { vah = pos 1; val = pos 0; va_volume = 23 };
      total_volume = 29;
      hvn_levels = [];
      lvn_levels = [];
    })
unfolding build build_distribution add_bar allocate bins_of bins_from bin_of toward_zero add_at
    insert lookup finalize profile_of hvn lvn peaks troughs merge_nodes merge_clusters clusters_of
    sort_nodes first_of without_hvn sorted_levels split_at_poc value_area expand next_step total
    ◌-ℤ◌ ◌+ℤ◌
two_bars_profile = refl

-- Empty bins on the way stop the value area at half of the volume.
short_of_target :
    build cfg (thin ∷ apart ∷ [])
    ≡ some (record {
      poc = pos 0;
      area = record { vah = pos 0; val = pos 0; va_volume = 1 };
      total_volume = 2;
      hvn_levels = [];
      lvn_levels = [];
    })
unfolding build build_distribution add_bar allocate bins_of bins_from bin_of toward_zero add_at
    insert lookup finalize profile_of hvn lvn peaks troughs merge_nodes merge_clusters clusters_of
    sort_nodes first_of without_hvn sorted_levels split_at_poc value_area expand next_step total
    ◌-ℤ◌ ◌+ℤ◌
short_of_target = refl

abbrev low_bar : Bar
low_bar = record { high = pos 0; low = pos 0; volume = 1 }

abbrev empty_bar : Bar
empty_bar = record { high = pos 4; low = pos 4; volume = 0 }

abbrev high_bar : Bar
high_bar = record { high = pos 8; low = pos 8; volume = 5 }

-- An empty bin between two others is a low node whose centre is a quotient by 0.
empty_trough : build cfg (low_bar ∷ empty_bar ∷ high_bar ∷ []) ≡ none
unfolding build build_distribution add_bar allocate bins_of bins_from bin_of toward_zero add_at
    insert lookup finalize profile_of hvn lvn peaks troughs merge_nodes merge_clusters clusters_of
    sort_nodes first_of without_hvn sorted_levels split_at_poc value_area expand next_step total
    ◌-ℤ◌ ◌+ℤ◌
empty_trough = refl

-- Without merging it is one of the nodes.
empty_trough_kept :
    build (record cfg { min_merge_distance = pos 0 }) (low_bar ∷ empty_bar ∷ high_bar ∷ [])
    ≡ some (record {
      poc = pos 2;
      area = record { vah = pos 2; val = pos 2; va_volume = 5 };
      total_volume = 6;
      hvn_levels = [];
      lvn_levels = pos 1 ∷ [];
    })
unfolding build build_distribution add_bar allocate bins_of bins_from bin_of toward_zero add_at
    insert lookup finalize profile_of hvn lvn peaks troughs merge_nodes insert_node sort_nodes
    first_of without_hvn sorted_levels split_at_poc value_area expand next_step total ◌-ℤ◌ ◌+ℤ◌
empty_trough_kept = refl

abbrev bought : Trade
bought = record { price = pos 5; size = 3; taker_side = TakerSide.buy }

abbrev sold : Trade
sold = record { price = pos 9; size = 2; taker_side = TakerSide.sell }

build-Makes_example :
    Makes cfg (build_distribution 4 (wide ∷ narrow ∷ []) []) 29 (build cfg (wide ∷ narrow ∷ []))
build-Makes_example =
    build-Makes cfg wide (narrow ∷ []) (omega arith, (omega arith, tt))
      (rw two_bars (omega arith, (omega arith, (omega arith, tt))))
