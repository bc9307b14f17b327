-- ===== src/VolumeProfile/Build.antt =====
-- `build`, `build_from_trades` and `_finalize` of src/alpha/features/volume_profile.py.
use alpha_runtime_v.Base.{
  ℕ, zero, suc, Bool, false, ◌||◌, Option, none, some, List, [], ◌∷◌, if◌then◌else◌,
}
use alpha_runtime_v.Base.Int.{ℤ, eqb_ℤ}
use alpha_runtime_v.Base.Dict.{Dict}
use alpha_runtime_v.VolumeProfile.Volumes.{total}
use alpha_runtime_v.VolumeProfile.{
  Bar, Trade, ValueArea, sorted_levels, split_at_poc, max_volume, value_area, build_distribution,
  build_distribution_from_trades,
}
use alpha_runtime_v.VolumeProfile.Nodes.{Settings, hvn, lvn}

pub record VolumeProfile : Type 0 where
  pub poc : ℤ
  pub area : ValueArea
  pub total_volume : ℕ
  pub hvn_levels : List ℤ
  pub lvn_levels : List ℤ

abbrev pub is_in : ℤ → List ℤ → Bool
is_in b [] = false
is_in b (c ∷ bins) = eqb_ℤ b c || is_in b bins

-- The low nodes that are no high nodes.
unfoldable pub without_hvn : List ℤ → List ℤ → List ℤ
without_hvn hvns [] = []
without_hvn hvns (b ∷ lvns) =
    let rest = without_hvn hvns lvns in if is_in b hvns then rest else b ∷ rest

-- A slice up to a count.
unfoldable pub first_of : ℕ → List ℤ → List ℤ
first_of zero bins = []
first_of (suc n) [] = []
first_of (suc n) (b ∷ bins) = b ∷ first_of n bins

-- The profile of a point of control, the levels around it and the nodes.
unfoldable pub profile_of :
    Settings → Dict ℤ ℕ → List (ℤ × ℕ) → ℤ × ℕ → List (ℤ × ℕ) → List ℤ → List ℤ → VolumeProfile
profile_of cfg dist below poc above hvns lvns = record {
  poc = poc.0;
  area = value_area (cfg.target (total dist)) below poc above;
  total_volume = total dist;
  hvn_levels = first_of cfg.max_hvn hvns;
  lvn_levels = first_of cfg.max_lvn (without_hvn (first_of cfg.max_hvn hvns) lvns);
}

-- `_finalize`: none if it raises, on a profile without a bin or in a merge of nodes.
unfoldable pub finalize : Settings → Dict ℤ ℕ → Option VolumeProfile
finalize cfg dist = elim (split_at_poc (max_volume (sorted_levels dist)) [] (sorted_levels dist)) [
  | none ↦ none
  | some (below, poc, above) ↦ elim (hvn cfg poc.0 (sorted_levels dist)) [
    | none ↦ none
    | some hvns ↦ elim (lvn cfg (sorted_levels dist)) [
      | none ↦ none
      | some lvns ↦ some (profile_of cfg dist below poc above hvns lvns)
    ]
  ]
]

-- `build` raises on no bars.
unfoldable pub build : Settings → List Bar → Option VolumeProfile
build cfg [] = none
build cfg (bar ∷ bars) = finalize cfg (build_distribution cfg.bin_size (bar ∷ bars) [])

-- `build_from_trades` raises on no trades.
unfoldable pub build_from_trades : Settings → List Trade → Option VolumeProfile
build_from_trades cfg [] = none
build_from_trades cfg (t ∷ trades) =
    finalize cfg
      (build_distribution_from_trades cfg.bin_size (t ∷ trades)
        (record { vol = []; delta = [] })).vol
