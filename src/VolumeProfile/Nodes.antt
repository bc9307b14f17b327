-- ===== src/VolumeProfile/Nodes.antt =====
-- The nodes of a profile of src/alpha/features/volume_profile.py: `_hvn`, `_lvn` and `_merge_nodes`. A node is a
-- bin and a volume. The bin of a cluster, its volume-weighted centre rounded in floating point, is a parameter
-- of the weighted sum and the volume.
use alpha_runtime_v.Base.{
  ℕ, ◌+◌, ◌==◌, Bool, true, false, not, ◌&&◌, Option, none, some, List, [], ◌∷◌, if◌then◌else◌, ltb,
  leb,
}
use alpha_runtime_v.Base.Int.{ℤ, pos, ◌+ℤ◌, ◌-ℤ◌, ◌*ℤ◌, leb_ℤ, eqb_ℤ}
use alpha_runtime_v.Execution.Models.{Decimal}
use alpha_runtime_v.VolumeProfile.{sorted_levels}

-- What `VolumeProfileBuilder` is made with; `target` is the value area's, of the total volume.
pub record Settings : Type 0 where
  pub bin_size : ℕ
  pub target : ℕ → ℕ
  pub max_hvn : ℕ
  pub max_lvn : ℕ
  pub min_merge_distance : Decimal
  pub snap : ℤ → ℕ → ℤ

-- The levels that hold more than both neighbours, but for the point of control.
unfoldable pub peaks : ℤ → List (ℤ × ℕ) → List (ℤ × ℕ)
peaks poc [] = []
peaks poc (a ∷ []) = []
peaks poc (a ∷ b ∷ []) = []
peaks poc (a ∷ b ∷ c ∷ levels) =
    let rest = peaks poc (b ∷ c ∷ levels) in
    if not (eqb_ℤ b.0 poc) && (ltb a.1 b.1 && ltb c.1 b.1) then b ∷ rest else rest

-- The levels that hold less than both neighbours.
unfoldable pub troughs : List (ℤ × ℕ) → List (ℤ × ℕ)
troughs [] = []
troughs (a ∷ []) = []
troughs (a ∷ b ∷ []) = []
troughs (a ∷ b ∷ c ∷ levels) =
    let rest = troughs (b ∷ c ∷ levels) in if ltb b.1 a.1 && ltb b.1 c.1 then b ∷ rest else rest

-- Sorted by volume, up or down; nodes of one volume stay in their order.
abbrev pub goes_first : Bool → ℕ → ℕ → Bool
goes_first true v w = leb w v
goes_first false v w = leb v w

unfoldable pub insert_node : Bool → ℤ × ℕ → List (ℤ × ℕ) → List (ℤ × ℕ)
insert_node descending n [] = n ∷ []
insert_node descending n (m ∷ nodes) =
    let rest = insert_node descending n nodes in
    if goes_first descending n.1 m.1 then n ∷ m ∷ nodes else m ∷ rest

unfoldable pub sort_nodes : Bool → List (ℤ × ℕ) → List (ℤ × ℕ)
sort_nodes descending [] = []
sort_nodes descending (n ∷ nodes) = insert_node descending n (sort_nodes descending nodes)

-- The gap of two bins is at most the distance within which nodes are merged.
abbrev pub is_near : Settings → ℤ × ℕ → ℤ × ℕ → Bool
is_near cfg n m = leb_ℤ ((m.0 -ℤ n.0) *ℤ pos cfg.bin_size) cfg.min_merge_distance

-- The clusters of nodes sorted by price, with a node before them.
abbrev pub add_to_clusters : Settings → ℤ × ℕ → List (List (ℤ × ℕ)) → List (List (ℤ × ℕ))
add_to_clusters cfg n [] = (n ∷ []) ∷ []
add_to_clusters cfg n ([] ∷ clusters) = (n ∷ []) ∷ clusters
add_to_clusters cfg n ((m ∷ cluster) ∷ clusters) =
    if is_near cfg n m then (n ∷ m ∷ cluster) ∷ clusters else (n ∷ []) ∷ (m ∷ cluster) ∷ clusters

unfoldable pub clusters_of : Settings → List (ℤ × ℕ) → List (List (ℤ × ℕ))
clusters_of cfg [] = []
clusters_of cfg (n ∷ nodes) = add_to_clusters cfg n (clusters_of cfg nodes)

abbrev pub cluster_volume : List (ℤ × ℕ) → ℕ
cluster_volume [] = 0
cluster_volume (n ∷ nodes) = n.1 + cluster_volume nodes

abbrev pub weighted_sum : List (ℤ × ℕ) → ℤ
weighted_sum [] = pos 0
weighted_sum (n ∷ nodes) = (n.0 *ℤ pos n.1) +ℤ weighted_sum nodes

-- The nodes of the clusters: none if one holds nothing, a division by 0.
unfoldable pub merge_clusters : Settings → List (List (ℤ × ℕ)) → Option (List (ℤ × ℕ))
merge_clusters cfg [] = some []
merge_clusters cfg (c ∷ clusters) =
    let rest = merge_clusters cfg clusters in
    if cluster_volume c == 0 then none else elim rest [
      | none ↦ none
      | some nodes ↦ some ((cfg.snap (weighted_sum c) (cluster_volume c), cluster_volume c) ∷ nodes)
    ]

-- `_merge_nodes`
unfoldable pub merge_nodes : Settings → Bool → List (ℤ × ℕ) → Option (List (ℤ × ℕ))
merge_nodes cfg descending nodes =
    if leb_ℤ cfg.min_merge_distance (pos 0)
    then some (sort_nodes descending nodes)
    else elim (merge_clusters cfg (clusters_of cfg (sorted_levels nodes))) [
      | none ↦ none
      | some merged ↦ some (sort_nodes descending merged)
    ]

abbrev pub bins : List (ℤ × ℕ) → List ℤ
bins [] = []
bins (n ∷ nodes) = n.0 ∷ bins nodes

abbrev pub bins? : Option (List (ℤ × ℕ)) → Option (List ℤ)
bins? none = none
bins? (some nodes) = some (bins nodes)

-- `_hvn`
unfoldable pub hvn : Settings → ℤ → List (ℤ × ℕ) → Option (List ℤ)
hvn cfg poc levels = bins? (merge_nodes cfg true (peaks poc levels))

-- `_lvn`
unfoldable pub lvn : Settings → List (ℤ × ℕ) → Option (List ℤ)
lvn cfg levels = bins? (merge_nodes cfg false (troughs levels))
