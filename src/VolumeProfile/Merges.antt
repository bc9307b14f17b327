-- ===== src/VolumeProfile/Merges.antt =====
-- Where the merge of nodes raises nothing, and which nodes a profile keeps.
use alpha_runtime_v.Base.{
  ℕ, zero, suc, ◌≤◌, ◌<◌, ◌≡◌, ◌≢◌, Bool, true, false, none, some, List, [], ◌∷◌, arith, Bool-cases,
  inl, inr, some_of_ne_none,
}
use alpha_runtime_v.Base.Int.{ℤ}
use alpha_runtime_v.Base.Lists.{length, All}
use alpha_runtime_v.VolumeProfile.{insert_level, sorted_levels}
use alpha_runtime_v.VolumeProfile.Nodes.{
  Settings, peaks, troughs, is_near, add_to_clusters, clusters_of, cluster_volume, merge_clusters,
  merge_nodes, bins, hvn, lvn,
}
use alpha_runtime_v.VolumeProfile.Build.{is_in, without_hvn, first_of}

-- Every level holds something.
abbrev pub Full : List (ℤ × ℕ) → Type 0
Full levels = All (λ l. 0 < l.1) levels

insert_level-Full :
    (l : ℤ × ℕ) (levels : List (ℤ × ℕ)) → 0 < l.1 → Full levels → Full (insert_level l levels)
insert_level-Full l [] p h = (p, tt)
insert_level-Full l (k ∷ levels) p h = ground (arith, p, h, insert_level-Full l levels p h.1)

pub sorted_levels-Full : (levels : List (ℤ × ℕ)) → Full levels → Full (sorted_levels levels)
unfolding sorted_levels
sorted_levels-Full [] h = tt
sorted_levels-Full (l ∷ levels) h =
    insert_level-Full l (sorted_levels levels) h.0 (sorted_levels-Full levels h.1)

peaks-Full : (poc : ℤ) (levels : List (ℤ × ℕ)) → Full levels → Full (peaks poc levels)
unfolding peaks
peaks-Full poc [] h = tt
peaks-Full poc (a ∷ []) h = tt
peaks-Full poc (a ∷ b ∷ []) h = tt
peaks-Full poc (a ∷ b ∷ c ∷ levels) h = ground (arith, h, peaks-Full poc (b ∷ c ∷ levels) h.1)

troughs-Full : (levels : List (ℤ × ℕ)) → Full levels → Full (troughs levels)
unfolding troughs
troughs-Full [] h = tt
troughs-Full (a ∷ []) h = tt
troughs-Full (a ∷ b ∷ []) h = tt
troughs-Full (a ∷ b ∷ c ∷ levels) h = ground (arith, h, troughs-Full (b ∷ c ∷ levels) h.1)

-- Every cluster holds something.
abbrev FullClusters : List (List (ℤ × ℕ)) → Type 0
FullClusters clusters = All (λ c. 0 < cluster_volume c) clusters

module _ (cfg : Settings) where
  add_to_clusters-Full :
      (n : ℤ × ℕ) (clusters : List (List (ℤ × ℕ)))
      → 0 < n.1
      → FullClusters clusters
      → FullClusters (add_to_clusters cfg n clusters)
  add_to_clusters-Full n [] p h = (omega (arith, p), tt)
  add_to_clusters-Full n ([] ∷ clusters) p h = (omega (arith, p), h.1)
  add_to_clusters-Full n ((m ∷ cluster) ∷ clusters) p h = elim (Bool-cases (is_near cfg n m)) [
    | inl e ↦ rw (e, add_to_clusters) (omega (arith, p), h.1)
    | inr e ↦ rw (e, add_to_clusters) (omega (arith, p), h)
  ]

  clusters_of-Full : (nodes : List (ℤ × ℕ)) → Full nodes → FullClusters (clusters_of cfg nodes)
  unfolding clusters_of
  clusters_of-Full [] h = tt
  clusters_of-Full (n ∷ nodes) h =
      add_to_clusters-Full n (clusters_of cfg nodes) h.0 (clusters_of-Full nodes h.1)

  merge_clusters-some :
      (clusters : List (List (ℤ × ℕ))) → FullClusters clusters → merge_clusters cfg clusters ≢ none
  unfolding merge_clusters
  merge_clusters-some [] h = λ e. cc e
  merge_clusters-some (c ∷ clusters) h = λ e. ground (arith, e, h, merge_clusters-some clusters h.1)

  merge_nodes-some :
      (descending : Bool) (nodes : List (ℤ × ℕ))
      → Full nodes
      → merge_nodes cfg descending nodes ≢ none
  unfolding merge_nodes
  merge_nodes-some descending nodes h = λ e. ground (
    arith,
    e,
    merge_clusters-some (clusters_of cfg (sorted_levels nodes))
        (clusters_of-Full (sorted_levels nodes) (sorted_levels-Full nodes h)),
  )

  -- Among levels that all hold something neither list of nodes raises.
  pub hvn-some :
      (poc : ℤ) (levels : List (ℤ × ℕ))
      → Full levels
      → (hvns : List ℤ) × (hvn cfg poc levels ≡ some hvns)
  unfolding hvn
  hvn-some poc levels h =
      let (nodes, e) =
        some_of_ne_none _ (merge_nodes-some true (peaks poc levels) (peaks-Full poc levels h)) in
      (bins nodes, ground (arith, e))

  pub lvn-some :
      (levels : List (ℤ × ℕ)) → Full levels → (lvns : List ℤ) × (lvn cfg levels ≡ some lvns)
  unfolding lvn
  lvn-some levels h =
      let (nodes, e) =
        some_of_ne_none _ (merge_nodes-some false (troughs levels) (troughs-Full levels h)) in
      (bins nodes, ground (arith, e))

pub length-first_of : (n : ℕ) (bs : List ℤ) → length (first_of n bs) ≤ n
unfolding first_of
length-first_of zero bs = omega arith
length-first_of (suc n) [] = omega arith
length-first_of (suc n) (b ∷ bs) = omega (arith, length-first_of n bs)

-- No level is kept as a low node that is kept as a high one.
abbrev pub Disjoint : List ℤ → List ℤ → Type 0
Disjoint hvns lvns = All (λ b. is_in b hvns ≡ false) lvns

first_of-Disjoint :
    (n : ℕ) (hvns lvns : List ℤ) → Disjoint hvns lvns → Disjoint hvns (first_of n lvns)
unfolding first_of
first_of-Disjoint zero hvns lvns h = tt
first_of-Disjoint (suc n) hvns [] h = tt
first_of-Disjoint (suc n) hvns (b ∷ lvns) h = (h.0, first_of-Disjoint n hvns lvns h.1)

without_hvn-Disjoint : (hvns lvns : List ℤ) → Disjoint hvns (without_hvn hvns lvns)
unfolding without_hvn
without_hvn-Disjoint hvns [] = tt
without_hvn-Disjoint hvns (b ∷ lvns) = elim (Bool-cases (is_in b hvns)) [
  | inl e ↦ rw (e, without_hvn) (without_hvn-Disjoint hvns lvns)
  | inr e ↦ rw (e, without_hvn) (e, without_hvn-Disjoint hvns lvns)
]

pub kept-Disjoint :
    (n : ℕ) (hvns lvns : List ℤ) → Disjoint hvns (first_of n (without_hvn hvns lvns))
kept-Disjoint n hvns lvns = first_of-Disjoint n hvns _ (without_hvn-Disjoint hvns lvns)
