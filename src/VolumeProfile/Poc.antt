-- ===== src/VolumeProfile/Poc.antt =====
-- The point of control and the profile around it.
use alpha_runtime_v.Base.{
  ℕ, ◌+◌, ◌≤◌, ◌<◌, ◌==◌, ◌≡◌, refl, Option, none, some, List, [], ◌∷◌, arith, Bool-cases, inl, inr,
}
use alpha_runtime_v.Base.Int.{ℤ, ◌≤ℤ◌, leb_ℤ, int_laws}
use alpha_runtime_v.Base.Lists.{All, Any, All-map}
use alpha_runtime_v.Base.Dict.{Dict}
use alpha_runtime_v.VolumeProfile.{insert_level, sorted_levels, max_volume, split_at_poc}
use alpha_runtime_v.VolumeProfile.Volumes.{total}
use alpha_runtime_v.VolumeProfile.Area.{volumes}

-- Levels in the order of their bins.
pub IsSorted : List (ℤ × ℕ) → Type 0
IsSorted [] = Unit
IsSorted (l ∷ levels) = All (λ k. l.0 ≤ℤ k.0) levels × IsSorted levels

insert_level-All :
    (P : ℤ × ℕ → Type 0) (l : ℤ × ℕ) (levels : List (ℤ × ℕ))
    → P l
    → All P levels
    → All P (insert_level l levels)
insert_level-All P l [] p h = (p, tt)
insert_level-All P l (k ∷ levels) p h = ground (arith, insert_level-All P l levels p h.1)

lower_first :
    (a b : ℤ) (levels : List (ℤ × ℕ))
    → a ≤ℤ b
    → All (λ k. b ≤ℤ k.0) levels
    → All (λ k. a ≤ℤ k.0) levels
lower_first a b levels h =
    All-map (λ k. b ≤ℤ k.0) (λ k. a ≤ℤ k.0) (λ k g. omega (int_laws, h, g)) levels

insert_level-IsSorted :
    (l : ℤ × ℕ) (levels : List (ℤ × ℕ)) → IsSorted levels → IsSorted (insert_level l levels)
unfolding IsSorted
insert_level-IsSorted l [] h = (tt, tt)
insert_level-IsSorted l (k ∷ levels) h = elim (Bool-cases (leb_ℤ l.0 k.0)) [
  | inl e ↦ rw e ((ground (arith, e), lower_first l.0 k.0 levels (ground (arith, e)) h.0), h)
  | inr e ↦ rw e (
    insert_level-All (λ x. k.0 ≤ℤ x.0) l levels (ground (arith, e)) h.0,
    insert_level-IsSorted l levels h.1,
  )
]

pub sorted_levels-IsSorted : (dist : Dict ℤ ℕ) → IsSorted (sorted_levels dist)
unfolding IsSorted sorted_levels
sorted_levels-IsSorted [] = tt
sorted_levels-IsSorted (l ∷ dist) =
    insert_level-IsSorted l (sorted_levels dist) (sorted_levels-IsSorted dist)

volumes-insert_level :
    (l : ℤ × ℕ) (levels : List (ℤ × ℕ)) → volumes (insert_level l levels) ≡ l.1 + volumes levels
volumes-insert_level l [] = refl
volumes-insert_level l (k ∷ levels) = ground (arith, volumes-insert_level l levels)

pub volumes-sorted_levels : (dist : Dict ℤ ℕ) → volumes (sorted_levels dist) ≡ total dist
unfolding sorted_levels total
volumes-sorted_levels [] = refl
volumes-sorted_levels (l ∷ dist) =
    omega (arith, volumes-insert_level l (sorted_levels dist), volumes-sorted_levels dist)

pub max_volume-is_most : (levels : List (ℤ × ℕ)) → All (λ l. l.1 ≤ max_volume levels) levels
max_volume-is_most [] = tt
max_volume-is_most (l ∷ levels) = (
  ground arith,
  All-map (λ k. k.1 ≤ max_volume levels) (λ k. k.1 ≤ max_volume (l ∷ levels))
      (λ k h. ground (arith, h)) levels (max_volume-is_most levels),
)

pub max_volume-Any :
    (l : ℤ × ℕ) (levels : List (ℤ × ℕ)) → Any (λ k. k.1 ≡ max_volume (l ∷ levels)) (l ∷ levels)
max_volume-Any l [] = inl (ground arith)
max_volume-Any l (k ∷ levels) = ground (arith, max_volume-Any k levels)

-- The lowest of the levels that hold the most, with the others around it.
pub record IsPoc (below : List (ℤ × ℕ)) (poc : ℤ × ℕ) (above : List (ℤ × ℕ)) : Type 0 where
  lower : All (λ l. l.1 < poc.1 × l.0 ≤ℤ poc.0) below
  higher : All (λ l. l.1 ≤ poc.1 × poc.0 ≤ℤ l.0) above

-- What a search has passed.
abbrev pub Passed : ℕ → List (ℤ × ℕ) → List (ℤ × ℕ) → Type 0
Passed most levels below = All (λ l. l.1 < most × All (λ k. l.0 ≤ℤ k.0) levels) below

abbrev pub Found : ℕ → ℕ → Option (List (ℤ × ℕ) × (ℤ × ℕ) × List (ℤ × ℕ)) → Type 0
Found most held none = ⊥
Found most held (some (below, poc, above)) =
    IsPoc below poc above × (poc.1 ≡ most) × (volumes below + poc.1 + volumes above ≡ held)

both :
    (most : ℕ) (b : ℤ) (levels : List (ℤ × ℕ))
    → All (λ k. k.1 ≤ most) levels
    → All (λ k. b ≤ℤ k.0) levels
    → All (λ k. k.1 ≤ most × b ≤ℤ k.0) levels
both most b [] h g = tt
both most b (k ∷ levels) h g = ((h.0, g.0), both most b levels h.1 g.1)

same_sum : (l b r : ℕ) → b + (l + r) ≡ l + b + r
same_sum l b r = omega arith

pub split_at_poc-Found :
    (most : ℕ) (below levels : List (ℤ × ℕ))
    → IsSorted levels
    → All (λ l. l.1 ≤ most) levels
    → Any (λ l. l.1 ≡ most) levels
    → Passed most levels below
    → Found most (volumes below + volumes levels) (split_at_poc most below levels)
unfolding split_at_poc IsSorted
split_at_poc-Found most below [] s h a p = absurd a
split_at_poc-Found most below (l ∷ levels) s h a p = elim (Bool-cases (l.1 == most)) [
  | inl e ↦ rw e (
    record {
      lower =
          All-map (λ k. k.1 < most × All (λ x. k.0 ≤ℤ x.0) (l ∷ levels))
            (λ k. k.1 < l.1 × k.0 ≤ℤ l.0) (λ k g. (ground (arith, e, g.0), g.1.0)) below p;
      higher =
          both l.1 l.0 levels
            (All-map (λ k. k.1 ≤ most) (λ k. k.1 ≤ l.1) (λ k g. ground (arith, e, g)) levels h.1)
            s.0;
    },
    ground (arith, e),
    omega arith,
  )
  | inr e ↦
      let next = split_at_poc-Found most (l ∷ below) levels s.1 h.1 (ground (arith, e, a)) (
        (ground (arith, e, h.0), s.0),
        All-map (λ k. k.1 < most × All (λ x. k.0 ≤ℤ x.0) (l ∷ levels))
            (λ k. k.1 < most × All (λ x. k.0 ≤ℤ x.0) levels) (λ k g. (g.0, g.1.1)) below p,
      ) in
      rw e (rw (same_sum l.1 (volumes below) (volumes levels)) next)
]

-- The levels in the order of their bins again.
abbrev pub restack : List (ℤ × ℕ) → List (ℤ × ℕ) → List (ℤ × ℕ)
restack [] above = above
restack (l ∷ below) above = restack below (l ∷ above)

abbrev pub Around : List (ℤ × ℕ) → Option (List (ℤ × ℕ) × (ℤ × ℕ) × List (ℤ × ℕ)) → Type 0
Around levels none = Unit
Around levels (some (below, poc, above)) = restack below (poc ∷ above) ≡ levels

pub split_at_poc-Around :
    (most : ℕ) (below levels : List (ℤ × ℕ))
    → Around (restack below levels) (split_at_poc most below levels)
unfolding split_at_poc
split_at_poc-Around most below [] = tt
split_at_poc-Around most below (l ∷ levels) = elim (Bool-cases (l.1 == most)) [
  | inl e ↦ rw e refl
  | inr e ↦ rw e (split_at_poc-Around most (l ∷ below) levels)
]
