-- ===== src/VolumeProfile/Volumes.antt =====
-- Dicts from bins to volumes, and their total.
use alpha_runtime_v.Base.{ℕ, ◌+◌, ◌≡◌, ◌↔◌, refl, true, none, some, [], ◌∷◌, arith}
use alpha_runtime_v.Base.Int.{ℤ, pos, eqb_ℤ, eq_of_parts}
use alpha_runtime_v.Base.Dict.{Dict, Eq, lookup, insert}

pub eqb_ℤ_iff : (a b : ℤ) → (eqb_ℤ a b ≡ true) ↔ (a ≡ b)
eqb_ℤ_iff a b = ground (arith, eq_of_parts a b)

instance abbrev pub int_eq : Eq ℤ
int_eq = record { beq = eqb_ℤ; beq_iff = eqb_ℤ_iff }

-- `dist.get(b, 0)`
abbrev pub volume_at : ℤ → Dict ℤ ℕ → ℕ
volume_at b dist = elim (lookup b dist) [ none ↦ 0 | some v ↦ v ]

-- `delta.get(b, 0)`
abbrev pub delta_at : ℤ → Dict ℤ ℤ → ℤ
delta_at b delta = elim (lookup b delta) [ none ↦ pos 0 | some v ↦ v ]

-- `dist[b] = dist.get(b, 0) + v`
unfoldable pub add_at : ℤ → ℕ → Dict ℤ ℕ → Dict ℤ ℕ
add_at b v dist = insert b (volume_at b dist + v) dist

-- `sum(dist.values())`
unfoldable pub total : Dict ℤ ℕ → ℕ
total [] = 0
total ((b, v) ∷ dist) = v + total dist

total-insert :
    (b : ℤ) (v w : ℕ) (dist : Dict ℤ ℕ)
    → w ≡ volume_at b dist + v
    → total (insert b w dist) ≡ total dist + v
unfolding total insert lookup
total-insert b v w [] h = ground (arith, h)
total-insert b v w ((c, u) ∷ dist) h = ground (arith, h, total-insert b v w dist)

pub total-add_at : (b : ℤ) (v : ℕ) (dist : Dict ℤ ℕ) → total (add_at b v dist) ≡ total dist + v
unfolding add_at
total-add_at b v dist = total-insert b v (volume_at b dist + v) dist refl
