-- ===== src/Position/Selection.antt =====
-- Which setup of the watchlist the shadow position monitor enters.
use alpha_runtime_v.Base.{
  ℕ, ◌≤◌, ◌==◌, ◌≡◌, subst, Bool, true, false, not, ◌&&◌, Option, some, List, [], ◌∷◌, arith, ◌⊎◌,
  inl, inr, Bool-cases,
}
use alpha_runtime_v.Base.Int.{ℤ}
use alpha_runtime_v.Base.Lists.{All}
use alpha_runtime_v.Execution.Models.{Decimal}
use alpha_runtime_v.Execution.Invariants.{member}
use alpha_runtime_v.Position.Model.{Candidate, grade_index}
use alpha_runtime_v.Position.Watchlist.{sorted, insert_sorted, before, confirms_entry}
use alpha_runtime_v.Position.Trades.{find_entry}

-- The test of the loop of `_check_entry`.
unfoldable pub eligible : List ℕ → Decimal → Option ℤ → Option (ℕ × ℕ) → Candidate → Bool
eligible exited price delta bai c =
    not (member ◌==◌ c.setup_id exited) && confirms_entry c price delta bai

-- A candidate that is at least as good as every one of a list.
abbrev NotWorse : Candidate → List Candidate → Type 0
NotWorse c ds = All (λ d. grade_index c.grade ≤ grade_index d.grade) ds

abbrev IsSorted : List Candidate → Type 0
IsSorted [] = Unit
IsSorted (c ∷ cs) = NotWorse c cs × IsSorted cs

before-grade : (c d : Candidate) → before c d ≡ true → grade_index c.grade ≤ grade_index d.grade
unfolding before
before-grade c d h = ground arith

after-grade : (c d : Candidate) → before c d ≡ false → grade_index d.grade ≤ grade_index c.grade
unfolding before
after-grade c d h = ground arith

NotWorse-trans :
    (c d : Candidate) (ds : List Candidate)
    → grade_index c.grade ≤ grade_index d.grade
    → NotWorse d ds
    → NotWorse c ds
NotWorse-trans c d [] h k = tt
NotWorse-trans c d (e ∷ ds) h k = (omega (arith, h, k.0), NotWorse-trans c d ds h k.1)

insert_sorted-NotWorse :
    (b c : Candidate) (ds : List Candidate)
    → grade_index b.grade ≤ grade_index c.grade
    → NotWorse b ds
    → NotWorse b (insert_sorted c ds)
unfolding insert_sorted
insert_sorted-NotWorse b c [] h k = (h, tt)
insert_sorted-NotWorse b c (d ∷ ds) h k = elim (Bool-cases (before c d)) [
  | inl e ↦ rw e (h, k)
  | inr e ↦ rw e (k.0, insert_sorted-NotWorse b c ds h k.1)
]

insert_sorted-IsSorted :
    (c : Candidate) (ds : List Candidate) → IsSorted ds → IsSorted (insert_sorted c ds)
unfolding insert_sorted
insert_sorted-IsSorted c [] h = (tt, tt)
insert_sorted-IsSorted c (d ∷ ds) h = elim (Bool-cases (before c d)) [
  | inl e ↦ let g = before-grade c d e in rw e ((g, NotWorse-trans c d ds g h.0), h)
  | inr e ↦
      rw e (insert_sorted-NotWorse d c ds (after-grade c d e) h.0, insert_sorted-IsSorted c ds h.1)
]

sorted-IsSorted : (cs : List Candidate) → IsSorted (sorted cs)
unfolding sorted
sorted-IsSorted [] = tt
sorted-IsSorted (c ∷ cs) = insert_sorted-IsSorted c (sorted cs) (sorted-IsSorted cs)

module _ {κ} (P : Candidate → Type κ) where
  insert_sorted-All :
      (c : Candidate) (ds : List Candidate) → All P (insert_sorted c ds) → P c × All P ds
  unfolding insert_sorted
  insert_sorted-All c [] h = h
  insert_sorted-All c (d ∷ ds) h = elim (Bool-cases (before c d)) [
    | inl e ↦ rw e at h
    | inr e ↦
        let k : P d × All P (insert_sorted c ds) = rw e at h in
        let (p, q) = insert_sorted-All c ds k.1 in (p, (k.0, q))
  ]

  sorted-All : (cs : List Candidate) → All P (sorted cs) → All P cs
  unfolding sorted
  sorted-All [] h = tt
  sorted-All (c ∷ cs) h = let (p, q) = insert_sorted-All c (sorted cs) h in (p, sorted-All cs q)

module _ (exited : List ℕ) (price : Decimal) (delta : Option ℤ) (bai : Option (ℕ × ℕ)) where
  -- A candidate that may not be entered, or is not better.
  abbrev pub NoBetter : Candidate → Candidate → Type 0
  NoBetter c d =
      (eligible exited price delta bai d ≡ false) ⊎ (grade_index c.grade ≤ grade_index d.grade)

  weaken : (c : Candidate) (ds : List Candidate) → NotWorse c ds → All (NoBetter c) ds
  weaken c [] h = tt
  weaken c (d ∷ ds) h = (inr h.0, weaken c ds h.1)

  find_entry-first :
      (c : Candidate) (cs : List Candidate)
      → IsSorted cs
      → find_entry exited price delta bai cs ≡ some c
      → (eligible exited price delta bai c ≡ true) × All (NoBetter c) cs
  unfolding find_entry eligible
  find_entry-first c [] s e = cc e
  find_entry-first c (d ∷ ds) s e = elim (Bool-cases (eligible exited price delta bai d)) [
    | inl b ↦
        let same : d ≡ c = ground arith in
        subst (λ x. (eligible exited price delta bai x ≡ true) × All (NoBetter x) (d ∷ ds)) same
          (b, (inr (omega arith), weaken d ds s.0))
    | inr b ↦ let (g, k) = find_entry-first c ds s.1 (ground arith) in (g, (inl b, k))
  ]

  -- The setup that is entered did not exit since the last pipeline output and is confirmed by price,
  -- delta and quote, and every other setup of the watchlist fails one of these or has no better grade.
  pub find_entry-best :
      (c : Candidate) (cs : List Candidate)
      → find_entry exited price delta bai (sorted cs) ≡ some c
      → (eligible exited price delta bai c ≡ true) × All (NoBetter c) cs
  find_entry-best c cs e =
      let (g, k) = find_entry-first c (sorted cs) (sorted-IsSorted cs) e in
      (g, sorted-All (NoBetter c) cs k)
