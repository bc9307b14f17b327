-- ===== src/RiskEngine/Book/Laws.antt =====
-- Dicts that hold a key once, and the size of a position book.
use alpha_runtime_v.Base.{
  ℕ, suc, ◌+◌, ◌-◌, ◌==◌, ◌≡◌, refl, none, some, [], ◌∷◌, arith, if◌then◌else◌, Option-cases,
  Bool-cases, inl, inr, is_some, leb, subst,
}
use alpha_runtime_v.Base.Lists.{length}
use alpha_runtime_v.Base.Dict.{
  Dict, nat_eq, lookup, insert, erase, lookup-insert, lookup-erase, ==_iff,
}
use alpha_runtime_v.Execution.Enums.{OrderSide}
use alpha_runtime_v.Execution.Models.{Decimal}
use alpha_runtime_v.RiskEngine.Model.{PositionEntry, AccountContext}
use alpha_runtime_v.RiskEngine.Book.{open_fill, close_fill, add_fill, apply_fill, is_closing}

module _ {V : Type 0} where
  abbrev pub Unique : Dict ℕ V → Type 0
  Unique [] = Unit
  Unique ((k, v) ∷ d) = (lookup k d ≡ none) × Unique d

  pub Unique-insert : (k : ℕ) (v : V) (d : Dict ℕ V) → Unique d → Unique (insert k v d)
  unfolding insert lookup
  Unique-insert k v [] h = (refl, tt)
  Unique-insert k v ((j, w) ∷ d) h = elim (Bool-cases (k == j)) [
    | inl e ↦ rw (e, insert) (ground (arith, ==_iff k j, h.0, e), h.1)
    | inr e ↦
        rw (e, insert)
          (ground (arith, ==_iff j k, lookup-insert j k v d, h.0, e), Unique-insert k v d h.1)
  ]

  pub length-insert :
      (k : ℕ) (v : V) (d : Dict ℕ V)
      → length (insert k v d) ≡ (if is_some (lookup k d) then length d else suc (length d))
  unfolding insert lookup
  length-insert k v [] = refl
  length-insert k v ((j, w) ∷ d) = ground (arith, length-insert k v d)

  erase_absent : (k : ℕ) (d : Dict ℕ V) → lookup k d ≡ none → length (erase k d) ≡ length d
  unfolding erase lookup
  erase_absent k [] h = refl
  erase_absent k ((j, w) ∷ d) h = ground (arith, erase_absent k d, h)

  pub length-erase :
      (k : ℕ) (v : V) (d : Dict ℕ V)
      → Unique d
      → lookup k d ≡ some v
      → suc (length (erase k d)) ≡ length d
  unfolding erase lookup
  length-erase k v [] u h = absurd (cc h)
  length-erase k v ((j, w) ∷ d) u h =
      ground (arith, length-erase k v d u.1, erase_absent k d, ==_iff k j, u.0, h)

  pub Unique-erase : (k : ℕ) (d : Dict ℕ V) → Unique d → Unique (erase k d)
  unfolding erase lookup
  Unique-erase k [] h = tt
  Unique-erase k ((j, w) ∷ d) h = elim (Bool-cases (k == j)) [
    | inl e ↦ rw (e, erase) (Unique-erase k d h.1)
    | inr e ↦ rw (e, erase) (ground (arith, lookup-erase j k d, h.0, e), Unique-erase k d h.1)
  ]

-- A book that holds a symbol once, and as many positions as are counted open.
pub record IsCounted (ctx : AccountContext) : Type 0 where
  pub unique : Unique ctx.positions
  pub counted : ctx.state.open_positions ≡ length ctx.positions

some_injective : {A : Type 0} {a b : A} → some a ≡ some b → a ≡ b
some_injective h = cc h

open_fill-IsCounted :
    (ctx : AccountContext) (symbol : ℕ) (side : OrderSide) (qty : ℕ) (price : Decimal)
    → IsCounted ctx
    → lookup symbol ctx.positions ≡ none
    → IsCounted (open_fill ctx symbol side qty price)
unfolding open_fill
open_fill-IsCounted ctx symbol side qty price h n = record {
  unique = Unique-insert symbol _ ctx.positions h.unique;
  counted = rw (length-insert symbol _ ctx.positions, n) (omega (arith, h.counted));
}

-- A new entry for a symbol that has one.
changed-IsCounted :
    (ctx : AccountContext) (symbol : ℕ) (p q : PositionEntry)
    → IsCounted ctx
    → lookup symbol ctx.positions ≡ some p
    → IsCounted (record ctx { positions = insert symbol q ctx.positions })
changed-IsCounted ctx symbol p q h n = record {
  unique = Unique-insert symbol q ctx.positions h.unique;
  counted = rw (length-insert symbol q ctx.positions, n) h.counted;
}

close_fill-IsCounted :
    (ctx : AccountContext) (symbol : ℕ) (p : PositionEntry) (qty : ℕ)
    → IsCounted ctx
    → lookup symbol ctx.positions ≡ some p
    → IsCounted (close_fill ctx symbol p qty)
unfolding close_fill
close_fill-IsCounted ctx symbol p qty h n = elim (Bool-cases (leb p.qty qty)) [
  | inl b ↦
      rw (b, close_fill)
        (record {
          unique = Unique-erase symbol ctx.positions h.unique;
          counted = omega (arith, h.counted, length-erase symbol p ctx.positions h.unique n);
        })
  | inr b ↦ rw (b, close_fill) (changed-IsCounted ctx symbol p (record p { qty = p.qty - qty }) h n)
]

add_fill-IsCounted :
    (quotient : Decimal → ℕ → Decimal) (ctx c : AccountContext) (symbol : ℕ) (p : PositionEntry)
    (qty : ℕ) (price : Decimal)
    → IsCounted ctx
    → lookup symbol ctx.positions ≡ some p
    → add_fill quotient ctx symbol p qty price ≡ some c
    → IsCounted c
unfolding add_fill
add_fill-IsCounted quotient ctx c symbol p qty price h n e = elim (Bool-cases (p.qty + qty == 0)) [
  | inl z ↦ absurd (ground (arith, z, e))
  | inr z ↦ subst IsCounted (some_injective (rw z at e)) (changed-IsCounted ctx symbol p _ h n)
]

-- A fill keeps the count of open positions right.
pub apply_fill-IsCounted :
    (quotient : Decimal → ℕ → Decimal) (ctx : AccountContext) (symbol : ℕ) (side : OrderSide)
    (qty : ℕ) (price : Decimal) (r : AccountContext × Decimal)
    → IsCounted ctx
    → apply_fill quotient ctx symbol side qty price ≡ some r
    → IsCounted r.0
unfolding apply_fill
apply_fill-IsCounted quotient ctx symbol side qty price (c, d) h e =
    elim (Option-cases (lookup symbol ctx.positions)) [
      | inl n ↦
          let same : open_fill ctx symbol side qty price ≡ c = ground (arith, e, n) in
          subst IsCounted same (open_fill-IsCounted ctx symbol side qty price h n)
      | inr (p, n) ↦ elim (Bool-cases (is_closing p.side side)) [
        | inl b ↦
            let same : close_fill ctx symbol p qty ≡ c = ground (arith, e, n, b) in
            subst IsCounted same (close_fill-IsCounted ctx symbol p qty h n)
        | inr b ↦ add_fill-IsCounted quotient ctx c symbol p qty price h n (ground (arith, e, n, b))
      ]
    ]
