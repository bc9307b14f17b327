-- ===== src/Thesis/Lifecycle/Prices.antt =====
-- The arithmetic of the prices of a plan.
use alpha_runtime_v.Base.{◌+◌, ◌*◌, ◌≡◌, refl, false, some, arith}
use alpha_runtime_v.Base.Int.{
  ℤ, pos, ◌+ℤ◌, ◌-ℤ◌, ◌*ℤ◌, ◌≤ℤ◌, ◌<ℤ◌, ltb_ℤ, eqb_ℤ, pos_part, neg_part, int_laws, eq_of_parts,
  -ℤ_parts,
}
use alpha_runtime_v.Execution.Models.{Decimal}
use alpha_runtime_v.Thesis.Model.{ThesisCandidate}
use alpha_runtime_v.Thesis.Lifecycle.{stop_long, stop_short, tenths, doubled, with_target}

-- The orders of an entry, a stop and a target: of a long plan and of a short one, with a reward of 2.5 times
-- the risk, and of a plan that loses at its stop only if it is long.
abbrev pub LongOrder : Decimal → Decimal → Decimal → Type 0
LongOrder entry stop target =
    (stop <ℤ entry) × (entry <ℤ target) × (pos 2 *ℤ (target -ℤ entry) ≡ pos 5 *ℤ (entry -ℤ stop))

abbrev pub ShortOrder : Decimal → Decimal → Decimal → Type 0
ShortOrder entry stop target =
    (entry <ℤ stop) × (target <ℤ entry) × (pos 2 *ℤ (entry -ℤ target) ≡ pos 5 *ℤ (stop -ℤ entry))

abbrev pub InvertedOrder : Decimal → Decimal → Decimal → Type 0
InvertedOrder entry stop target = (stop <ℤ entry) × (entry <ℤ target)

-- A thesis with a plan whose prices are in an order.
pub record IsPlanned {F : Type 0} (Order : Decimal → Decimal → Decimal → Type 0)
    (t : ThesisCandidate F) : Type 0 where
  pub entry : Decimal
  pub stop : Decimal
  pub target : Decimal
  pub is_entry : t.entry ≡ some entry
  pub is_stop : t.stop ≡ some stop
  pub is_target : t.target ≡ some target
  pub in_order : Order entry stop target

pub double_parts :
    (a : ℤ) → pos_part (pos 2 *ℤ a) + 2 * neg_part a ≡ neg_part (pos 2 *ℤ a) + 2 * pos_part a
unfolding ◌*ℤ◌
double_parts a = ground arith

pub five_parts :
    (a : ℤ) → pos_part (pos 5 *ℤ a) + 5 * neg_part a ≡ neg_part (pos 5 *ℤ a) + 5 * pos_part a
unfolding ◌*ℤ◌
five_parts a = ground arith

pub ten_parts :
    (a : ℤ) → pos_part (pos 10 *ℤ a) + 10 * neg_part a ≡ neg_part (pos 10 *ℤ a) + 10 * pos_part a
unfolding ◌*ℤ◌
ten_parts a = ground arith

pub ruleset plan_laws = (int_laws, double_parts, five_parts, ten_parts)

pub above_entry :
    (entry stop : Decimal)
    → stop <ℤ entry
    → doubled entry <ℤ doubled entry +ℤ pos 5 *ℤ (entry -ℤ stop)
above_entry entry stop h = omega (plan_laws, h)

pub below_entry :
    (entry stop : Decimal)
    → entry <ℤ stop
    → doubled entry -ℤ pos 5 *ℤ (stop -ℤ entry) <ℤ doubled entry
below_entry entry stop h = omega (plan_laws, h)

pub reward_above :
    (entry stop : Decimal)
    → pos 2 *ℤ (doubled entry +ℤ pos 5 *ℤ (entry -ℤ stop) -ℤ doubled entry)
      ≡ pos 5 *ℤ (doubled entry -ℤ doubled stop)
reward_above entry stop = eq_of_parts _ _ (omega plan_laws)

pub reward_below :
    (entry stop : Decimal)
    → pos 2 *ℤ (doubled entry -ℤ (doubled entry -ℤ pos 5 *ℤ (stop -ℤ entry)))
      ≡ pos 5 *ℤ (doubled stop -ℤ doubled entry)
reward_below entry stop = eq_of_parts _ _ (omega plan_laws)

pub doubled_positive : (a : Decimal) → pos 0 <ℤ a → eqb_ℤ (doubled a) (pos 0) ≡ false
doubled_positive a h = ground (arith, h, double_parts a)

pub doubled_mono : (a b : Decimal) → a <ℤ b → doubled a <ℤ doubled b
doubled_mono a b h = omega (plan_laws, h)

pub inverted_entry :
    (entry stop : Decimal)
    → stop <ℤ entry
    → doubled entry <ℤ doubled entry -ℤ pos 5 *ℤ (stop -ℤ entry)
inverted_entry entry stop h = omega (plan_laws, h)

pub with_target-IsPlanned :
    {F : Type 0} (Order : Decimal → Decimal → Decimal → Type 0) (entry stop target : Decimal)
    (t : ThesisCandidate F)
    → pos 0 <ℤ entry
    → pos 0 <ℤ stop
    → Order (doubled entry) (doubled stop) target
    → IsPlanned Order (with_target entry stop target t)
unfolding with_target
with_target-IsPlanned Order entry stop target t e s o =
    rw (doubled_positive entry e, doubled_positive stop s, with_target)
      (record {
        entry = doubled entry;
        stop = doubled stop;
        target = target;
        is_entry = refl;
        is_stop = refl;
        is_target = refl;
        in_order = o;
      })

pub nonzero : (d : Decimal) → pos 0 <ℤ d → eqb_ℤ d (pos 0) ≡ false
nonzero d h = ground (arith, h)

pub stop_long_lem :
    (atr vwap low : Decimal)
    → eqb_ℤ low (pos 0) ≡ false
    → stop_long atr vwap (some low) ≡ tenths low -ℤ atr
unfolding stop_long
stop_long_lem atr vwap low e = rw (e, stop_long)

pub stop_short_lem :
    (atr vwap high : Decimal)
    → eqb_ℤ high (pos 0) ≡ false
    → stop_short atr vwap (some high) ≡ tenths high +ℤ atr
unfolding stop_short
stop_short_lem atr vwap high e = rw (e, stop_short)
