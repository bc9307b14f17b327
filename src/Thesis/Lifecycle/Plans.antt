-- ===== src/Thesis/Lifecycle/Plans.antt =====
-- The prices of a plan.
use alpha_runtime_v.Base.{◌+◌, ◌*◌, ◌≤◌, ◌≡◌, true, false, some, arith}
use alpha_runtime_v.Base.Int.{
  ℤ, pos, ◌+ℤ◌, ◌-ℤ◌, ◌*ℤ◌, ◌≤ℤ◌, ◌<ℤ◌, ltb_ℤ, eqb_ℤ, pos_part, neg_part, -ℤ_parts,
}
use alpha_runtime_v.Execution.Models.{Decimal}
use alpha_runtime_v.Thesis.Model.{Floats, ThesisState, ThesisType, ThesisCandidate, BarSnapshot}
use alpha_runtime_v.Thesis.Lifecycle.{
  at_least, necessary_conditions_met, necessary_short, plan_atr, tenths, doubled, with_target,
  plan_by_type, compute_entry_plan, advance_state,
}
use alpha_runtime_v.Thesis.Lifecycle.Prices.{
  LongOrder, ShortOrder, InvertedOrder, IsPlanned, plan_laws, above_entry, below_entry,
  reward_above, reward_below, doubled_mono, inverted_entry, with_target-IsPlanned, nonzero,
  stop_long_lem, stop_short_lem,
}

-- The plan of an anchor that is set, from the halves of its prices.
abbrev long_plan :
    {F : Type 0} → Decimal → BarSnapshot F → Decimal → ThesisCandidate F → ThesisCandidate F
long_plan atr snap low t =
    let entry : Decimal = tenths snap.vwap +ℤ atr in
    let stop : Decimal = tenths low -ℤ atr in
    with_target entry stop (doubled entry +ℤ pos 5 *ℤ (entry -ℤ stop)) t

abbrev short_plan :
    {F : Type 0} → Decimal → BarSnapshot F → Decimal → ThesisCandidate F → ThesisCandidate F
short_plan atr snap high t =
    let entry : Decimal = tenths snap.vwap -ℤ atr in
    let stop : Decimal = tenths high +ℤ atr in
    with_target entry stop (doubled entry -ℤ pos 5 *ℤ (stop -ℤ entry)) t

compute_entry_plan-long :
    {F : Type 0} (ten : Decimal) (snap : BarSnapshot F) (t : ThesisCandidate F) (low : Decimal)
    → t.thesis_type ≡ ThesisType.fake_breakdown_reclaim_long
    → t.sweep_low ≡ some low
    → eqb_ℤ low (pos 0) ≡ false
    → compute_entry_plan ten snap t ≡ long_plan (plan_atr ten snap) snap low t
unfolding compute_entry_plan plan_by_type
compute_entry_plan-long ten snap t low type anchor set =
    simp type (simp (anchor, stop_long_lem (plan_atr ten snap) snap.vwap low set))

compute_entry_plan-short :
    {F : Type 0} (ten : Decimal) (snap : BarSnapshot F) (t : ThesisCandidate F) (high : Decimal)
    → t.thesis_type ≡ ThesisType.vwap_failed_reclaim_short
    → t.rejection_high ≡ some high
    → eqb_ℤ high (pos 0) ≡ false
    → compute_entry_plan ten snap t ≡ short_plan (plan_atr ten snap) snap high t
unfolding compute_entry_plan plan_by_type
compute_entry_plan-short ten snap t high type anchor set =
    simp type (simp (anchor, stop_short_lem (plan_atr ten snap) snap.vwap high set))

-- A long plan with a positive ATR and a sweep low that is at most the VWAP, and more than a tenth of the ATR
-- above 0, has its stop below its entry and its target above, 2.5 times the risk away.
pub long_plan_in_order :
    {F : Type 0} (ten : Decimal) (snap : BarSnapshot F) (t : ThesisCandidate F) (low : Decimal)
    → t.thesis_type ≡ ThesisType.fake_breakdown_reclaim_long
    → t.sweep_low ≡ some low
    → pos 0 <ℤ plan_atr ten snap
    → plan_atr ten snap <ℤ tenths low
    → low ≤ℤ snap.vwap
    → IsPlanned LongOrder (compute_entry_plan ten snap t)
long_plan_in_order ten snap t low type anchor moved room under =
    let atr = plan_atr ten snap in
    let entry = tenths snap.vwap +ℤ atr in
    let stop = tenths low -ℤ atr in
    let ordered : stop <ℤ entry = omega (plan_laws, moved, under) in
    let set = nonzero low (omega (plan_laws, moved, room)) in
    rw (compute_entry_plan-long ten snap t low type anchor set) (
      with_target-IsPlanned LongOrder entry stop _ t (omega (plan_laws, moved, room, under))
        (omega (plan_laws, room))
        (doubled_mono stop entry ordered, above_entry entry stop ordered, reward_above entry stop))

-- A short plan with a positive ATR less than ten times the VWAP, and a rejection high that is at least the
-- VWAP, has its stop above its entry and its target below, 2.5 times the risk away.
pub short_plan_in_order :
    {F : Type 0} (ten : Decimal) (snap : BarSnapshot F) (t : ThesisCandidate F) (high : Decimal)
    → t.thesis_type ≡ ThesisType.vwap_failed_reclaim_short
    → t.rejection_high ≡ some high
    → pos 0 <ℤ plan_atr ten snap
    → plan_atr ten snap <ℤ tenths snap.vwap
    → snap.vwap ≤ℤ high
    → IsPlanned ShortOrder (compute_entry_plan ten snap t)
short_plan_in_order ten snap t high type anchor moved room over =
    let atr = plan_atr ten snap in
    let entry = tenths snap.vwap -ℤ atr in
    let stop = tenths high +ℤ atr in
    let ordered : entry <ℤ stop = omega (plan_laws, moved, over) in
    let set = nonzero high (omega (plan_laws, moved, room, over)) in
    rw (compute_entry_plan-short ten snap t high type anchor set) (
      with_target-IsPlanned ShortOrder entry stop _ t (omega (plan_laws, room))
        (omega (plan_laws, moved, room, over))
        (doubled_mono entry stop ordered, below_entry entry stop ordered, reward_below entry stop))

with_target-state :
    {F : Type 0} (entry stop target : Decimal) (t : ThesisCandidate F)
    → (with_target entry stop target t).state ≡ t.state
unfolding with_target
with_target-state entry stop target t = ground arith

hundred_parts :
    (a : ℤ)
    → pos_part (pos 200 *ℤ a) + 200 * neg_part a ≡ neg_part (pos 200 *ℤ a) + 200 * pos_part a
unfolding ◌*ℤ◌
hundred_parts a = ground arith

no_excess :
    (vwap high : Decimal)
    → pos 0 <ℤ vwap
    → high ≤ℤ vwap
    → ltb_ℤ vwap (pos 200 *ℤ (high -ℤ vwap)) ≡ false
no_excess vwap high positive under =
    ground (arith, hundred_parts (high -ℤ vwap), -ℤ_parts high vwap, positive, under)

low_rejection_passes :
    {F : Type 0} (snap : BarSnapshot F) (t : ThesisCandidate F) (high : Decimal)
    → t.thesis_type ≡ ThesisType.vwap_failed_reclaim_short
    → snap.is_above_vwap ≡ false
    → 1 ≤ snap.bars_below_vwap
    → t.rejection_high ≡ some high
    → (pos 0 <ℤ snap.vwap) × (high ≤ℤ snap.vwap)
    → necessary_conditions_met snap t ≡ true
unfolding necessary_conditions_met necessary_short
low_rejection_passes snap t high type side held anchor under =
    ground (arith, type, side, held, anchor, no_excess snap.vwap high under.0 under.1)

-- A building short thesis that is confident enough, of a bar below the VWAP, becomes ready where its
-- rejection high lies more than a fifth of the ATR below the VWAP, with a stop below its entry and a target
-- above.
pub low_rejection_inverts :
    {F : Type 0} (fl : Floats F) (ten : Decimal) (snap : BarSnapshot F) (t : ThesisCandidate F)
    (high : Decimal)
    → t.thesis_type ≡ ThesisType.vwap_failed_reclaim_short
    → t.state ≡ ThesisState.building
    → at_least fl 65 t.confidence ≡ true
    → snap.is_above_vwap ≡ false
    → 1 ≤ snap.bars_below_vwap
    → t.rejection_high ≡ some high
    → pos 0 <ℤ high
    → pos 0 <ℤ plan_atr ten snap
    → tenths high +ℤ doubled (plan_atr ten snap) <ℤ tenths snap.vwap
    → ((advance_state fl ten snap t).state ≡ ThesisState.ready)
      × IsPlanned InvertedOrder (advance_state fl ten snap t)
unfolding advance_state
low_rejection_inverts fl ten snap t high type state sure side held anchor positive moved gap =
    let ready = record t { state = ThesisState.ready } in
    let atr = plan_atr ten snap in
    let entry = tenths snap.vwap -ℤ atr in
    let stop = tenths high +ℤ atr in
    let ordered : stop <ℤ entry = omega (plan_laws, gap) in
    let met =
      low_rejection_passes snap t high type side held anchor
        (omega (plan_laws, positive, moved, gap)) in
    let plan = compute_entry_plan-short ten snap ready high type anchor (nonzero high positive) in
    rw (state, sure, met, advance_state)
      (rw plan (
        with_target-state entry stop _ ready,
        with_target-IsPlanned InvertedOrder entry stop _ ready
            (omega (plan_laws, positive, moved, gap)) (omega (plan_laws, positive, moved))
            (doubled_mono stop entry ordered, inverted_entry entry stop ordered),
      ))
