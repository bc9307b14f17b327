-- ===== src/Thesis/Tests.antt =====
-- The thesis engine on a few bars. Floats are hundredths here, and prices whole points.
use alpha_runtime_v.Base.{◌*◌, ◌/◌, ◌≡◌, refl, true, false, none, some, [], ◌∷◌, arith}
use alpha_runtime_v.Base.Int.{ℤ, pos, negsuc, ◌+ℤ◌, ◌-ℤ◌, ◌*ℤ◌, ltb_ℤ, leb_ℤ, pos_part}
use alpha_runtime_v.Base.Dict.{nat_eq, lookup, insert}
use alpha_runtime_v.Thesis.Model.{
  Floats, ThesisState, ThesisType, ThesisCandidate, ActiveThesis, LevelMemorySnapshot, BarSnapshot,
  BarEvent,
}
use alpha_runtime_v.Thesis.Flow.{no_flow, session_avg_tps, compute_tick_flow}
use alpha_runtime_v.Thesis.Long.{
  deepen_sweep, invalidation_long, is_wide, settle, score_long, clamp, risk_condition,
  commit_conditions_long, reclaim_signal, close_signal_long, tps_signal, volume_signal_long,
  memory_signal_long, risk_signal, update_fake_breakdown_long,
}
use alpha_runtime_v.Thesis.Lifecycle.{
  update_thesis, update_by_type, compute_entry_plan, advance_state, plan_atr, stop_long,
  necessary_conditions_met, necessary_long, plan_by_type, with_target,
}
use alpha_runtime_v.Thesis.Detection.{
  new_thesis, detect_thesis, is_distributing, is_failed_reclaim, build_flip_candidate,
}
use alpha_runtime_v.Thesis.Lifecycle.Ages.{Readied, aged, update_thesis-Readied}
use alpha_runtime_v.Thesis.Lifecycle.Waits.{Round, HasEnded, updates, updates_end}
use alpha_runtime_v.Thesis.Lifecycle.Confidence.{FloatLaws, IsBounded, update_thesis-IsBounded}
use alpha_runtime_v.Thesis.Lifecycle.Plans.{long_plan_in_order, low_rejection_inverts}
use alpha_runtime_v.Thesis.Lifecycle.Prices.{IsPlanned, LongOrder, InvertedOrder}
use alpha_runtime_v.Thesis.Engine.{process_bar, on_features, follow, detect, update_active}
use alpha_runtime_v.Thesis.State.{
  ThesisEngine, Features, new, keep_window, update_session_baseline, emit_current,
}
use alpha_runtime_v.Thesis.Engine.Live.{IsTracked}
use alpha_runtime_v.Thesis.Engine.Runs.{Reached, Reached-Tracks}
use alpha_runtime_v.Thesis.Engine.Stalls.{IsStalled, zero_atr_stalls}

-- Hundredths, with quotients rounded towards zero.
abbrev hundredths : Floats ℤ
hundredths = record {
  lit = λ n. n;
  of_int = λ n. pos 100 *ℤ n;
  of_decimal = λ d. pos 100 *ℤ d;
  add = ◌+ℤ◌;
  sub = ◌-ℤ◌;
  mul = λ a b. pos (pos_part (a *ℤ b) / 100);
  div = λ a b. pos (pos_part a * 100 / pos_part b);
  ratio = λ a b. pos (pos_part a * 100 / pos_part b);
  lt = ltb_ℤ;
  le = leb_ℤ;
  exceeds = λ d f. ltb_ℤ f (pos 100 *ℤ d);
}

-- A bar that crossed below a VWAP of 100, and one that is back above it.
abbrev crossed : BarSnapshot ℤ
crossed = record {
  close = pos 99;
  vwap = pos 100;
  vwap_deviation_pct = negsuc 99;
  is_above_vwap = false;
  bars_above_vwap = 0;
  bars_below_vwap = 1;
  vwap_cross_up = false;
  vwap_cross_down = true;
  swept_below_vwap = false;
  is_lower_low = false;
  is_lower_high = false;
  is_higher_high = false;
  is_new_hod = false;
  bar_close_position_pct = some (pos 50);
  atr_14 = some (pos 10);
}

abbrev reclaimed_vwap : BarSnapshot ℤ
reclaimed_vwap = record crossed {
  close = pos 102;
  is_above_vwap = true;
  bars_above_vwap = 1;
  bars_below_vwap = 0;
  vwap_cross_up = true;
  vwap_cross_down = false;
  bar_close_position_pct = some (pos 80);
}

-- A bar below the VWAP, with an ATR of 5 points.
abbrev slow : BarSnapshot ℤ
slow = record crossed { atr_14 = some (pos 5) }

abbrev memory : LevelMemorySnapshot
memory = record { last_vwap_outcome = none; bars_since_last_vwap_touch = 0 }

abbrev dip : BarEvent
dip = record {
  high = pos 101;
  low = pos 97;
  timestamp = 60000000;
  is_m1 = true;
  is_partial = false;
}

abbrev rise : BarEvent
rise = record {
  high = pos 103;
  low = pos 99;
  timestamp = 120000000;
  is_m1 = true;
  is_partial = false;
}

abbrev features : Features ℤ
features = record { snapshot = none; level_memory = some memory }

abbrev dip_thesis : ThesisCandidate ℤ
dip_thesis =
    new_thesis hundredths ThesisType.fake_breakdown_reclaim_long 10 crossed (some (pos 97)) none
      false (some 60000000)

-- A reclaim that closes strongly, with a stop within 0.7 ATRs, makes the thesis build at 47%.
one_update :
    (update_thesis hundredths
      (pos 10)
      reclaimed_vwap
      memory
      (no_flow hundredths)
      rise
      dip_thesis).0.state
    ≡ ThesisState.building
unfolding new_thesis update_thesis update_by_type update_fake_breakdown_long deepen_sweep
    invalidation_long settle score_long clamp risk_condition commit_conditions_long reclaim_signal
    close_signal_long tps_signal volume_signal_long memory_signal_long risk_signal no_flow
    advance_state necessary_conditions_met necessary_long compute_entry_plan plan_by_type
    with_target plan_atr stop_long ◌+ℤ◌ ◌-ℤ◌ ◌*ℤ◌
one_update = refl

long_plan_in_order_example :
    IsPlanned LongOrder (compute_entry_plan (pos 10) reclaimed_vwap dip_thesis)
unfolding new_thesis plan_atr ◌*ℤ◌
long_plan_in_order_example =
    long_plan_in_order (pos 10) reclaimed_vwap dip_thesis (pos 97) refl refl (omega arith)
      (omega arith) (omega arith)

-- A short thesis whose rejection high is 3 points below the VWAP.
abbrev low_thesis : ThesisCandidate ℤ
low_thesis =
    record (new_thesis hundredths ThesisType.vwap_failed_reclaim_short 70 crossed none
      (some (pos 97)) false none) { state = ThesisState.building }

low_rejection_inverts_example :
    ((advance_state hundredths (pos 10) slow low_thesis).state ≡ ThesisState.ready)
    × IsPlanned InvertedOrder (advance_state hundredths (pos 10) slow low_thesis)
unfolding new_thesis plan_atr ◌*ℤ◌ ◌+ℤ◌
low_rejection_inverts_example =
    low_rejection_inverts hundredths (pos 10) slow low_thesis (pos 97) refl refl refl refl
      (omega arith) refl (omega arith) (omega arith) (omega arith)

-- The state after the first bar: a thesis of its dip, with a flip.
abbrev after_dip : ThesisEngine ℤ
after_dip = (process_bar hundredths (pos 10) 0 7 (some features) crossed dip new).0

abbrev dip_active : ActiveThesis ℤ
dip_active = record {
  dominant = dip_thesis;
  flip = some (build_flip_candidate hundredths crossed dip_thesis);
}

Reached-Tracks_example : IsTracked hundredths dip_active
unfolding new_thesis process_bar on_features keep_window update_session_baseline compute_tick_flow
    session_avg_tps no_flow follow detect detect_thesis is_distributing is_failed_reclaim
    build_flip_candidate emit_current insert lookup new
Reached-Tracks_example =
    Reached-Tracks hundredths (pos 10) after_dip
      (Reached.piped 0 7 (some features) crossed dip new (λ e. cc e) Reached.start) 7 dip_active
      refl

abbrev sure_thesis : ThesisCandidate ℤ
sure_thesis = record dip_thesis { state = ThesisState.building; confidence = pos 60 }

update_thesis-Readied_example :
    Readied hundredths
      (pos 10)
      reclaimed_vwap
      (update_by_type hundredths reclaimed_vwap memory
        (no_flow hundredths)
        rise
        (aged hundredths (pos 10) reclaimed_vwap memory (no_flow hundredths) rise sure_thesis)).0
      (update_thesis hundredths
        (pos 10)
        reclaimed_vwap
        memory
        (no_flow hundredths)
        rise
        sure_thesis).0
unfolding new_thesis update_thesis update_by_type update_fake_breakdown_long deepen_sweep
    invalidation_long settle score_long clamp risk_condition commit_conditions_long reclaim_signal
    close_signal_long tps_signal volume_signal_long memory_signal_long risk_signal no_flow
    advance_state necessary_conditions_met necessary_long compute_entry_plan plan_by_type
    with_target plan_atr stop_long ◌+ℤ◌ ◌-ℤ◌ ◌*ℤ◌
update_thesis-Readied_example =
    update_thesis-Readied hundredths (pos 10) reclaimed_vwap memory (no_flow hundredths) rise
      sure_thesis (λ e. cc e) refl

-- A thesis that has built for 20 bars, and its last.
abbrev old_thesis : ThesisCandidate ℤ
old_thesis = record dip_thesis { state = ThesisState.building; bars_alive = 20 }

abbrev last_round : Round ℤ
last_round = record {
  snap = reclaimed_vwap;
  level = memory;
  tick = no_flow hundredths;
  trigger = rise;
}

updates_end_example : HasEnded (updates hundredths (pos 10) (last_round ∷ []) old_thesis).state
unfolding new_thesis
updates_end_example =
    updates_end hundredths (pos 10) (last_round ∷ []) old_thesis
      (record { stage = omega arith; planned = tt }) ((λ e. cc e), tt) (omega arith)

-- A reclaim at an ATR of 0.
abbrev flat : BarSnapshot ℤ
flat = record reclaimed_vwap { atr_14 = some (pos 0) }

zero_atr_stalls_example :
    ((update_active hundredths (pos 10) 7 flat memory (no_flow hundredths) rise dip_active new).1
      ≡ [])
    × ((b : ActiveThesis ℤ) × (lookup 7
            (update_active hundredths
              (pos 10)
              7
              flat
              memory
              (no_flow hundredths)
              rise
              dip_active
              new).0.active
          ≡ some b)
        × IsStalled dip_active.dominant b.dominant
        × (b.flip ≡ dip_active.flip))
unfolding new_thesis deepen_sweep invalidation_long is_wide
zero_atr_stalls_example =
    zero_atr_stalls hundredths (pos 10) 7 flat memory (no_flow hundredths) rise dip_active new
      (pos 97) refl refl refl refl

hundredths-FloatLaws : FloatLaws hundredths
hundredths-FloatLaws = record { asym = λ a b h. ground (arith, h); zero_one = refl }

update_thesis-IsBounded_example :
    IsBounded hundredths
      (update_thesis hundredths
        (pos 10)
        reclaimed_vwap
        memory
        (no_flow hundredths)
        rise
        sure_thesis).0.confidence
unfolding new_thesis
update_thesis-IsBounded_example =
    update_thesis-IsBounded hundredths hundredths-FloatLaws reclaimed_vwap memory
      (no_flow hundredths) rise (pos 10) sure_thesis
      (record { not_negative = refl; not_above = refl })
