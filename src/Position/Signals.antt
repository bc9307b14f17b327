-- ===== src/Position/Signals.antt =====
-- The signals of the shadow position monitor over any order of events.
use alpha_runtime_v.Base.{
  ℕ, ◌<◌, ◌==◌, ◌≡◌, refl, ◌∙◌, Bool, true, false, Option, none, some, List, [], ◌∷◌, ◌++◌, ◌>>=◌,
  arith, if◌then◌else◌, inl, inr, Option-cases, Bool-cases, is_some,
}
use alpha_runtime_v.Base.Int.{ℤ}
use alpha_runtime_v.Base.Dict.{nat_eq, lookup, lookup-insert, lookup-erase, ==_iff}
use alpha_runtime_v.Execution.Models.{Decimal}
use alpha_runtime_v.Execution.Enums.{SetupGrade}
use alpha_runtime_v.Position.Model.{
  ShadowPosition, Signal, would_enter, would_hold, would_exit, PositionMonitor,
}
use alpha_runtime_v.Position.Watchlist.{
  on_pipeline_output, mark_thesis, on_thesis, on_quote, compute_bai, sorted,
}
use alpha_runtime_v.Position.Trades.{
  open_position, check_entry, find_entry, pending_of, track, exit_reason, check_exit, on_s1_bar,
}
use alpha_runtime_v.Position.Exits.{
  new_monitor, Event, pipeline_outputs, theses, quotes, s1_bars, Run, start, event, AllOpen,
  Run-AllOpen,
}

-- What one signal does to the view that a reader has of one symbol, open or not; `none` is a signal
-- that does not fit it: an entry while open, or a hold or an exit while not.
unfoldable pub follow : ℕ → Signal → Bool → Option Bool
follow sym (would_enter p price) is_open =
    if p.symbol == sym then (if is_open then none else some true) else some is_open
follow sym (would_hold p price) is_open =
    if p.symbol == sym then (if is_open then some true else none) else some is_open
follow sym (would_exit p price reason pnl) is_open =
    if p.symbol == sym then (if is_open then some false else none) else some is_open

-- The view after a list of signals.
unfoldable pub follow_all : ℕ → List Signal → Bool → Option Bool
follow_all sym [] is_open = some is_open
follow_all sym (s ∷ ss) is_open = follow sym s is_open >>= follow_all sym ss

follow_all-append :
    (sym : ℕ) (ss ts : List Signal) (is_open : Bool)
    → follow_all sym (ss ++ ts) is_open ≡ (follow_all sym ss is_open >>= follow_all sym ts)
unfolding follow_all
follow_all-append sym [] ts is_open = refl
follow_all-append sym (s ∷ ss) ts is_open = elim (Option-cases (follow sym s is_open)) [
  | inl e ↦ rw e refl
  | inr (b, e) ↦ rw e (follow_all-append sym ss ts b)
]

-- Whether a position is open.
abbrev pub is_open : ℕ → PositionMonitor → Bool
is_open sym m = is_some (lookup sym m.shadow_positions)

check_exit-follow :
    (i sym : ℕ) (p : ShadowPosition) (price : Decimal) (m : PositionMonitor)
    → lookup sym m.shadow_positions ≡ some p
    → p.symbol ≡ sym
    → let (n, ss) = check_exit sym p price m in follow_all i ss (is_open i m) ≡ some (is_open i n)
unfolding check_exit follow_all follow track
check_exit-follow i sym p price m l s =
    elim (Option-cases (exit_reason m.timeout_bars (track price p) price)) [
      | inl e ↦
          rw (e, check_exit)
            (ground (
              arith,
              lookup-insert i sym (track price p) m.shadow_positions,
              ==_iff i sym,
              ==_iff sym i,
            ))
      | inr (reason, e) ↦
          rw (e, check_exit)
            (ground (
              arith,
              lookup-erase i p.symbol m.shadow_positions,
              ==_iff i p.symbol,
              ==_iff p.symbol i,
            ))
    ]

check_entry-follow :
    (i id : ℕ) (delta : Option ℤ) (sym : ℕ) (price : Decimal) (ts : ℕ) (m : PositionMonitor)
    → lookup sym m.shadow_positions ≡ none
    → let (n, ss) = check_entry id delta sym price ts m in
      follow_all i ss (is_open i m) ≡ some (is_open i n)
unfolding check_entry follow_all follow open_position
check_entry-follow i id delta sym price ts m l =
    elim (Option-cases
      (find_entry m.recently_exited price delta (compute_bai sym m) (sorted (pending_of sym m)))) [
        | inl e ↦ rw (e, check_entry) refl
        | inr (c, e) ↦
            rw (e, check_entry)
              (ground (
                arith,
                lookup-insert i sym
                    (open_position id sym c price ts (lookup sym m.latest_thesis_type))
                    m.shadow_positions,
                ==_iff i sym,
                ==_iff sym i,
              ))
      ]

on_thesis-open :
    (i sym new_type : ℕ) (m : PositionMonitor) → is_open i (on_thesis sym new_type m) ≡ is_open i m
unfolding on_thesis
on_thesis-open i sym new_type m = elim (Option-cases (lookup sym m.shadow_positions)) [
  | inl e ↦ rw (e, on_thesis) refl
  | inr (p, e) ↦
      rw (e, on_thesis)
        (ground
          (arith, lookup-insert i sym (mark_thesis new_type p) m.shadow_positions, ==_iff i sym))
]

Event-follow :
    {m n : PositionMonitor} {ss : List Signal} (i t : ℕ)
    → Event m ss n
    → AllOpen t m
    → follow_all i ss (is_open i m) ≡ some (is_open i n)
unfolding on_pipeline_output on_quote on_s1_bar follow_all
Event-follow i t (pipeline_outputs sym setups) h = refl
Event-follow {m} i t (theses sym new_type) h = rw (on_thesis-open i sym new_type m) refl
Event-follow i t (quotes sym bid ask) h = refl
Event-follow {m} i t (s1_bars id allowed delta sym price ts) h =
    elim (Option-cases (lookup sym m.shadow_positions)) [
      | inr (p, e) ↦
          rw (e, on_s1_bar) (check_exit-follow i sym p price m e (h.positions sym p e).named)
      | inl e ↦ elim (Bool-cases allowed) [
        | inl b ↦ rw (e, b, on_s1_bar) (check_entry-follow i id delta sym price ts m e)
        | inr b ↦ rw (e, b, on_s1_bar) refl
      ]
    ]

extend :
    (i : ℕ) (ss ts : List Signal) (a b c : Bool)
    → follow_all i ss a ≡ some b
    → follow_all i ts b ≡ some c
    → follow_all i (ss ++ ts) a ≡ some c
extend i ss ts a b c h k = follow_all-append i ss ts a ∙ rw h k

-- Over any events from a new monitor with a time limit of at least one bar, the signals of each symbol
-- alternate: an entry comes only while no position of the symbol is open, a hold or an exit only while
-- one is; and a reader of the signals knows at the end whether one is open.
pub Run-follow :
    (min_grade : SetupGrade) (t i : ℕ) {m : PositionMonitor} {ss : List Signal}
    → 0 < t
    → Run (new_monitor min_grade t) ss m
    → follow_all i ss false ≡ some (is_open i m)
unfolding new_monitor follow_all lookup
Run-follow g t i z start = refl
Run-follow g t i z (event {ss} {ts} {n} {o} r e) =
    extend i ss ts false (is_open i n) (is_open i o) (Run-follow g t i z r)
      (Event-follow i t e (Run-AllOpen g t z r))
