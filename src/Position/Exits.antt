-- ===== src/Position/Exits.antt =====
-- What an open shadow position is over any order of events.
use alpha_runtime_v.Base.{
  ℕ, ◌<◌, ◌==◌, ◌≡◌, refl, Bool, Option, none, some, List, [], ◌++◌, arith, inl, inr, Option-cases,
  Bool-cases,
}
use alpha_runtime_v.Base.Int.{ℤ, pos, ◌≤ℤ◌, neg_parts}
use alpha_runtime_v.Base.Dict.{
  Dict, nat_eq, lookup, insert, erase, lookup-insert, lookup-erase, ==_iff,
}
use alpha_runtime_v.Execution.Models.{Decimal}
use alpha_runtime_v.Execution.Enums.{SetupGrade}
use alpha_runtime_v.Position.Model.{Setup, Candidate, ShadowPosition, Signal, PositionMonitor}
use alpha_runtime_v.Position.Watchlist.{
  on_pipeline_output, mark_thesis, on_thesis, on_quote, compute_bai, sorted,
}
use alpha_runtime_v.Position.Trades.{
  open_position, check_entry, find_entry, pending_of, track, excursion, exit_reason, check_exit,
  on_s1_bar,
}

-- `PositionMonitor.__init__`
unfoldable pub new_monitor : SetupGrade → ℕ → PositionMonitor
new_monitor min_grade timeout_bars = record {
  min_grade = min_grade;
  timeout_bars = timeout_bars;
  pending_setups = [];
  shadow_positions = [];
  latest_quote = [];
  latest_thesis_type = [];
  recently_exited = [];
}

-- One event, with the signals that it publishes.
pub data Event (m : PositionMonitor) : List Signal → PositionMonitor → Type 0 where
  pipeline_outputs : (sym : ℕ) (setups : List Setup) → Event m [] (on_pipeline_output sym setups m)
  theses : (sym new_type : ℕ) → Event m [] (on_thesis sym new_type m)
  quotes : (sym bid_size ask_size : ℕ) → Event m [] (on_quote sym bid_size ask_size m)
  s1_bars :
      (id : ℕ) (allowed : Bool) (delta : Option ℤ) (sym : ℕ) (price : Decimal) (ts : ℕ)
      → Event m
          (on_s1_bar id allowed delta sym price ts m).1
          (on_s1_bar id allowed delta sym price ts m).0

pub data Run (m : PositionMonitor) : List Signal → PositionMonitor → Type 0 where
  start : Run m [] m
  event :
      {ss ts : List Signal} {n o : PositionMonitor} → Run m ss n → Event n ts o → Run m (ss ++ ts) o

-- A position that is stored under its symbol, was held for fewer bars than the time limit, and whose
-- excursions are not negative.
pub record IsOpen (timeout_bars sym : ℕ) (p : ShadowPosition) : Type 0 where
  pub named : p.symbol ≡ sym
  pub held : p.bars_held < timeout_bars
  pub mfe_nonneg : pos 0 ≤ℤ p.mfe
  pub mae_nonneg : pos 0 ≤ℤ p.mae

-- All open positions, under a time limit.
pub record AllOpen (timeout_bars : ℕ) (m : PositionMonitor) : Type 0 where
  pub limit : m.timeout_bars ≡ timeout_bars
  pub positions :
      (sym : ℕ) (p : ShadowPosition)
      → lookup sym m.shadow_positions ≡ some p
      → IsOpen timeout_bars sym p

insert-IsOpen :
    (t k : ℕ) (p : ShadowPosition) (d : Dict ℕ ShadowPosition)
    → ((sym : ℕ) (q : ShadowPosition) → lookup sym d ≡ some q → IsOpen t sym q)
    → IsOpen t k p
    → (sym : ℕ) (q : ShadowPosition) → lookup sym (insert k p d) ≡ some q
    → IsOpen t sym q
insert-IsOpen t k p d h o sym q e = elim (Bool-cases (sym == k)) [
  | inl b ↦
      let same : sym ≡ k = ground (arith, ==_iff sym k) in
      let here : q ≡ p = ground (arith, lookup-insert sym k p d) in rw (same, here) o
  | inr b ↦ h sym q (ground (arith, lookup-insert sym k p d))
]

erase-IsOpen :
    (t k : ℕ) (d : Dict ℕ ShadowPosition)
    → ((sym : ℕ) (q : ShadowPosition) → lookup sym d ≡ some q → IsOpen t sym q)
    → (sym : ℕ) (q : ShadowPosition) → lookup sym (erase k d) ≡ some q
    → IsOpen t sym q
erase-IsOpen t k d h sym q e = h sym q (ground (arith, lookup-erase sym k d))

mark_thesis-IsOpen :
    (t sym new_type : ℕ) (p : ShadowPosition)
    → IsOpen t sym p
    → IsOpen t sym (mark_thesis new_type p)
unfolding mark_thesis
mark_thesis-IsOpen t sym new_type p h = record {
  named = ground (arith, h.named);
  held = ground (arith, h.held);
  mfe_nonneg = ground (arith, h.mfe_nonneg);
  mae_nonneg = ground (arith, h.mae_nonneg);
}

track-IsOpen :
    (t sym : ℕ) (p : ShadowPosition) (price : Decimal)
    → IsOpen t sym p
    → exit_reason t (track price p) price ≡ none
    → IsOpen t sym (track price p)
unfolding track exit_reason
track-IsOpen t sym p price h e = record {
  named = h.named;
  held = ground arith;
  mfe_nonneg = ground (arith, h.mfe_nonneg);
  mae_nonneg = ground (arith, h.mae_nonneg, neg_parts p.mae, neg_parts (excursion p price));
}

on_thesis-AllOpen :
    (t sym new_type : ℕ) (m : PositionMonitor) → AllOpen t m → AllOpen t (on_thesis sym new_type m)
unfolding on_thesis
on_thesis-AllOpen t sym new_type m h = elim (Option-cases (lookup sym m.shadow_positions)) [
  | inl e ↦ rw (e, on_thesis) (record { limit = h.limit; positions = h.positions })
  | inr (p, e) ↦
      rw (e, on_thesis)
        (record {
          limit = h.limit;
          positions =
              insert-IsOpen t sym (mark_thesis new_type p) m.shadow_positions h.positions
                (mark_thesis-IsOpen t sym new_type p (h.positions sym p e));
        })
]

check_exit-AllOpen :
    (t sym : ℕ) (p : ShadowPosition) (price : Decimal) (m : PositionMonitor)
    → AllOpen t m
    → lookup sym m.shadow_positions ≡ some p
    → AllOpen t (check_exit sym p price m).0
unfolding check_exit
check_exit-AllOpen t sym p price m h l =
    elim (Option-cases (exit_reason m.timeout_bars (track price p) price)) [
      | inl e ↦
          rw (e, check_exit)
            (record {
              limit = h.limit;
              positions =
                  insert-IsOpen t sym (track price p) m.shadow_positions h.positions
                    (track-IsOpen t sym p price (h.positions sym p l) (rw h.limit at e));
            })
      | inr (reason, e) ↦
          rw (e, check_exit)
            (record {
              limit = h.limit;
              positions = erase-IsOpen t p.symbol m.shadow_positions h.positions;
            })
    ]

open_position-IsOpen :
    (t id sym : ℕ) (c : Candidate) (price : Decimal) (ts : ℕ) (thesis : Option ℕ)
    → 0 < t
    → IsOpen t sym (open_position id sym c price ts thesis)
unfolding open_position
open_position-IsOpen t id sym c price ts thesis z = record {
  named = refl;
  held = z;
  mfe_nonneg = omega arith;
  mae_nonneg = omega arith;
}

check_entry-AllOpen :
    (t id : ℕ) (delta : Option ℤ) (sym : ℕ) (price : Decimal) (ts : ℕ) (m : PositionMonitor)
    → 0 < t
    → AllOpen t m
    → AllOpen t (check_entry id delta sym price ts m).0
unfolding check_entry
check_entry-AllOpen t id delta sym price ts m z h =
    elim (Option-cases
      (find_entry m.recently_exited price delta (compute_bai sym m) (sorted (pending_of sym m)))) [
        | inl e ↦ rw (e, check_entry) h
        | inr (c, e) ↦
            rw (e, check_entry)
              (record {
                limit = h.limit;
                positions =
                    insert-IsOpen t sym _ m.shadow_positions h.positions (
                      open_position-IsOpen t id sym c price ts (lookup sym m.latest_thesis_type) z);
              })
      ]

on_s1_bar-AllOpen :
    (t id : ℕ) (allowed : Bool) (delta : Option ℤ) (sym : ℕ) (price : Decimal) (ts : ℕ)
    (m : PositionMonitor)
    → 0 < t
    → AllOpen t m
    → AllOpen t (on_s1_bar id allowed delta sym price ts m).0
unfolding on_s1_bar
on_s1_bar-AllOpen t id allowed delta sym price ts m z h =
    elim (Option-cases (lookup sym m.shadow_positions)) [
      | inr (p, e) ↦ rw (e, on_s1_bar) (check_exit-AllOpen t sym p price m h e)
      | inl e ↦ elim (Bool-cases allowed) [
        | inl b ↦ rw (e, b, on_s1_bar) (check_entry-AllOpen t id delta sym price ts m z h)
        | inr b ↦ rw (e, b, on_s1_bar) h
      ]
    ]

pub Event-AllOpen :
    {m n : PositionMonitor} {ss : List Signal} (t : ℕ)
    → 0 < t
    → Event m ss n
    → AllOpen t m
    → AllOpen t n
unfolding on_pipeline_output on_quote
Event-AllOpen t z (pipeline_outputs sym setups) h = record {
  limit = h.limit;
  positions = h.positions;
}
Event-AllOpen {m} t z (theses sym new_type) h = on_thesis-AllOpen t sym new_type m h
Event-AllOpen t z (quotes sym bid ask) h = record { limit = h.limit; positions = h.positions }
Event-AllOpen {m} t z (s1_bars id allowed delta sym price ts) h =
    on_s1_bar-AllOpen t id allowed delta sym price ts m z h

-- In every state that events lead to from a new monitor with a time limit of at least one bar, each open
-- position is stored under its own symbol, has been held for fewer bars than the limit, and has
-- excursions that are not negative.
pub Run-AllOpen :
    (min_grade : SetupGrade) (t : ℕ) {m : PositionMonitor} {ss : List Signal}
    → 0 < t
    → Run (new_monitor min_grade t) ss m
    → AllOpen t m
unfolding new_monitor lookup
Run-AllOpen g t z start = record { limit = refl; positions = λ sym p e. cc e }
Run-AllOpen g t z (event r e) = Event-AllOpen t z e (Run-AllOpen g t z r)
