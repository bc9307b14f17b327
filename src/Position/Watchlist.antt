-- ===== src/Position/Watchlist.antt =====
-- The handlers of src/alpha/engines/position/engine.py that keep the watchlist, the thesis and the quote,
-- and the order in which `_check_entry` looks at the watchlist.
use alpha_runtime_v.Base.{
  ℕ, ◌+◌, ◌*◌, ◌==◌, ltb, leb, Bool, true, ◌&&◌, ◌||◌, Option, none, some, List, [], ◌∷◌, ◌>>=◌,
  if◌then◌else◌,
}
use alpha_runtime_v.Base.Int.{ℤ, pos, ltb_ℤ, leb_ℤ}
use alpha_runtime_v.Base.Dict.{nat_eq, lookup, insert}
use alpha_runtime_v.Execution.Enums.{OrderSide, SetupGrade}
use alpha_runtime_v.Execution.Models.{Decimal}
use alpha_runtime_v.Position.Model.{
  Setup, Candidate, ShadowPosition, PositionMonitor, grade_index, direction_of,
}

-- The test of `_on_pipeline_output` on one setup.
unfoldable pub qualify : SetupGrade → Setup → Option Candidate
qualify min_grade s = do
  grade ← s.grade
  entry ← s.entry_trigger
  stop ← s.stop_reference
  target ← s.target_reference
  if leb (grade_index grade) (grade_index min_grade)
      then some (record {
        setup_id = s.setup_id;
        setup_type = s.setup_type;
        grade = grade;
        entry_trigger = entry;
        stop_reference = stop;
        target_reference = target;
      })
      else none

-- `qualifying[setup.setup_id] = setup`
unfoldable pub put_candidate : Candidate → List Candidate → List Candidate
put_candidate c [] = c ∷ []
put_candidate c (d ∷ ds) =
    let rest = put_candidate c ds in if c.setup_id == d.setup_id then c ∷ ds else d ∷ rest

abbrev put_qualified : Option Candidate → List Candidate → List Candidate
put_qualified none cs = cs
put_qualified (some c) cs = put_candidate c cs

-- The loop of `_on_pipeline_output`.
unfoldable pub qualifying : SetupGrade → List Setup → List Candidate → List Candidate
qualifying min_grade [] cs = cs
qualifying min_grade (s ∷ ss) cs = qualifying min_grade ss (put_qualified (qualify min_grade s) cs)

-- `_on_pipeline_output`: the exits of every symbol are forgotten.
unfoldable pub on_pipeline_output : ℕ → List Setup → PositionMonitor → PositionMonitor
on_pipeline_output sym scored_setups m = record m {
  recently_exited = [];
  pending_setups = insert sym (qualifying m.min_grade scored_setups []) m.pending_setups;
}

-- The mark of `_on_thesis` on an open position.
unfoldable pub mark_thesis : ℕ → ShadowPosition → ShadowPosition
mark_thesis new_type p = elim p.thesis_type_at_entry [
  | none ↦ p
  | some t ↦ if new_type == t then p else record p { pending_thesis_invalidation = true }
]

-- `_on_thesis`
unfoldable pub on_thesis : ℕ → ℕ → PositionMonitor → PositionMonitor
on_thesis sym new_type m =
    let m' : PositionMonitor = record m {
      latest_thesis_type = insert sym new_type m.latest_thesis_type;
    } in
    elim (lookup sym m.shadow_positions) [
      | none ↦ m'
      | some p ↦ record m' {
        shadow_positions = insert sym (mark_thesis new_type p) m.shadow_positions;
      }
    ]

-- `_on_quote`
unfoldable pub on_quote : ℕ → ℕ → ℕ → PositionMonitor → PositionMonitor
on_quote sym bid_size ask_size m = record m {
  latest_quote = insert sym (bid_size, ask_size) m.latest_quote;
}

-- `_compute_bai`: the bid's share, as a quotient.
unfoldable pub compute_bai : ℕ → PositionMonitor → Option (ℕ × ℕ)
compute_bai sym m = elim (lookup sym m.latest_quote) [
  | none ↦ none
  | some (bid, ask) ↦ if bid + ask == 0 then none else some (bid, bid + ask)
]

-- `delta_ok` and `bai_ok`.
abbrev delta_ok : OrderSide → Option ℤ → Bool
delta_ok side none = true
delta_ok OrderSide.buy (some d) = ltb_ℤ (pos 0) d
delta_ok OrderSide.sell (some d) = ltb_ℤ d (pos 0)

abbrev bai_ok : OrderSide → Option (ℕ × ℕ) → Bool
bai_ok side none = true
bai_ok OrderSide.buy (some (bid, total)) = ltb total (2 * bid)
bai_ok OrderSide.sell (some (bid, total)) = ltb (2 * bid) total

-- Whether a price has come to a level on a side: from below for a buy.
abbrev pub reached : OrderSide → Decimal → Decimal → Bool
reached OrderSide.buy price level = leb_ℤ level price
reached OrderSide.sell price level = leb_ℤ price level

-- `_confirms_entry`
unfoldable pub confirms_entry : Candidate → Decimal → Option ℤ → Option (ℕ × ℕ) → Bool
confirms_entry c price delta bai =
    let side : OrderSide = direction_of c.setup_type in
    reached side price c.entry_trigger && delta_ok side delta && bai_ok side bai

-- The key of `sorted`: the grade, and then the id.
unfoldable pub before : Candidate → Candidate → Bool
before c d =
    ltb (grade_index c.grade) (grade_index d.grade)
    || grade_index c.grade == grade_index d.grade && leb c.setup_id d.setup_id

unfoldable pub insert_sorted : Candidate → List Candidate → List Candidate
insert_sorted c [] = c ∷ []
insert_sorted c (d ∷ ds) =
    let rest = insert_sorted c ds in if before c d then c ∷ d ∷ ds else d ∷ rest

unfoldable pub sorted : List Candidate → List Candidate
sorted [] = []
sorted (c ∷ cs) = insert_sorted c (sorted cs)
