-- ===== src/Position/Tests.antt =====
-- The shadow position monitor at a watchlist of two setups.
use alpha_runtime_v.Base.{◌≡◌, refl, true, false, none, some, List, [], ◌∷◌, ◌++◌, arith}
use alpha_runtime_v.Base.Dict.{nat_eq}
use alpha_runtime_v.Execution.Enums.{SetupType, SetupGrade}
use alpha_runtime_v.Execution.Models.{units}
use alpha_runtime_v.Execution.Invariants.{member}
use alpha_runtime_v.Position.Model.{
  Setup, Candidate, PositionMonitor, Signal, grade_index, direction_of,
}
use alpha_runtime_v.Position.Watchlist.{
  on_pipeline_output, sorted, insert_sorted, before, confirms_entry,
}
use alpha_runtime_v.Position.Trades.{on_s1_bar, find_entry}
use alpha_runtime_v.Position.Exits.{
  new_monitor, pipeline_outputs, s1_bars, Run, start, event, AllOpen, Run-AllOpen,
}
use alpha_runtime_v.Position.Signals.{follow_all, is_open, Run-follow}

abbrev reclaim : Setup
reclaim = record {
  setup_id = 1;
  setup_type = SetupType.vwap_reclaim;
  grade = some SetupGrade.a;
  entry_trigger = some (units 100000000);
  stop_reference = some (units 99900000);
  target_reference = some (units 100200000);
}

abbrev plain_candidate : Candidate
plain_candidate = record {
  setup_id = 1;
  setup_type = SetupType.vwap_reclaim;
  grade = SetupGrade.a;
  entry_trigger = units 100000000;
  stop_reference = units 99900000;
  target_reference = units 100200000;
}

abbrev best_candidate : Candidate
best_candidate = record plain_candidate { setup_id = 2; grade = SetupGrade.sss }

abbrev monitor : PositionMonitor
monitor = new_monitor SetupGrade.a 120

abbrev watching : PositionMonitor
watching = on_pipeline_output 1 (reclaim ∷ []) monitor

-- One bar enters, and the next one is at the target.
abbrev entered : PositionMonitor × List Signal
entered = on_s1_bar 9 true none 1 (units 100000000) 5 watching

abbrev left : PositionMonitor × List Signal
left = on_s1_bar 10 true none 1 (units 100300000) 6 entered.0

trade : Run monitor ((([] ++ []) ++ entered.1) ++ left.1) left.0
trade =
    event
      (event (event start (pipeline_outputs 1 (reclaim ∷ [])))
        (s1_bars 9 true none 1 (units 100000000) 5))
      (s1_bars 10 true none 1 (units 100300000) 6)

Run-AllOpen_example : AllOpen 120 left.0
Run-AllOpen_example = Run-AllOpen SetupGrade.a 120 (omega arith) trade

Run-follow_example :
    follow_all 1 ((([] ++ []) ++ entered.1) ++ left.1) false ≡ some (is_open 1 left.0)
Run-follow_example = Run-follow SetupGrade.a 120 1 (omega arith) trade

best_is_found :
    find_entry [] (units 100000000) none none (sorted (plain_candidate ∷ best_candidate ∷ []))
    ≡ some best_candidate
unfolding find_entry sorted insert_sorted before grade_index confirms_entry member direction_of
best_is_found = refl
