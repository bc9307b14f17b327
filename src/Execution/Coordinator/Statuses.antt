-- ===== src/Execution/Coordinator/Statuses.antt =====
-- How the status of an intent moves over the calls of the methods of coordinator.py.
use alpha_runtime_v.Base.{ℕ, ◌≡◌, true, none}
use alpha_runtime_v.Base.Dict.{Dict, nat_eq, lookup, insert}
use alpha_runtime_v.Execution.Enums.{IntentStatus}
use alpha_runtime_v.Execution.StateMachines.{assert_valid_intent_transition, is_intent_terminal}
use alpha_runtime_v.Execution.Coordinator.State.{next_status}
use alpha_runtime_v.Execution.Coordinator.Steps

-- A number of status updates, on the map of statuses.
pub data Updates (m : Dict ℕ IntentStatus) : Dict ℕ IntentStatus → Type 0 where
  none_yet : Updates m m
  then_update :
      {n : Dict ℕ IntentStatus} (id : ℕ) (s : IntentStatus)
      → Updates m n
      → Updates m (insert id (next_status (lookup id n) s) n)

-- How one status moves: by the transition table, or away from a terminal status.
pub data Follows (s : IntentStatus) : IntentStatus → Type 0 where
  stays : Follows s s
  allowed :
      {t u : IntentStatus} → Follows s t → assert_valid_intent_transition t u ≡ none → Follows s u
  restarts : {t u : IntentStatus} → Follows s t → is_intent_terminal t ≡ true → Follows s u
