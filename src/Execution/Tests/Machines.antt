-- ===== src/Execution/Tests/Machines.antt =====
-- The transition tables, the guards, the readiness gate and the stores at concrete values.
use alpha_runtime_v.Base.{refl, none, List, [], ◌∷◌}
use alpha_runtime_v.Execution.Enums.{OrderStatus, IntentStatus}
use alpha_runtime_v.Execution.StateMachines.{
  assert_valid_intent_transition, assert_valid_order_transition,
}
use alpha_runtime_v.Execution.StateMachines.Intents
use alpha_runtime_v.Execution.StateMachines.Intents.{
  intent_terminal_iff_stuck, terminal_absorbs, completes_iff, visited, submitted_needs_plan,
}
use alpha_runtime_v.Execution.StateMachines.Orders
use alpha_runtime_v.Execution.StateMachines.Orders.{
  order_terminal_iff_stuck, partial_keeps_fill, keeps_fill, is_terminal-misses,
}
use alpha_runtime_v.Execution.Models.{RiskFlag}
use alpha_runtime_v.Execution.Models.Orders.{Order}
use alpha_runtime_v.Execution.Stores.{AuditEvent, IntentAuditRecord}
use alpha_runtime_v.Execution.PaperRouter.Orders.{make_order}
use alpha_runtime_v.Execution.Tests.{entry_order, fresh}

-- RECEIVED, VALIDATING, PLANNING, PLAN_READY, SUBMITTING.
to_submitting : Intents.Route IntentStatus.received IntentStatus.submitting
unfolding assert_valid_intent_transition
to_submitting =
    Intents.step {t = IntentStatus.plan_ready}
      (Intents.step {t = IntentStatus.planning}
        (Intents.step {t = IntentStatus.validating}
          (Intents.step {t = IntentStatus.received} Intents.here refl) refl)
        refl)
      refl

partial_to_cancelled : Orders.Route OrderStatus.partial OrderStatus.cancelled
unfolding assert_valid_order_transition
partial_to_cancelled =
    Orders.step {t = OrderStatus.cancel_pending}
      (Orders.step {t = OrderStatus.partial} Orders.here refl) refl

abbrev refused_order : Order
refused_order = record (make_order fresh entry_order) { status = OrderStatus.broker_rejected }

abbrev mixed_flags : List RiskFlag
mixed_flags = RiskFlag.long_below_vwap ∷ RiskFlag.kill_switch_active ∷ []

abbrev received_entry : IntentAuditRecord
received_entry = record {
  intent_id = 7;
  event = AuditEvent.received;
  timestamp = 1000000;
  market_snapshot_id = none;
  account_snapshot_id = none;
}
