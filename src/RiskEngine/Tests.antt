-- ===== src/RiskEngine/Tests.antt =====
-- The risk engine at one account and one setup, and the order engine at one order.
use alpha_runtime_v.Base.{ℕ, ◌≡◌, refl, true, false, some, List, [], ◌∷◌, arith}
use alpha_runtime_v.Base.Int.{ℤ, pos, negsuc, ◌-ℤ◌, ◌+ℤ◌}
use alpha_runtime_v.Base.Dict.{nat_eq, lookup}
use alpha_runtime_v.Execution.Enums.{OrderSide, SetupType}
use alpha_runtime_v.Execution.Models.{order_id_eq}
use alpha_runtime_v.RiskEngine.Model.{
  AccountType, AccountConfig, AccountContext, Setup, TradePlan, PositionEntry, share,
  remaining_risk, validate_levels,
}
use alpha_runtime_v.RiskEngine.Book.Laws.{IsCounted}
use alpha_runtime_v.RiskEngine.Book.Flat.{settle, flatten_account-settles}
use alpha_runtime_v.RiskEngine.Plans.{
  Verdict, evaluate, evaluate_levels, plan_of, position_size, dollar_risk, distance,
  check_daily_limits, infer_side,
}
use alpha_runtime_v.RiskEngine.Plans.Laws.{IsSound}
use alpha_runtime_v.RiskEngine.Handlers.{
  RiskEngine, Command, SyncAnswer, new_account, handle_setup, flatten_account, get_setup, conclude,
}
use alpha_runtime_v.RiskEngine.Accounts.{is_account_halted}
use alpha_runtime_v.RiskEngine.Handlers.Armed.{
  AccountEvent, filled, synced, pnl_came, summary_came, run, IsConfigured, IsArmed, run-IsArmed,
}
use alpha_runtime_v.RiskEngine.Handlers.Counts.{run-IsCounted}
use alpha_runtime_v.RiskEngine.Handlers.Halted.{
  EngineEvent, engine_run, halted_until_rollover, handle_setup-IsSound,
}

-- $25,000, in cents.
abbrev config : AccountConfig
config = record {
  account_id = 1;
  account_type = AccountType.day;
  account_size = pos 2500000;
  max_daily_loss_pct = 200;
  max_position_risk_pct = 100;
  max_open_positions = 5;
  profit_protect_activation = pos 20000;
  profit_protect_giveback_pct = 5000;
  kill_switch_flatten = true;
}

abbrev account : AccountContext
account = new_account 20260710 config

abbrev reclaim : Setup
reclaim = record {
  setup_id = 3;
  symbol = 8;
  setup_type = SetupType.vwap_reclaim;
  entry_trigger = some (pos 10000);
  stop_reference = some (pos 9900);
  target_reference = some (pos 10250);
}

abbrev plan : TradePlan
plan = plan_of 9 reclaim config (pos 10000) (pos 9900) (pos 10250)

reclaim-planned : evaluate 9 reclaim account ≡ Verdict.planned plan
unfolding evaluate evaluate_levels plan_of position_size dollar_risk distance check_daily_limits
    infer_side new_account share remaining_risk validate_levels ◌-ℤ◌ ◌+ℤ◌
reclaim-planned = refl

abbrev quotient : ℤ → ℕ → ℤ
quotient a n = a

abbrev loss : List AccountEvent
loss =
    filled 8 OrderSide.buy 250 (pos 10000) 1 []
    ∷ filled 8 OrderSide.sell 250 (pos 9700) 2 []
    ∷ synced (SyncAnswer.complete (negsuc 74999) (pos 0)) 3 []
    ∷ []

configured : IsConfigured config
unfolding share
configured = record { limited = omega arith; activated = omega arith }

run-IsArmed_example : IsArmed config (run quotient loss account).0
run-IsArmed_example = run-IsArmed quotient config 20260710 loss configured (tt, (tt, (tt, tt)))

run-IsCounted_example : IsCounted (run quotient loss account).0
run-IsCounted_example = run-IsCounted quotient config 20260710 loss

abbrev halted : AccountContext
halted = record account { state = record account.state { is_halted = true } }

abbrev halted_engine : RiskEngine
halted_engine = record { accounts = (1, halted) ∷ []; plans_generated = 0; plans_rejected = 0 }

abbrev after_halt : List EngineEvent
after_halt =
    EngineEvent.setup (reclaim ∷ []) 3 9
    ∷ EngineEvent.account (filled 8 OrderSide.buy 250 (pos 10000) 1 [])
    ∷ EngineEvent.account (pnl_came (negsuc 74999) (pos 0))
    ∷ EngineEvent.setup (reclaim ∷ []) 3 10
    ∷ EngineEvent.account (summary_came 3 [])
    ∷ []

halted_until_rollover_example :
    (is_account_halted 1 (engine_run quotient 1 after_halt halted_engine).0 ≡ true)
    × ((engine_run quotient 1 after_halt halted_engine).1 ≡ [])
unfolding is_account_halted lookup
halted_until_rollover_example =
    halted_until_rollover quotient 1 after_halt halted_engine (tt, (tt, (tt, (tt, (tt, tt))))) refl

abbrev engine : RiskEngine
engine = record { accounts = (1, account) ∷ []; plans_generated = 0; plans_rejected = 0 }

plan_sent : (handle_setup 1 3 (reclaim ∷ []) 9 engine).1 ≡ Command.submit_plan plan ∷ []
unfolding handle_setup get_setup conclude lookup evaluate evaluate_levels plan_of position_size
    dollar_risk distance check_daily_limits infer_side new_account share remaining_risk
    validate_levels ◌-ℤ◌ ◌+ℤ◌
plan_sent = refl

handle_setup-IsSound_example :
    (ctx : AccountContext) × (s : Setup) × (lookup 1 engine.accounts ≡ some ctx)
    × (ctx.state.is_halted ≡ false)
    × IsSound ctx s plan
handle_setup-IsSound_example = handle_setup-IsSound 1 3 9 (reclaim ∷ []) engine plan plan_sent

abbrev long_entry : PositionEntry
long_entry = record { qty = 2; avg_price = pos 10000; side = OrderSide.buy }

abbrev holding : AccountContext
holding = record account { positions = (8, long_entry) ∷ [] }

flatten_account-settles_example :
    (c : AccountContext) × (settle quotient (λ s. pos 9900) (flatten_account holding []) holding
      ≡ some c)
    × (c.positions ≡ [])
unfolding lookup
flatten_account-settles_example =
    flatten_account-settles quotient (λ s. pos 9900) [] holding (refl, tt)
