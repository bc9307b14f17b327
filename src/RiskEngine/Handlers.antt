-- ===== src/RiskEngine/Handlers.antt =====
-- The handlers of src/alpha/engines/risk/engine.py. The time, the session's date, the setups of the setup
-- engine, the open orders of the order engine and the broker's answers come with an event. What an
-- event sends to the order engine is a list of commands.
pub mod Armed
pub mod Counts
pub mod Halted
use alpha_runtime_v.Base.{
  ℕ, suc, ◌+◌, ◌*◌, ◌==◌, Bool, true, false, not, ◌&&◌, Option, none, some, List, [], ◌∷◌, ◌++◌,
  if◌then◌else◌, is_some,
}
use alpha_runtime_v.Base.Int.{ℤ, pos, ◌+ℤ◌, ◌-ℤ◌, ◌*ℤ◌, neg, ltb_ℤ, leb_ℤ, eqb_ℤ}
use alpha_runtime_v.Base.Dict.{Dict, nat_eq, lookup, insert}
use alpha_runtime_v.Execution.Enums.{OrderSide, KillSwitchReason}
use alpha_runtime_v.Execution.Models.{Decimal}
use alpha_runtime_v.RiskEngine.Model.{
  AccountConfig, AccountContext, DailyRiskState, PositionEntry, TradePlan, Setup, current_pnl,
  share,
}
use alpha_runtime_v.RiskEngine.Book.{apply_fill, opposite_side}
use alpha_runtime_v.RiskEngine.Plans.{RiskViolation, Verdict, evaluate}

-- What is read of an order of the order engine.
pub record OpenOrder : Type 0 where
  pub order_id : ℕ
  pub account_id : ℕ
  pub broker_order_id : Option ℕ

pub data Command : Type 0 where
  cancel_order : ℕ → Command
  submit_close_order : ℕ → ℕ → OrderSide → ℕ → Command
  submit_plan : TradePlan → Command

pub record RiskEngine : Type 0 where
  pub accounts : Dict ℕ AccountContext
  pub plans_generated : ℕ
  pub plans_rejected : ℕ

-- `_check_kill_switch`
unfoldable pub check_kill_switch : AccountContext → Option KillSwitchReason
check_kill_switch ctx =
    let s : DailyRiskState = ctx.state in
    if leb_ℤ (current_pnl s) (neg s.daily_loss_limit)
    then some KillSwitchReason.daily_loss_limit
    else if leb_ℤ ctx.config.profit_protect_activation s.session_high_pnl
        && leb_ℤ (s.session_high_pnl *ℤ pos ctx.config.profit_protect_giveback_pct)
            ((s.session_high_pnl -ℤ current_pnl s) *ℤ pos 10000)
    then some KillSwitchReason.profit_protection
    else none

-- `_flatten_account`: the account's orders that the broker knows are cancelled, then each position closed.
abbrev pub cancels : ℕ → List OpenOrder → List Command
cancels account_id [] = []
cancels account_id (o ∷ orders) =
    let rest = cancels account_id orders in
    if o.account_id == account_id && is_some o.broker_order_id
    then Command.cancel_order o.order_id ∷ rest
    else rest

abbrev pub closes : ℕ → Dict ℕ PositionEntry → List Command
closes account_id [] = []
closes account_id ((symbol, p) ∷ positions) =
    Command.submit_close_order account_id symbol (opposite_side p.side) p.qty
    ∷ closes account_id positions

unfoldable pub flatten_account : AccountContext → List OpenOrder → List Command
flatten_account ctx orders =
    cancels ctx.config.account_id orders ++ closes ctx.config.account_id ctx.positions

-- `_trigger_halt`
unfoldable pub trigger_halt :
    AccountContext → KillSwitchReason → ℕ → List OpenOrder → AccountContext × List Command
trigger_halt ctx reason now orders = (
  record ctx {
    state = record ctx.state { is_halted = true; halt_reason = some reason; halt_time = some now };
  },
  if ctx.config.kill_switch_flatten then flatten_account ctx orders else [],
)

-- The high-water mark raised, and the kill switch checked.
unfoldable pub raise_high : AccountContext → AccountContext
raise_high ctx =
    if ltb_ℤ ctx.state.session_high_pnl (current_pnl ctx.state)
    then record ctx { state = record ctx.state { session_high_pnl = current_pnl ctx.state } }
    else ctx

unfoldable pub check_halt : AccountContext → ℕ → List OpenOrder → AccountContext × List Command
check_halt ctx now orders = elim (check_kill_switch ctx) [
  | none ↦ (ctx, [])
  | some reason ↦ if ctx.state.is_halted then (ctx, []) else trigger_halt ctx reason now orders
]

-- What a fill realizes, counted: a trade is counted if it is not 0.
unfoldable pub count_realized : Decimal → AccountContext → AccountContext
count_realized delta ctx = if eqb_ℤ delta (pos 0) then ctx else record ctx {
  state = record ctx.state {
    realized_pnl = ctx.state.realized_pnl +ℤ delta;
    trades_taken = ctx.state.trades_taken + 1;
  };
}

-- `_handle_order_update` for an account, of an order that is FILLED at a price with a side: none if it raises.
unfoldable pub fill_account :
    (Decimal → ℕ → Decimal)
    → ℕ
    → OrderSide
    → ℕ
    → Decimal
    → ℕ
    → List OpenOrder
    → AccountContext
    → Option (AccountContext × List Command)
fill_account quotient symbol side qty price now orders ctx =
    elim (apply_fill quotient ctx symbol side qty price) [
      | none ↦ none
      | some applied ↦
          some (check_halt (raise_high (count_realized applied.1 applied.0)) now orders)
    ]

-- The broker's answers to a sync: no daily P&L; a P&L and no summary; both. Each failure raises, and is caught.
pub data SyncAnswer : Type 0 where
  no_pnl : SyncAnswer
  no_summary : Decimal → Decimal → SyncAnswer
  complete : Decimal → Decimal → SyncAnswer

abbrev pub with_pnl : Decimal → Decimal → AccountContext → AccountContext
with_pnl realized unrealized ctx = record ctx {
  state = record ctx.state { realized_pnl = realized; unrealized_pnl = unrealized };
}

-- `_sync_broker_pnl` for an account, up to its wait for the summary.
unfoldable pub sync_pnl : Decimal → Decimal → AccountContext → AccountContext
sync_pnl realized unrealized ctx = raise_high (with_pnl realized unrealized ctx)

-- `_sync_broker_pnl` for an account, with no other handler while it waits.
unfoldable pub sync_account :
    SyncAnswer → ℕ → List OpenOrder → AccountContext → AccountContext × List Command
sync_account SyncAnswer.no_pnl now orders ctx = (ctx, [])
sync_account (SyncAnswer.no_summary r u) now orders ctx = (sync_pnl r u ctx, [])
sync_account (SyncAnswer.complete r u) now orders ctx = check_halt (sync_pnl r u ctx) now orders

-- `_check_day_rollover` for an account.
unfoldable pub roll_account : ℕ → AccountContext → AccountContext
roll_account today ctx = if ctx.state.date == today then ctx else record ctx {
  positions = [];
  state = record {
    date = today;
    realized_pnl = pos 0;
    unrealized_pnl = pos 0;
    session_high_pnl = pos 0;
    max_drawdown = pos 0;
    daily_loss_limit = share ctx.config.account_size ctx.config.max_daily_loss_pct;
    trades_taken = 0;
    open_positions = 0;
    is_halted = false;
    halt_reason = none;
    halt_time = none;
  };
}

-- The context that `_build_account_contexts` makes of a configured account.
unfoldable pub new_account : ℕ → AccountConfig → AccountContext
new_account today cfg = record {
  config = cfg;
  positions = [];
  state = record {
    date = today;
    realized_pnl = pos 0;
    unrealized_pnl = pos 0;
    session_high_pnl = pos 0;
    max_drawdown = pos 0;
    daily_loss_limit = share cfg.account_size cfg.max_daily_loss_pct;
    trades_taken = 0;
    open_positions = 0;
    is_halted = false;
    halt_reason = none;
    halt_time = none;
  };
}

-- `_get_setup`: the first of the symbol's setups with the id.
unfoldable pub get_setup : ℕ → List Setup → Option Setup
get_setup setup_id [] = none
get_setup setup_id (s ∷ setups) =
    let rest = get_setup setup_id setups in if s.setup_id == setup_id then some s else rest

-- The counters and commands of a verdict: true if the ValueError leaves the handler.
unfoldable pub conclude : Verdict → RiskEngine → RiskEngine × List Command × Bool
conclude (Verdict.planned p) e =
    (record e { plans_generated = e.plans_generated + 1 }, Command.submit_plan p ∷ [], false)
conclude (Verdict.violation v) e = (record e { plans_rejected = e.plans_rejected + 1 }, [], false)
conclude Verdict.validation_error e = (e, [], true)

-- `_handle_setup`, of an event in state TRIGGERED. `account_id` is the settings' default account.
unfoldable pub handle_setup : ℕ → ℕ → List Setup → ℕ → RiskEngine → RiskEngine × List Command × Bool
handle_setup account_id setup_id setups plan_id e = elim (get_setup setup_id setups) [
  | none ↦ (e, [], false)
  | some s ↦ elim (lookup account_id e.accounts) [
    | none ↦ (record e { plans_rejected = e.plans_rejected + 1 }, [], false)
    | some ctx ↦
        if ctx.state.is_halted
        then (record e { plans_rejected = e.plans_rejected + 1 }, [], false)
        else conclude (evaluate plan_id s ctx) e
  ]
]
