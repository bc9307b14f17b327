-- ===== src/RiskEngine/Accounts.antt =====
-- `RiskEngine` of src/alpha/engines/risk/engine.py: what it does to all its accounts.
use alpha_runtime_v.Base.{
  ℕ, Bool, true, false, ◌&&◌, Option, none, some, List, [], ◌∷◌, ◌++◌, if◌then◌else◌,
}
use alpha_runtime_v.Base.Dict.{Dict, nat_eq, lookup, insert}
use alpha_runtime_v.Execution.Enums.{OrderSide, OrderStatus}
use alpha_runtime_v.Execution.Models.{Decimal}
use alpha_runtime_v.RiskEngine.Model.{AccountConfig, AccountContext}
use alpha_runtime_v.RiskEngine.Handlers.{
  OpenOrder, Command, RiskEngine, fill_account, SyncAnswer, sync_account, roll_account, new_account,
}

-- `_build_account_contexts` over the configured accounts; an id that comes twice keeps the last.
unfoldable pub build_account_contexts :
    ℕ → List AccountConfig → Dict ℕ AccountContext → Dict ℕ AccountContext
build_account_contexts today [] d = d
build_account_contexts today (cfg ∷ cfgs) d =
    build_account_contexts today cfgs (insert cfg.account_id (new_account today cfg) d)

-- `is_account_halted`, and `is_halted` of all accounts.
unfoldable pub is_account_halted : ℕ → RiskEngine → Bool
is_account_halted id e = elim (lookup id e.accounts) [
  | none ↦ false
  | some ctx ↦ ctx.state.is_halted
]

abbrev pub all_halted : Dict ℕ AccountContext → Bool
all_halted [] = true
all_halted ((id, ctx) ∷ d) = ctx.state.is_halted && all_halted d

unfoldable pub is_halted : RiskEngine → Bool
is_halted e = elim e.accounts [ [] ↦ false | a ∷ d ↦ all_halted e.accounts ]

-- What is read of an `OrderUpdateEvent`.
pub record OrderUpdate : Type 0 where
  pub order_status : OrderStatus
  pub account_id : ℕ
  pub symbol : ℕ
  pub side : Option OrderSide
  pub filled_quantity : ℕ
  pub avg_fill_price : Option Decimal

abbrev pub is_filled : OrderStatus → Bool
is_filled OrderStatus.filled = true
is_filled _ = false

abbrev pub at_account :
    ℕ → (AccountContext → AccountContext × List Command) → RiskEngine → RiskEngine × List Command
at_account id f e = elim (lookup id e.accounts) [
  | none ↦ (e, [])
  | some ctx ↦ (record e { accounts = insert id (f ctx).0 e.accounts }, (f ctx).1)
]

-- `_handle_order_update`; one that raises leaves the accounts as they are.
unfoldable pub handle_order_update :
    (Decimal → ℕ → Decimal)
    → OrderUpdate
    → ℕ
    → List OpenOrder
    → RiskEngine
    → RiskEngine × List Command
handle_order_update quotient u now orders e =
    if is_filled u.order_status
    then elim u.avg_fill_price [
      | none ↦ (e, [])
      | some price ↦ elim u.side [
        | none ↦ (e, [])
        | some side ↦
            at_account u.account_id
              (λ ctx.
                elim (fill_account quotient u.symbol side u.filled_quantity price now orders ctx) [
                  | none ↦ (ctx, [])
                  | some r ↦ r
                ])
              e
      ]
    ]
    else (e, [])

-- The loops over the accounts.
unfoldable pub sync_all :
    (ℕ → SyncAnswer)
    → ℕ
    → List OpenOrder
    → Dict ℕ AccountContext
    → Dict ℕ AccountContext × List Command
sync_all answers now orders [] = ([], [])
sync_all answers now orders ((id, ctx) ∷ d) =
    let first : AccountContext × List Command = sync_account (answers id) now orders ctx in
    let rest : Dict ℕ AccountContext × List Command = sync_all answers now orders d in
    ((id, first.0) ∷ rest.0, first.1 ++ rest.1)

-- `_sync_broker_pnl`
unfoldable pub sync_broker_pnl :
    Bool → (ℕ → SyncAnswer) → ℕ → List OpenOrder → RiskEngine → RiskEngine × List Command
sync_broker_pnl connected answers now orders e =
    let synced : Dict ℕ AccountContext × List Command = sync_all answers now orders e.accounts in
    if connected then (record e { accounts = synced.0 }, synced.1) else (e, [])

unfoldable pub roll_all : ℕ → Dict ℕ AccountContext → Dict ℕ AccountContext
roll_all today [] = []
roll_all today ((id, ctx) ∷ d) = (id, roll_account today ctx) ∷ roll_all today d

-- `_check_day_rollover`
unfoldable pub check_day_rollover : ℕ → RiskEngine → RiskEngine
check_day_rollover today e = record e { accounts = roll_all today e.accounts }
