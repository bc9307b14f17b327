-- ===== src/Execution/Readiness.antt =====
-- The startup gate, src/alpha/engines/execution/readiness.py.
use alpha_runtime_v.Base.{
  ◌≡◌, ◌↔◌, Bool, true, false, ◌&&◌, Option, none, some, List, [], ◌∷◌, ◌++◌, arith,
}

pub record ExecutionReadiness : Type 0 where
  pub broker_connected : Bool
  pub positions_reconciled : Bool
  pub orders_reconciled : Bool
  pub executions_reconciled : Bool
  pub account_state_loaded : Bool
  pub market_data_fresh : Bool

pub data BlockingReason : Type 0 where
  broker_not_connected positions_not_reconciled orders_not_reconciled executions_not_reconciled
        account_state_not_loaded market_data_stale_or_disconnected :
      BlockingReason

unfoldable pub ready : ExecutionReadiness → Bool
ready r =
    r.broker_connected && r.positions_reconciled && r.orders_reconciled && r.executions_reconciled
    && r.account_state_loaded && r.market_data_fresh

-- One `if not condition: reasons.append(reason)`.
abbrev unless : Bool → BlockingReason → List BlockingReason
unless true reason = []
unless false reason = reason ∷ []

unfoldable pub blocking_reasons : ExecutionReadiness → List BlockingReason
blocking_reasons r =
    unless r.broker_connected broker_not_connected
    ++ (unless r.positions_reconciled positions_not_reconciled
        ++ (unless r.orders_reconciled orders_not_reconciled
            ++ (unless r.executions_reconciled executions_not_reconciled
                ++ (unless r.account_state_loaded account_state_not_loaded
                    ++ unless r.market_data_fresh market_data_stale_or_disconnected))))

-- The keyword arguments of `with_update`; a missing one is `none`.
pub record Update : Type 0 where
  pub broker_connected : Option Bool
  pub positions_reconciled : Option Bool
  pub orders_reconciled : Option Bool
  pub executions_reconciled : Option Bool
  pub account_state_loaded : Option Bool
  pub market_data_fresh : Option Bool

-- `kwargs.get(name, default)`
abbrev get : Option Bool → Bool → Bool
get none default = default
get (some b) default = b

unfoldable pub with_update : ExecutionReadiness → Update → ExecutionReadiness
with_update r u = record {
  broker_connected = get u.broker_connected r.broker_connected;
  positions_reconciled = get u.positions_reconciled r.positions_reconciled;
  orders_reconciled = get u.orders_reconciled r.orders_reconciled;
  executions_reconciled = get u.executions_reconciled r.executions_reconciled;
  account_state_loaded = get u.account_state_loaded r.account_state_loaded;
  market_data_fresh = get u.market_data_fresh r.market_data_fresh;
}

-- `EXECUTION_NOT_READY`
abbrev pub execution_not_ready : ExecutionReadiness
execution_not_ready = record {
  broker_connected = false;
  positions_reconciled = false;
  orders_reconciled = false;
  executions_reconciled = false;
  account_state_loaded = false;
  market_data_fresh = false;
}

-- The gate is open exactly when no reason blocks.
pub ready_iff : (r : ExecutionReadiness) → (ready r ≡ true) ↔ (blocking_reasons r ≡ [])
unfolding ready blocking_reasons
ready_iff r = ground arith
