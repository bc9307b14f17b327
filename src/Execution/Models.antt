-- ===== src/Execution/Models.antt =====
-- The domain models of src/alpha/engines/execution/models.py and of src/alpha/models/order.py.
-- A `Decimal` is an integer, the amount counted in units of 1/20000; a `datetime` is a number of
-- microseconds; a string that is only compared is a number. Free text for people (`explanation`,
-- `detail`) is left out.
pub mod Orders
use Prim.Native.String.{String}
use alpha_runtime_v.Base.{
  ℕ, ◌==◌, ◌≡◌, ◌↔◌, Bool, true, false, not, ◌&&◌, ◌||◌, Option, none, some, List, [], ◌∷◌, ◌++◌,
  map, arith, if◌then◌else◌,
}
use alpha_runtime_v.Base.Int.{ℤ, pos, ◌+ℤ◌, ◌-ℤ◌, neg, ltb_ℤ}
use alpha_runtime_v.Base.Lists.{filter, sum_ℤ}
use alpha_runtime_v.Base.Dict.{Dict, Eq, nat_eq, lookup}
use alpha_runtime_v.Execution.Enums.{
  OrderSide, OrderType, TimeInForce, OrderStatus, TrendState, DayType, KillSwitchReason,
  DataQualityState, TradeAction, PriceMode, IntentStatus, RiskDecision, OrderRole, IntentSource,
}

abbrev pub Decimal : Type 0
Decimal = ℤ

-- Decimal("0.25") and the like: `units n` is n / 20000.
abbrev pub units : ℕ → Decimal
units n = pos n

-- The strings that name an order: a runtime id, whose part before the first dash is the first
-- number; a string with no dash; and `str` of a UUID, which is never of the form "ro-...".
pub data OrderId : Type 0 where
  dashed : ℕ → ℕ → OrderId
  undashed : ℕ → OrderId
  uuid : ℕ → OrderId

unfoldable pub eq_order_id : OrderId → OrderId → Bool
eq_order_id (OrderId.dashed a b) (OrderId.dashed c d) = a == c && b == d
eq_order_id (OrderId.undashed a) (OrderId.undashed c) = a == c
eq_order_id (OrderId.uuid a) (OrderId.uuid c) = a == c
eq_order_id _ _ = false

pub eq_order_id_iff : (a b : OrderId) → (eq_order_id a b ≡ true) ↔ (a ≡ b)
unfolding eq_order_id
eq_order_id_iff a b = ground arith

instance abbrev pub order_id_eq : Eq OrderId
order_id_eq = record { beq = eq_order_id; beq_iff = eq_order_id_iff }

-- Snapshot ids: f"{symbol}-{version}", f"acct-{ms}" or f"exec-{ms}", and "".
pub data SnapshotId : Type 0 where
  versioned : ℕ → ℕ → SnapshotId
  stamped : ℕ → SnapshotId
  blank : SnapshotId

pub record QuoteSnapshot : Type 0 where
  pub instrument_id : ℕ
  pub bid : Decimal
  pub ask : Decimal
  pub last : Decimal
  pub timestamp : ℕ

pub record MarketContextSnapshot : Type 0 where
  pub instrument_id : ℕ
  pub snapshot_id : SnapshotId
  pub as_of : ℕ
  pub bar_timestamp : ℕ
  pub regime : TrendState
  pub day_type : DayType
  pub last_price : Decimal
  pub bid : Decimal
  pub ask : Decimal
  pub vwap : Decimal
  pub above_vwap : Bool
  pub bars_since_vwap_cross : ℕ
  pub ema9 : Option Decimal
  pub ema21 : Option Decimal
  pub opening_range_high : Option Decimal
  pub opening_range_low : Option Decimal
  pub rvol : Option Decimal
  pub signal_freshness_ms : ℕ
  pub data_quality : DataQualityState
  pub setup_scores : Dict ℕ Decimal

-- `MarketContextSnapshot.is_data_reliable`
unfoldable pub is_data_reliable : MarketContextSnapshot → Bool
is_data_reliable m = elim m.data_quality [
  | DataQualityState.clean ↦ true
  | DataQualityState.recovering ↦ true
  | _ ↦ false
]

pub record AccountSnapshot : Type 0 where
  pub snapshot_id : SnapshotId
  pub as_of : ℕ
  pub account_id : ℕ
  pub net_liquidation : Decimal
  pub realized_pnl : Decimal
  pub unrealized_pnl : Decimal
  pub daily_loss_limit : Decimal
  pub session_high_pnl : Decimal
  pub is_halted : Bool
  pub halt_reason : Option KillSwitchReason

-- `AccountSnapshot.current_pnl`
unfoldable pub current_pnl : AccountSnapshot → Decimal
current_pnl a = a.realized_pnl +ℤ a.unrealized_pnl

-- `AccountSnapshot.remaining_daily_risk`
unfoldable pub remaining_daily_risk : AccountSnapshot → Decimal
remaining_daily_risk a =
    let left : Decimal = a.daily_loss_limit +ℤ a.realized_pnl in
    if ltb_ℤ (pos 0) left then left else pos 0

pub record WorkingOrder : Type 0 where
  pub runtime_order_id : OrderId
  pub instrument_id : ℕ
  pub side : OrderSide
  pub quantity : Decimal
  pub role : OrderRole

pub record ExecutionSnapshot : Type 0 where
  pub snapshot_id : SnapshotId
  pub as_of : ℕ
  pub positions : Dict ℕ Decimal
  pub working_orders : List WorkingOrder
  pub submitting_intent_ids : List ℕ
  pub session_trade_count : ℕ
  pub consecutive_losses : ℕ

-- `o.quantity if o.side == OrderSide.BUY else -o.quantity`
unfoldable pub signed_quantity : OrderSide → Decimal → Decimal
signed_quantity OrderSide.buy q = q
signed_quantity OrderSide.sell q = neg q

abbrev pub is_entry : OrderRole → Bool
is_entry OrderRole.entry = true
is_entry _ = false

-- The generator's filter in `effective_exposure`.
unfoldable pub is_pending_entry : ℕ → WorkingOrder → Bool
is_pending_entry instrument_id o = o.instrument_id == instrument_id && is_entry o.role

-- `self.positions.get(instrument_id, Decimal("0"))`
unfoldable pub position_of : ℕ → Dict ℕ Decimal → Decimal
position_of instrument_id positions = elim (lookup instrument_id positions) [
  | none ↦ pos 0
  | some q ↦ q
]

unfoldable pub pending_quantity : ℕ → List WorkingOrder → Decimal
pending_quantity instrument_id orders =
    sum_ℤ (
      map (λ o. signed_quantity o.side o.quantity) (filter (is_pending_entry instrument_id) orders))

-- `ExecutionSnapshot.effective_exposure`
unfoldable pub effective_exposure : ExecutionSnapshot → ℕ → Decimal
effective_exposure s instrument_id =
    position_of instrument_id s.positions +ℤ pending_quantity instrument_id s.working_orders

pub record ExecutionPolicy : Type 0 where
  pub price_mode : PriceMode
  pub max_slippage_ticks : ℤ
  pub time_in_force : TimeInForce

pub record ProtectionPolicy : Type 0 where
  pub stop_distance_ticks : ℤ
  pub target_distance_ticks : Option ℤ
  pub use_broker_bracket : Bool
  pub stop_retry_attempts : ℤ

pub record TradeIntent : Type 0 where
  pub intent_id : ℕ
  pub idempotency_key : ℕ
  pub created_at : ℕ
  pub instrument_id : ℕ
  pub action : TradeAction
  pub quantity : Decimal
  pub execution_policy : ExecutionPolicy
  pub protection_policy : ProtectionPolicy
  pub source : IntentSource
  pub client_quote : Option QuoteSnapshot
  pub status : IntentStatus

pub record PlannedOrder : Type 0 where
  pub runtime_order_id : OrderId
  pub role : OrderRole
  pub side : OrderSide
  pub order_type : OrderType
  pub quantity : Decimal
  pub limit_price : Option Decimal
  pub stop_price : Option Decimal
  pub time_in_force : TimeInForce

-- The flags that the risk evaluator raises, those of `HARD_RISK_REASONS`, and any other string.
pub data RiskFlag : Type 0 where
  daily_loss_limit_breached kill_switch_active broker_not_connected positions_not_reconciled
        orders_not_reconciled market_data_stale market_halted max_contracts_exceeded
        unmanaged_position duplicate_intent unknown_broker_order :
      RiskFlag
  unsupported_action_v1 broker_bracket_required no_position_to_flatten : RiskFlag
  market_data_degraded long_below_vwap long_in_downtrend short_above_vwap short_in_uptrend :
      RiskFlag
  other_flag : ℕ → RiskFlag

-- `reward_risk_ratio` is kept as a quotient, its reward and its risk.
pub record IntentTradePlan : Type 0 where
  pub plan_id : ℕ
  pub intent_id : ℕ
  pub decision : RiskDecision
  pub entry_order : Option PlannedOrder
  pub stop_order : Option PlannedOrder
  pub target_orders : List PlannedOrder
  pub calculated_risk_usd : ℤ
  pub max_loss_usd : Decimal
  pub reward_risk_ratio : ℤ × ℤ
  pub market_context_snapshot_id : SnapshotId
  pub account_snapshot_id : SnapshotId
  pub risk_policy_version : String
  pub evaluated_at : ℕ
  pub risk_flags : List RiskFlag

-- `IntentTradePlan.requires_confirmation`
unfoldable pub requires_confirmation : IntentTradePlan → Bool
requires_confirmation p = elim p.decision [
  | RiskDecision.approved_with_modifications ↦ true
  | _ ↦ false
]

abbrev to_list : Option PlannedOrder → List PlannedOrder
to_list none = []
to_list (some o) = o ∷ []

-- `IntentTradePlan.all_orders`
unfoldable pub all_orders : IntentTradePlan → List PlannedOrder
all_orders p = to_list p.entry_order ++ (to_list p.stop_order ++ p.target_orders)

pub record BrokerOrderIdentity : Type 0 where
  pub runtime_order_id : OrderId
  pub broker : String
  pub broker_order_ref : OrderId
  pub broker_client_id : Option ℕ
  pub broker_order_id : Option ℕ
  pub broker_perm_id : Option ℕ
