-- ===== src/RiskEngine/Model.antt =====
-- The records of src/alpha/models/risk.py and of the position book of src/alpha/engines/risk/engine.py.
-- Amounts count a unit so fine that the shares of an account's size are whole; a fraction is a number
-- of ten-thousandths. What is only displayed (ratios as floats, the broker's balances) is left out.
use alpha_runtime_v.Base.{ℕ, ◌*◌, ◌/◌, Bool, true, false, ◌&&◌, Option, if◌then◌else◌}
use alpha_runtime_v.Base.Int.{pos, ◌+ℤ◌, ◌-ℤ◌, ltb_ℤ, neg_part}
use alpha_runtime_v.Base.Dict.{Dict}
use alpha_runtime_v.Execution.Enums.{OrderSide, SetupType, KillSwitchReason}
use alpha_runtime_v.Execution.Models.{Decimal}

pub data AccountType : Type 0 where
  day swing : AccountType

pub record AccountConfig : Type 0 where
  pub account_id : ℕ
  pub account_type : AccountType
  pub account_size : Decimal
  pub max_daily_loss_pct : ℕ
  pub max_position_risk_pct : ℕ
  pub max_open_positions : ℕ
  pub profit_protect_activation : Decimal
  pub profit_protect_giveback_pct : ℕ
  pub kill_switch_flatten : Bool

-- An amount times a fraction, towards 0.
unfoldable pub share : Decimal → ℕ → Decimal
share (pos n) pct = pos (n * pct / 10000)
share amount pct = pos 0 -ℤ pos (neg_part amount * pct / 10000)

pub record DailyRiskState : Type 0 where
  pub date : ℕ
  pub realized_pnl : Decimal
  pub unrealized_pnl : Decimal
  pub session_high_pnl : Decimal
  pub max_drawdown : Decimal
  pub daily_loss_limit : Decimal
  pub trades_taken : ℕ
  pub open_positions : ℕ
  pub is_halted : Bool
  pub halt_reason : Option KillSwitchReason
  pub halt_time : Option ℕ

unfoldable pub current_pnl : DailyRiskState → Decimal
current_pnl s = s.realized_pnl +ℤ s.unrealized_pnl

unfoldable pub remaining_risk : DailyRiskState → Decimal
remaining_risk s =
    let left : Decimal = s.daily_loss_limit +ℤ s.realized_pnl in
    if ltb_ℤ (pos 0) left then left else pos 0

pub record PositionEntry : Type 0 where
  pub qty : ℕ
  pub avg_price : Decimal
  pub side : OrderSide

-- `_AccountRiskContext`
pub record AccountContext : Type 0 where
  pub config : AccountConfig
  pub state : DailyRiskState
  pub positions : Dict ℕ PositionEntry

pub record TradePlan : Type 0 where
  pub plan_id : ℕ
  pub setup_id : ℕ
  pub symbol : ℕ
  pub side : OrderSide
  pub account_id : ℕ
  pub entry_price : Decimal
  pub stop_price : Decimal
  pub target_price : Decimal
  pub position_size : ℕ
  pub risk_amount : ℕ
  pub reward_amount : ℕ
  pub account_size : Decimal

abbrev pub is_buy : OrderSide → Bool
is_buy OrderSide.buy = true
is_buy OrderSide.sell = false

-- `validate_levels`
unfoldable pub validate_levels : TradePlan → Bool
validate_levels p =
    if is_buy p.side
    then ltb_ℤ p.stop_price p.entry_price && ltb_ℤ p.entry_price p.target_price
    else ltb_ℤ p.target_price p.entry_price && ltb_ℤ p.entry_price p.stop_price

-- What is read of a `Setup`.
pub record Setup : Type 0 where
  pub setup_id : ℕ
  pub symbol : ℕ
  pub setup_type : SetupType
  pub entry_trigger : Option Decimal
  pub stop_reference : Option Decimal
  pub target_reference : Option Decimal
