-- ===== src/Execution/Enums.antt =====
-- The enumerations of src/alpha/models/enums.py that the execution subsystem uses.

pub data OrderSide : Type 0 where
  buy sell : OrderSide

pub data OrderType : Type 0 where
  market limit stop stop_limit trailing_stop : OrderType

pub data TimeInForce : Type 0 where
  day gtc ioc fok opg cls : TimeInForce

pub data OrderStatus : Type 0 where
  pending submitted accepted partial filled cancel_pending cancelled replace_pending replaced
        rejected broker_rejected expired unknown :
      OrderStatus

pub data BarTimeframe : Type 0 where
  s1 s5 s10 s15 s30 m1 m2 m3 m5 m10 m15 m30 h1 h2 h4 d1 : BarTimeframe

pub data TrendState : Type 0 where
  trending_up trending_down choppy transitioning unknown : TrendState

pub data DayType : Type 0 where
  trend_up trend_down range balanced unknown : DayType

pub data SetupType : Type 0 where
  vwap_reclaim vwap_rejection vwap_undercut_reclaim orb_breakout orb_breakdown sweep_reclaim
        fake_breakdown deep_exhaustion_reclaim hod_breakout trend_pullback trend_pullback_short
        vwap_failed_reclaim_short relative_strength_breakout onl_sweep_reclaim_long
        double_bottom_reclaim_long :
      SetupType

pub data SetupGrade : Type 0 where
  sss a_plus a b c : SetupGrade

pub data KillSwitchReason : Type 0 where
  daily_loss_limit profit_protection protective_stop_rejected unmanaged_position
        reconciliation_failure manual :
      KillSwitchReason

pub data DataQualityState : Type 0 where
  clean degraded recovering failed : DataQualityState

pub data TradeAction : Type 0 where
  open_long open_short reduce_long reduce_short flatten reverse_long reverse_short : TradeAction

pub data PriceMode : Type 0 where
  join_bid join_ask cross_one_tick marketable_limit midpoint passive_one_tick : PriceMode

pub data IntentStatus : Type 0 where
  received validating awaiting_confirmation confirmed planning plan_ready submitting active
        completed cancelled expired rejected failed :
      IntentStatus

pub data RiskDecision : Type 0 where
  approved approved_with_modifications rejected : RiskDecision

pub data OrderRole : Type 0 where
  entry stop target : OrderRole

pub data IntentSource : Type 0 where
  hotkey api strategy manual : IntentSource

-- Equality of members, which Python decides by their values.
unfoldable pub OrderSide-discrete : Discrete OrderSide
OrderSide-discrete = hlevel

unfoldable pub OrderStatus-discrete : Discrete OrderStatus
OrderStatus-discrete = hlevel

unfoldable pub IntentStatus-discrete : Discrete IntentStatus
IntentStatus-discrete = hlevel
