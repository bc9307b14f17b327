-- ===== src/Thesis/Flow.antt =====
-- `_handle_trade`, `_handle_quote` and `_compute_tick_flow` of src/alpha/engines/thesis/engine.py: a rolling
-- window of trades and what it shows at a time. A time is a number of microseconds.
use alpha_runtime_v.Base.{
  ℕ, ◌+◌, ◌==◌, Bool, false, not, ◌&&◌, Option, none, some, List, [], ◌∷◌, ltb, if◌then◌else◌,
}
use alpha_runtime_v.Base.Int.{pos, ◌-ℤ◌}
use alpha_runtime_v.Base.Lists.{length, filter}
use alpha_runtime_v.Thesis.Model.{Floats, TickFlowSnapshot}

pub record TradeRecord : Type 0 where
  pub ts : ℕ
  pub size : ℕ
  pub is_buy : Bool
  pub is_sell : Bool

pub record Quote : Type 0 where
  pub bid_size : ℕ
  pub ask_size : ℕ

-- Whether a trade is older than so many seconds.
abbrev pub is_stale : ℕ → ℕ → TradeRecord → Bool
is_stale seconds as_of r = ltb (r.ts + seconds) as_of

-- The loop that pops stale trades from the left.
unfoldable pub trim : ℕ → List TradeRecord → List TradeRecord
trim as_of [] = []
trim as_of (r ∷ window) =
    let rest = trim as_of window in if is_stale 30000000 as_of r then rest else r ∷ window

unfoldable pub volume : List TradeRecord → ℕ
volume [] = 0
volume (r ∷ records) = r.size + volume records

abbrev pub buys : List TradeRecord → List TradeRecord
buys = filter (λ r. r.is_buy)

abbrev pub sells : List TradeRecord → List TradeRecord
sells = filter (λ r. r.is_sell)

module _ {F : Type 0} (fl : Floats F) where
  -- A number of things over a number of seconds, and `None` for a list that is empty.
  abbrev pub per_second : ℕ → ℕ → F
  per_second n seconds = fl.div (fl.of_int (pos n)) (fl.of_int (pos seconds))

  abbrev pub rate_if_any : List TradeRecord → ℕ → ℕ → Option F
  rate_if_any [] n seconds = none
  rate_if_any (r ∷ records) n seconds = some (per_second n seconds)

  -- The first two results of `_metrics`.
  abbrev pub rate : List TradeRecord → ℕ → ℕ → F
  rate [] n seconds = fl.lit (pos 0)
  rate (r ∷ records) n seconds = per_second n seconds

  unfoldable pub avg_size : List TradeRecord → F
  avg_size [] = fl.lit (pos 0)
  avg_size (r ∷ records) =
      fl.div (fl.of_int (pos (volume (r ∷ records)))) (fl.of_int (pos (length (r ∷ records))))

  unfoldable pub large_burst_count : F → List TradeRecord → ℕ
  large_burst_count avg records =
      length (filter (λ r. fl.lt (fl.mul avg (fl.lit (pos 300))) (fl.of_int (pos r.size))) records)

  -- `_session_avg_tps` at a wall time.
  unfoldable pub session_avg_tps : ℕ → Option ℕ → ℕ → F
  session_avg_tps now none count = fl.lit (pos 0)
  session_avg_tps now (some start) count =
      let elapsed : F = fl.div (fl.of_int (pos now -ℤ pos start)) (fl.of_int (pos 1000000)) in
      if count == 0
      then fl.lit (pos 0)
      else if fl.lt (fl.lit (pos 0)) elapsed
      then fl.div (fl.of_int (pos count)) elapsed
      else fl.lit (pos 0)

  unfoldable pub book_imbalance : Option Quote → Option F
  book_imbalance none = none
  book_imbalance (some q) =
      if ltb 0 q.bid_size && ltb 0 q.ask_size
      then some (
          fl.div (fl.of_int (pos q.bid_size -ℤ pos q.ask_size))
            (fl.of_int (pos (q.bid_size + q.ask_size))))
      else none

  unfoldable pub volume_acceleration : F → F → F
  volume_acceleration vps_10 vps_30 =
      if fl.lt (fl.lit (pos 0)) vps_30 then fl.div vps_10 vps_30 else fl.lit (pos 100)

  unfoldable pub no_flow : TickFlowSnapshot F
  no_flow =
      let zero_rate : F = fl.lit (pos 0) in
      record {
        tps_10s = zero_rate;
        tps_30s = zero_rate;
        vps_10s = zero_rate;
        vps_30s = zero_rate;
        buy_tps_10s = none;
        sell_tps_10s = none;
        buy_vps_10s = none;
        sell_vps_10s = none;
        avg_trade_size_30s = zero_rate;
        large_burst_count_10s = 0;
        volume_acceleration = fl.lit (pos 100);
        session_avg_tps = zero_rate;
        bar_delta = zero_rate;
        absorption = false;
        book_imbalance = none;
      }

  -- The snapshot of a window that was trimmed, after the quick exit for one that was empty before.
  unfoldable pub flow_of : ℕ → F → Option Quote → List TradeRecord → TickFlowSnapshot F
  flow_of as_of session_avg quote records_30 =
      let records_10 : List TradeRecord =
        filter (λ r. not (is_stale 10000000 as_of r)) records_30 in
      let vps_10 : F = rate records_10 (volume records_10) 10 in
      let vps_30 : F = rate records_30 (volume records_30) 30 in
      let accel : F = volume_acceleration vps_10 vps_30 in
      let bar_delta : F =
        fl.of_int (pos (volume (buys records_30)) -ℤ pos (volume (sells records_30))) in
      record {
        tps_10s = rate records_10 (length records_10) 10;
        tps_30s = rate records_30 (length records_30) 30;
        vps_10s = vps_10;
        vps_30s = vps_30;
        buy_tps_10s = rate_if_any (buys records_10) (length (buys records_10)) 10;
        sell_tps_10s = rate_if_any (sells records_10) (length (sells records_10)) 10;
        buy_vps_10s = rate_if_any (buys records_10) (volume (buys records_10)) 10;
        sell_vps_10s = rate_if_any (sells records_10) (volume (sells records_10)) 10;
        avg_trade_size_30s = avg_size records_30;
        large_burst_count_10s = large_burst_count (avg_size records_30) records_10;
        volume_acceleration = accel;
        session_avg_tps = session_avg;
        bar_delta = bar_delta;
        absorption = fl.lt (fl.lit (pos 0)) bar_delta && fl.lt accel (fl.lit (pos 80));
        book_imbalance = book_imbalance quote;
      }

  -- `_compute_tick_flow`: the snapshot, and the window that it leaves.
  unfoldable pub compute_tick_flow :
      ℕ → F → Option Quote → List TradeRecord → TickFlowSnapshot F × List TradeRecord
  compute_tick_flow as_of session_avg quote [] = (no_flow, [])
  compute_tick_flow as_of session_avg quote (r ∷ window) =
      let records_30 : List TradeRecord = trim as_of (r ∷ window) in
      (flow_of as_of session_avg quote records_30, records_30)
