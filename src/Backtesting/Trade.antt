-- ===== src/Backtesting/Trade.antt =====
-- The data of a run (packages/core/src/types/backtesting, and the OpenLot of
-- backtest-executor.ts).
use lametrader.Prelude.{ℕ, String, Option, List}
use lametrader.State.{StateValue}
pub use lametrader.Market.Candle.{BaseCandle}

pub data BacktestThresholdKind : Type 0 where
  fixed percentage : BacktestThresholdKind

pub data BacktestExitReason : Type 0 where
  signal profit_target stop_loss : BacktestExitReason

module _ (N : Type 0) where
  pub record BacktestSignal : Type 0 where
    pub key : String
    pub value : StateValue N

  pub record BacktestThreshold : Type 0 where
    pub kind : BacktestThresholdKind
    pub amount : N

  pub record BacktestStrategyExit : Type 0 where
    pub exit_signal : Option BacktestSignal
    pub target : Option BacktestThreshold
    pub stop : Option BacktestThreshold

  pub record BacktestCommission : Type 0 where
    pub rate : Option N
    pub fixed_fee : Option N

  pub record BacktestTrade : Type 0 where
    pub entry_ts : ℕ
    pub exit_ts : ℕ
    pub entry_price : N
    pub exit_price : N
    pub quantity : N
    pub commission : N
    pub pnl : N
    pub roi_pct : N
    pub exit_reason : BacktestExitReason

  pub record OpenLot : Type 0 where
    pub entry_ts : ℕ
    pub entry_price : N
    pub quantity : N
    pub notional : N
    pub entry_commission : N

  pub record BacktestOpenPosition : Type 0 where
    pub entry_ts : ℕ
    pub entry_price : N
    pub quantity : N
    pub entry_commission : N
    pub unrealized_pnl : N

  pub record BacktestSummary : Type 0 where
    pub total_pnl : N
    pub roi_pct : N
    pub avg_pnl_per_trade : N
    pub trade_count : ℕ
    pub winners : ℕ
    pub losers : ℕ
    pub avg_roi_pct : N
    pub avg_days_in_trade : N

  pub record BacktestExecutorResult : Type 0 where
    pub trades : List BacktestTrade
    pub open_position : Option BacktestOpenPosition
    pub summary : BacktestSummary
