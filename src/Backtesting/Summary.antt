-- ===== src/Backtesting/Summary.antt =====
-- The summary of a run (the summarizeTrades of
-- packages/backend/src/analytics/backtesting/backtest-executor.ts).
pub mod Laws
use lametrader.Prelude.{ℕ, Bool, ◌==◌, number_keyed, List, [], ◌∷◌, filter, length, if◌then◌else◌}
use lametrader.Float.{Float}
use lametrader.Backtesting.Trade.{BacktestTrade, BacktestSummary}

abbrev day_ms : ℕ
day_ms = 86400000

module _ {N : Type 0} ⦃f : Float N⦄ where
  -- `trades.reduce((sum, trade) => sum + value(trade), sum)`
  unfoldable pub sum_from : (BacktestTrade N → N) → N → List (BacktestTrade N) → N
  sum_from value sum [] = sum
  sum_from value sum (trade ∷ trades) = sum_from value (f.add sum (value trade)) trades

  abbrev pub is_winner : BacktestTrade N → Bool
  is_winner trade = f.lt (f.lit 0) trade.pnl

  abbrev pub is_loser : BacktestTrade N → Bool
  is_loser trade = f.lt trade.pnl (f.lit 0)

  abbrev pub days_in_trade : BacktestTrade N → N
  days_in_trade trade = f.div (f.sub (f.lit trade.exit_ts) (f.lit trade.entry_ts)) (f.lit day_ms)

  -- A sum over the trades by their count, 0 with no trades.
  unfoldable pub average : ℕ → N → N
  average trade_count sum = if trade_count == 0 then f.lit 0 else f.div sum (f.lit trade_count)

  unfoldable pub summarize_trades : List (BacktestTrade N) → N → BacktestSummary N
  unfolding sum_from average
  summarize_trades trades initial_capital =
      let trade_count = length trades in
      let total_pnl = sum_from (λ trade. trade.pnl) (f.lit 0) trades in
      record {
        total_pnl = total_pnl;
        roi_pct =
            if f.lt (f.lit 0) initial_capital
            then f.mul (f.div total_pnl initial_capital) (f.lit 100)
            else f.lit 0;
        avg_pnl_per_trade = average trade_count total_pnl;
        trade_count = trade_count;
        winners = length (filter is_winner trades);
        losers = length (filter is_loser trades);
        avg_roi_pct = average trade_count (sum_from (λ trade. trade.roi_pct) (f.lit 0) trades);
        avg_days_in_trade = average trade_count (sum_from days_in_trade (f.lit 0) trades);
      }

  unfoldable pub empty_backtest_summary : BacktestSummary N
  empty_backtest_summary = summarize_trades [] (f.lit 0)
