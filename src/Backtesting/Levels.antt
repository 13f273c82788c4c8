-- ===== src/Backtesting/Levels.antt =====
-- The price levels of an open position and its intrabar exit (the levelExit, profitTargetLevel and
-- stopLossLevel of packages/backend/src/analytics/backtesting/backtest-executor.ts).
use lametrader.Prelude.{Option, none, some, if◌then◌else◌}
use lametrader.Float.{Float}
use lametrader.Backtesting.Trade.{
  fixed, percentage, BacktestExitReason, profit_target, stop_loss, BaseCandle, BacktestThreshold,
  BacktestStrategyExit, OpenLot,
}

module _ {N : Type 0} ⦃f : Float N⦄ where
  unfoldable pub profit_target_level : N → BacktestThreshold N → N
  profit_target_level entry_price threshold = elim threshold.kind [
    | fixed ↦ f.add entry_price threshold.amount
    | percentage ↦ f.mul entry_price (f.add (f.lit 1) (f.div threshold.amount (f.lit 100)))
  ]

  unfoldable pub stop_loss_level : N → BacktestThreshold N → N
  stop_loss_level entry_price threshold = elim threshold.kind [
    | fixed ↦ f.sub entry_price threshold.amount
    | percentage ↦ f.mul entry_price (f.sub (f.lit 1) (f.div threshold.amount (f.lit 100)))
  ]

  -- The target's test, on the candle's high.
  unfoldable pub target_exit :
      BacktestStrategyExit N → BaseCandle N → OpenLot N → Option (N × BacktestExitReason)
  target_exit exit candle pos = elim exit.target [
    | none ↦ none
    | some threshold ↦
        let level = profit_target_level pos.entry_price threshold in
        if f.le level candle.high then some (level, profit_target) else none
  ]

  -- The stop's test, on the candle's low, comes before it.
  unfoldable pub level_exit :
      BacktestStrategyExit N → BaseCandle N → OpenLot N → Option (N × BacktestExitReason)
  unfolding target_exit
  level_exit exit candle pos = elim exit.stop [
    | none ↦ target_exit exit candle pos
    | some threshold ↦
        let level = stop_loss_level pos.entry_price threshold in
        if f.le candle.low level then some (level, stop_loss) else target_exit exit candle pos
  ]
