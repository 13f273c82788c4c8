-- ===== src/Backtesting/Replay/Feed.antt =====
-- The order of the feed.
use lametrader.Prelude.{
  ◌≤◌, ◌<◌, ◌≡◌, ◌↔◌, ◌⊎◌, inl, inr, true, false, List, In, ◌==◌, number_keyed, arith, Bool-cases,
}
use lametrader.Prelude.Sort.{Pairwise, Pairwise-unit, sort_by-mem, sort_by-Pairwise}
use lametrader.Config.{Period, period_millis}
use lametrader.Market.Candle.{Candle}
use lametrader.Backtesting.Replay.{
  FeedCandle, completion, comes_first, flatten, order_backtest_feed,
}

module _ {N : Type 0} where
  -- Earlier in completion, or at the same time and no coarser.
  abbrev pub Precedes : FeedCandle N → FeedCandle N → Type 0
  Precedes a b =
      (completion a < completion b)
      ⊎ ((completion a ≡ completion b) × (period_millis a.period ≤ period_millis b.period))

  comes_first-Precedes : (a b : FeedCandle N) → comes_first a b ≡ true → Precedes a b
  unfolding comes_first
  comes_first-Precedes a b e = elim (Bool-cases (completion a == completion b)) [
    | inl same ↦ inr (ground arith, ground arith)
    | inr other ↦ inl (ground arith)
  ]

  comes_first-after : (a b : FeedCandle N) → comes_first a b ≡ false → Precedes b a
  unfolding comes_first
  comes_first-after a b e = elim (Bool-cases (completion a == completion b)) [
    | inl same ↦ inr (ground arith, ground arith)
    | inr other ↦ inl (ground arith)
  ]

  Precedes-trans : (a b c : FeedCandle N) → Precedes a b → Precedes b c → Precedes a c
  Precedes-trans a b c (inl h) (inl k) = inl (omega arith)
  Precedes-trans a b c (inl h) (inr k) = inl (omega arith)
  Precedes-trans a b c (inr h) (inl k) = inl (omega arith)
  Precedes-trans a b c (inr h) (inr k) = inr (omega arith, omega arith)

  -- The feed holds the candles of every period and no others, each with its period; and a candle
  -- comes after another one only if it does not complete earlier, nor at the same time with a finer
  -- period.
  pub order_backtest_feed_lem :
      (per_period : List (Period × List (Candle N)))
      → ((item : FeedCandle N)
          → In item (order_backtest_feed per_period) ↔ In item (flatten per_period))
        × Pairwise Precedes (order_backtest_feed per_period)
  unfolding order_backtest_feed
  order_backtest_feed_lem per_period = (
    λ item. sort_by-mem comes_first item (flatten per_period),
    sort_by-Pairwise comes_first Precedes (λ a b. Unit {0}) (λ a b d e. comes_first-Precedes a b e)
        (λ a b d e. comes_first-after a b e) Precedes-trans (flatten per_period)
        (Pairwise-unit (flatten per_period)),
  )
