-- ===== src/Backtesting/Replay.antt =====
-- The replay of a run (packages/backend/src/analytics/backtesting/backtest-replay.service.ts). The
-- wired engine is an argument: feeding it a candle and draining it gives the entries that it
-- logged for the symbol.
pub mod Feed
pub mod Runs
use lametrader.Prelude.{
  ℕ, suc, ◌+◌, ◌-◌, Bool, true, false, String, Option, none, some, List, [], ◌∷◌, ◌++◌, map, leb,
  ltb, if◌then◌else◌, ◌==◌, number_keyed,
}
use lametrader.Prelude.Sort.{sort_by}
use lametrader.Float.{Float}
use lametrader.Config.{Period, period_millis}
use lametrader.Market.Candle.{Candle, CandleEvent, base, time_of}
use lametrader.Market.Candles.{CandleReads}
use lametrader.Rules.EventEntry.{RuleEventEntry}
use lametrader.Backtesting.Trade.{
  BacktestSignal, BacktestStrategyExit, BacktestCommission, BacktestTrade, BacktestOpenPosition,
  BacktestSummary,
}
use lametrader.Backtesting.Summary.{empty_backtest_summary}
use lametrader.Backtesting.Executor.{Executor, create, process_step, result}
use lametrader.Backtesting.Preload.{preload, preloaded_reads}

pub record FeedCandle (N : Type 0) : Type 0 where
  pub period : Period
  pub candle : Candle N

module _ {N : Type 0} where
  abbrev pub completion : FeedCandle N → ℕ
  completion item = time_of item.candle + period_millis item.period

  -- The comparison of the sort: by completion time, then the finer period first.
  unfoldable pub comes_first : FeedCandle N → FeedCandle N → Bool
  comes_first a b =
      if completion a == completion b
      then leb (period_millis a.period) (period_millis b.period)
      else ltb (completion a) (completion b)

  unfoldable pub flatten : List (Period × List (Candle N)) → List (FeedCandle N)
  flatten [] = []
  flatten ((p, candles) ∷ rest) =
      map (λ c. record { period = p; candle = c }) candles ++ flatten rest

  unfoldable pub order_backtest_feed : List (Period × List (Candle N)) → List (FeedCandle N)
  unfolding flatten comes_first sort_by
  order_backtest_feed per_period = sort_by comes_first (flatten per_period)

  -- Each period's candles of the window.
  unfoldable pub load_feed :
      CandleReads N → String → ℕ → ℕ → List Period → List (Period × List (Candle N))
  load_feed reads symbol_id start end [] = []
  load_feed reads symbol_id start end (p ∷ ps) =
      (p, reads.range symbol_id p start end none) ∷ load_feed reads symbol_id start end ps

pub record BacktestParams (N : Type 0) : Type 0 where
  pub symbol_id : String
  pub start : ℕ
  pub end : ℕ
  pub initial_capital : N
  pub commission : BacktestCommission N

-- The milliseconds of the elapsed days.
unfoldable pub elapsed_ms : {N : Type 0} → FeedCandle N → ℕ → ℕ → ℕ
elapsed_ms item start end =
    let past = completion item - start in if leb past (end - start) then past else end - start

module _ {N : Type 0} where
  -- The candles that the run feeds, from its preloaded window.
  unfoldable pub run_feed : CandleReads N → BacktestParams N → List Period → ℕ → List (FeedCandle N)
  unfolding load_feed order_backtest_feed preloaded_reads preload
  run_feed candles params periods bars = order_backtest_feed (
      load_feed
        (preloaded_reads (preload candles params.symbol_id periods bars params.start params.end))
        params.symbol_id params.start params.end periods)

-- What a replay returns beside the engine's log.
pub record ReplayOutcome (N : Type 0) : Type 0 where
  pub trades : List (BacktestTrade N)
  pub open_position : Option (BacktestOpenPosition N)
  pub summary : BacktestSummary N
  pub cancelled : Bool

module _ {N S : Type 0} ⦃f : Float N⦄ where
  unfoldable pub outcome_of : Option (Executor N × S) → ReplayOutcome N
  unfolding result empty_backtest_summary
  outcome_of none = record {
    trades = [];
    open_position = none;
    summary = empty_backtest_summary;
    cancelled = true;
  }
  outcome_of (some (x, s)) = record {
    trades = (result x).trades;
    open_position = (result x).open_position;
    summary = (result x).summary;
    cancelled = false;
  }

module _ {N S : Type 0} ⦃f : Float N⦄
    (feed_candle : CandleEvent N → S → List (RuleEventEntry N) × S) (is_cancelled : ℕ → Bool) where
  -- One candle: the engine runs it, and the executor takes the entries of its step.
  unfoldable pub replay_step : String → FeedCandle N → Executor N × S → Executor N × S
  replay_step symbol_id item (x, s) =
      let (events, s') =
        feed_candle
          (record { id = symbol_id; period = item.period; candle = item.candle; final = true }) s in
      (process_step (base item.candle) events (completion item) x, s')

  -- The loop over the feed; `none` is a run that was cancelled.
  unfoldable pub replay_feed :
      String → ℕ → List (FeedCandle N) → Executor N × S → Option (Executor N × S)
  replay_feed symbol_id fed [] state = some state
  replay_feed symbol_id fed (item ∷ feed) state =
      let rest = replay_feed symbol_id (fed + 1) feed (replay_step symbol_id item state) in
      if is_cancelled fed then none else rest

  -- The run: the candle store, the strategy, the periods, the depth of the preload, and the engine
  -- as it is wired.
  unfoldable pub replay :
      CandleReads N
      → BacktestParams N
      → BacktestSignal N
      → BacktestStrategyExit N
      → List Period
      → ℕ
      → S
      → ReplayOutcome N
  replay candles params entry_signal exit periods bars engine = outcome_of (
      replay_feed params.symbol_id 0 (run_feed candles params periods bars)
        (create entry_signal exit params.initial_capital params.commission, engine))
