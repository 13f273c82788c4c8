-- ===== src/Backtesting/Replay/Runs.antt =====
-- The replay as a run of the executor over the store's own candles.
use lametrader.Prelude.{
  ℕ, ◌+◌, ◌≤◌, ◌≡◌, refl, ap, ◌∙◌, inl, inr, Bool, true, false, String, Option, none, some, List,
  [], ◌∷◌, map, filter, All, All-append, arith,
}
use lametrader.Prelude.Sort.{Pairwise, All-sort_by}
use lametrader.Prelude.Timed.{All-reverse}
use lametrader.Float.{Float}
use lametrader.Config.{Period}
use lametrader.Market.Candle.{Candle, CandleEvent, base, time_of}
use lametrader.Market.Candles.{CandleReads, CandleLaws, within}
use lametrader.Rules.EventEntry.{RuleEventEntry}
use lametrader.Backtesting.Trade.{BacktestSignal, BacktestStrategyExit}
use lametrader.Backtesting.Executor.{Executor, create}
use lametrader.Backtesting.Executor.Run.{Step, IsTimed, run_steps, end_time}
use lametrader.Backtesting.Executor.Order.{IsChronological, run-IsChronological}
use lametrader.Backtesting.Preload.{preload, preloaded_reads}
use lametrader.Backtesting.Preload.Laws.{preload-reads}
use lametrader.Backtesting.Replay.{
  FeedCandle, BacktestParams, completion, comes_first, flatten, load_feed, order_backtest_feed,
  replay_step, replay_feed, outcome_of, run_feed, replay,
}
use lametrader.Backtesting.Replay.Feed.{Precedes, order_backtest_feed_lem}

module _ {N : Type 0} where
  -- The feed from the store itself.
  abbrev pub store_feed : CandleReads N → BacktestParams N → List Period → List (FeedCandle N)
  store_feed candles params periods =
      order_backtest_feed (load_feed candles params.symbol_id params.start params.end periods)

  load_feed-ext :
      (reads reads' : CandleReads N) (s : String) (start end : ℕ) (periods : List Period)
      → ((p : Period) (from to : ℕ) (limit : Option ℕ)
          → reads.range s p from to limit ≡ reads'.range s p from to limit)
      → load_feed reads s start end periods ≡ load_feed reads' s start end periods
  unfolding load_feed
  load_feed-ext reads reads' s start end [] h = refl
  load_feed-ext reads reads' s start end (p ∷ ps) h =
      let first = h p start end none in
      let rest = load_feed-ext reads reads' s start end ps h in ground arith

  -- No candle of the feed completes before a time.
  abbrev AllAfter : ℕ → List (FeedCandle N) → Type 0
  AllAfter t = All (λ item. t ≤ completion item)

  AllAfter-candles :
      (p : Period) (t : ℕ) (cs : List (Candle N))
      → All (λ c. t ≤ time_of c) cs
      → AllAfter t (map (λ c. record { period = p; candle = c }) cs)
  AllAfter-candles p t [] h = tt
  AllAfter-candles p t (c ∷ cs) h = (omega arith, AllAfter-candles p t cs h.1)

  All-within :
      (from to : ℕ) (cs : List (Candle N))
      → All (λ c. from ≤ time_of c) (filter (within from to) cs)
  All-within from to [] = tt
  All-within from to (c ∷ cs) = ground (arith, All-within from to cs)

  AllAfter-load :
      (reads : CandleReads N) (s : String) (start end : ℕ) (periods : List Period)
      → ((p : Period) → All (λ c. start ≤ time_of c) (reads.range s p start end none))
      → AllAfter start (flatten (load_feed reads s start end periods))
  unfolding load_feed flatten
  AllAfter-load reads s start end [] h = tt
  AllAfter-load reads s start end (p ∷ ps) h =
      All-append (λ item. start ≤ completion item) (map (λ c. record { period = p; candle = c }) _)
        _ (AllAfter-candles p start _ (h p)) (AllAfter-load reads s start end ps h)

module _ {N S : Type 0} ⦃f : Float N⦄
    (feed_candle : CandleEvent N → S → List (RuleEventEntry N) × S) (symbol_id : String) where
  -- The steps that the engine's runs of the candles make.
  pub steps_of : List (FeedCandle N) → S → List (Step N)
  steps_of [] s = []
  steps_of (item ∷ feed) s =
      let (events, s') =
        feed_candle
          (record { id = symbol_id; period = item.period; candle = item.candle; final = true }) s in
      record { candle = base item.candle; events = events; close_time = completion item }
      ∷ steps_of feed s'

  pub engine_after : List (FeedCandle N) → S → S
  engine_after [] s = s
  engine_after (item ∷ feed) s =
      engine_after feed
        (feed_candle
          (record { id = symbol_id; period = item.period; candle = item.candle; final = true }) s).1

  replay_feed-steps :
      (is_cancelled : ℕ → Bool) (fed : ℕ) (feed : List (FeedCandle N)) (x : Executor N) (s : S)
      → ((n : ℕ) → is_cancelled n ≡ false)
      → replay_feed feed_candle is_cancelled symbol_id fed feed (x, s)
        ≡ some (run_steps (steps_of feed s) x, engine_after feed s)
  unfolding replay_feed replay_step run_steps steps_of engine_after
  replay_feed-steps is_cancelled fed [] x s h = refl
  replay_feed-steps is_cancelled fed (item ∷ feed) x s h =
      rw (h fed) (replay_feed-steps is_cancelled (fed + 1) feed _ _ h)

  steps_of-IsTimed :
      (now : ℕ) (feed : List (FeedCandle N)) (s : S)
      → All (λ item. now ≤ completion item) feed
      → Pairwise Precedes feed
      → IsTimed now (steps_of feed s)
  unfolding steps_of
  steps_of-IsTimed now [] s a h = tt
  steps_of-IsTimed now (item ∷ feed) s a h =
      (a.0, steps_of-IsTimed (completion item) feed _ (after item feed h.0) h.1)
    where
      after :
          (item : FeedCandle N) (feed : List (FeedCandle N))
          → All (Precedes item) feed
          → All (λ other. completion item ≤ completion other) feed
      after item [] h = tt
      after item (other ∷ feed) h = (not_before h.0, after item feed h.1)
        where
          not_before : Precedes item other → completion item ≤ completion other
          not_before (inl lt) = omega arith
          not_before (inr eq) = omega arith

module _ {N : Type 0} (candles : CandleReads N) (history : String → Period → List (Candle N))
    (laws : CandleLaws candles history) (params : BacktestParams N) (periods : List Period) where
  run_feed-store :
      (bars : ℕ) → run_feed candles params periods bars ≡ store_feed candles params periods
  unfolding run_feed
  run_feed-store bars = ap order_backtest_feed (
      load_feed-ext
        (preloaded_reads (preload candles params.symbol_id periods bars params.start params.end))
        candles params.symbol_id params.start params.end periods
        (λ p.
          (preload-reads candles history laws bars params.start params.end params.symbol_id periods
            params.symbol_id p).1))

  store_feed-AllAfter : AllAfter params.start (store_feed candles params periods)
  unfolding order_backtest_feed
  store_feed-AllAfter =
      All-sort_by comes_first (λ item. params.start ≤ completion item) _
        (AllAfter-load candles params.symbol_id params.start params.end periods (λ p.
          rw (laws.range_eq params.symbol_id p params.start params.end none) (
            All-reverse (λ c. params.start ≤ time_of c) _
              (All-within params.start params.end (history params.symbol_id p)))))

module _ {N S : Type 0} ⦃f : Float N⦄
    (feed_candle : CandleEvent N → S → List (RuleEventEntry N) × S) (candles : CandleReads N)
    (history : String → Period → List (Candle N)) (laws : CandleLaws candles history)
    (params : BacktestParams N) (periods : List Period) where
  -- A replay that is not cancelled ends, whatever the depth of its preload, with the outcome of
  -- the executor's run over the steps that the engine makes of the store's own candles of the
  -- window; these steps close in time order, none before the run's start; so the trades of the
  -- outcome stand in time order between the start and the last close.
  pub replay-runs :
      (entry_signal : BacktestSignal N) (exit : BacktestStrategyExit N) (bars : ℕ) (engine : S)
      (is_cancelled : ℕ → Bool)
      → ((n : ℕ) → is_cancelled n ≡ false)
      → let feed = store_feed candles params periods in
        let steps = steps_of feed_candle params.symbol_id feed engine in
        let x =
          run_steps steps (create entry_signal exit params.initial_capital params.commission) in
        (replay feed_candle is_cancelled candles params entry_signal exit periods bars engine
          ≡ outcome_of (some (x, engine_after feed_candle params.symbol_id feed engine)))
        × IsTimed params.start steps
        × IsChronological params.start (end_time params.start steps) x
  unfolding replay
  replay-runs entry_signal exit bars engine is_cancelled never =
      let feed = store_feed candles params periods in
      let x = create entry_signal exit params.initial_capital params.commission in
      let steps = steps_of feed_candle params.symbol_id feed engine in
      let timed =
        steps_of-IsTimed feed_candle params.symbol_id params.start feed engine
          (store_feed-AllAfter candles history laws params periods)
          (order_backtest_feed_lem
            (load_feed candles params.symbol_id params.start params.end periods)).1 in
      (
        ap
              (λ items.
                outcome_of
                  (replay_feed feed_candle is_cancelled params.symbol_id 0 items (x, engine)))
              (run_feed-store candles history laws params periods bars)
            ∙ ap (outcome_of)
                (replay_feed-steps feed_candle params.symbol_id is_cancelled 0 feed x engine never),
        timed,
        run-IsChronological params.start entry_signal exit params.initial_capital params.commission
            steps timed,
      )
