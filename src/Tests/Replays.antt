-- ===== src/Tests/Replays.antt =====
-- A replay of two minutes of candles, whose engine counts them and buys at the second.
use lametrader.Prelude.{ℕ, suc, ◌≡◌, refl, false, ltb, none, some, List, [], ◌∷◌, if◌then◌else◌}
use lametrader.Float.Integers.{ℤ, pos, int_float}
use lametrader.State.{text}
use lametrader.Config.{one_minute}
use lametrader.Market.Candle.{CandleEvent}
use lametrader.Rules.EventEntry.{RuleEventEntry, state_set, symbol}
use lametrader.Backtesting.Trade.{BacktestSignal, BacktestStrategyExit}
use lametrader.Backtesting.Executor.{create}
use lametrader.Backtesting.Executor.Run.{IsTimed, run_steps, end_time}
use lametrader.Backtesting.Executor.Order.{IsChronological}
use lametrader.Backtesting.Replay.{BacktestParams, outcome_of, replay}
use lametrader.Backtesting.Replay.Runs.{replay-runs, store_feed, steps_of, engine_after}
use lametrader.Tests.Stored.{two_minutes, minute_reads, minute_laws}

abbrev counting : CandleEvent ℤ → ℕ → List (RuleEventEntry ℤ) × ℕ
counting event n = (
  if ltb 0 n
      then state_set (record { ts = 0; rule_id = "r1"; symbol_id = "BTC" }) symbol "trend"
          (text "up")
        ∷ []
      else [],
  suc n,
)

abbrev params : BacktestParams ℤ
params = record {
  symbol_id = "BTC";
  start = 0;
  end = 120_000;
  initial_capital = pos 1000;
  commission = record { rate = none; fixed_fee = none };
}

abbrev entry : BacktestSignal ℤ
entry = record { key = "trend"; value = text "up" }

abbrev leave : BacktestStrategyExit ℤ
leave = record {
  exit_signal = some (record { key = "trend"; value = text "down" });
  target = none;
  stop = none;
}

replay-runs_example :
    let feed = store_feed minute_reads params (one_minute ∷ []) in
    let steps = steps_of counting "BTC" feed 0 in
    let x = run_steps steps (create entry leave (pos 1000) params.commission) in
    (replay counting (λ n. false) minute_reads params entry leave (one_minute ∷ []) 500 0
      ≡ outcome_of (some (x, engine_after counting "BTC" feed 0)))
    × IsTimed 0 steps
    × IsChronological 0 (end_time 0 steps) x
replay-runs_example =
    replay-runs counting minute_reads two_minutes minute_laws params (one_minute ∷ []) entry leave
      500 0 (λ n. false) (λ n. refl)
