-- ===== src/Tests/Backtests.antt =====
-- A run over three candles: an entry at 100, a stop-loss at 90, and an entry again.
use lametrader.Prelude.{text_keyed, ℕ, ◌≡◌, true, false, none, some, List, [], ◌∷◌, String, arith}
use lametrader.Float.Integers.{ℤ, pos, negsuc, int_float}
use lametrader.State.{text}
use lametrader.Rules.EventEntry.{RuleEventEntry, state_set, symbol}
use lametrader.Backtesting.Trade.{
  fixed, signal, BaseCandle, BacktestSignal, BacktestStrategyExit, BacktestCommission,
  BacktestTrade,
}
use lametrader.Backtesting.Executor.{Executor, create}
use lametrader.Backtesting.Executor.Run.{Step, end_time, run_steps}
use lametrader.Backtesting.Executor.Ledger.{IsLedger, run-IsLedger}
use lametrader.Backtesting.Executor.Order.{IsChronological, run-IsChronological}

abbrev candle_at : ℕ → ℕ → ℕ → ℕ → BaseCandle ℤ
candle_at time low high close = record {
  time = time;
  «open» = pos close;
  high = pos high;
  low = pos low;
  close = pos close;
}

abbrev set_trend : String → RuleEventEntry ℤ
set_trend value =
    state_set (record { ts = 0; rule_id = "r1"; symbol_id = "BTC" }) symbol "trend" (text value)

abbrev steps : List (Step ℤ)
steps =
    record { candle = candle_at 0 95 105 100; events = set_trend "up" ∷ []; close_time = 10 }
    ∷ record { candle = candle_at 10 85 101 88; events = set_trend "up" ∷ []; close_time = 20 }
    ∷ record { candle = candle_at 20 87 99 95; events = []; close_time = 30 }
    ∷ []

abbrev entry : BacktestSignal ℤ
entry = record { key = "trend"; value = text "up" }

abbrev leave : BacktestStrategyExit ℤ
leave = record {
  exit_signal = some (record { key = "trend"; value = text "down" });
  target = none;
  stop = some (record { kind = fixed; amount = pos 10 });
}

abbrev free : BacktestCommission ℤ
free = record { rate = none; fixed_fee = none }

abbrev start : Executor ℤ
start = create entry leave (pos 1000) free

run-IsLedger_example : IsLedger leave (pos 1000) free (run_steps steps start)
run-IsLedger_example = run-IsLedger leave (pos 1000) free entry steps

run-IsChronological_example : IsChronological 0 (end_time 0 steps) (run_steps steps start)
run-IsChronological_example =
    run-IsChronological 0 entry leave (pos 1000) free steps
      (omega arith, (omega arith, (omega arith, tt)))

abbrev trade : ℤ → BacktestTrade ℤ
trade pnl = record {
  entry_ts = 10;
  exit_ts = 20;
  entry_price = pos 100;
  exit_price = pos 90;
  quantity = pos 10;
  commission = pos 0;
  pnl = pnl;
  roi_pct = pos 0;
  exit_reason = signal;
}

not_both : (a : ℤ) → int_float.lt (pos 0) a ≡ true → int_float.lt a (pos 0) ≡ false
not_both (pos a) h = ground arith
not_both (negsuc a) h = ground arith
