-- ===== src/Backtesting/Executor/Order.antt =====
-- The times of a run's trades.
use lametrader.Prelude.{ℕ, ◌≤◌, ◌≡◌, none, some, List, [], ◌∷◌, ◌++◌, arith}
use lametrader.Float.{Float}
use lametrader.Backtesting.Trade.{
  BacktestExitReason, signal, BaseCandle, BacktestSignal, BacktestStrategyExit, BacktestCommission,
  BacktestTrade, OpenLot,
}
use lametrader.Backtesting.Executor.{
  Executor, create, lot_of, trade_of, open_position, close_position,
}
use lametrader.Backtesting.Executor.Moves.{
  Move, priced, observed, bought, sold_at_level, sold_on_signal,
}
use lametrader.Backtesting.Executor.Run.{Step, IsTimed, end_time, run_steps, run_steps-keeps}

module _ {N : Type 0} where
  -- Between the two times, each trade enters no earlier than the one before it left, and leaves no
  -- earlier than it entered.
  abbrev pub IsOrdered : ℕ → List (BacktestTrade N) → ℕ → Type 0
  IsOrdered lo [] hi = lo ≤ hi
  IsOrdered lo (trade ∷ trades) hi =
      (lo ≤ trade.entry_ts) × (trade.entry_ts ≤ trade.exit_ts) × IsOrdered trade.exit_ts trades hi

  IsOrdered-append :
      (lo mid hi : ℕ) (trades : List (BacktestTrade N)) (trade : BacktestTrade N)
      → IsOrdered lo trades mid
      → mid ≤ trade.entry_ts
      → trade.entry_ts ≤ trade.exit_ts
      → trade.exit_ts ≤ hi
      → IsOrdered lo (trades ++ (trade ∷ [])) hi
  IsOrdered-append lo mid hi [] trade h a b c = (omega arith, b, c)
  IsOrdered-append lo mid hi (first ∷ trades) trade h a b c =
      (h.0, h.1, IsOrdered-append first.exit_ts mid hi trades trade h.2 a b c)

  -- The trades are ordered up to a time that the open lot's entry does not precede.
  pub record IsChronological (start now : ℕ) (x : Executor N) : Type 0 where
    pub bound : ℕ
    pub ordered : IsOrdered start x.trades bound
    pub past : bound ≤ now
    pub entered :
        (pos : OpenLot N) → x.position ≡ some pos → (bound ≤ pos.entry_ts) × (pos.entry_ts ≤ now)

module _ {N : Type 0} ⦃f : Float N⦄ (start : ℕ) where
  close-IsChronological :
      (x : Executor N) (pos : OpenLot N) (t : ℕ) (price : N) (reason : BacktestExitReason)
      → x.position ≡ some pos
      → IsChronological start t x
      → IsChronological start t (close_position t price reason x)
  unfolding close_position trade_of
  close-IsChronological x pos t price reason e h =
      let trade = trade_of x.commission pos t price reason in
      let after : close_position t price reason x ≡ record x {
        trades = x.trades ++ (trade ∷ []);
        equity = f.add x.equity trade.pnl;
        position = none;
        last_values = [];
      } =
        ground arith in
      let (a, b) = h.entered pos e in
      rw after record {
        bound = t;
        ordered = IsOrdered-append start h.bound t x.trades trade h.ordered a b (omega arith);
        past = omega arith;
        entered = λ p q. absurd (ground arith);
      }

  entry_ts-lot_of :
      (commission : BacktestCommission N) (equity : N) (t : ℕ) (price : N) (pos : OpenLot N)
      → some (lot_of commission equity t price) ≡ some pos
      → pos.entry_ts ≡ t
  unfolding lot_of
  entry_ts-lot_of commission equity t price pos q = ground arith

  Move-IsChronological :
      (candle : BaseCandle N) (t : ℕ) (x y : Executor N)
      → Move candle t x y
      → IsChronological start t x
      → IsChronological start t y
  unfolding open_position
  Move-IsChronological candle t x _ priced h = record {
    bound = h.bound;
    ordered = h.ordered;
    past = h.past;
    entered = h.entered;
  }
  Move-IsChronological candle t x _ (observed seen) h = record {
    bound = h.bound;
    ordered = h.ordered;
    past = h.past;
    entered = h.entered;
  }
  Move-IsChronological candle t x _ (bought flat) h = record {
    bound = h.bound;
    ordered = h.ordered;
    past = h.past;
    entered = λ pos e.
        let own = entry_ts-lot_of x.commission x.equity t candle.close pos e in
        let past = h.past in (omega arith, omega arith);
  }
  Move-IsChronological candle t x _ (sold_at_level pos price reason e level) h =
      close-IsChronological x pos t price reason e h
  Move-IsChronological candle t x _ (sold_on_signal pos wanted e w) h =
      close-IsChronological x pos t candle.close signal e h

  later-IsChronological :
      (s t : ℕ) (x : Executor N) → s ≤ t → IsChronological start s x → IsChronological start t x
  later-IsChronological s t x le h =
      let past = h.past in
      record {
        bound = h.bound;
        ordered = h.ordered;
        past = omega arith;
        entered = λ pos e. let (a, b) = h.entered pos e in (a, omega arith);
      }

  -- When the close times of the steps do not go back, the trades of a run from its start stand in
  -- time order: none enters before the previous one left, none leaves before it entered, all lie
  -- between the start and the last close time, and an open lot was entered after all of them.
  pub run-IsChronological :
      (entry_signal : BacktestSignal N) (exit : BacktestStrategyExit N) (capital : N)
      (commission : BacktestCommission N) (steps : List (Step N))
      → IsTimed start steps
      → IsChronological start
          (end_time start steps)
          (run_steps steps (create entry_signal exit capital commission))
  unfolding create
  run-IsChronological entry_signal exit capital commission steps timed =
      run_steps-keeps (IsChronological start) later-IsChronological Move-IsChronological start steps
        _ timed
        record {
          bound = start;
          ordered = omega arith;
          past = omega arith;
          entered = λ pos e. absurd (ground arith);
        }
