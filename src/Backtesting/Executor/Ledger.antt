-- ===== src/Backtesting/Executor/Ledger.antt =====
-- The accounts of a run: every trade is a round trip of the whole equity.
use lametrader.Prelude.{
  ℕ, ◌≡◌, refl, sym, ap, ◌∙◌, none, some, List, [], ◌∷◌, ◌++◌, All, All-append, arith, Option-cases,
  Bool-cases, inl, inr,
}
use lametrader.Float.{Float}
use lametrader.Backtesting.Trade.{
  BacktestExitReason, signal, profit_target, stop_loss, BaseCandle, BacktestSignal,
  BacktestThreshold, BacktestStrategyExit, BacktestCommission, BacktestTrade, OpenLot,
}
use lametrader.Backtesting.Levels.{level_exit, target_exit, stop_loss_level, profit_target_level}
use lametrader.Backtesting.Summary.{sum_from}
use lametrader.Backtesting.Executor.{
  Executor, create, lot_of, trade_of, open_position, close_position,
}
use lametrader.Backtesting.Executor.Moves.{
  Move, priced, observed, bought, sold_at_level, sold_on_signal,
}
use lametrader.Backtesting.Executor.Run.{Step, run_steps, run_steps-always}

module _ {N : Type 0} ⦃f : Float N⦄ where
  abbrev pub pnls_on : N → List (BacktestTrade N) → N
  pnls_on equity trades = sum_from (λ trade. trade.pnl) equity trades

  -- The trade sells, at its own price and for its own reason, the lot that the equity before it
  -- buys at its entry price.
  abbrev pub IsRoundTrip : BacktestCommission N → N → BacktestTrade N → Type 0
  IsRoundTrip commission equity trade =
      trade
      ≡ trade_of commission (lot_of commission equity trade.entry_ts trade.entry_price)
          trade.exit_ts trade.exit_price trade.exit_reason

  -- Each trade is a round trip of the equity that those before it left.
  abbrev pub IsCompounded : BacktestCommission N → N → List (BacktestTrade N) → Type 0
  IsCompounded commission equity [] = Unit
  IsCompounded commission equity (trade ∷ trades) =
      IsRoundTrip commission equity trade × IsCompounded commission (f.add equity trade.pnl) trades

  -- The mechanism of the strategy that a reason names, and the price it fills at.
  abbrev pub IsJustified : BacktestStrategyExit N → BacktestExitReason → N → N → Type 0
  IsJustified exit signal entry_price exit_price =
      (wanted : BacktestSignal N) × (exit.exit_signal ≡ some wanted)
  IsJustified exit profit_target entry_price exit_price =
      (threshold : BacktestThreshold N) × (exit.target ≡ some threshold)
      × (exit_price ≡ profit_target_level entry_price threshold)
  IsJustified exit stop_loss entry_price exit_price =
      (threshold : BacktestThreshold N) × (exit.stop ≡ some threshold)
      × (exit_price ≡ stop_loss_level entry_price threshold)

  abbrev pub IsJustifiedTrade : BacktestStrategyExit N → BacktestTrade N → Type 0
  IsJustifiedTrade exit trade =
      IsJustified exit trade.exit_reason trade.entry_price trade.exit_price

  pnls_on-append :
      (equity : N) (trades : List (BacktestTrade N)) (trade : BacktestTrade N)
      → pnls_on equity (trades ++ (trade ∷ [])) ≡ f.add (pnls_on equity trades) trade.pnl
  unfolding sum_from
  pnls_on-append equity [] trade = refl
  pnls_on-append equity (first ∷ trades) trade =
      pnls_on-append (f.add equity first.pnl) trades trade

  IsCompounded-append :
      (commission : BacktestCommission N) (equity : N) (trades : List (BacktestTrade N))
      (trade : BacktestTrade N)
      → IsCompounded commission equity trades
      → IsRoundTrip commission (pnls_on equity trades) trade
      → IsCompounded commission equity (trades ++ (trade ∷ []))
  unfolding sum_from
  IsCompounded-append commission equity [] trade h r = (r, tt)
  IsCompounded-append commission equity (first ∷ trades) trade h r =
      (h.0, IsCompounded-append commission (f.add equity first.pnl) trades trade h.1 r)

  target_exit-IsJustified :
      (exit : BacktestStrategyExit N) (candle : BaseCandle N) (pos : OpenLot N) (price : N)
      (reason : BacktestExitReason)
      → target_exit exit candle pos ≡ some (price, reason)
      → IsJustified exit reason pos.entry_price price
  unfolding target_exit
  target_exit-IsJustified exit candle pos price reason h = elim (Option-cases exit.target) [
    | inl e ↦ absurd (ground arith)
    | inr (threshold, e) ↦
        let same_reason : reason ≡ profit_target = ground arith in
        let same_price : price ≡ profit_target_level pos.entry_price threshold = ground arith in
        rw same_reason (threshold, e, same_price)
  ]

  level_exit-IsJustified :
      (exit : BacktestStrategyExit N) (candle : BaseCandle N) (pos : OpenLot N) (price : N)
      (reason : BacktestExitReason)
      → level_exit exit candle pos ≡ some (price, reason)
      → IsJustified exit reason pos.entry_price price
  unfolding level_exit
  level_exit-IsJustified exit candle pos price reason h = elim (Option-cases exit.stop) [
    | inl e ↦ target_exit-IsJustified exit candle pos price reason (ground arith)
    | inr (threshold, e) ↦
        elim (Bool-cases (f.le candle.low (stop_loss_level pos.entry_price threshold))) [
          | inl b ↦
              let same_reason : reason ≡ stop_loss = ground arith in
              let same_price : price ≡ stop_loss_level pos.entry_price threshold = ground arith in
              rw same_reason (threshold, e, same_price)
          | inr b ↦ target_exit-IsJustified exit candle pos price reason (ground arith)
        ]
  ]

  some-injective : {a b : OpenLot N} → some a ≡ some b → a ≡ b
  some-injective h = ground arith

  lot-own :
      (commission : BacktestCommission N) (equity : N) (t : ℕ) (price : N) (pos : OpenLot N)
      → lot_of commission equity t price ≡ pos
      → pos ≡ lot_of commission equity pos.entry_ts pos.entry_price
  unfolding lot_of
  lot-own commission equity t price pos q =
      sym q ∙ ap (λ l. lot_of commission equity l.entry_ts l.entry_price) q

  -- What a run of a strategy keeps.
  pub record IsLedger (exit : BacktestStrategyExit N) (capital : N)
      (commission : BacktestCommission N) (x : Executor N) : Type 0 where
    pub same_exit : x.exit ≡ exit
    pub same_commission : x.commission ≡ commission
    pub compounded : IsCompounded commission capital x.trades
    pub equity : x.equity ≡ pnls_on capital x.trades
    pub lot :
        (pos : OpenLot N)
        → x.position ≡ some pos
        → pos ≡ lot_of commission x.equity pos.entry_ts pos.entry_price
    pub justified : All (IsJustifiedTrade exit) x.trades

  module _ (exit : BacktestStrategyExit N) (capital : N) (commission : BacktestCommission N) where
    close-IsLedger :
        (x : Executor N) (pos : OpenLot N) (t : ℕ) (price : N) (reason : BacktestExitReason)
        → x.position ≡ some pos
        → IsJustified exit reason pos.entry_price price
        → IsLedger exit capital commission x
        → IsLedger exit capital commission (close_position t price reason x)
    unfolding close_position trade_of
    close-IsLedger x pos t price reason e j h =
        let trade = trade_of commission pos t price reason in
        let same_trade : trade_of x.commission pos t price reason ≡ trade =
          ap (λ c. trade_of c pos t price reason) h.same_commission in
        let same_lot = h.lot pos e in
        let paid : IsRoundTrip commission (pnls_on capital x.trades) trade =
          ap (λ l. trade_of commission l t price reason)
            (same_lot ∙ ap (λ z. lot_of commission z pos.entry_ts pos.entry_price) h.equity) in
        let after : close_position t price reason x ≡ record x {
          trades = x.trades ++ (trade ∷ []);
          equity = f.add x.equity trade.pnl;
          position = none;
          last_values = [];
        } =
          ground (arith, same_trade) in
        rw after record {
          same_exit = h.same_exit;
          same_commission = h.same_commission;
          compounded = IsCompounded-append commission capital x.trades trade h.compounded paid;
          equity =
              ap (λ z. f.add z trade.pnl) h.equity ∙ sym (pnls_on-append capital x.trades trade);
          lot = λ p q. absurd (ground arith);
          justified = All-append (IsJustifiedTrade exit) x.trades _ h.justified (j, tt);
        }

    Move-IsLedger :
        (candle : BaseCandle N) (t : ℕ) (x y : Executor N)
        → Move candle t x y
        → IsLedger exit capital commission x
        → IsLedger exit capital commission y
    unfolding open_position
    Move-IsLedger candle t x _ priced h = record {
      same_exit = h.same_exit;
      same_commission = h.same_commission;
      compounded = h.compounded;
      equity = h.equity;
      lot = h.lot;
      justified = h.justified;
    }
    Move-IsLedger candle t x _ (observed seen) h = record {
      same_exit = h.same_exit;
      same_commission = h.same_commission;
      compounded = h.compounded;
      equity = h.equity;
      lot = h.lot;
      justified = h.justified;
    }
    Move-IsLedger candle t x _ (bought flat) h = record {
      same_exit = h.same_exit;
      same_commission = h.same_commission;
      compounded = h.compounded;
      equity = h.equity;
      lot = λ pos e.
          lot-own commission x.equity t candle.close pos
            (ap (λ c. lot_of c x.equity t candle.close) (sym h.same_commission) ∙ some-injective e);
      justified = h.justified;
    }
    Move-IsLedger candle t x _ (sold_at_level pos price reason e level) h =
        close-IsLedger x pos t price reason e
          (level_exit-IsJustified exit candle pos price reason
            (ap (λ z. level_exit z candle pos) (sym h.same_exit) ∙ level))
          h
    Move-IsLedger candle t x _ (sold_on_signal pos wanted e w) h =
        close-IsLedger x pos t candle.close signal e
          (wanted, ap (λ z. z.exit_signal) (sym h.same_exit) ∙ w) h

    -- After any steps from the start of a run: every trade is the round trip of the whole equity
    -- that the trades before it left, at the run's commission; the equity is the initial capital
    -- with the trades' profits added in order; a lot that is open was bought with that equity; and
    -- every trade closed by a mechanism that the strategy has, a stop-loss or profit-target trade
    -- at that level's price.
    pub run-IsLedger :
        (entry_signal : BacktestSignal N) (steps : List (Step N))
        → IsLedger exit capital commission
            (run_steps steps (create entry_signal exit capital commission))
    unfolding create sum_from
    run-IsLedger entry_signal steps =
        run_steps-always (IsLedger exit capital commission) Move-IsLedger steps _ record {
          same_exit = refl;
          same_commission = refl;
          compounded = tt;
          equity = refl;
          lot = λ pos e. absurd (ground arith);
          justified = tt;
        }
