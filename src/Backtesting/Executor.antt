-- ===== src/Backtesting/Executor.antt =====
-- The executor of a run (the BacktestExecutor of
-- packages/backend/src/analytics/backtesting/backtest-executor.ts). Its fields are a record, each
-- method a function from the executor to the executor; `lastValues` is a map in insertion order.
pub mod Moves
pub mod Run
pub mod Ledger
pub mod Order
pub mod Edges
use lametrader.Prelude.{
  ℕ, String, Bool, true, false, not, Option, none, some, List, [], ◌∷◌, ◌++◌, ◌==◌, text_keyed,
  if◌then◌else◌, ◌&&◌,
}
use lametrader.Prelude.Map
use lametrader.Prelude.Map.{Map}
use lametrader.Float.{Float}
use lametrader.State.{StateValue, state_value_equals}
use lametrader.Rules.EventEntry.{StateScope, symbol, RuleEventEntry, state_set}
use lametrader.Backtesting.Trade.{
  BacktestExitReason, signal, BaseCandle, BacktestSignal, BacktestStrategyExit, BacktestCommission,
  BacktestTrade, OpenLot, BacktestOpenPosition, BacktestExecutorResult,
}
use lametrader.Backtesting.Levels.{level_exit}
use lametrader.Backtesting.Summary.{summarize_trades}

pub record Executor (N : Type 0) : Type 0 where
  pub initial_capital : N
  pub equity : N
  pub commission : BacktestCommission N
  pub entry_signal : BacktestSignal N
  pub exit : BacktestStrategyExit N
  pub trades : List (BacktestTrade N)
  pub position : Option (OpenLot N)
  pub last_close : N
  pub last_values : Map String (StateValue N)

module _ {N : Type 0} ⦃f : Float N⦄ where
  unfoldable pub create :
      BacktestSignal N → BacktestStrategyExit N → N → BacktestCommission N → Executor N
  create entry_signal exit initial_capital commission = record {
    initial_capital = initial_capital;
    equity = initial_capital;
    commission = commission;
    entry_signal = entry_signal;
    exit = exit;
    trades = [];
    position = none;
    last_close = f.lit 0;
    last_values = [];
  }

  unfoldable pub or_zero : Option N → N
  or_zero none = f.lit 0
  or_zero (some x) = x

  -- The rate in hundredths, `rate / 100`.
  unfoldable pub rate_of : BacktestCommission N → N
  unfolding or_zero
  rate_of commission = f.div (or_zero commission.rate) (f.lit 100)

  -- The lot that the whole equity buys.
  unfoldable pub lot_of : BacktestCommission N → N → ℕ → N → OpenLot N
  unfolding rate_of or_zero
  lot_of commission equity entry_ts entry_price =
      let rate = rate_of commission in
      let fixed_fee = or_zero commission.fixed_fee in
      let notional = f.div (f.sub equity fixed_fee) (f.add (f.lit 1) rate) in
      record {
        entry_ts = entry_ts;
        entry_price = entry_price;
        quantity = f.div notional entry_price;
        notional = notional;
        entry_commission = f.add (f.mul notional rate) fixed_fee;
      }

  unfoldable pub open_position : ℕ → N → Executor N → Executor N
  open_position entry_ts entry_price x = record x {
    position = some (lot_of x.commission x.equity entry_ts entry_price);
  }

  -- The trade that sells the lot.
  unfoldable pub trade_of :
      BacktestCommission N → OpenLot N → ℕ → N → BacktestExitReason → BacktestTrade N
  unfolding rate_of or_zero
  trade_of commission pos exit_ts exit_price reason =
      let gross_proceeds = f.mul pos.quantity exit_price in
      let exit_commission =
        f.add (f.mul gross_proceeds (rate_of commission)) (or_zero commission.fixed_fee) in
      let cost_basis = f.add pos.notional pos.entry_commission in
      let pnl = f.sub (f.sub gross_proceeds exit_commission) cost_basis in
      record {
        entry_ts = pos.entry_ts;
        exit_ts = exit_ts;
        entry_price = pos.entry_price;
        exit_price = exit_price;
        quantity = pos.quantity;
        commission = f.add pos.entry_commission exit_commission;
        pnl = pnl;
        roi_pct = f.mul (f.div pnl cost_basis) (f.lit 100);
        exit_reason = reason;
      }

  -- A close also forgets the observed values.
  unfoldable pub close_position : ℕ → N → BacktestExitReason → Executor N → Executor N
  close_position exit_ts exit_price reason x = elim x.position [
    | none ↦ x
    | some pos ↦
        let trade = trade_of x.commission pos exit_ts exit_price reason in
        record x {
          trades = x.trades ++ (trade ∷ []);
          equity = f.add x.equity trade.pnl;
          position = none;
          last_values = [];
        }
  ]

  -- Whether the write is a change, and the executor that has recorded it.
  unfoldable pub record_transition : String → StateValue N → Executor N → Bool × Executor N
  record_transition key value x =
      let x' = record x { last_values = Map.set key value x.last_values } in
      elim (Map.get key x.last_values) [
        | none ↦ (true, x')
        | some prev ↦ (not (state_value_equals prev value), x')
      ]

  unfoldable pub signal_matches : BacktestSignal N → String → StateValue N → Bool
  signal_matches wanted key value = wanted.key == key && state_value_equals wanted.value value

  unfoldable pub exit_signal_matches : Option (BacktestSignal N) → String → StateValue N → Bool
  unfolding signal_matches
  exit_signal_matches none key value = false
  exit_signal_matches (some wanted) key value = signal_matches wanted key value

  -- A change of a symbol's key: an exit while a position is open, an entry while flat.
  unfoldable pub act_on : ℕ → N → String → StateValue N → Executor N → Executor N
  unfolding exit_signal_matches signal_matches
  act_on close_time close key value x = elim x.position [
    | some pos ↦
        if exit_signal_matches x.exit.exit_signal key value
        then close_position close_time close signal x
        else x
    | none ↦ if signal_matches x.entry_signal key value then open_position close_time close x else x
  ]

  -- One round of the loop over the events of the candle.
  unfoldable pub consume : ℕ → N → RuleEventEntry N → Executor N → Executor N
  unfolding record_transition
  consume close_time close (state_set base symbol key value) x =
      let (changed, x') = record_transition key value x in
      if changed then act_on close_time close key value x' else x'
  consume close_time close _ x = x

  unfoldable pub consume_all : ℕ → N → List (RuleEventEntry N) → Executor N → Executor N
  unfolding consume
  consume_all close_time close [] x = x
  consume_all close_time close (event ∷ events) x =
      consume_all close_time close events (consume close_time close event x)

  -- The levels come before the events, on the position that was open before the candle.
  unfoldable pub check_levels : BaseCandle N → ℕ → Executor N → Executor N
  check_levels candle close_time x = elim x.position [
    | none ↦ x
    | some pos ↦ elim (level_exit x.exit candle pos) [
      | none ↦ x
      | some (price, reason) ↦ close_position close_time price reason x
    ]
  ]

  unfoldable pub process_step : BaseCandle N → List (RuleEventEntry N) → ℕ → Executor N → Executor N
  process_step candle events close_time x =
      consume_all close_time candle.close events
        (check_levels candle close_time (record x { last_close = candle.close }))

  unfoldable pub mark : Executor N → OpenLot N → BacktestOpenPosition N
  mark x pos = record {
    entry_ts = pos.entry_ts;
    entry_price = pos.entry_price;
    quantity = pos.quantity;
    entry_commission = pos.entry_commission;
    unrealized_pnl =
        f.sub (f.mul pos.quantity x.last_close) (f.add pos.notional pos.entry_commission);
  }

  unfoldable pub result : Executor N → BacktestExecutorResult N
  unfolding mark summarize_trades
  result x = record {
    trades = x.trades;
    open_position = elim x.position [ none ↦ none | some pos ↦ some (mark x pos) ];
    summary = summarize_trades x.trades x.initial_capital;
  }
