-- ===== src/Backtesting/Executor/Moves.antt =====
-- The executor's steps as a relation: what a candle can do to a run, and that the code of a step
-- does nothing else.
use lametrader.Prelude.{
  text_keyed, ℕ, String, ◌≡◌, inl, inr, none, some, List, [], ◌∷◌, arith, Bool-cases, Option-cases,
}
use lametrader.Prelude.Map
use lametrader.Prelude.Map.{Map}
use lametrader.Float.{Float}
use lametrader.State.{StateValue, state_value_equals}
use lametrader.Rules.EventEntry.{
  RuleEventEntry, fired, notification_sent, state_set, state_removed, error, cycle_overflow, symbol,
  global,
}
use lametrader.Backtesting.Trade.{BacktestExitReason, signal, BaseCandle, BacktestSignal, OpenLot}
use lametrader.Backtesting.Levels.{level_exit}
use lametrader.Backtesting.Executor.{
  Executor, open_position, close_position, record_transition, exit_signal_matches, signal_matches,
  act_on, consume, consume_all, check_levels, process_step,
}

module _ {N : Type 0} ⦃f : Float N⦄ (candle : BaseCandle N) (close_time : ℕ) where
  -- One move of a run at a candle.
  pub data Move (x : Executor N) : Executor N → Type 0 where
    priced : Move x (record x { last_close = candle.close })
    observed : (seen : Map String (StateValue N)) → Move x (record x { last_values = seen })
    bought : x.position ≡ none → Move x (open_position close_time candle.close x)
    sold_at_level :
        (pos : OpenLot N) (price : N) (reason : BacktestExitReason)
        → x.position ≡ some pos
        → level_exit x.exit candle pos ≡ some (price, reason)
        → Move x (close_position close_time price reason x)
    sold_on_signal :
        (pos : OpenLot N) (wanted : BacktestSignal N)
        → x.position ≡ some pos
        → x.exit.exit_signal ≡ some wanted
        → Move x (close_position close_time candle.close signal x)

  pub data Moves : Executor N → Executor N → Type 0 where
    still : (x : Executor N) → Moves x x
    then : (x y z : Executor N) → Move x y → Moves y z → Moves x z

  one : {x y : Executor N} → Move x y → Moves x y
  one m = then _ _ _ m (still _)

  Moves-trans : {x y z : Executor N} → Moves x y → Moves y z → Moves x z
  Moves-trans (still x) rest = rest
  Moves-trans (then x y z m more) rest = then x y _ m (Moves-trans more rest)

  Moves-to : {x y z : Executor N} → Moves x y → z ≡ y → Moves x z
  Moves-to m q = rw q m

  act_on-Moves :
      (key : String) (value : StateValue N) (x : Executor N)
      → Moves x (act_on close_time candle.close key value x)
  unfolding act_on exit_signal_matches
  act_on-Moves key value x = elim (Option-cases x.position) [
    | inl e ↦ elim (Bool-cases (signal_matches x.entry_signal key value)) [
      | inl b ↦ Moves-to (one (bought e)) (ground arith)
      | inr b ↦ Moves-to (still x) (ground arith)
    ]
    | inr (pos, e) ↦ elim (Option-cases x.exit.exit_signal) [
      | inl n ↦ Moves-to (still x) (ground arith)
      | inr (wanted, n) ↦ elim (Bool-cases (signal_matches wanted key value)) [
        | inl b ↦ Moves-to (one (sold_on_signal pos wanted e n)) (ground arith)
        | inr b ↦ Moves-to (still x) (ground arith)
      ]
    ]
  ]

  consume-Moves :
      (event : RuleEventEntry N) (x : Executor N)
      → Moves x (consume close_time candle.close event x)
  unfolding consume record_transition
  consume-Moves (state_set base symbol key value) x =
      then _ _ _ (observed (Map.set key value x.last_values))
        (elim (Option-cases (Map.get key x.last_values)) [
          | inl e ↦ Moves-to (act_on-Moves key value _) (ground arith)
          | inr (prev, e) ↦ elim (Bool-cases (state_value_equals prev value)) [
            | inl b ↦ Moves-to (still _) (ground arith)
            | inr b ↦ Moves-to (act_on-Moves key value _) (ground arith)
          ]
        ])
  consume-Moves (state_set base global key value) x = still x
  consume-Moves (fired base event seen) x = still x
  consume-Moves (notification_sent base name body) x = still x
  consume-Moves (state_removed base scope key) x = still x
  consume-Moves (error base reason) x = still x
  consume-Moves (cycle_overflow base limit) x = still x

  consume_all-Moves :
      (events : List (RuleEventEntry N)) (x : Executor N)
      → Moves x (consume_all close_time candle.close events x)
  unfolding consume_all
  consume_all-Moves [] x = still x
  consume_all-Moves (event ∷ events) x =
      Moves-trans (consume-Moves event x) (consume_all-Moves events _)

  check_levels-Moves : (x : Executor N) → Moves x (check_levels candle close_time x)
  unfolding check_levels
  check_levels-Moves x = elim (Option-cases x.position) [
    | inl e ↦ Moves-to (still x) (ground arith)
    | inr (pos, e) ↦ elim (Option-cases (level_exit x.exit candle pos)) [
      | inl n ↦ Moves-to (still x) (ground arith)
      | inr ((price, reason), n) ↦
          Moves-to (one (sold_at_level pos price reason e n)) (ground arith)
    ]
  ]

  -- A step is a sequence of moves.
  pub process_step-Moves :
      (events : List (RuleEventEntry N)) (x : Executor N)
      → Moves x (process_step candle events close_time x)
  unfolding process_step
  process_step-Moves events x =
      then _ _ _ priced (Moves-trans (check_levels-Moves _) (consume_all-Moves events _))
