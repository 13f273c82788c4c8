-- ===== src/Backtesting/Executor/Run.antt =====
-- A run: one step per candle, in completion order, as the replay feeds them
-- (packages/backend/src/analytics/backtesting/backtest-replay.service.ts calls processStep once per
-- candle). What every move keeps, a run keeps.
use lametrader.Prelude.{ℕ, ◌≤◌, List, [], ◌∷◌}
use lametrader.Float.{Float}
use lametrader.Rules.EventEntry.{RuleEventEntry}
use lametrader.Backtesting.Trade.{BaseCandle}
use lametrader.Backtesting.Executor.{Executor, process_step}
use lametrader.Backtesting.Executor.Moves.{Move, Moves, still, then, process_step-Moves}

pub record Step (N : Type 0) : Type 0 where
  pub candle : BaseCandle N
  pub events : List (RuleEventEntry N)
  pub close_time : ℕ

-- The close times do not go back, from a given time on.
abbrev pub IsTimed : {N : Type 0} → ℕ → List (Step N) → Type 0
IsTimed now [] = Unit
IsTimed now (step ∷ steps) = (now ≤ step.close_time) × IsTimed step.close_time steps

module _ {N : Type 0} ⦃f : Float N⦄ where
  unfoldable pub run_steps : List (Step N) → Executor N → Executor N
  run_steps [] x = x
  run_steps (step ∷ steps) x =
      run_steps steps (process_step step.candle step.events step.close_time x)

  -- The time that the last step leaves.
  abbrev pub end_time : ℕ → List (Step N) → ℕ
  end_time now [] = now
  end_time now (step ∷ steps) = end_time step.close_time steps

module _ {N : Type 0} ⦃f : Float N⦄ (P : Executor N → Type 0)
    (kept : (candle : BaseCandle N) (t : ℕ) (x y : Executor N)
      → Move candle t x y
      → P x
      → P y) where
  always-Moves : (candle : BaseCandle N) (t : ℕ) {x y : Executor N} → Moves candle t x y → P x → P y
  always-Moves candle t (still x) h = h
  always-Moves candle t (then x y z m more) h = always-Moves candle t more (kept candle t x y m h)

  pub run_steps-always : (steps : List (Step N)) (x : Executor N) → P x → P (run_steps steps x)
  unfolding run_steps
  run_steps-always [] x h = h
  run_steps-always (step ∷ steps) x h =
      run_steps-always steps _
        (always-Moves step.candle step.close_time (process_step-Moves _ _ step.events x) h)

module _ {N : Type 0} ⦃f : Float N⦄ (P : ℕ → Executor N → Type 0)
    (later : (s t : ℕ) (x : Executor N) → s ≤ t → P s x → P t x)
    (kept : (candle : BaseCandle N) (t : ℕ) (x y : Executor N)
      → Move candle t x y
      → P t x
      → P t y) where
  kept-Moves :
      (candle : BaseCandle N) (t : ℕ) {x y : Executor N} → Moves candle t x y → P t x → P t y
  kept-Moves candle t (still x) h = h
  kept-Moves candle t (then x y z m more) h = kept-Moves candle t more (kept candle t x y m h)

  pub run_steps-keeps :
      (now : ℕ) (steps : List (Step N)) (x : Executor N)
      → IsTimed now steps
      → P now x
      → P (end_time now steps) (run_steps steps x)
  unfolding run_steps
  run_steps-keeps now [] x timed h = h
  run_steps-keeps now (step ∷ steps) x timed h = run_steps-keeps step.close_time steps _ timed.1 (
      kept-Moves step.candle step.close_time (process_step-Moves _ _ step.events x)
        (later now step.close_time x timed.0 h))
