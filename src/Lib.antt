-- ===== src/Lib.antt =====
-- Verification library for lametrader, a market watcher with a rule engine and backtests.
--
-- The parts and how they interact. An event (a tick, a bar, a timer, a change of state) comes to
-- the dispatcher (packages/backend/src/analytics/rules/dispatch/dispatcher.ts). It lists the
-- enabled rules for the event's symbol from the repository (in-memory-rule.repository.ts), through
-- the cache of the tick (tick-rule-cache.ts), keeps those whose trigger routes the event or, for a
-- change of state, whose condition reads the changed slot (routes.ts, references-slot.ts), expands
-- them to the symbols of their scope, evaluates each condition (evaluate-condition.ts and
-- operators/), asks the gate of the trigger (with the latches of
-- in-memory-once-per-bar-latch.store.ts), claims the single fire of a `Once` rule in the
-- repository, and returns the fires. The orchestrator (orchestrator/orchestrator.ts) runs the
-- actions of each fire and feeds the changes that they make to the state repository
-- (in-memory-state.repository.ts) back as events, up to the cycle limit. The events of one
-- symbol are run in the order they came (orchestrator/per-symbol-serializer.ts). The bridges make
-- events of polled candles and of computed indicators (bridges/), and the scheduler those of the
-- timers (dispatch/interval-scheduler.ts). Conditions read the stored candles through views that
-- page the store (bar-series-view.ts, evaluation-context.ts). A backtest replays stored candles,
-- preloaded and in the order they closed
-- (packages/backend/src/analytics/backtesting/backtest-replay.service.ts), and the executor
-- (backtest-executor.ts) turns the candles and the entries that the engine logged for each into
-- trades.
--
-- The files, each with the code it models:
--   Prelude, Text, Float   shared helpers, texts, and JavaScript numbers as a type with operations
--   Config, State          packages/core/src/types/config, period.ts, types/state
--   Rules/Operand, Condition, Event, EventEntry, Rule, Series
--                          packages/core/src/types/rules, series.types.ts, evaluation-context.types.ts
--   Rules/Condition/*      condition-validate.ts, condition-normalize.ts, references-slot.ts
--   Rules/Operators/*      operators/*.ts (one module per family), evaluate-condition.ts
--   Rules/Repository       in-memory-rule.repository.ts, one function per method
--   Rules/Dispatch/*       routes.ts, tick-rule-cache.ts, once-per-bar-latch.types.ts, its in-memory
--                          store, and dispatcher.ts
--   Rules/Actions          orchestrator/action-runner.ts and bridges/state-cascade-bridge.ts
--   Rules/Orchestrator     orchestrator.ts and cycle-guard.ts
--   Rules/Orchestrator/Serializer
--                          orchestrator/per-symbol-serializer.ts
--   Rules/Dispatch/Scheduler
--                          dispatch/interval-scheduler.ts
--   Rules/Bridges/*        bridges/bar-lifecycle-bridge.ts, indicator-cascade-bridge.ts
--   Rules/Views/*          bar-series-view.ts, and the array view of indicator-series-store.ts
--   Rules/Context/*        evaluation-context.ts
--   Rules/Lookups          wire/live-evaluation-lookups.ts
--   Rules/Service          rule.service.ts, the checks in Service and the reads of a log in Paging
--   Market/*               packages/core/src/types/market-data,
--                          packages/backend/src/market/persistence/in-memory-candle.repository.ts,
--                          market/backfill/backfill.service.ts, market-data/source-registry.ts and
--                          packages/backend/src/common/domain/symbol.ts
--   Delivery/Subscriptions packages/backend/src/delivery/subscription-registry.ts
--   State/Repository       packages/backend/src/analytics/persistence/in-memory-state.repository.ts
--   Backtesting/*          backtest-executor.ts, preloaded-candle.repository.ts,
--                          backtest-replay.service.ts and packages/core/src/types/backtesting
--   Tests/*                the theorems at concrete inputs
--
-- The conventions. A method of a class is a function from the record of its fields to the record
-- after, with its result beside it; a promise is the value it resolves to, and one dispatch runs
-- to its end before the next. A price, a quantity or a state value is of a type `N` with the
-- operations of `Float N` (a comparison, a sum, `Math.sign`, ...) as an instance argument, so that
-- rounding and NaN are left open: what a theorem needs of them is a hypothesis. Times, counts and
-- orders are whole numbers. Every loop but three is structural recursion over a list or a tree. The
-- orchestrator's is on fuel, two more than the cycle limit, which is enough; so is the loop that
-- pages through the candles of a series, where one more than the candles of the series is enough,
-- and the loop that saves a backfill in chunks, where one more than the fetched candles is enough.
-- A series is the finite list of points that its backward walk yields. An evaluation context is an
-- argument of the dispatcher, a function of the event, the symbol and the profile that no dispatch
-- changes; Rules/Context builds one from views over the candles. What the runtime does on its own,
-- a due timeout or a promise that settles, is a step of a relation, so that a theorem about the
-- states it reaches holds of every interleaving.
--
-- Not modelled: traces and logs; the databases, caches and transports behind the ports; the views
-- that compute an indicator's series, and indicators; polling, jobs and providers; the other services,
-- controllers and the user interface.
pub mod Prelude
pub mod Float
pub mod Config
pub mod State
pub mod Text
pub mod Market
pub mod Delivery
pub mod Backtesting
pub mod Rules
pub mod Tests
