-- ===== src/Rules/Event.antt =====
-- The events of the engine and the triggers of its rules
-- (packages/core/src/types/rules/event.types.ts and trigger.types.ts).
use lametrader.Prelude.{ℕ, String, Option}
use lametrader.Config.{Period}
use lametrader.State.{StateValue}

-- Every event has its time first. `previous` and `current` of a change are `none` for `null`.
pub data EvaluationTriggerEvent (N : Type 0) : Type 0 where
  tick : ℕ → String → N → EvaluationTriggerEvent N
  bar_opened : ℕ → String → Period → EvaluationTriggerEvent N
  bar_closed : ℕ → String → Period → EvaluationTriggerEvent N
  timer : ℕ → EvaluationTriggerEvent N
  -- symbol id, profile id, key, previous, current
  symbol_state_changed :
      ℕ
      → String
      → String
      → String
      → Option (StateValue N)
      → Option (StateValue N)
      → EvaluationTriggerEvent N
  -- profile id, key, previous, current
  global_state_changed :
      ℕ → String → String → Option (StateValue N) → Option (StateValue N) → EvaluationTriggerEvent N
  -- symbol id, profile id, instance id, state key, previous, current
  indicator_changed :
      ℕ
      → String
      → String
      → String
      → String
      → Option (StateValue N)
      → StateValue N
      → EvaluationTriggerEvent N

pub data DataUpdateKind : Type 0 where
  open_changed high_changed low_changed close_changed volume_changed : DataUpdateKind

pub record DataUpdateEvent (N : Type 0) : Type 0 where
  pub kind : DataUpdateKind
  pub ts : ℕ
  pub symbol_id : String
  pub period : Period
  pub value : N

pub data RuleEvent (N : Type 0) : Type 0 where
  evaluation_trigger : EvaluationTriggerEvent N → RuleEvent N
  data_update : DataUpdateEvent N → RuleEvent N

pub data Trigger : Type 0 where
  every_time once : Trigger
  once_per_bar once_per_bar_open once_per_bar_close : Period → Trigger
  -- the interval in milliseconds
  once_per_interval : ℕ → Trigger

module _ {N : Type 0} where
  abbrev pub event_ts : EvaluationTriggerEvent N → ℕ
  event_ts (tick ts s price) = ts
  event_ts (bar_opened ts s p) = ts
  event_ts (bar_closed ts s p) = ts
  event_ts (timer ts) = ts
  event_ts (symbol_state_changed ts s pr k prev cur) = ts
  event_ts (global_state_changed ts pr k prev cur) = ts
  event_ts (indicator_changed ts s pr i k prev cur) = ts
