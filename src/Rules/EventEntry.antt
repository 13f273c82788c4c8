-- ===== src/Rules/EventEntry.antt =====
-- What the engine writes to its log (packages/core/src/types/rules/rule-event-entry.types.ts).
-- The wall-clock stamp of the log's adapter is left out: no code here reads it.
use lametrader.Prelude.{ℕ, String, Option}
use lametrader.Config.{Period}
use lametrader.State.{StateValue}
use lametrader.Rules.Event.{EvaluationTriggerEvent}

pub data StateScope : Type 0 where
  symbol global : StateScope

-- A field is `none` for `null`, and `period` for `undefined`.
pub record LookupSnapshot (N : Type 0) : Type 0 where
  pub period : Option Period
  pub current : Option N
  pub «open» : Option N
  pub high : Option N
  pub low : Option N
  pub close : Option N
  pub volume : Option N

pub record BaseEntry : Type 0 where
  pub ts : ℕ
  pub rule_id : String
  pub symbol_id : String

pub data RuleEventEntry (N : Type 0) : Type 0 where
  fired : BaseEntry → EvaluationTriggerEvent N → LookupSnapshot N → RuleEventEntry N
  -- destination name, body
  notification_sent : BaseEntry → String → String → RuleEventEntry N
  state_set : BaseEntry → StateScope → String → StateValue N → RuleEventEntry N
  state_removed : BaseEntry → StateScope → String → RuleEventEntry N
  -- reason
  error : BaseEntry → String → RuleEventEntry N
  -- cycle limit
  cycle_overflow : BaseEntry → ℕ → RuleEventEntry N
