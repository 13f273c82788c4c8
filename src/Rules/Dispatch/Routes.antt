-- ===== src/Rules/Dispatch/Routes.antt =====
-- packages/backend/src/analytics/rules/dispatch/routes.ts, and which events name a symbol and a
-- profile (dispatcher.ts).
use lametrader.Prelude.{String, Bool, true, false, ◌==◌, Option, none, some}
use lametrader.Config.{period_eq}
use lametrader.Rules.Event.{
  EvaluationTriggerEvent, tick, bar_opened, bar_closed, timer, symbol_state_changed,
  global_state_changed, indicator_changed, Trigger, every_time, once, once_per_bar,
  once_per_bar_open, once_per_bar_close, once_per_interval,
}

module _ {N : Type 0} where
  unfoldable pub is_tick : EvaluationTriggerEvent N → Bool
  is_tick (tick ts s price) = true
  is_tick _ = false

  unfoldable pub routes : EvaluationTriggerEvent N → Trigger → Bool
  unfolding is_tick
  routes event every_time = is_tick event
  routes event once = is_tick event
  routes event (once_per_bar p) = is_tick event
  routes (bar_opened ts s q) (once_per_bar_open p) = q == p
  routes (bar_closed ts s q) (once_per_bar_close p) = q == p
  routes (timer ts) (once_per_interval ms) = true
  routes _ _ = false

  unfoldable pub symbol_id_of : EvaluationTriggerEvent N → Option String
  symbol_id_of (tick ts s price) = some s
  symbol_id_of (bar_opened ts s p) = some s
  symbol_id_of (bar_closed ts s p) = some s
  symbol_id_of (symbol_state_changed ts s pr k prev cur) = some s
  symbol_id_of (indicator_changed ts s pr i k prev cur) = some s
  symbol_id_of (timer ts) = none
  symbol_id_of (global_state_changed ts pr k prev cur) = none

  unfoldable pub is_cascade_event : EvaluationTriggerEvent N → Bool
  is_cascade_event (symbol_state_changed ts s pr k prev cur) = true
  is_cascade_event (global_state_changed ts pr k prev cur) = true
  is_cascade_event (indicator_changed ts s pr i k prev cur) = true
  is_cascade_event _ = false

  unfoldable pub profile_id_of : EvaluationTriggerEvent N → Option String
  profile_id_of (symbol_state_changed ts s pr k prev cur) = some pr
  profile_id_of (global_state_changed ts pr k prev cur) = some pr
  profile_id_of (indicator_changed ts s pr i k prev cur) = some pr
  profile_id_of _ = none
