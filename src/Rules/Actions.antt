-- ===== src/Rules/Actions.antt =====
-- The action runner (packages/backend/src/analytics/rules/orchestrator/action-runner.ts) over the
-- state repository, with the cascade events of its writes
-- (packages/backend/src/analytics/rules/bridges/state-cascade-bridge.ts).
pub mod Template
pub mod Rendering
pub mod Effects
use lametrader.Prelude.{ℕ, String, Option, none, some, List, [], ◌∷◌, ◌++◌}
use lametrader.Float.{Float}
use lametrader.Config.{Period}
use lametrader.Text.{append}
use lametrader.State.Repository
use lametrader.State.Repository.{
  StateRepository, StateChangedEvent, StateScopeSpec, one_symbol, everywhere,
}
use lametrader.Rules.Condition.Validate.{collect_condition_intervals}
use lametrader.Rules.Event.{
  EvaluationTriggerEvent, symbol_state_changed, global_state_changed, once_per_bar_open,
  once_per_bar_close,
}
use lametrader.Rules.EventEntry.{
  symbol, global, LookupSnapshot, BaseEntry, RuleEventEntry, fired, notification_sent, state_set,
  state_removed, error,
}
use lametrader.Rules.Rule.{
  Rule, Action, notification, set_symbol_state, remove_symbol_state, set_global_state,
  remove_global_state,
}
use lametrader.Rules.Actions.Template.{
  RenderResult, body, unknown_token, render_template, ShowNumber, build_vars,
}

pub record EvaluationLookups (N : Type 0) : Type 0 where
  pub get_current_value : String → Option N
  pub get_open_value : String → Period → Option N
  pub get_high_value : String → Period → Option N
  pub get_low_value : String → Period → Option N
  pub get_close_value : String → Period → Option N
  pub get_volume_value : String → Period → Option N

-- What the runner is given. `send` has the reason of a notifier's failure, `none` for success.
pub record ActionRunner (N : Type 0) : Type 0 where
  pub send : String → String → Option String
  pub lookups : EvaluationLookups N
  pub inherited : String → Option String
  pub shown : ShowNumber N

-- What a run changes: the state, the cascade events of its changes, and the messages given to the
-- notifier, by destination.
pub record RunState (N : Type 0) : Type 0 where
  pub state : StateRepository N
  pub cascaded : List (EvaluationTriggerEvent N)
  pub sent : List (String × String)

module _ {N : Type 0} where
  -- `StateCascadeBridge.handleStateChange`
  unfoldable pub handle_state_change : StateChangedEvent N → EvaluationTriggerEvent N
  handle_state_change event = elim event.scope [
    | one_symbol symbol_id ↦
        symbol_state_changed event.ts symbol_id event.profile_id event.key event.prev event.current
    | everywhere ↦ global_state_changed event.ts event.profile_id event.key event.prev event.current
  ]

  abbrev pub cascades_of : Option (StateChangedEvent N) → List (EvaluationTriggerEvent N)
  cascades_of none = []
  cascades_of (some event) = handle_state_change event ∷ []

  -- A write with the bridge as listener.
  unfoldable pub commit : Option (StateChangedEvent N) × StateRepository N → RunState N → RunState N
  commit (change, state) run = record run {
    state = state;
    cascaded = run.cascaded ++ cascades_of change;
  }

  unfoldable pub snapshot_period_for : Rule N → Option Period
  snapshot_period_for rule = elim rule.trigger [
    | once_per_bar_open p ↦ some p
    | once_per_bar_close p ↦ some p
    | _ ↦ elim (collect_condition_intervals rule.condition) [ [] ↦ none | p ∷ ps ↦ some p ]
  ]

  unfoldable pub snapshot : EvaluationLookups N → String → Option Period → LookupSnapshot N
  snapshot lookups symbol_id none = record {
    period = none;
    current = lookups.get_current_value symbol_id;
    «open» = none;
    high = none;
    low = none;
    close = none;
    volume = none;
  }
  snapshot lookups symbol_id (some p) = record {
    period = some p;
    current = lookups.get_current_value symbol_id;
    «open» = lookups.get_open_value symbol_id p;
    high = lookups.get_high_value symbol_id p;
    low = lookups.get_low_value symbol_id p;
    close = lookups.get_close_value symbol_id p;
    volume = lookups.get_volume_value symbol_id p;
  }

  abbrev pub entry_base : Rule N → String → ℕ → BaseEntry
  entry_base rule symbol_id ts = record { ts = ts; rule_id = rule.id; symbol_id = symbol_id }

  unfoldable pub run_notification :
      ActionRunner N
      → String
      → String
      → BaseEntry
      → EvaluationTriggerEvent N
      → RunState N
      → RuleEventEntry N × RunState N
  run_notification runner destination template base event run =
      elim (render_template runner.inherited template
        (build_vars runner.shown event base.symbol_id base.ts)) [
          | unknown_token name ↦
              (error base (append "unknown template token: {" (append name "}")), run)
          | body message ↦
              let run' = record run { sent = run.sent ++ ((destination, message) ∷ []) } in
              elim (runner.send destination message) [
                | some reason ↦ (error base reason, run')
                | none ↦ (notification_sent base destination message, run')
              ]
        ]

module _ {N : Type 0} ⦃f : Float N⦄ (runner : ActionRunner N) where
  -- The four state actions and the notification.
  unfoldable pub run_action :
      Rule N
      → String
      → ℕ
      → EvaluationTriggerEvent N
      → Action N
      → RunState N
      → RuleEventEntry N × RunState N
  unfolding commit run_notification
  run_action rule symbol_id ts event (set_symbol_state key value) run = (
    state_set (entry_base rule symbol_id ts) symbol key value,
    commit (Repository.set_symbol_state rule.profile_id symbol_id key value ts run.state) run,
  )
  run_action rule symbol_id ts event (remove_symbol_state key) run = (
    state_removed (entry_base rule symbol_id ts) symbol key,
    commit (Repository.remove_symbol_state rule.profile_id symbol_id key ts run.state) run,
  )
  run_action rule symbol_id ts event (set_global_state key value) run = (
    state_set (entry_base rule symbol_id ts) global key value,
    commit (Repository.set_global_state rule.profile_id key value ts run.state) run,
  )
  run_action rule symbol_id ts event (remove_global_state key) run = (
    state_removed (entry_base rule symbol_id ts) global key,
    commit (Repository.remove_global_state rule.profile_id key ts run.state) run,
  )
  run_action rule symbol_id ts event (notification destination template) run =
      run_notification runner destination template (entry_base rule symbol_id ts) event run

  unfoldable pub run_actions :
      Rule N
      → String
      → ℕ
      → EvaluationTriggerEvent N
      → List (Action N)
      → RunState N
      → List (RuleEventEntry N) × RunState N
  run_actions rule symbol_id ts event [] run = (
    fired (entry_base rule symbol_id ts) event
          (snapshot runner.lookups symbol_id (snapshot_period_for rule))
        ∷ [],
    run,
  )
  run_actions rule symbol_id ts event (action ∷ actions) run =
      let (entry, run') = run_action rule symbol_id ts event action run in
      let (entries, run'') = run_actions rule symbol_id ts event actions run' in
      (entry ∷ entries, run'')

  -- One complete fire: an entry per action, then the `Fired` entry.
  unfoldable pub run_fire :
      Rule N
      → String
      → ℕ
      → EvaluationTriggerEvent N
      → RunState N
      → List (RuleEventEntry N) × RunState N
  unfolding run_actions
  run_fire rule symbol_id ts event run = run_actions rule symbol_id ts event rule.actions run
