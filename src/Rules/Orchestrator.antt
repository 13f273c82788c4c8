-- ===== src/Rules/Orchestrator.antt =====
-- The orchestrator (packages/backend/src/analytics/rules/orchestrator/orchestrator.ts and
-- cycle-guard.ts), less the traces: the drain loop of one tick, with its fires. Its collaborators
-- are an interface over their joint state; the loop runs on fuel.
pub mod CycleLimit
pub mod Serializer
use lametrader.Prelude.{
  ℕ, zero, suc, ◌+◌, String, Bool, true, false, Option, none, some, List, [], ◌∷◌, ◌++◌, map, ltb,
  if◌then◌else◌,
}
use lametrader.Rules.Event.{EvaluationTriggerEvent, timer, global_state_changed, event_ts}
use lametrader.Rules.EventEntry.{RuleEventEntry, cycle_overflow}
use lametrader.Rules.Rule.{Rule}
use lametrader.Rules.Dispatch.Routes.{symbol_id_of}
use lametrader.Rules.Dispatch.Dispatcher.{FireRecord}

-- The collaborators: the dispatcher, the rule repository, the action runner, the event log, the
-- watchlist, and the listener that collects the cascade events of the state repository.
pub record OrchestratorDeps (N S : Type 0) : Type 0 where
  pub dispatch : EvaluationTriggerEvent N → Option (List String) → S → List (FireRecord N) × S
  pub get_rule : String → S → Option (Rule N)
  pub save_rule : Rule N → S → S
  pub run_actions : Rule N → String → ℕ → EvaluationTriggerEvent N → S → List (RuleEventEntry N) × S
  pub append_rule_event : String → RuleEventEntry N → S → S
  pub append_symbol_event : String → RuleEventEntry N → S → S
  pub watchlist : S → List String
  -- `cascaded.splice(0)`
  pub take_cascaded : S → List (EvaluationTriggerEvent N) × S

pub record CycleGuard : Type 0 where
  pub count : ℕ
  pub limit : ℕ

-- The guard after one more re-entry, with the limit of the error that it throws.
unfoldable pub enter : CycleGuard → Option ℕ × CycleGuard
enter guard =
    let guard' = record guard { count = guard.count + 1 } in
    if ltb guard.limit (guard.count + 1) then (some guard.limit, guard') else (none, guard')

abbrev pub default_cycle_limit : ℕ
default_cycle_limit = 4

pub record Queued (N : Type 0) : Type 0 where
  pub event : EvaluationTriggerEvent N
  pub cascade_depth : ℕ

abbrev pub or_blank : Option String → String
or_blank none = ""
or_blank (some symbol_id) = symbol_id

module _ {N S : Type 0} (deps : OrchestratorDeps N S) where
  unfoldable pub watched_symbol_ids : EvaluationTriggerEvent N → S → Option (List String)
  watched_symbol_ids (timer ts) s = some (deps.watchlist s)
  watched_symbol_ids (global_state_changed ts profile_id key previous current) s =
      some (deps.watchlist s)
  watched_symbol_ids _ s = none

  unfoldable pub append_entries : String → String → List (RuleEventEntry N) → S → S
  append_entries rule_id symbol_id [] s = s
  append_entries rule_id symbol_id (entry ∷ entries) s =
      append_entries rule_id symbol_id entries
        (deps.append_symbol_event symbol_id entry (deps.append_rule_event rule_id entry s))

  -- The rule is read again before the write.
  unfoldable pub stamp_last_fired_at : String → ℕ → S → S
  stamp_last_fired_at rule_id ts s = elim (deps.get_rule rule_id s) [
    | none ↦ s
    | some fresh ↦ deps.save_rule (record fresh { last_fired_at = some ts }) s
  ]

  unfoldable pub run_one_fire : FireRecord N → EvaluationTriggerEvent N → S → S
  unfolding append_entries stamp_last_fired_at
  run_one_fire fire inbound s = elim (deps.get_rule fire.rule_id s) [
    | none ↦ s
    | some rule ↦
        let (entries, s') =
          deps.run_actions rule fire.firing_symbol_id (event_ts inbound) inbound s in
        stamp_last_fired_at rule.id (event_ts inbound)
          (append_entries rule.id fire.firing_symbol_id entries s')
  ]

  unfoldable pub run_fires : List (FireRecord N) → EvaluationTriggerEvent N → S → S
  run_fires [] inbound s = s
  run_fires (fire ∷ fires) inbound s = run_fires fires inbound (run_one_fire fire inbound s)

  unfoldable pub process_one_event : EvaluationTriggerEvent N → S → S
  unfolding watched_symbol_ids run_fires
  process_one_event event s =
      let (fires, s') = deps.dispatch event (watched_symbol_ids event s) s in
      run_fires fires event s'

  unfoldable pub record_cycle_overflow : EvaluationTriggerEvent N → ℕ → S → S
  record_cycle_overflow event limit s =
      let symbol_id = or_blank (symbol_id_of event) in
      deps.append_symbol_event symbol_id
        (cycle_overflow (record { ts = event_ts event; rule_id = ""; symbol_id = symbol_id }) limit)
        s

  -- The guard is asked for a cascaded event only.
  unfoldable pub admit : CycleGuard → Queued N → Option ℕ × CycleGuard
  unfolding enter
  admit guard next = if ltb 0 next.cascade_depth then enter guard else (none, guard)

  abbrev pub queue_cascaded : ℕ → List (EvaluationTriggerEvent N) → List (Queued N)
  queue_cascaded depth events =
      map (λ event. record { event = event; cascade_depth = depth }) events

  -- The loop of a tick, `none` when the fuel runs out.
  unfoldable pub drain : ℕ → CycleGuard → List (Queued N) → S → Option S
  unfolding admit process_one_event record_cycle_overflow
  drain zero guard queue s = none
  drain (suc fuel) guard [] s = some s
  drain (suc fuel) guard (next ∷ queue) s =
      let (overflow, guard') = admit guard next in
      let (cascaded, s') = deps.take_cascaded (process_one_event next.event s) in
      let rest = drain fuel guard' (queue ++ queue_cascaded (next.cascade_depth + 1) cascaded) s' in
      elim overflow [ some limit ↦ some (record_cycle_overflow next.event limit s) | none ↦ rest ]

  -- One external event, with fuel for the event, the cascades that the limit admits, and the end.
  unfoldable pub process : ℕ → EvaluationTriggerEvent N → S → Option S
  unfolding drain
  process cycle_limit initial s =
      drain (suc (suc cycle_limit)) (record { count = 0; limit = cycle_limit })
        (record { event = initial; cascade_depth = 0 } ∷ []) s
