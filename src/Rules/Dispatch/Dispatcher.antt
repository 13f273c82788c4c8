-- ===== src/Rules/Dispatch/Dispatcher.antt =====
-- packages/backend/src/analytics/rules/dispatch/dispatcher.ts, less the trace. The lists of rules
-- are read through the cache of the tick, as the orchestrator has it. `build_context` is an
-- argument: it reads the stores, which no step of a dispatch writes.
pub mod Reached
pub mod Fires
pub mod Once
pub mod Keeps
pub mod Sequence
pub mod PerBar
pub mod IntervalKey
pub mod PerInterval
use lametrader.Prelude.{
  ℕ, ◌+◌, ◌*◌, String, Bool, true, false, not, Option, none, some, List, [], ◌∷◌, ◌++◌, map,
  includes, if◌then◌else◌, ◌==◌, text_keyed, leb,
}
use lametrader.Prelude.Map
use lametrader.Prelude.Map.{Map, values}
use lametrader.Float.{Float}
use lametrader.Config.{Period, period_millis}
use lametrader.Text.{append}
use lametrader.Rules.Condition.References.{references_slot}
use lametrader.Rules.Event.{
  EvaluationTriggerEvent, bar_opened, RuleEvent, evaluation_trigger, data_update, Trigger,
  every_time, once, once_per_bar, once_per_bar_open, once_per_bar_close, once_per_interval,
  event_ts,
}
use lametrader.Rules.Rule.{RuleScope, one_symbol, symbols, all_symbols, Rule}
use lametrader.Rules.Series.{EvaluationContext}
use lametrader.Rules.Operators.Evaluate.{evaluate_condition}
use lametrader.Rules.Repository.{RuleRepository, sort_by_order, claim_once_fire}
use lametrader.Rules.Dispatch.Latch.{LatchStore}
use lametrader.Rules.Dispatch.Routes.{routes, symbol_id_of, is_cascade_event, profile_id_of}
use lametrader.Rules.Dispatch.TickRuleCache.{TickRuleCache, cached_list}

-- What the dispatcher reads and writes: the rules, the lists of the tick, the latches, and the last
-- fires of the interval rules.
pub record DispatchState (N S : Type 0) : Type 0 where
  pub rules : RuleRepository N
  pub rule_lists : TickRuleCache N
  pub latches : S
  pub last_interval_fire : Map String ℕ

pub record FireRecord (N : Type 0) : Type 0 where
  pub rule_id : String
  pub firing_symbol_id : String
  pub event : EvaluationTriggerEvent N

pub record Candidate (N : Type 0) : Type 0 where
  pub rule : Rule N
  pub firing_symbol_id : String

unfoldable pub interval_key : String → String → String
interval_key rule_id symbol_id = append rule_id (append "|" symbol_id)

abbrev pub or_empty : Option (List String) → List String
or_empty none = []
or_empty (some ids) = ids

-- A push under a test.
abbrev pub emit {ℓ} : {A : Type ℓ} → Bool → A → List A → List A
emit true x xs = x ∷ xs
emit false x xs = xs

-- The symbols of a scope on an event's symbol and the watched ones.
unfoldable pub firing_symbols_for : RuleScope → Option String → Option (List String) → List String
firing_symbols_for (one_symbol s) event_symbol watched = s ∷ []
firing_symbols_for (symbols ss) none watched = ss
firing_symbols_for (symbols ss) (some y) watched = if includes ss y then y ∷ [] else []
firing_symbols_for all_symbols (some y) watched = y ∷ []
firing_symbols_for all_symbols none watched = or_empty watched

-- `event.ts - last >= intervalMs` on whole numbers.
unfoldable pub elapsed : ℕ → ℕ → Option ℕ → Bool
elapsed ts interval_ms none = true
elapsed ts interval_ms (some last) = leb (last + interval_ms) ts

module _ {N : Type 0} where
  -- A write of each rule to a map by id.
  unfoldable pub put_all : List (Rule N) → Map String (Rule N) → Map String (Rule N)
  put_all [] by_id = by_id
  put_all (rule ∷ rules) by_id = put_all rules (Map.set rule.id rule by_id)

  -- The loop over the watched symbols of `allEnabledAcrossScopes`.
  unfoldable pub gather :
      Option String
      → RuleRepository N
      → List String
      → TickRuleCache N
      → Map String (Rule N)
      → Map String (Rule N) × TickRuleCache N
  unfolding put_all
  gather profile_id source [] cache by_id = (by_id, cache)
  gather profile_id source (symbol_id ∷ rest) cache by_id =
      let (rules, cache') = cached_list (some symbol_id) profile_id source cache in
      gather profile_id source rest cache' (put_all rules by_id)

  unfoldable pub all_enabled_across_scopes :
      Option String
      → Option (List String)
      → RuleRepository N
      → TickRuleCache N
      → List (Rule N) × TickRuleCache N
  unfolding put_all gather
  all_enabled_across_scopes profile_id watched source cache =
      let (everywhere, cache') = cached_list none profile_id source cache in
      let (by_id, cache'') =
        gather profile_id source (or_empty watched) cache' (put_all everywhere []) in
      (sort_by_order (values by_id), cache'')

  -- Whether the event reaches the rule: by the changed slot, or by the trigger.
  unfoldable pub reaches : EvaluationTriggerEvent N → Rule N → Bool
  reaches event rule =
      if is_cascade_event event
      then references_slot rule.condition event
      else routes event rule.trigger

  abbrev pub on_symbol : Rule N → String → Candidate N
  on_symbol rule symbol_id = record { rule = rule; firing_symbol_id = symbol_id }

  unfoldable pub expand_rule :
      EvaluationTriggerEvent N → Option (List String) → Rule N → List (Candidate N)
  unfolding reaches
  expand_rule event watched rule =
      if reaches event rule
      then map (on_symbol rule) (firing_symbols_for rule.scope (symbol_id_of event) watched)
      else []

  unfoldable pub expand :
      EvaluationTriggerEvent N → Option (List String) → List (Rule N) → List (Candidate N)
  expand event watched [] = []
  expand event watched (rule ∷ rules) = expand_rule event watched rule ++ expand event watched rules

  -- The enabled rules for an event, and the cache after the reads.
  unfoldable pub enabled_rules :
      EvaluationTriggerEvent N
      → Option (List String)
      → RuleRepository N
      → TickRuleCache N
      → List (Rule N) × TickRuleCache N
  enabled_rules event watched source cache = elim (symbol_id_of event) [
    | none ↦ all_enabled_across_scopes (profile_id_of event) watched source cache
    | some symbol_id ↦ cached_list (some symbol_id) (profile_id_of event) source cache
  ]

  abbrev pub fire_of : EvaluationTriggerEvent N → Candidate N → FireRecord N
  fire_of event c = record {
    rule_id = c.rule.id;
    firing_symbol_id = c.firing_symbol_id;
    event = event;
  }

  module _ {S : Type 0} (store : LatchStore S) where
    -- The candidates, and the state after the reads.
    unfoldable pub candidates :
        EvaluationTriggerEvent N
        → Option (List String)
        → DispatchState N S
        → List (Candidate N) × DispatchState N S
    candidates event watched s =
        let (enabled, cache) = enabled_rules event watched s.rules s.rule_lists in
        (expand event watched enabled, record s { rule_lists = cache })

    unfoldable pub gate_allows :
        Rule N → EvaluationTriggerEvent N → String → DispatchState N S → Bool
    unfolding elapsed interval_key
    gate_allows rule event symbol_id s = elim rule.trigger [
      | once_per_bar p ↦ not (store.is_latched s.latches rule.id symbol_id p)
      | once_per_interval ms ↦
          elapsed (event_ts event) ms
            (Map.get (interval_key rule.id symbol_id) s.last_interval_fire)
      | _ ↦ true
    ]

    unfoldable pub record_fire :
        Rule N → EvaluationTriggerEvent N → String → DispatchState N S → DispatchState N S
    unfolding interval_key
    record_fire rule event symbol_id s = elim rule.trigger [
      | once_per_bar p ↦ record s {
        latches = store.latch s.latches rule.id symbol_id p (period_millis p * 2);
      }
      | once_per_interval ms ↦ record s {
        last_interval_fire =
            Map.set (interval_key rule.id symbol_id) (event_ts event) s.last_interval_fire;
      }
      | _ ↦ s
    ]

    -- The claim of a `Once` rule; any other rule needs none.
    unfoldable pub claim : Rule N → DispatchState N S → Bool × DispatchState N S
    claim rule s = elim rule.trigger [
      | once ↦
          let (won, rules') = claim_once_fire rule.id s.rules in (won, record s { rules = rules' })
      | _ ↦ (true, s)
    ]

    module _ ⦃f : Float N⦄
        (build_context : EvaluationTriggerEvent N → String → String → EvaluationContext N) where
      -- One round of the loop over the candidates: whether it fires, and the state after.
      unfoldable pub run_candidate :
          EvaluationTriggerEvent N → Candidate N → DispatchState N S → Bool × DispatchState N S
      unfolding gate_allows record_fire claim
      run_candidate event c s =
          let ctx = build_context event c.firing_symbol_id c.rule.profile_id in
          if not (evaluate_condition c.rule.condition ctx)
          then (false, s)
          else if not (gate_allows c.rule event c.firing_symbol_id s)
          then (false, s)
          else let (won, s') = claim c.rule s in
            if won then (true, record_fire c.rule event c.firing_symbol_id s') else (false, s')

      unfoldable pub run_candidates :
          EvaluationTriggerEvent N
          → List (Candidate N)
          → DispatchState N S
          → List (FireRecord N) × DispatchState N S
      run_candidates event [] s = ([], s)
      run_candidates event (c ∷ cs) s =
          let (fired, s') = run_candidate event c s in
          let (fires, s'') = run_candidates event cs s' in (emit fired (fire_of event c) fires, s'')

      -- `BarOpened` clears the latches of its symbol and period first.
      unfoldable pub rearm_latches :
          EvaluationTriggerEvent N → DispatchState N S → DispatchState N S
      rearm_latches (bar_opened ts symbol_id p) s = record s {
        latches = store.rearm s.latches symbol_id p;
      }
      rearm_latches _ s = s

      unfoldable pub dispatch_trigger :
          EvaluationTriggerEvent N
          → Option (List String)
          → DispatchState N S
          → List (FireRecord N) × DispatchState N S
      dispatch_trigger event watched s =
          let (cs, s') = candidates event watched (rearm_latches event s) in
          run_candidates event cs s'

      -- An event of the data channel drives no evaluation.
      unfoldable pub dispatch :
          RuleEvent N
          → Option (List String)
          → DispatchState N S
          → List (FireRecord N) × DispatchState N S
      dispatch (data_update update) watched s = ([], s)
      dispatch (evaluation_trigger event) watched s = dispatch_trigger event watched s
