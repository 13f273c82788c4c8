-- ===== src/Rules/Actions/Effects.antt =====
-- What a fire does to the state.
use mathlib.Core.List.{append_assoc, append-nil}
use lametrader.Prelude.{
  ℕ, suc, String, ◌≡◌, refl, sym, ap, ◌∙◌, Option, List, [], ◌∷◌, ◌++◌, length, arith,
}
use lametrader.Float.{Float}
use lametrader.State.Repository.{StateChangedEvent}
use lametrader.State.Repository.Changes.{
  StateWrite, set_symbol, remove_symbol, set_global, remove_global, apply_write,
}
use lametrader.State.Repository.Replay.{apply_writes}
use lametrader.Rules.Event.{EvaluationTriggerEvent}
use lametrader.Rules.Rule.{
  Rule, Action, notification, set_symbol_state, remove_symbol_state, set_global_state,
  remove_global_state,
}
use lametrader.Rules.Actions.{
  ActionRunner, RunState, cascades_of, commit, run_notification, run_action, run_actions, run_fire,
}

module _ {N : Type 0} where
  -- The writes that the state actions of a rule ask for, in order.
  abbrev pub writes_of : Rule N → String → ℕ → List (Action N) → List (StateWrite N)
  writes_of rule symbol_id ts [] = []
  writes_of rule symbol_id ts (set_symbol_state k v ∷ actions) =
      set_symbol rule.profile_id symbol_id k v ts ∷ writes_of rule symbol_id ts actions
  writes_of rule symbol_id ts (remove_symbol_state k ∷ actions) =
      remove_symbol rule.profile_id symbol_id k ts ∷ writes_of rule symbol_id ts actions
  writes_of rule symbol_id ts (set_global_state k v ∷ actions) =
      set_global rule.profile_id k v ts ∷ writes_of rule symbol_id ts actions
  writes_of rule symbol_id ts (remove_global_state k ∷ actions) =
      remove_global rule.profile_id k ts ∷ writes_of rule symbol_id ts actions
  writes_of rule symbol_id ts (notification d t ∷ actions) = writes_of rule symbol_id ts actions

  abbrev pub all_cascades : List (Option (StateChangedEvent N)) → List (EvaluationTriggerEvent N)
  all_cascades [] = []
  all_cascades (change ∷ changes) = cascades_of change ++ all_cascades changes

module _ {N : Type 0} ⦃f : Float N⦄ (runner : ActionRunner N) (rule : Rule N) (symbol_id : String)
    (ts : ℕ) (event : EvaluationTriggerEvent N) where
  run_notification-state :
      (d t : String) (run : RunState N)
      → ((run_action runner rule symbol_id ts event (notification d t) run).1.state ≡ run.state)
        × ((run_action runner rule symbol_id ts event (notification d t) run).1.cascaded
            ≡ run.cascaded)
  unfolding run_action run_notification
  run_notification-state d t run = ground arith

  -- The state and the cascade events after some writes.
  record Wrote (writes : List (StateWrite N)) (before after : RunState N) : Type 0 where
    state_is : after.state ≡ (apply_writes writes before.state).1
    cascaded_is :
        after.cascaded ≡ before.cascaded ++ all_cascades (apply_writes writes before.state).0

  Wrote-write :
      (write : StateWrite N) (writes : List (StateWrite N)) (before after : RunState N)
      → Wrote writes (commit (apply_write write before.state) before) after
      → Wrote (write ∷ writes) before after
  unfolding commit apply_writes
  Wrote-write write writes before after w = record {
    state_is = w.state_is;
    cascaded_is =
        w.cascaded_is
        ∙ append_assoc before.cascaded (cascades_of (apply_write write before.state).0) _;
  }

  Wrote-kept :
      (writes : List (StateWrite N)) (before between after : RunState N)
      → between.state ≡ before.state
      → between.cascaded ≡ before.cascaded
      → Wrote writes between after
      → Wrote writes before after
  Wrote-kept writes before between after s c w = record {
    state_is = w.state_is ∙ ap (λ r. (apply_writes writes r).1) s;
    cascaded_is =
        w.cascaded_is
        ∙ ap (λ l. l ++ all_cascades (apply_writes writes between.state).0) c
        ∙ ap (λ r. before.cascaded ++ all_cascades (apply_writes writes r).0) s;
  }

  run_actions-Wrote :
      (actions : List (Action N)) (run : RunState N)
      → Wrote
          (writes_of rule symbol_id ts actions)
          run
          (run_actions runner rule symbol_id ts event actions run).1
  unfolding run_actions run_action apply_write apply_writes
  run_actions-Wrote [] run = record { state_is = refl; cascaded_is = sym (append-nil _) }
  run_actions-Wrote (set_symbol_state k v ∷ actions) run =
      Wrote-write (set_symbol rule.profile_id symbol_id k v ts) _ run _
        (run_actions-Wrote actions _)
  run_actions-Wrote (remove_symbol_state k ∷ actions) run =
      Wrote-write (remove_symbol rule.profile_id symbol_id k ts) _ run _
        (run_actions-Wrote actions _)
  run_actions-Wrote (set_global_state k v ∷ actions) run =
      Wrote-write (set_global rule.profile_id k v ts) _ run _ (run_actions-Wrote actions _)
  run_actions-Wrote (remove_global_state k ∷ actions) run =
      Wrote-write (remove_global rule.profile_id k ts) _ run _ (run_actions-Wrote actions _)
  run_actions-Wrote (notification d t ∷ actions) run =
      let (s, c) = run_notification-state d t run in
      Wrote-kept _ run _ _ s c (run_actions-Wrote actions _)

  run_actions-length :
      (actions : List (Action N)) (run : RunState N)
      → length (run_actions runner rule symbol_id ts event actions run).0 ≡ suc (length actions)
  unfolding run_actions
  run_actions-length [] run = refl
  run_actions-length (action ∷ actions) run = ap suc (run_actions-length actions _)

  -- A fire returns an entry for each action of the rule and one more. It changes the state as the
  -- writes of the rule's state actions do one after the other, for the rule's profile and the firing
  -- symbol, whatever becomes of its notifications; and it cascades, after what cascaded before,
  -- exactly the changes that those writes emit, in order.
  pub run_fire-effects :
      (run : RunState N)
      → let writes = writes_of rule symbol_id ts rule.actions in
        let (entries, after) = run_fire runner rule symbol_id ts event run in
        (length entries ≡ suc (length rule.actions))
        × (after.state ≡ (apply_writes writes run.state).1)
        × (after.cascaded ≡ run.cascaded ++ all_cascades (apply_writes writes run.state).0)
  unfolding run_fire
  run_fire-effects run =
      let w = run_actions-Wrote rule.actions run in
      (run_actions-length rule.actions run, w.state_is, w.cascaded_is)
