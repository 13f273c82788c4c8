-- ===== src/Rules/Dispatch/Dispatcher/Reached.antt =====
-- Which rules an event reaches and on which symbols they fire, as relations of their own: an
-- account of the documentation of packages/backend/src/analytics/rules/dispatch/dispatcher.ts and
-- routes.ts that uses no function of the dispatcher.
use lametrader.Prelude.{
  ℕ, String, ◌≡◌, refl, sym, inl, inr, true, Option, none, some, List, [], ◌∷◌, In, includes,
  ==_iff, text_keyed, Bool-cases, arith,
}
use lametrader.Prelude.Members.{includes_iff}
use lametrader.Config.{Period, period_eq}
use lametrader.State.{StateValue}
use lametrader.Rules.Condition.References.Slots.{Wakes, references_slot_iff}
use lametrader.Rules.Event.{
  EvaluationTriggerEvent, tick, bar_opened, bar_closed, timer, symbol_state_changed,
  global_state_changed, indicator_changed, Trigger, every_time, once, once_per_bar,
  once_per_bar_open, once_per_bar_close, once_per_interval,
}
use lametrader.Rules.Rule.{RuleScope, one_symbol, symbols, all_symbols, Rule}
use lametrader.Rules.Dispatch.Routes.{is_tick, routes, symbol_id_of, is_cascade_event}
use lametrader.Rules.Dispatch.Dispatcher.{reaches, firing_symbols_for}

-- The trigger of a rule answers an event: a tick for every trigger that is not of a bar's open or
-- close or of an interval, a bar's open or close on the trigger's own period, a timer for an
-- interval. No trigger answers a change of state or of an indicator.
pub data Answers {N : Type 0} : Trigger → EvaluationTriggerEvent N → Type 0 where
  every_tick : {ts : ℕ} {s : String} {price : N} → Answers every_time (tick ts s price)
  once_tick : {ts : ℕ} {s : String} {price : N} → Answers once (tick ts s price)
  per_bar_tick :
      {ts : ℕ} {s : String} {price : N} {p : Period} → Answers (once_per_bar p) (tick ts s price)
  at_open : {ts : ℕ} {s : String} {p : Period} → Answers (once_per_bar_open p) (bar_opened ts s p)
  at_close : {ts : ℕ} {s : String} {p : Period} → Answers (once_per_bar_close p) (bar_closed ts s p)
  at_interval : {ts ms : ℕ} → Answers (once_per_interval ms) (timer ts)

-- The event is about a symbol.
pub data Names {N : Type 0} : EvaluationTriggerEvent N → String → Type 0 where
  tick_names : {ts : ℕ} {s : String} {price : N} → Names (tick ts s price) s
  opened_names : {ts : ℕ} {s : String} {p : Period} → Names (bar_opened ts s p) s
  closed_names : {ts : ℕ} {s : String} {p : Period} → Names (bar_closed ts s p) s
  state_names :
      {ts : ℕ} {s pr k : String} {prev cur : Option (StateValue N)}
      → Names (symbol_state_changed ts s pr k prev cur) s
  indicator_names :
      {ts : ℕ} {s pr i k : String} {prev : Option (StateValue N)} {cur : StateValue N}
      → Names (indicator_changed ts s pr i k prev cur) s

-- An event reaches a rule when it changes a slot that the rule's condition reads, or when the
-- rule's trigger answers it.
pub data Reaches {N : Type 0} (event : EvaluationTriggerEvent N) (rule : Rule N) : Type 0 where
  by_slot : Wakes rule.condition event → Reaches event rule
  by_trigger : Answers rule.trigger event → Reaches event rule

-- The symbols that a rule of a scope fires on.
pub data FiresOn {N : Type 0} (event : EvaluationTriggerEvent N) (watched : Option (List String))
    : RuleScope → String → Type 0 where
  on_own : {s : String} → FiresOn event watched (one_symbol s) s
  -- a member of the list, and the event's own symbol where it has one
  on_member :
      {ss : List String} {s : String}
      → In s ss
      → ((y : String) → Names event y → s ≡ y)
      → FiresOn event watched (symbols ss) s
  on_named : {s : String} → Names event s → FiresOn event watched all_symbols s
  on_watched :
      {ids : List String} {s : String}
      → watched ≡ some ids
      → In s ids
      → ((y : String) → ¬ Names event y)
      → FiresOn event watched all_symbols s

In-one : (s y : String) → In s (y ∷ []) → s ≡ y
In-one s y (inl q) = q
In-one s y (inr h) = absurd h

module _ {N : Type 0} where
  symbol_id_of-Names :
      (event : EvaluationTriggerEvent N) (s : String) → symbol_id_of event ≡ some s → Names event s
  unfolding symbol_id_of
  symbol_id_of-Names (tick ts y price) s e = let q : y ≡ s = cc in rw (sym q) tick_names
  symbol_id_of-Names (bar_opened ts y p) s e = let q : y ≡ s = cc in rw (sym q) opened_names
  symbol_id_of-Names (bar_closed ts y p) s e = let q : y ≡ s = cc in rw (sym q) closed_names
  symbol_id_of-Names (symbol_state_changed ts y pr k prev cur) s e =
      let q : y ≡ s = cc in rw (sym q) state_names
  symbol_id_of-Names (indicator_changed ts y pr i k prev cur) s e =
      let q : y ≡ s = cc in rw (sym q) indicator_names
  symbol_id_of-Names (timer ts) s e = cc
  symbol_id_of-Names (global_state_changed ts pr k prev cur) s e = cc

  Names-symbol_id_of :
      {event : EvaluationTriggerEvent N} {s : String} → Names event s → symbol_id_of event ≡ some s
  unfolding symbol_id_of
  Names-symbol_id_of tick_names = refl
  Names-symbol_id_of opened_names = refl
  Names-symbol_id_of closed_names = refl
  Names-symbol_id_of state_names = refl
  Names-symbol_id_of indicator_names = refl

  routes-Answers :
      (event : EvaluationTriggerEvent N) (trigger : Trigger)
      → routes event trigger ≡ true
      → Answers trigger event
  unfolding routes is_tick
  routes-Answers (tick ts s price) every_time h = every_tick
  routes-Answers (tick ts s price) once h = once_tick
  routes-Answers (tick ts s price) (once_per_bar p) h = per_bar_tick
  routes-Answers (bar_opened ts s q) (once_per_bar_open p) h = rw ((==_iff q p).0 h) at_open
  routes-Answers (bar_closed ts s q) (once_per_bar_close p) h = rw ((==_iff q p).0 h) at_close
  routes-Answers (timer ts) (once_per_interval ms) h = at_interval
  routes-Answers _ every_time h = cc
  routes-Answers _ once h = cc
  routes-Answers _ (once_per_bar p) h = cc
  routes-Answers _ (once_per_bar_open p) h = cc
  routes-Answers _ (once_per_bar_close p) h = cc
  routes-Answers _ (once_per_interval ms) h = cc

  pub reaches-Reaches :
      (event : EvaluationTriggerEvent N) (rule : Rule N)
      → reaches event rule ≡ true
      → Reaches event rule
  unfolding reaches
  reaches-Reaches event rule h = elim (Bool-cases (is_cascade_event event)) [
    | inl e ↦ by_slot ((references_slot_iff rule.condition event).0 (ground arith))
    | inr e ↦ by_trigger (routes-Answers event rule.trigger (ground arith))
  ]

  no_name :
      (event : EvaluationTriggerEvent N)
      → symbol_id_of event ≡ none
      → (y : String) → ¬ Names event y
  no_name event e y n = let named = Names-symbol_id_of n in cc

  same_name :
      (event : EvaluationTriggerEvent N) (s : String)
      → symbol_id_of event ≡ some s
      → (y : String) → Names event y
      → s ≡ y
  same_name event s e y n = let named = Names-symbol_id_of n in cc

  pub firing_symbols-FiresOn :
      (scope : RuleScope) (event : EvaluationTriggerEvent N) (watched : Option (List String))
      (s : String)
      → In s (firing_symbols_for scope (symbol_id_of event) watched)
      → FiresOn event watched scope s
  unfolding firing_symbols_for
  firing_symbols-FiresOn scope event watched s h =
      by_symbol scope (symbol_id_of event) refl watched h
    where
      by_symbol :
          (scope : RuleScope) (own : Option String)
          → symbol_id_of event ≡ own
          → (w : Option (List String)) → In s (firing_symbols_for scope own w)
          → FiresOn event w scope s
      by_symbol (one_symbol x) own e w h = rw (In-one s x h) on_own
      by_symbol (symbols ss) none e w h = on_member h (λ y n. absurd (no_name event e y n))
      by_symbol (symbols ss) (some y) e w h = elim (Bool-cases (includes ss y)) [
        | inl i ↦
            let q = In-one s y (rw i at h) in
            on_member (rw q ((includes_iff ss y).0 i)) (rw q (same_name event y e))
        | inr i ↦ let nowhere : In s [] = rw i at h in absurd nowhere
      ]
      by_symbol all_symbols (some y) e w h =
          on_named (rw (In-one s y h) (symbol_id_of-Names event y e))
      by_symbol all_symbols none e (some ids) h = on_watched refl h (no_name event e)
      by_symbol all_symbols none e none h = absurd h
