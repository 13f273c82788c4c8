-- ===== src/Rules/Bridges/IndicatorCascade/Changes.antt =====
-- The emitted events are the changes of the cache.
use lametrader.Prelude.{
  ◌≡◌, refl, false, String, Option, none, some, List, [], ◌∷◌, ◌++◌, ◌==◌, text_keyed, Bool-cases,
  Option-cases, inl, inr,
}
use lametrader.Prelude.Map
use lametrader.Prelude.Map.{Map, get-set}
use lametrader.Float.{Float}
use lametrader.State.{StateValue}
use lametrader.Rules.Event.{EvaluationTriggerEvent, indicator_changed}
use lametrader.Rules.Bridges.IndicatorCascade.{
  RawValue, IndicatorStateEvent, Binding, IndicatorBridge, slot_key, to_state_value,
  bind_subscription, unbind_subscription, is_same_value, handle_entry, handle_entries,
  handle_indicator_state, received_by, emitted_as,
}

-- The calls of the bridge.
pub data BridgeCall (N : Type 0) : Type 0 where
  -- subscription, instance, profile
  bound : String → String → String → BridgeCall N
  unbound : String → BridgeCall N
  received : IndicatorStateEvent N → BridgeCall N

module _ {N : Type 0} ⦃f : Float N⦄ where
  pub run_calls :
      List (BridgeCall N)
      → IndicatorBridge N
      → List (String × EvaluationTriggerEvent N) × IndicatorBridge N
  run_calls [] b = ([], b)
  run_calls (bound s i p ∷ calls) b = run_calls calls (bind_subscription s i p b)
  run_calls (unbound s ∷ calls) b = run_calls calls (unbind_subscription s b)
  run_calls (received event ∷ calls) b =
      let (emitted, b') = handle_indicator_state event b in
      let (more, b'') = run_calls calls b' in (emitted ++ more, b'')

  -- The event tells that a slot went from a value to another one.
  abbrev pub Tells : EvaluationTriggerEvent N → Option (StateValue N) → StateValue N → Type 0
  Tells (indicator_changed ts s pr i k previous current) from to =
      (previous ≡ from) × (current ≡ to)
  Tells _ from to = ⊥

  -- The events lead a cache from what it was to what it is: each tells the value that its slot has
  -- and one that is not the same, which the slot has from then on.
  pub data Leads
      : Map String (StateValue N)
        → List (String × EvaluationTriggerEvent N)
        → Map String (StateValue N)
        → Type 0 where
    stays : (m : Map String (StateValue N)) → Leads m [] m
    changes :
        (m m' : Map String (StateValue N)) (key : String) (e : EvaluationTriggerEvent N)
        (to : StateValue N) (es : List (String × EvaluationTriggerEvent N))
        → Tells e (Map.get key m) to
        → is_same_value (Map.get key m) to ≡ false
        → Leads (Map.set key to m) es m'
        → Leads m ((key, e) ∷ es) m'

  Leads-append :
      {a b c : Map String (StateValue N)} {es fs : List (String × EvaluationTriggerEvent N)}
      → Leads a es b
      → Leads b fs c
      → Leads a (es ++ fs) c
  Leads-append (stays m) r = r
  Leads-append (changes m m' key e to es t n l) r = changes m _ key e to _ t n (Leads-append l r)

  handle_entry-Leads :
      (event : IndicatorStateEvent N) (binding : Binding) (k : String) (raw : RawValue N)
      (m : Map String (StateValue N))
      → let (emitted, m') = handle_entry event binding k raw m in
        Leads m (emitted_as (slot_key event.id event.period binding.instance_id k) emitted) m'
  unfolding handle_entry
  handle_entry-Leads event binding k raw m =
      let key = slot_key event.id event.period binding.instance_id k in
      elim (Bool-cases (k == "time")) [
        | inl e ↦ rw e (stays m)
        | inr e ↦ rw e (elim (Option-cases (to_state_value raw)) [
          | inl q ↦ rw (q, handle_entry) (stays m)
          | inr (current, q) ↦
              rw (q, handle_entry)
                (elim (Bool-cases (is_same_value (Map.get key m) current)) [
                  | inl s ↦ rw s (stays m)
                  | inr s ↦ rw s (
                      changes m (Map.set key current m) key _ current [] (refl, refl) s
                        (stays (Map.set key current m)))
                ])
        ])
      ]

  handle_entries-Leads :
      (event : IndicatorStateEvent N) (binding : Binding) (entries : List (String × RawValue N))
      (m : Map String (StateValue N))
      → let (emitted, m') = handle_entries event binding entries m in Leads m emitted m'
  unfolding handle_entries
  handle_entries-Leads event binding [] m = stays m
  handle_entries-Leads event binding ((k, raw) ∷ entries) m =
      Leads-append (handle_entry-Leads event binding k raw m)
        (handle_entries-Leads event binding entries (handle_entry event binding k raw m).1)

  received_by-Leads :
      (event : IndicatorStateEvent N) (b : IndicatorBridge N) (binding : Option Binding)
      → let (emitted, b') = received_by event b binding in Leads b.cache emitted b'.cache
  unfolding received_by
  received_by-Leads event b none = stays b.cache
  received_by-Leads event b (some binding) =
      handle_entries-Leads event binding event.state.entries b.cache

  -- Over any calls of the bridge, the emitted events are exactly the changes of its cache, in
  -- order: each tells the value that its slot had then, and a value that is not the same, which the
  -- slot has from then on; and no slot changes without an event.
  pub run_calls-Leads :
      (calls : List (BridgeCall N)) (b : IndicatorBridge N)
      → let (emitted, b') = run_calls calls b in Leads b.cache emitted b'.cache
  unfolding run_calls handle_indicator_state bind_subscription unbind_subscription
  run_calls-Leads [] b = stays b.cache
  run_calls-Leads (bound s i p ∷ calls) b = run_calls-Leads calls (bind_subscription s i p b)
  run_calls-Leads (unbound s ∷ calls) b = run_calls-Leads calls (unbind_subscription s b)
  run_calls-Leads (received event ∷ calls) b =
      Leads-append
        (received_by-Leads event b (Map.get event.subscription_id b.subscription_instance))
        (run_calls-Leads calls (handle_indicator_state event b).1)
