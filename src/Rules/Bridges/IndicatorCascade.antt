-- ===== src/Rules/Bridges/IndicatorCascade.antt =====
-- The indicator bridge
-- (packages/backend/src/analytics/rules/bridges/indicator-cascade-bridge.ts). What the bridge hands
-- to `emit` is a list beside its state, each event with the key of its slot in the cache.
pub mod Changes
use lametrader.Prelude.{
  ℕ, Bool, true, false, String, Option, none, some, List, [], ◌∷◌, ◌++◌, if◌then◌else◌, ◌==◌,
  text_keyed,
}
use lametrader.Prelude.Map
use lametrader.Prelude.Map.{Map}
use lametrader.Float.{Float}
use lametrader.Text.{append}
use lametrader.Config.{Period, period_value}
use lametrader.State.{StateValue, text, num, flag, state_value_equals}
use lametrader.Rules.Event.{EvaluationTriggerEvent, indicator_changed}

-- A value of a state row, by its JavaScript type.
pub data RawValue (N : Type 0) : Type 0 where
  number : N → RawValue N
  boolean : Bool → RawValue N
  string : String → RawValue N
  other : RawValue N

-- A state row with its time, and all its entries.
pub record StateRow (N : Type 0) : Type 0 where
  pub time : ℕ
  pub entries : List (String × RawValue N)

pub record IndicatorStateEvent (N : Type 0) : Type 0 where
  pub subscription_id : String
  pub id : String
  pub period : Period
  pub state : StateRow N

-- The instance and the profile of a subscription.
pub record Binding : Type 0 where
  pub instance_id : String
  pub profile_id : String

pub record IndicatorBridge (N : Type 0) : Type 0 where
  pub cache : Map String (StateValue N)
  pub subscription_instance : Map String Binding

unfoldable pub slot_key : String → Period → String → String → String
slot_key symbol_id period instance_id state_key = append symbol_id (
    append "|"
      (append (period_value period) (append "|" (append instance_id (append "|" state_key)))))

module _ {N : Type 0} where
  abbrev pub to_state_value : RawValue N → Option (StateValue N)
  to_state_value (number x) = some (num x)
  to_state_value (boolean b) = some (flag b)
  to_state_value (string s) = some (text s)
  to_state_value other = none

  unfoldable pub bind_subscription :
      String → String → String → IndicatorBridge N → IndicatorBridge N
  bind_subscription subscription_id instance_id profile_id b = record b {
    subscription_instance =
        Map.set subscription_id (record { instance_id = instance_id; profile_id = profile_id })
          b.subscription_instance;
  }

  unfoldable pub unbind_subscription : String → IndicatorBridge N → IndicatorBridge N
  unbind_subscription subscription_id b = record b {
    subscription_instance = Map.delete subscription_id b.subscription_instance;
  }

module _ {N : Type 0} ⦃f : Float N⦄ where
  abbrev pub is_same_value : Option (StateValue N) → StateValue N → Bool
  is_same_value none current = false
  is_same_value (some previous) current = state_value_equals previous current

  -- One entry of a row: the event that it makes, if it makes one, and the cache after.
  unfoldable pub handle_entry :
      IndicatorStateEvent N
      → Binding
      → String
      → RawValue N
      → Map String (StateValue N)
      → Option (EvaluationTriggerEvent N) × Map String (StateValue N)
  handle_entry event binding state_key raw cache =
      let key = slot_key event.id event.period binding.instance_id state_key in
      let previous = Map.get key cache in
      if state_key == "time" then (none, cache) else elim (to_state_value raw) [
        | none ↦ (none, cache)
        | some current ↦ if is_same_value previous current then (none, cache) else (
          some (
              indicator_changed event.state.time event.id binding.profile_id binding.instance_id
                state_key previous current),
          Map.set key current cache,
        )
      ]

  abbrev pub emitted_as :
      String → Option (EvaluationTriggerEvent N) → List (String × EvaluationTriggerEvent N)
  emitted_as key none = []
  emitted_as key (some e) = (key, e) ∷ []

  unfoldable pub handle_entries :
      IndicatorStateEvent N
      → Binding
      → List (String × RawValue N)
      → Map String (StateValue N)
      → List (String × EvaluationTriggerEvent N) × Map String (StateValue N)
  handle_entries event binding [] cache = ([], cache)
  handle_entries event binding ((state_key, raw) ∷ entries) cache =
      let key = slot_key event.id event.period binding.instance_id state_key in
      let (emitted, cache') = handle_entry event binding state_key raw cache in
      let (more, cache'') = handle_entries event binding entries cache' in
      (emitted_as key emitted ++ more, cache'')

  -- The row of a subscription, by the binding that it has.
  unfoldable pub received_by :
      IndicatorStateEvent N
      → IndicatorBridge N
      → Option Binding
      → List (String × EvaluationTriggerEvent N) × IndicatorBridge N
  received_by event b none = ([], b)
  received_by event b (some binding) =
      let (emitted, cache) = handle_entries event binding event.state.entries b.cache in
      (emitted, record b { cache = cache })

  unfoldable pub handle_indicator_state :
      IndicatorStateEvent N
      → IndicatorBridge N
      → List (String × EvaluationTriggerEvent N) × IndicatorBridge N
  handle_indicator_state event b =
      received_by event b (Map.get event.subscription_id b.subscription_instance)
