-- ===== src/Rules/Operators/State.antt =====
-- packages/backend/src/analytics/rules/operators/state.ts
use lametrader.Prelude.{Bool, true, false, not, ◌&&◌, Option, none, some, if◌then◌else◌}
use lametrader.Float.{Float}
use lametrader.State.{StateValue, value_type, type_beq, state_value_equals}
use lametrader.Rules.Condition.{
  StateOperator, equals, not_equals, changes_to, changes_from, StateLeafCondition,
}
use lametrader.Rules.Series.{EvaluationContext}

module _ {N : Type 0} ⦃f : Float N⦄ where
  -- `null` equals `null` and no value.
  unfoldable pub nullable_equals : Option (StateValue N) → Option (StateValue N) → Bool
  nullable_equals none none = true
  nullable_equals (some a) (some b) = state_value_equals a b
  nullable_equals _ _ = false

  -- Two values of different types.
  unfoldable pub types_differ : Option (StateValue N) → Option (StateValue N) → Bool
  types_differ (some a) (some b) = not (type_beq (value_type a) (value_type b))
  types_differ _ _ = false

  -- The operator on the previous and the current left value and the right value.
  unfoldable pub test_state :
      StateOperator → Option (StateValue N) → Option (StateValue N) → Option (StateValue N) → Bool
  unfolding nullable_equals types_differ
  test_state equals prev current right = nullable_equals current right
  test_state not_equals prev current right =
      if types_differ current right then false else not (nullable_equals current right)
  test_state changes_to prev current right =
      not (nullable_equals prev right) && nullable_equals current right
  test_state changes_from prev current right =
      nullable_equals prev right && not (nullable_equals current right)

  unfoldable pub evaluate_state : StateLeafCondition N → EvaluationContext N → Bool
  unfolding test_state
  evaluate_state leaf ctx =
      test_state leaf.operator (ctx.resolve_prev leaf.left leaf.interval)
        (ctx.resolve_latest leaf.left leaf.interval) (ctx.resolve_latest leaf.right leaf.interval)
