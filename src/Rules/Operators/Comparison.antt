-- ===== src/Rules/Operators/Comparison.antt =====
-- packages/backend/src/analytics/rules/operators/comparison.ts
use lametrader.Prelude.{Bool, false, not, Option, none, some, if◌then◌else◌}
use lametrader.Float.{Float}
use lametrader.State.{StateValue, num}
use lametrader.Rules.Condition.{
  ComparisonOperator, gt, lt, gte, lte, eq, neq, ComparisonLeafCondition,
}
use lametrader.Rules.Series.{EvaluationContext}

module _ {N : Type 0} ⦃f : Float N⦄ where
  unfoldable pub as_number : Option (StateValue N) → Option N
  as_number (some (num x)) = if f.is_nan x then none else some x
  as_number _ = none

  unfoldable pub compare_numbers : ComparisonOperator → N → N → Bool
  compare_numbers gt left right = f.lt right left
  compare_numbers lt left right = f.lt left right
  compare_numbers gte left right = f.le right left
  compare_numbers lte left right = f.le left right
  compare_numbers eq left right = f.same left right
  compare_numbers neq left right = not (f.same left right)

  unfoldable pub evaluate_comparison : ComparisonLeafCondition N → EvaluationContext N → Bool
  unfolding as_number compare_numbers
  evaluate_comparison leaf ctx = elim (as_number (ctx.resolve_latest leaf.left leaf.interval)) [
    | none ↦ false
    | some left ↦ elim (as_number (ctx.resolve_latest leaf.right leaf.interval)) [
      | none ↦ false
      | some right ↦ compare_numbers leaf.operator left right
    ]
  ]
