-- ===== src/Rules/Condition/Validate.antt =====
-- The checks on intervals (packages/backend/src/common/domain/rules/condition-validate.ts).
pub mod Laws
use mathlib.Core.List.{foldl}
use lametrader.Prelude.{
  Bool, true, false, ◌&&◌, ◌≡◌, refl, ◌↔◌, inl, inr, List, [], ◌∷◌, ◌++◌, All, Option, none, some,
  arith, if◌then◌else◌, includes, Bool-cases,
}
use lametrader.Config.{Period, period_eq}
use lametrader.Rules.Condition.{LeafCondition, ConditionNode}
use lametrader.Rules.Condition.Leaves.{
  leaf_interval, leaf_needs_interval, walk_leaves, leaves, walk_leaves-foldl,
}

-- `validateRuleCondition` returns, or throws an `InvalidRuleConditionError`.
pub data Validation : Type 0 where
  valid invalid_rule_condition : Validation

module _ {N : Type 0} where
  -- The interval of a leaf that needs one, if it has one.
  unfoldable pub needed_interval : LeafCondition N → Option Period
  needed_interval leaf = if leaf_needs_interval leaf then leaf_interval leaf else none

  unfoldable pub collect_visit : List Period → LeafCondition N → List Period
  unfolding needed_interval
  collect_visit out leaf = elim (needed_interval leaf) [
    | none ↦ out
    | some p ↦ if includes out p then out else out ++ (p ∷ [])
  ]

  unfoldable pub collect_condition_intervals : ConditionNode N → List Period
  unfolding collect_visit
  collect_condition_intervals condition = walk_leaves collect_visit [] condition

  -- A leaf that needs an interval and has none.
  unfoldable pub lacks_interval : LeafCondition N → Bool
  lacks_interval leaf =
      leaf_needs_interval leaf && elim (leaf_interval leaf) [ none ↦ true | some p ↦ false ]

  -- After the throw no further leaf is visited.
  unfoldable pub validate_visit : Validation → LeafCondition N → Validation
  validate_visit valid leaf = if lacks_interval leaf then invalid_rule_condition else valid
  validate_visit invalid_rule_condition leaf = invalid_rule_condition

  unfoldable pub validate_rule_condition : ConditionNode N → Validation
  unfolding validate_visit
  validate_rule_condition condition = walk_leaves validate_visit valid condition
