-- ===== src/Rules/Condition/Normalize.antt =====
-- The read-time rewriting of legacy equality leaves
-- (packages/backend/src/common/domain/rules/condition-normalize.ts). The source also keeps the
-- identity of an unchanged tree, which a value does not show.
pub mod Laws
pub mod Meaning
use lametrader.Prelude.{Bool, true, false, if◌then◌else◌}
use lametrader.State.{string, bool}
use lametrader.Rules.Operand.{ConditionOperand, indicator_ref, symbol_state_ref, global_state_ref}
use lametrader.Rules.Condition.{
  eq, neq, StateOperator, equals, not_equals, StateLeafCondition, ComparisonOperator, LeafCondition,
  comparison, state, ConditionNode, and_node, or_node, leaf_node, ConditionNodes, nil, cons,
}
use lametrader.Rules.Rule.{Rule}

module _ {N : Type 0} where
  unfoldable pub keeps_state_family : ConditionOperand N → Bool
  keeps_state_family (symbol_state_ref k t) = true
  keeps_state_family (global_state_ref k t) = true
  keeps_state_family (indicator_ref i k bool) = true
  keeps_state_family (indicator_ref i k string) = true
  keeps_state_family _ = false

  as_comparison : ComparisonOperator → StateLeafCondition N → LeafCondition N
  as_comparison operator leaf = comparison (record {
    operator = operator;
    left = leaf.left;
    right = leaf.right;
    interval = leaf.interval;
  })

  normalize_state : StateOperator → StateLeafCondition N → LeafCondition N
  unfolding as_comparison keeps_state_family
  normalize_state equals leaf =
      if keeps_state_family leaf.left then state leaf else as_comparison eq leaf
  normalize_state not_equals leaf =
      if keeps_state_family leaf.left then state leaf else as_comparison neq leaf
  normalize_state _ leaf = state leaf

  unfoldable pub normalize_leaf : LeafCondition N → LeafCondition N
  unfolding normalize_state
  normalize_leaf (state leaf) = normalize_state leaf.operator leaf
  normalize_leaf leaf = leaf

  unfoldable mutual
    pub normalize_node : ConditionNode N → ConditionNode N
    normalize_node (leaf_node leaf) = leaf_node (normalize_leaf leaf)
    normalize_node (and_node children) = and_node (normalize_children children)
    normalize_node (or_node children) = or_node (normalize_children children)

    pub normalize_children : ConditionNodes N → ConditionNodes N
    normalize_children nil = nil
    normalize_children (cons child rest) = cons (normalize_node child) (normalize_children rest)

  unfoldable pub normalize_rule : Rule N → Rule N
  normalize_rule rule = record rule { condition = normalize_node rule.condition }
