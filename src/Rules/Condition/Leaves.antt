-- ===== src/Rules/Condition/Leaves.antt =====
-- The operands of a leaf and the walk over the leaves of a tree
-- (packages/backend/src/common/domain/rules/condition-validate.ts).
use mathlib.Core.List.{foldl, foldl-append}
use lametrader.Prelude.{Bool, true, false, ◌≡◌, refl, List, [], ◌∷◌, ◌++◌, any, Option}
use lametrader.Config.{Period}
use lametrader.Rules.Operand.{ConditionOperand, price, symbol_state_ref, global_state_ref, literal}
use lametrader.Rules.Condition.{
  LeafCondition, comparison, cross, channel, moving, state, ConditionNode, and_node, or_node,
  leaf_node, ConditionNodes, nil, cons,
}

module _ {N : Type 0} where
  unfoldable pub operand_needs_interval : ConditionOperand N → Bool
  operand_needs_interval price = false
  operand_needs_interval (symbol_state_ref k t) = false
  operand_needs_interval (global_state_ref k t) = false
  operand_needs_interval (literal v) = false
  operand_needs_interval _ = true

  unfoldable pub leaf_operands : LeafCondition N → List (ConditionOperand N)
  leaf_operands (comparison leaf) = leaf.left ∷ leaf.right ∷ []
  leaf_operands (cross leaf) = leaf.left ∷ leaf.right ∷ []
  leaf_operands (state leaf) = leaf.left ∷ leaf.right ∷ []
  leaf_operands (channel leaf) = leaf.left ∷ leaf.lower ∷ leaf.upper ∷ []
  leaf_operands (moving leaf) = leaf.left ∷ []

  unfoldable pub leaf_interval : LeafCondition N → Option Period
  leaf_interval (comparison leaf) = leaf.interval
  leaf_interval (cross leaf) = leaf.interval
  leaf_interval (channel leaf) = leaf.interval
  leaf_interval (moving leaf) = leaf.interval
  leaf_interval (state leaf) = leaf.interval

  unfoldable pub leaf_needs_interval : LeafCondition N → Bool
  unfolding operand_needs_interval leaf_operands
  leaf_needs_interval leaf = any operand_needs_interval (leaf_operands leaf)

  -- `walkLeaves`, with what the visitor writes to passed along.
  unfoldable mutual
    pub walk_leaves : {S : Type 0} → (S → LeafCondition N → S) → S → ConditionNode N → S
    walk_leaves visit s (leaf_node leaf) = visit s leaf
    walk_leaves visit s (and_node children) = walk_children visit s children
    walk_leaves visit s (or_node children) = walk_children visit s children

    pub walk_children : {S : Type 0} → (S → LeafCondition N → S) → S → ConditionNodes N → S
    walk_children visit s nil = s
    walk_children visit s (cons child rest) = walk_children visit (walk_leaves visit s child) rest

  -- The leaves of a tree, from left to right.
  unfoldable mutual
    pub leaves : ConditionNode N → List (LeafCondition N)
    leaves (leaf_node leaf) = leaf ∷ []
    leaves (and_node children) = leaves_of children
    leaves (or_node children) = leaves_of children

    pub leaves_of : ConditionNodes N → List (LeafCondition N)
    leaves_of nil = []
    leaves_of (cons child rest) = leaves child ++ leaves_of rest

  mutual
    unfolding walk_leaves leaves

    walk-foldl :
        {S : Type 0} (visit : S → LeafCondition N → S) (s : S) (node : ConditionNode N)
        → walk_leaves visit s node ≡ foldl visit s (leaves node)
    walk-foldl visit s (leaf_node leaf) = refl
    walk-foldl visit s (and_node children) = walk_children-foldl visit s children
    walk-foldl visit s (or_node children) = walk_children-foldl visit s children

    walk_children-foldl :
        {S : Type 0} (visit : S → LeafCondition N → S) (s : S) (nodes : ConditionNodes N)
        → walk_children visit s nodes ≡ foldl visit s (leaves_of nodes)
    walk_children-foldl visit s nil = refl
    walk_children-foldl visit s (cons child rest) =
        rw (foldl-append, walk-foldl visit s child) (walk_children-foldl visit _ rest)

  -- The walk visits the leaves from left to right, each once.
  pub walk_leaves-foldl :
      {S : Type 0} (visit : S → LeafCondition N → S) (s : S) (node : ConditionNode N)
      → walk_leaves visit s node ≡ foldl visit s (leaves node)
  walk_leaves-foldl visit s node = walk-foldl visit s node
