-- ===== src/Rules/Condition/Normalize/Meaning.antt =====
-- When the rewriting keeps the verdict of a condition.
use lametrader.Prelude.{
  true, false, ◌≡◌, refl, ◌⊎◌, inl, inr, List, [], ◌∷◌, ◌++◌, All, some, arith,
}
use lametrader.Float.{Float}
use lametrader.State.{num, state_value_equals}
use lametrader.Rules.Condition.{
  StateLeafCondition, LeafCondition, comparison, cross, channel, moving, state, ConditionNode,
  and_node, or_node, leaf_node, ConditionNodes, nil, cons,
}
use lametrader.Rules.Condition.Leaves.{leaves, leaves_of}
use lametrader.Rules.Condition.Normalize.{
  keeps_state_family, normalize_leaf, normalize_node, normalize_children,
}
use lametrader.Rules.Series.{EvaluationContext}
use lametrader.Rules.Operators.Comparison.{evaluate_comparison}
use lametrader.Rules.Operators.State.{evaluate_state}
use lametrader.Rules.Operators.Evaluate.{evaluate_leaf, evaluate_condition, every_child, some_child}

module _ {N : Type 0} ⦃f : Float N⦄ where
  -- Both operands have a number now, and neither is a NaN.
  pub record Numbers (ctx : EvaluationContext N) (leaf : StateLeafCondition N) : Type 0 where
    pub x : N
    pub y : N
    pub left_is : ctx.resolve_latest leaf.left leaf.interval ≡ some (num x)
    pub right_is : ctx.resolve_latest leaf.right leaf.interval ≡ some (num y)
    pub left_number : f.is_nan x ≡ false
    pub right_number : f.is_nan y ≡ false

  -- A leaf of the state family keeps it or reads numbers.
  abbrev pub ReadsNumbers : EvaluationContext N → LeafCondition N → Type 0
  ReadsNumbers ctx (state leaf) = (keeps_state_family leaf.left ≡ true) ⊎ Numbers ctx leaf
  ReadsNumbers ctx _ = Unit

  evaluate_leaf-normalize :
      (ctx : EvaluationContext N) (l : LeafCondition N)
      → ReadsNumbers ctx l
      → evaluate_leaf (normalize_leaf l) ctx ≡ evaluate_leaf l ctx
  unfolding evaluate_leaf normalize_leaf evaluate_comparison evaluate_state state_value_equals
  evaluate_leaf-normalize ctx (comparison leaf) h = refl
  evaluate_leaf-normalize ctx (cross leaf) h = refl
  evaluate_leaf-normalize ctx (channel leaf) h = refl
  evaluate_leaf-normalize ctx (moving leaf) h = refl
  evaluate_leaf-normalize ctx (state leaf) (inl keeps) = ground arith
  evaluate_leaf-normalize ctx (state leaf) (inr n) =
      ground (arith, n.left_is, n.right_is, n.left_number, n.right_number)

  All-split :
      (P : LeafCondition N → Type 0) (xs ys : List (LeafCondition N))
      → All P (xs ++ ys)
      → All P xs × All P ys
  All-split P [] ys h = (tt, h)
  All-split P (x ∷ xs) ys h = let (a, b) = All-split P xs ys h.1 in ((h.0, a), b)

  mutual
    unfolding evaluate_condition normalize_node leaves

    evaluate-normalize :
        (ctx : EvaluationContext N) (node : ConditionNode N)
        → All (ReadsNumbers ctx) (leaves node)
        → evaluate_condition (normalize_node node) ctx ≡ evaluate_condition node ctx
    evaluate-normalize ctx (leaf_node l) h = evaluate_leaf-normalize ctx l h.0
    evaluate-normalize ctx (and_node children) h = every_child-normalize ctx children h
    evaluate-normalize ctx (or_node children) h = some_child-normalize ctx children h

    every_child-normalize :
        (ctx : EvaluationContext N) (nodes : ConditionNodes N)
        → All (ReadsNumbers ctx) (leaves_of nodes)
        → every_child (normalize_children nodes) ctx ≡ every_child nodes ctx
    every_child-normalize ctx nil h = refl
    every_child-normalize ctx (cons child rest) h =
        let (a, b) = All-split (ReadsNumbers ctx) (leaves child) (leaves_of rest) h in
        rw (evaluate-normalize ctx child a, every_child-normalize ctx rest b) refl

    some_child-normalize :
        (ctx : EvaluationContext N) (nodes : ConditionNodes N)
        → All (ReadsNumbers ctx) (leaves_of nodes)
        → some_child (normalize_children nodes) ctx ≡ some_child nodes ctx
    some_child-normalize ctx nil h = refl
    some_child-normalize ctx (cons child rest) h =
        let (a, b) = All-split (ReadsNumbers ctx) (leaves child) (leaves_of rest) h in
        rw (evaluate-normalize ctx child a, some_child-normalize ctx rest b) refl

-- Where every state leaf that may be rewritten reads two numbers that are not NaN, the rewritten
-- condition evaluates as the original does.
pub evaluate_condition-normalize :
    {N : Type 0} ⦃f : Float N⦄ (ctx : EvaluationContext N) (node : ConditionNode N)
    → All (ReadsNumbers ctx) (leaves node)
    → evaluate_condition (normalize_node node) ctx ≡ evaluate_condition node ctx
evaluate_condition-normalize ctx node h = evaluate-normalize ctx node h
