-- ===== src/Rules/Operators/Holds.antt =====
-- What a condition tree means, and that `evaluateCondition` decides it.
use lametrader.Prelude.{◌≡◌, refl, ◌↔◌, inl, inr, true, arith, Bool-cases}
use lametrader.Float.{Float}
use lametrader.Rules.Condition.{
  LeafCondition, ConditionNode, and_node, or_node, leaf_node, ConditionNodes, nil, cons,
}
use lametrader.Rules.Series.{EvaluationContext}
use lametrader.Rules.Operators.Evaluate.{evaluate_leaf, evaluate_condition, every_child, some_child}

-- A leaf holds when its operator is true, an AND group when every child holds, an OR group when a
-- child does.
mutual
  pub data Holds {N : Type 0} ⦃f : Float N⦄ (ctx : EvaluationContext N)
      : ConditionNode N → Type 0 where
    leaf_holds :
        {leaf : LeafCondition N} → evaluate_leaf leaf ctx ≡ true → Holds ctx (leaf_node leaf)
    and_holds : {children : ConditionNodes N} → HoldAll ctx children → Holds ctx (and_node children)
    or_holds : {children : ConditionNodes N} → HoldsSome ctx children → Holds ctx (or_node children)

  pub data HoldAll {N : Type 0} ⦃f : Float N⦄ (ctx : EvaluationContext N)
      : ConditionNodes N → Type 0 where
    hold_nil : HoldAll ctx nil
    hold_cons :
        {child : ConditionNode N} {rest : ConditionNodes N}
        → Holds ctx child
        → HoldAll ctx rest
        → HoldAll ctx (cons child rest)

  pub data HoldsSome {N : Type 0} ⦃f : Float N⦄ (ctx : EvaluationContext N)
      : ConditionNodes N → Type 0 where
    holds_here :
        {child : ConditionNode N} {rest : ConditionNodes N}
        → Holds ctx child
        → HoldsSome ctx (cons child rest)
    holds_later :
        {child : ConditionNode N} {rest : ConditionNodes N}
        → HoldsSome ctx rest
        → HoldsSome ctx (cons child rest)

module _ {N : Type 0} ⦃f : Float N⦄ where
  mutual
    unfolding evaluate_condition

    evaluate_sound :
        (node : ConditionNode N) (ctx : EvaluationContext N)
        → evaluate_condition node ctx ≡ true
        → Holds ctx node
    evaluate_sound (leaf_node leaf) ctx h = leaf_holds h
    evaluate_sound (and_node children) ctx h = and_holds (every_sound children ctx h)
    evaluate_sound (or_node children) ctx h = or_holds (some_sound children ctx h)

    every_sound :
        (nodes : ConditionNodes N) (ctx : EvaluationContext N)
        → every_child nodes ctx ≡ true
        → HoldAll ctx nodes
    every_sound nil ctx h = hold_nil
    every_sound (cons child rest) ctx h =
        hold_cons (evaluate_sound child ctx (ground arith)) (every_sound rest ctx (ground arith))

    some_sound :
        (nodes : ConditionNodes N) (ctx : EvaluationContext N)
        → some_child nodes ctx ≡ true
        → HoldsSome ctx nodes
    some_sound nil ctx h = cc
    some_sound (cons child rest) ctx h = elim (Bool-cases (evaluate_condition child ctx)) [
      | inl e ↦ holds_here (evaluate_sound child ctx e)
      | inr e ↦ holds_later (some_sound rest ctx (ground arith))
    ]

  mutual
    unfolding evaluate_condition

    evaluate_complete :
        {ctx : EvaluationContext N} {node : ConditionNode N}
        → Holds ctx node
        → evaluate_condition node ctx ≡ true
    evaluate_complete (leaf_holds e) = e
    evaluate_complete (and_holds h) = every_complete h
    evaluate_complete (or_holds h) = some_complete h

    every_complete :
        {ctx : EvaluationContext N} {nodes : ConditionNodes N}
        → HoldAll ctx nodes
        → every_child nodes ctx ≡ true
    every_complete hold_nil = refl
    every_complete (hold_cons h r) = rw (evaluate_complete h) (every_complete r)

    some_complete :
        {ctx : EvaluationContext N} {nodes : ConditionNodes N}
        → HoldsSome ctx nodes
        → some_child nodes ctx ≡ true
    some_complete (holds_here h) = rw (evaluate_complete h) refl
    some_complete (holds_later {child} r) = ground (arith, some_complete r)

-- A condition tree evaluates to true exactly when it holds: every child of an AND group, some child
-- of an OR group, and the operator of a leaf; so an empty AND is true and an empty OR is false.
pub evaluate_condition_iff :
    {N : Type 0} ⦃f : Float N⦄ (node : ConditionNode N) (ctx : EvaluationContext N)
    → (evaluate_condition node ctx ≡ true) ↔ Holds ctx node
evaluate_condition_iff node ctx = (evaluate_sound node ctx, evaluate_complete)
