-- ===== src/Rules/Operators/Evaluate.antt =====
-- packages/backend/src/analytics/rules/operators/dispatch.ts and
-- packages/backend/src/analytics/rules/dispatch/evaluate-condition.ts, less the trace.
use lametrader.Prelude.{Bool, true, false, if◌then◌else◌}
use lametrader.Float.{Float}
use lametrader.Rules.Condition.{
  LeafCondition, comparison, cross, channel, moving, state, ConditionNode, and_node, or_node,
  leaf_node, ConditionNodes, nil, cons,
}
use lametrader.Rules.Series.{EvaluationContext}
use lametrader.Rules.Operators.Comparison.{evaluate_comparison}
use lametrader.Rules.Operators.State.{evaluate_state}
use lametrader.Rules.Operators.Crossing.{evaluate_crossing}
use lametrader.Rules.Operators.Channel.{evaluate_channel}
use lametrader.Rules.Operators.Moving.{evaluate_moving}

module _ {N : Type 0} ⦃f : Float N⦄ where
  unfoldable pub evaluate_leaf : LeafCondition N → EvaluationContext N → Bool
  evaluate_leaf (comparison leaf) ctx = evaluate_comparison leaf ctx
  evaluate_leaf (cross leaf) ctx = evaluate_crossing leaf ctx
  evaluate_leaf (channel leaf) ctx = evaluate_channel leaf ctx
  evaluate_leaf (moving leaf) ctx = evaluate_moving leaf ctx
  evaluate_leaf (state leaf) ctx = evaluate_state leaf ctx

  -- A group stops at the first child that settles it.
  unfoldable mutual
    pub evaluate_condition : ConditionNode N → EvaluationContext N → Bool
    evaluate_condition (leaf_node leaf) ctx = evaluate_leaf leaf ctx
    evaluate_condition (and_node children) ctx = every_child children ctx
    evaluate_condition (or_node children) ctx = some_child children ctx

    pub every_child : ConditionNodes N → EvaluationContext N → Bool
    every_child nil ctx = true
    every_child (cons child rest) ctx =
        if evaluate_condition child ctx then every_child rest ctx else false

    pub some_child : ConditionNodes N → EvaluationContext N → Bool
    some_child nil ctx = false
    some_child (cons child rest) ctx =
        if evaluate_condition child ctx then true else some_child rest ctx
