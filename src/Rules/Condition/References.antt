-- ===== src/Rules/Condition/References.antt =====
-- Which conditions a change wakes
-- (packages/backend/src/analytics/rules/dispatch/references-slot.ts).
pub mod Slots
use lametrader.Prelude.{
  Bool, true, false, ◌&&◌, ◌≡◌, refl, List, [], ◌∷◌, any, any-append, arith, ◌==◌, text_keyed,
  if◌then◌else◌,
}
use lametrader.Rules.Operand.{ConditionOperand, indicator_ref, symbol_state_ref, global_state_ref}
use lametrader.Rules.Condition.{
  LeafCondition, comparison, cross, channel, moving, state, ConditionNode, and_node, or_node,
  leaf_node, ConditionNodes, nil, cons,
}
use lametrader.Rules.Condition.Leaves.{leaves, leaves_of}
use lametrader.Rules.Event.{
  EvaluationTriggerEvent, symbol_state_changed, global_state_changed, indicator_changed,
}

module _ {N : Type 0} where
  unfoldable pub leaf_operands : LeafCondition N → List (ConditionOperand N)
  leaf_operands (channel leaf) = leaf.left ∷ leaf.lower ∷ leaf.upper ∷ []
  leaf_operands (moving leaf) = leaf.left ∷ []
  leaf_operands (comparison leaf) = leaf.left ∷ leaf.right ∷ []
  leaf_operands (cross leaf) = leaf.left ∷ leaf.right ∷ []
  leaf_operands (state leaf) = leaf.left ∷ leaf.right ∷ []

  -- The source's parameter is one of the three changes: no other event comes here.
  unfoldable pub operand_reads_slot : ConditionOperand N → EvaluationTriggerEvent N → Bool
  operand_reads_slot (symbol_state_ref key t) (symbol_state_changed ts s pr k prev cur) = key == k
  operand_reads_slot (global_state_ref key t) (global_state_changed ts pr k prev cur) = key == k
  operand_reads_slot (indicator_ref instance_id state_key t)
        (indicator_changed ts s pr i k prev cur) =
      instance_id == i && state_key == k
  operand_reads_slot _ _ = false

  unfoldable pub leaf_reads_slot : LeafCondition N → EvaluationTriggerEvent N → Bool
  unfolding leaf_operands
  leaf_reads_slot leaf event =
      any (λ operand. operand_reads_slot operand event) (leaf_operands leaf)

  unfoldable mutual
    pub references_slot : ConditionNode N → EvaluationTriggerEvent N → Bool
    references_slot (leaf_node leaf) event = leaf_reads_slot leaf event
    references_slot (and_node children) event = children_reference children event
    references_slot (or_node children) event = children_reference children event

    pub children_reference : ConditionNodes N → EvaluationTriggerEvent N → Bool
    children_reference nil event = false
    children_reference (cons child rest) event =
        if references_slot child event then true else children_reference rest event

  mutual
    unfolding references_slot leaves

    references_slot-leaves :
        (node : ConditionNode N) (event : EvaluationTriggerEvent N)
        → references_slot node event ≡ any (λ leaf. leaf_reads_slot leaf event) (leaves node)
    references_slot-leaves (leaf_node leaf) event = ground arith
    references_slot-leaves (and_node children) event = children_reference-leaves children event
    references_slot-leaves (or_node children) event = children_reference-leaves children event

    children_reference-leaves :
        (nodes : ConditionNodes N) (event : EvaluationTriggerEvent N)
        → children_reference nodes event
          ≡ any (λ leaf. leaf_reads_slot leaf event) (leaves_of nodes)
    children_reference-leaves nil event = refl
    children_reference-leaves (cons child rest) event = ground (
      arith,
      references_slot-leaves child event,
      children_reference-leaves rest event,
      any-append (λ leaf. leaf_reads_slot leaf event) (leaves child) (leaves_of rest),
    )

  -- Each leaf that has an operand reading the slot wakes the tree.
  pub references_slot_by_leaves :
      (node : ConditionNode N) (event : EvaluationTriggerEvent N)
      → references_slot node event ≡ any (λ leaf. leaf_reads_slot leaf event) (leaves node)
  references_slot_by_leaves node event = references_slot-leaves node event
