-- ===== src/Rules/Condition/References/Slots.antt =====
-- Which operands read a changed slot, and which conditions a change wakes
-- (packages/backend/src/analytics/rules/dispatch/references-slot.ts).
use lametrader.Prelude.{◌≡◌, refl, ◌↔◌, true, In, ◌==◌, ==_iff, ==_refl, text_keyed, arith}
use lametrader.Rules.Operand.{ConditionOperand, indicator_ref, symbol_state_ref, global_state_ref}
use lametrader.Rules.Condition.{
  LeafCondition, comparison, cross, channel, moving, state, ConditionNode,
}
use lametrader.Rules.Condition.Leaves.{leaves}
use lametrader.Rules.Condition.Operands.{Reads, operands, Reads-In, In-Reads, any-In, In-any}
use lametrader.Rules.Condition.References.{
  leaf_operands, operand_reads_slot, leaf_reads_slot, references_slot, references_slot_by_leaves,
}
use lametrader.Rules.Event.{
  EvaluationTriggerEvent, symbol_state_changed, global_state_changed, indicator_changed,
}

-- The operand reads the slot that the event changes: the same key of the symbol's or the global
-- state, or the same state of the same indicator.
pub data ReadsSlot {N : Type 0} : ConditionOperand N → EvaluationTriggerEvent N → Type 0 where
  symbol_slot :
      {key : _} {t : _} {ts : _} {s pr : _} {prev cur : _}
      → ReadsSlot (symbol_state_ref key t) (symbol_state_changed ts s pr key prev cur)
  global_slot :
      {key : _} {t : _} {ts : _} {pr : _} {prev cur : _}
      → ReadsSlot (global_state_ref key t) (global_state_changed ts pr key prev cur)
  indicator_slot :
      {i k : _} {t : _} {ts : _} {s pr : _} {prev : _} {cur : _}
      → ReadsSlot (indicator_ref i k t) (indicator_changed ts s pr i k prev cur)

-- A leaf of the condition has an operand that reads the changed slot.
pub record Wakes {N : Type 0} (node : ConditionNode N) (event : EvaluationTriggerEvent N)
    : Type 0 where
  pub leaf : LeafCondition N
  pub is_leaf : In leaf (leaves node)
  pub operand : ConditionOperand N
  pub is_operand : Reads leaf operand
  pub reads : ReadsSlot operand event

module _ {N : Type 0} where
  operands-same : (leaf : LeafCondition N) → leaf_operands leaf ≡ operands leaf
  unfolding leaf_operands operands
  operands-same (comparison leaf) = refl
  operands-same (cross leaf) = refl
  operands-same (channel leaf) = refl
  operands-same (moving leaf) = refl
  operands-same (state leaf) = refl

  operand-ReadsSlot :
      (o : ConditionOperand N) (event : EvaluationTriggerEvent N)
      → operand_reads_slot o event ≡ true
      → ReadsSlot o event
  unfolding operand_reads_slot
  operand-ReadsSlot (symbol_state_ref key t) (symbol_state_changed ts s pr k prev cur) h =
      rw ((==_iff key k).0 h) symbol_slot
  operand-ReadsSlot (global_state_ref key t) (global_state_changed ts pr k prev cur) h =
      rw ((==_iff key k).0 h) global_slot
  operand-ReadsSlot (indicator_ref i state_key t) (indicator_changed ts s pr j k prev cur) h =
      let same : (i == j) ≡ true = ground arith in
      let same_key : (state_key == k) ≡ true = ground arith in
      rw ((==_iff i j).0 same, (==_iff state_key k).0 same_key) indicator_slot
  operand-ReadsSlot _ _ h = cc

  ReadsSlot-operand :
      {o : ConditionOperand N} {event : EvaluationTriggerEvent N}
      → ReadsSlot o event
      → operand_reads_slot o event ≡ true
  unfolding operand_reads_slot
  ReadsSlot-operand (symbol_slot {key}) = ==_refl key
  ReadsSlot-operand (global_slot {key}) = ==_refl key
  ReadsSlot-operand (indicator_slot {i} {k}) = ground (arith, ==_refl i, ==_refl k)

  -- A change wakes a condition exactly when some leaf of the tree, at any depth, has an operand, a
  -- side of a comparison, a cross or a state leaf, the value or a bound of a channel, or the value
  -- of a moving leaf, that refers to the changed slot: the same key of the same kind of state, or
  -- the same state of the same indicator.
  pub references_slot_iff :
      (node : ConditionNode N) (event : EvaluationTriggerEvent N)
      → (references_slot node event ≡ true) ↔ Wakes node event
  unfolding leaf_reads_slot
  references_slot_iff node event = (
    λ h.
        let (leaf, is_leaf, t) =
          any-In (λ l. leaf_reads_slot l event) (leaves node) (rw references_slot_by_leaves at h) in
        let (o, is_operand, r) = any-In (λ o. operand_reads_slot o event) (leaf_operands leaf) t in
        record {
          leaf = leaf;
          is_leaf = is_leaf;
          operand = o;
          is_operand = In-Reads leaf o (rw (operands-same leaf) at is_operand);
          reads = operand-ReadsSlot o event r;
        },
    λ w. rw references_slot_by_leaves (
        In-any (λ l. leaf_reads_slot l event) (leaves node) w.leaf w.is_leaf
          (In-any (λ o. operand_reads_slot o event) (leaf_operands w.leaf) w.operand
            (rw (operands-same w.leaf) (Reads-In w.is_operand)) (ReadsSlot-operand w.reads))),
  )
