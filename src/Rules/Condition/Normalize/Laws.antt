-- ===== src/Rules/Condition/Normalize/Laws.antt =====
-- What the rewriting keeps.
use mathlib.Core.List.{foldl, map-append}
use lametrader.Prelude.{Bool, ◌≡◌, refl, sym, ◌∙◌, ap, List, [], ◌∷◌, map, arith, any}
use lametrader.Config.{Period}
use lametrader.Rules.Condition.{
  LeafCondition, ConditionNode, and_node, or_node, leaf_node, ConditionNodes, nil, cons,
}
use lametrader.Rules.Condition.Leaves.{
  leaf_operands, leaf_interval, leaf_needs_interval, leaves, leaves_of, walk_leaves-foldl,
}
use lametrader.Rules.Condition.Validate.{
  collect_visit, collect_condition_intervals, validate_visit, validate_rule_condition, valid,
  needed_interval, lacks_interval, Validation,
}
use lametrader.Rules.Condition.References.{
  leaf_reads_slot, references_slot, references_slot_by_leaves,
}
use lametrader.Rules.Condition.Normalize.{normalize_leaf, normalize_node, normalize_children}
use lametrader.Rules.Event.{EvaluationTriggerEvent}

module _ {N : Type 0} where
  normalize_leaf-operands :
      (l : LeafCondition N) → leaf_operands (normalize_leaf l) ≡ leaf_operands l
  unfolding normalize_leaf leaf_operands
  normalize_leaf-operands l = ground arith

  normalize_leaf-interval :
      (l : LeafCondition N) → leaf_interval (normalize_leaf l) ≡ leaf_interval l
  unfolding normalize_leaf leaf_interval
  normalize_leaf-interval l = ground arith

  normalize_leaf-again :
      (l : LeafCondition N) → normalize_leaf (normalize_leaf l) ≡ normalize_leaf l
  unfolding normalize_leaf
  normalize_leaf-again l = ground arith

  leaf_needs-normalize :
      (l : LeafCondition N) → leaf_needs_interval (normalize_leaf l) ≡ leaf_needs_interval l
  unfolding leaf_needs_interval normalize_leaf
  leaf_needs-normalize l = ground arith

  needed_interval-normalize :
      (l : LeafCondition N) → needed_interval (normalize_leaf l) ≡ needed_interval l
  unfolding needed_interval
  needed_interval-normalize l = ground (arith, normalize_leaf-interval l, leaf_needs-normalize l)

  collect_visit-normalize :
      (out : List Period) (l : LeafCondition N)
      → collect_visit out (normalize_leaf l) ≡ collect_visit out l
  unfolding collect_visit
  collect_visit-normalize out l = ground (arith, needed_interval-normalize l)

  validate_visit-normalize :
      (s : Validation) (l : LeafCondition N)
      → validate_visit s (normalize_leaf l) ≡ validate_visit s l
  unfolding validate_visit lacks_interval
  validate_visit-normalize s l = ground (arith, normalize_leaf-interval l, leaf_needs-normalize l)

  leaf_reads_slot-normalize :
      (event : EvaluationTriggerEvent N) (l : LeafCondition N)
      → leaf_reads_slot (normalize_leaf l) event ≡ leaf_reads_slot l event
  unfolding leaf_reads_slot normalize_leaf
  leaf_reads_slot-normalize event l = ground arith

  mutual
    unfolding leaves normalize_node

    leaves-normalize :
        (node : ConditionNode N) → leaves (normalize_node node) ≡ map normalize_leaf (leaves node)
    leaves-normalize (leaf_node l) = refl
    leaves-normalize (and_node children) = leaves_of-normalize children
    leaves-normalize (or_node children) = leaves_of-normalize children

    leaves_of-normalize :
        (nodes : ConditionNodes N)
        → leaves_of (normalize_children nodes) ≡ map normalize_leaf (leaves_of nodes)
    leaves_of-normalize nil = refl
    leaves_of-normalize (cons child rest) =
        rw (leaves-normalize child, leaves_of-normalize rest, map-append) refl

  mutual
    unfolding normalize_node

    normalize_twice :
        (node : ConditionNode N) → normalize_node (normalize_node node) ≡ normalize_node node
    normalize_twice (leaf_node l) = ap leaf_node (normalize_leaf-again l)
    normalize_twice (and_node children) = ap and_node (normalize_children_twice children)
    normalize_twice (or_node children) = ap or_node (normalize_children_twice children)

    normalize_children_twice :
        (nodes : ConditionNodes N)
        → normalize_children (normalize_children nodes) ≡ normalize_children nodes
    normalize_children_twice nil = refl
    normalize_children_twice (cons child rest) =
        rw (normalize_twice child, normalize_children_twice rest) refl

  -- A fold whose step does not tell a leaf from its rewriting.
  foldl-normalize :
      {S : Type 0} (visit : S → LeafCondition N → S)
      → ((s : S) (l : LeafCondition N) → visit s (normalize_leaf l) ≡ visit s l)
      → (s : S) (ls : List (LeafCondition N))
      → foldl visit s (map normalize_leaf ls) ≡ foldl visit s ls
  foldl-normalize visit h s [] = refl
  foldl-normalize visit h s (l ∷ ls) =
      ap (λ t. foldl visit t (map normalize_leaf ls)) (h s l)
      ∙ foldl-normalize visit h (visit s l) ls

  any-normalize :
      (p : LeafCondition N → Bool)
      → ((l : LeafCondition N) → p (normalize_leaf l) ≡ p l)
      → (ls : List (LeafCondition N)) → any p (map normalize_leaf ls) ≡ any p ls
  any-normalize p h [] = refl
  any-normalize p h (l ∷ ls) = rw (h l, any-normalize p h ls) refl

  -- Rewriting a condition a second time changes nothing, and the rewriting keeps the intervals that
  -- the condition collects, the verdict of its validation, and the changes that wake it.
  pub normalize_node_keeps :
      (node : ConditionNode N)
      → (normalize_node (normalize_node node) ≡ normalize_node node)
        × (collect_condition_intervals (normalize_node node) ≡ collect_condition_intervals node)
        × (validate_rule_condition (normalize_node node) ≡ validate_rule_condition node)
        × ((event : EvaluationTriggerEvent N)
            → references_slot (normalize_node node) event ≡ references_slot node event)
  unfolding collect_condition_intervals validate_rule_condition
  normalize_node_keeps node = (
    normalize_twice node,
    rw
        (
          walk_leaves-foldl collect_visit [] (normalize_node node),
          walk_leaves-foldl collect_visit [] node,
          leaves-normalize node,
        )
        (foldl-normalize collect_visit collect_visit-normalize [] (leaves node)),
    rw
        (
          walk_leaves-foldl validate_visit valid (normalize_node node),
          walk_leaves-foldl validate_visit valid node,
          leaves-normalize node,
        )
        (foldl-normalize validate_visit validate_visit-normalize valid (leaves node)),
    λ event.
        references_slot_by_leaves (normalize_node node) event
        ∙ rw (leaves-normalize node) (
            any-normalize (λ l. leaf_reads_slot l event) (leaf_reads_slot-normalize event)
              (leaves node))
        ∙ sym (references_slot_by_leaves node event),
  )
