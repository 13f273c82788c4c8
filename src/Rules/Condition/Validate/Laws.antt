-- ===== src/Rules/Condition/Validate/Laws.antt =====
-- Which conditions `validateRuleCondition` accepts
-- (packages/backend/src/common/domain/rules/condition-validate.ts).
use mathlib.Core.List.{foldl}
use lametrader.Prelude.{
  true, false, ◌≡◌, refl, ◌↔◌, inl, inr, List, [], ◌∷◌, All, any, some, arith, Bool-cases,
  Option-cases,
}
use lametrader.Config.{Period}
use lametrader.Rules.Operand.{ConditionOperand, open_price, high, low, close, volume, indicator_ref}
use lametrader.Rules.Condition.{
  LeafCondition, comparison, cross, channel, moving, state, ConditionNode,
}
use lametrader.Rules.Condition.Leaves.{
  operand_needs_interval, leaf_operands, leaf_interval, leaf_needs_interval, leaves,
  walk_leaves-foldl,
}
use lametrader.Rules.Condition.Operands.{
  Reads, operands, Reads-In, In-Reads, any-In, In-any, IsBarScoped, open_scoped, high_scoped,
  low_scoped, close_scoped, volume_scoped, indicator_scoped, HasInterval, comparison_interval,
  cross_interval, channel_interval, moving_interval, state_interval,
}
use lametrader.Rules.Condition.Validate.{
  valid, invalid_rule_condition, lacks_interval, validate_visit, validate_rule_condition,
}

module _ {N : Type 0} where
  invalid_stays :
      (ls : List (LeafCondition N))
      → foldl validate_visit invalid_rule_condition ls ≡ invalid_rule_condition
  unfolding validate_visit
  invalid_stays [] = refl
  invalid_stays (l ∷ ls) = invalid_stays ls

  validate-All :
      (ls : List (LeafCondition N))
      → foldl validate_visit valid ls ≡ valid
      → All (λ l. lacks_interval l ≡ false) ls
  unfolding validate_visit
  validate-All [] h = tt
  validate-All (l ∷ ls) h = elim (Bool-cases (lacks_interval l)) [
    | inl e ↦ absurd (ground (arith, invalid_stays ls))
    | inr e ↦ (e, validate-All ls (ground arith))
  ]

  All-validate :
      (ls : List (LeafCondition N))
      → All (λ l. lacks_interval l ≡ false) ls
      → foldl validate_visit valid ls ≡ valid
  unfolding validate_visit
  All-validate [] h = refl
  All-validate (l ∷ ls) h = ground (arith, All-validate ls h.1)

  operands-same : (leaf : LeafCondition N) → leaf_operands leaf ≡ operands leaf
  unfolding leaf_operands operands
  operands-same (comparison leaf) = refl
  operands-same (cross leaf) = refl
  operands-same (channel leaf) = refl
  operands-same (moving leaf) = refl
  operands-same (state leaf) = refl

  IsBarScoped-needs : {o : ConditionOperand N} → IsBarScoped o → operand_needs_interval o ≡ true
  unfolding operand_needs_interval
  IsBarScoped-needs open_scoped = refl
  IsBarScoped-needs high_scoped = refl
  IsBarScoped-needs low_scoped = refl
  IsBarScoped-needs close_scoped = refl
  IsBarScoped-needs volume_scoped = refl
  IsBarScoped-needs indicator_scoped = refl

  needs-IsBarScoped : (o : ConditionOperand N) → operand_needs_interval o ≡ true → IsBarScoped o
  unfolding operand_needs_interval
  needs-IsBarScoped open_price h = open_scoped
  needs-IsBarScoped high h = high_scoped
  needs-IsBarScoped low h = low_scoped
  needs-IsBarScoped close h = close_scoped
  needs-IsBarScoped volume h = volume_scoped
  needs-IsBarScoped (indicator_ref i k t) h = indicator_scoped
  needs-IsBarScoped _ h = cc

  interval-HasInterval :
      (leaf : LeafCondition N) (p : Period) → leaf_interval leaf ≡ some p → HasInterval leaf
  unfolding leaf_interval
  interval-HasInterval (comparison leaf) p e = comparison_interval p e
  interval-HasInterval (cross leaf) p e = cross_interval p e
  interval-HasInterval (channel leaf) p e = channel_interval p e
  interval-HasInterval (moving leaf) p e = moving_interval p e
  interval-HasInterval (state leaf) p e = state_interval p e

  HasInterval-interval :
      {leaf : LeafCondition N} → HasInterval leaf → (p : Period) × (leaf_interval leaf ≡ some p)
  unfolding leaf_interval
  HasInterval-interval (comparison_interval p e) = (p, e)
  HasInterval-interval (cross_interval p e) = (p, e)
  HasInterval-interval (channel_interval p e) = (p, e)
  HasInterval-interval (moving_interval p e) = (p, e)
  HasInterval-interval (state_interval p e) = (p, e)

  -- Where a leaf reads a bar, it has an interval.
  abbrev pub IsTimed : LeafCondition N → Type 0
  IsTimed leaf = (o : ConditionOperand N) → Reads leaf o → IsBarScoped o → HasInterval leaf

  lacks-IsTimed : (leaf : LeafCondition N) → lacks_interval leaf ≡ false → IsTimed leaf
  unfolding lacks_interval leaf_needs_interval
  lacks-IsTimed leaf h o r b =
      let needs =
        In-any operand_needs_interval (leaf_operands leaf) o (rw (operands-same leaf) (Reads-In r))
          (IsBarScoped-needs b) in
      elim (Option-cases (leaf_interval leaf)) [
        | inl e ↦ absurd (ground arith)
        | inr (p, e) ↦ interval-HasInterval leaf p e
      ]

  IsTimed-lacks : (leaf : LeafCondition N) → IsTimed leaf → lacks_interval leaf ≡ false
  unfolding lacks_interval leaf_needs_interval
  IsTimed-lacks leaf timed = elim (Bool-cases (any operand_needs_interval (leaf_operands leaf))) [
    | inr e ↦ ground arith
    | inl e ↦
        let (o, i, t) = any-In operand_needs_interval (leaf_operands leaf) e in
        let (p, has) =
          HasInterval-interval
            (timed o (In-Reads leaf o (rw (operands-same leaf) at i)) (needs-IsBarScoped o t)) in
        ground arith
  ]

  All-map :
      {P Q : LeafCondition N → Type 0}
      → ((l : LeafCondition N) → P l → Q l)
      → (ls : List (LeafCondition N)) → All P ls
      → All Q ls
  All-map g [] a = tt
  All-map g (l ∷ ls) a = (g l a.0, All-map g ls a.1)

  -- A condition is accepted exactly when every leaf of the tree that has an operand on a bar (an
  -- open, high, low, close or volume, or an indicator's state) as a side, a bound or its value has
  -- an interval; any other condition is refused.
  pub validate_rule_condition_iff :
      (condition : ConditionNode N)
      → (validate_rule_condition condition ≡ valid) ↔ All IsTimed (leaves condition)
  unfolding validate_rule_condition
  validate_rule_condition_iff condition = (
    λ h. All-map lacks-IsTimed _ (validate-All (leaves condition) (rw walk_leaves-foldl at h)),
    λ h. rw walk_leaves-foldl (All-validate (leaves condition) (All-map IsTimed-lacks _ h)),
  )
