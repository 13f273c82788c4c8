-- ===== src/Rules/Condition/Operands.antt =====
-- What a leaf reads, and which operands stand on bars, as relations of their own: an account of
-- packages/core/src/types/rules/condition.types.ts and operand.types.ts that uses no function of
-- the walks.
use lametrader.Prelude.{
  ◌≡◌, refl, inl, inr, Bool, true, some, List, [], ◌∷◌, any, In, Bool-cases, arith,
}
use lametrader.Config.{Period}
use lametrader.Rules.Operand.{ConditionOperand, open_price, high, low, close, volume, indicator_ref}
use lametrader.Rules.Condition.{
  ComparisonLeafCondition, CrossingLeafCondition, ChannelLeafCondition, MovingLeafCondition,
  StateLeafCondition, LeafCondition, comparison, cross, channel, moving, state,
}

-- The operands of a leaf.
pub data Reads {N : Type 0} : LeafCondition N → ConditionOperand N → Type 0 where
  comparison_left : {leaf : ComparisonLeafCondition N} → Reads (comparison leaf) leaf.left
  comparison_right : {leaf : ComparisonLeafCondition N} → Reads (comparison leaf) leaf.right
  cross_left : {leaf : CrossingLeafCondition N} → Reads (cross leaf) leaf.left
  cross_right : {leaf : CrossingLeafCondition N} → Reads (cross leaf) leaf.right
  channel_left : {leaf : ChannelLeafCondition N} → Reads (channel leaf) leaf.left
  channel_lower : {leaf : ChannelLeafCondition N} → Reads (channel leaf) leaf.lower
  channel_upper : {leaf : ChannelLeafCondition N} → Reads (channel leaf) leaf.upper
  moving_left : {leaf : MovingLeafCondition N} → Reads (moving leaf) leaf.left
  state_left : {leaf : StateLeafCondition N} → Reads (state leaf) leaf.left
  state_right : {leaf : StateLeafCondition N} → Reads (state leaf) leaf.right

-- An operand whose value belongs to a bar: a field of one, or the state of an indicator over bars.
pub data IsBarScoped {N : Type 0} : ConditionOperand N → Type 0 where
  open_scoped : IsBarScoped open_price
  high_scoped : IsBarScoped high
  low_scoped : IsBarScoped low
  close_scoped : IsBarScoped close
  volume_scoped : IsBarScoped volume
  indicator_scoped : {i k : _} → {t : _} → IsBarScoped (indicator_ref i k t)

-- A leaf with a bar interval.
pub data HasInterval {N : Type 0} : LeafCondition N → Type 0 where
  comparison_interval :
      {leaf : ComparisonLeafCondition N} (p : Period)
      → leaf.interval ≡ some p
      → HasInterval (comparison leaf)
  cross_interval :
      {leaf : CrossingLeafCondition N} (p : Period)
      → leaf.interval ≡ some p
      → HasInterval (cross leaf)
  channel_interval :
      {leaf : ChannelLeafCondition N} (p : Period)
      → leaf.interval ≡ some p
      → HasInterval (channel leaf)
  moving_interval :
      {leaf : MovingLeafCondition N} (p : Period)
      → leaf.interval ≡ some p
      → HasInterval (moving leaf)
  state_interval :
      {leaf : StateLeafCondition N} (p : Period) → leaf.interval ≡ some p → HasInterval (state leaf)

module _ {N : Type 0} where
  -- The list of what a leaf reads.
  unfoldable pub operands : LeafCondition N → List (ConditionOperand N)
  operands (comparison leaf) = leaf.left ∷ leaf.right ∷ []
  operands (cross leaf) = leaf.left ∷ leaf.right ∷ []
  operands (channel leaf) = leaf.left ∷ leaf.lower ∷ leaf.upper ∷ []
  operands (moving leaf) = leaf.left ∷ []
  operands (state leaf) = leaf.left ∷ leaf.right ∷ []

  pub Reads-In :
      {leaf : LeafCondition N} {o : ConditionOperand N} → Reads leaf o → In o (operands leaf)
  unfolding operands
  Reads-In comparison_left = inl refl
  Reads-In comparison_right = inr (inl refl)
  Reads-In cross_left = inl refl
  Reads-In cross_right = inr (inl refl)
  Reads-In channel_left = inl refl
  Reads-In channel_lower = inr (inl refl)
  Reads-In channel_upper = inr (inr (inl refl))
  Reads-In moving_left = inl refl
  Reads-In state_left = inl refl
  Reads-In state_right = inr (inl refl)

  pub In-Reads :
      (leaf : LeafCondition N) (o : ConditionOperand N) → In o (operands leaf) → Reads leaf o
  unfolding operands
  In-Reads (comparison leaf) o (inl q) = rw q comparison_left
  In-Reads (comparison leaf) o (inr (inl q)) = rw q comparison_right
  In-Reads (cross leaf) o (inl q) = rw q cross_left
  In-Reads (cross leaf) o (inr (inl q)) = rw q cross_right
  In-Reads (channel leaf) o (inl q) = rw q channel_left
  In-Reads (channel leaf) o (inr (inl q)) = rw q channel_lower
  In-Reads (channel leaf) o (inr (inr (inl q))) = rw q channel_upper
  In-Reads (moving leaf) o (inl q) = rw q moving_left
  In-Reads (state leaf) o (inl q) = rw q state_left
  In-Reads (state leaf) o (inr (inl q)) = rw q state_right
  In-Reads (comparison leaf) o (inr (inr h)) = absurd h
  In-Reads (cross leaf) o (inr (inr h)) = absurd h
  In-Reads (channel leaf) o (inr (inr (inr h))) = absurd h
  In-Reads (moving leaf) o (inr h) = absurd h
  In-Reads (state leaf) o (inr (inr h)) = absurd h

module _ {A : Type 0} where
  pub any-In : (p : A → Bool) (xs : List A) → any p xs ≡ true → (a : A) × In a xs × (p a ≡ true)
  any-In p [] h = cc
  any-In p (x ∷ xs) h = elim (Bool-cases (p x)) [
    | inl e ↦ (x, inl refl, e)
    | inr e ↦ let (a, i, t) = any-In p xs (ground arith) in (a, inr i, t)
  ]

  pub In-any : (p : A → Bool) (xs : List A) (a : A) → In a xs → p a ≡ true → any p xs ≡ true
  In-any p [] a h t = absurd h
  In-any p (x ∷ xs) a (inl q) t = let e : p x ≡ true = rw q at t in ground arith
  In-any p (x ∷ xs) a (inr i) t = ground (arith, In-any p xs a i t)
