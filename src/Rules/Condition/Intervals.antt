-- ===== src/Rules/Condition/Intervals.antt =====
-- What `collectConditionIntervals` collects.
use mathlib.Core.List.{foldl}
use lametrader.Prelude.{
  Bool, false, ◌||◌, ◌≡◌, refl, inl, inr, List, [], ◌∷◌, ◌++◌, none, some, arith, includes, any,
  Bool-cases, Option-cases, ◌==◌,
}
use lametrader.Config.{Period, period_eq}
use lametrader.Rules.Condition.{LeafCondition, ConditionNode}
use lametrader.Rules.Condition.Leaves.{leaves, walk_leaves-foldl}
use lametrader.Rules.Condition.Validate.{
  needed_interval, collect_visit, collect_condition_intervals,
}

-- No period stands twice.
abbrev pub Distinct : List Period → Type 0
Distinct [] = Unit
Distinct (p ∷ ps) = (includes ps p ≡ false) × Distinct ps

includes-append :
    (xs : List Period) (p q : Period) → includes (xs ++ (p ∷ [])) q ≡ (includes xs q || (p == q))
includes-append [] p q = ground arith
includes-append (x ∷ xs) p q = ground (arith, includes-append xs p q)

Distinct-append :
    (xs : List Period) (p : Period)
    → Distinct xs
    → includes xs p ≡ false
    → Distinct (xs ++ (p ∷ []))
Distinct-append [] p d h = (refl, tt)
Distinct-append (x ∷ xs) p d h =
    (ground (arith, includes-append xs p x), Distinct-append xs p d.1 (ground arith))

module _ {N : Type 0} where
  -- Whether a leaf needs the period.
  pub needs_period : Period → LeafCondition N → Bool
  needs_period p leaf = elim (needed_interval leaf) [ none ↦ false | some q ↦ q == p ]

  collect_visit-Distinct :
      (out : List Period) (leaf : LeafCondition N)
      → Distinct out
      → Distinct (collect_visit out leaf)
  unfolding collect_visit
  collect_visit-Distinct out leaf d = elim (Option-cases (needed_interval leaf)) [
    | inl e ↦ rw (e, collect_visit) d
    | inr (p, e) ↦ elim (Bool-cases (includes out p)) [
      | inl old ↦ rw (e, collect_visit) (rw old d)
      | inr new ↦ rw (e, collect_visit) (rw new (Distinct-append out p d new))
    ]
  ]

  includes-collect_visit :
      (out : List Period) (leaf : LeafCondition N) (p : Period)
      → includes (collect_visit out leaf) p ≡ (includes out p || needs_period p leaf)
  unfolding collect_visit needs_period
  includes-collect_visit out leaf p = elim (Option-cases (needed_interval leaf)) [
    | inl e ↦ ground arith
    | inr (q, e) ↦ ground (arith, includes-append out q p)
  ]

  collect-Distinct :
      (out : List Period) (ls : List (LeafCondition N))
      → Distinct out
      → Distinct (foldl collect_visit out ls)
  collect-Distinct out [] d = d
  collect-Distinct out (l ∷ ls) d =
      collect-Distinct (collect_visit out l) ls (collect_visit-Distinct out l d)

  includes-collect :
      (out : List Period) (ls : List (LeafCondition N)) (p : Period)
      → includes (foldl collect_visit out ls) p ≡ (includes out p || any (needs_period p) ls)
  includes-collect out [] p = ground arith
  includes-collect out (l ∷ ls) p =
      ground (arith, includes-collect (collect_visit out l) ls p, includes-collect_visit out l p)

  -- The collected intervals are distinct, and a period is among them exactly when it is the interval
  -- of a leaf of the tree that reads a bar-scoped operand.
  pub collect_condition_intervals_lem :
      (condition : ConditionNode N)
      → Distinct (collect_condition_intervals condition)
        × ((p : Period)
            → includes (collect_condition_intervals condition) p
              ≡ any (needs_period p) (leaves condition))
  unfolding collect_condition_intervals
  collect_condition_intervals_lem condition = (
    rw walk_leaves-foldl (collect-Distinct [] (leaves condition) tt),
    λ p. rw walk_leaves-foldl (includes-collect [] (leaves condition) p),
  )
