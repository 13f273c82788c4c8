-- ===== src/Rules/Operators/Crossing.antt =====
-- packages/backend/src/analytics/rules/operators/crossing.ts
pub mod Laws
use lametrader.Prelude.{Bool, true, false, ◌||◌, Option, none, some, List, [], ◌∷◌, if◌then◌else◌}
use lametrader.Float.{Float}
use lametrader.Rules.Condition.{
  CrossingOperator, crossing, crossing_up, crossing_down, CrossingLeafCondition,
}
use lametrader.Rules.Series.{
  SeriesPoint, SeriesView, EvaluationContext, numeric_point, numeric_as_of,
}

module _ {N : Type 0} ⦃f : Float N⦄ where
  -- The left value less the right value as of the same time, if both are numbers.
  unfoldable pub difference : SeriesView N → SeriesPoint N → Option N
  difference right point = elim (numeric_point point.value) [
    | none ↦ none
    | some lv ↦ elim (numeric_as_of right point.ts) [ none ↦ none | some rv ↦ some (f.sub lv rv) ]
  ]

  -- The walk for the baseline: the side of the first older point that is not flat, or 0.
  unfoldable pub baseline_side : SeriesView N → List (SeriesPoint N) → N
  baseline_side right [] = f.lit 0
  baseline_side right (point ∷ older) =
      let rest = baseline_side right older in
      elim (difference right point) [
        | none ↦ rest
        | some diff ↦ if f.same diff (f.lit 0) then rest else f.sign diff
      ]

  unfoldable pub crossing_direction : CrossingOperator → N → Bool
  crossing_direction crossing_up side = f.lt (f.lit 0) side
  crossing_direction crossing_down side = f.lt side (f.lit 0)
  crossing_direction crossing side = true

  -- The verdict on the current side and the baseline.
  unfoldable pub crossing_verdict : CrossingOperator → N → N → Bool
  unfolding crossing_direction
  crossing_verdict operator current baseline =
      if f.same current (f.lit 0)
      then false
      else if f.same baseline (f.lit 0) || f.same baseline current
      then false
      else crossing_direction operator current

  unfoldable pub crossing_walk : CrossingOperator → SeriesView N → List (SeriesPoint N) → Bool
  unfolding difference baseline_side crossing_verdict
  crossing_walk operator right [] = false
  crossing_walk operator right (newest ∷ older) = elim (difference right newest) [
    | none ↦ false
    | some diff ↦ crossing_verdict operator (f.sign diff) (baseline_side right older)
  ]

  unfoldable pub evaluate_crossing : CrossingLeafCondition N → EvaluationContext N → Bool
  unfolding crossing_walk
  evaluate_crossing leaf ctx =
      crossing_walk leaf.operator (ctx.resolve_series leaf.right leaf.interval)
        (ctx.resolve_series leaf.left leaf.interval).backward_walk
