-- ===== src/Rules/Operators/Channel.antt =====
-- packages/backend/src/analytics/rules/operators/channel.ts
pub mod Laws
pub mod Baseline
pub mod OffBounds
use lametrader.Prelude.{
  Bool, true, false, not, ◌&&◌, ◌||◌, Option, none, some, List, [], ◌∷◌, if◌then◌else◌,
}
use lametrader.Float.{Float}
use lametrader.Rules.Condition.{
  ChannelOperator, entering_channel, exiting_channel, inside_channel, ChannelLeafCondition,
}
use lametrader.Rules.Series.{
  SeriesPoint, SeriesView, EvaluationContext, numeric_point, numeric_as_of,
}

-- A left value with the bounds as of its time.
pub record Banded (N : Type 0) : Type 0 where
  pub value : N
  pub lower : N
  pub upper : N

module _ {N : Type 0} ⦃f : Float N⦄ where
  unfoldable pub banded : SeriesView N → SeriesView N → SeriesPoint N → Option (Banded N)
  banded lower upper point = elim (numeric_point point.value) [
    | none ↦ none
    | some v ↦ elim (numeric_as_of lower point.ts) [
      | none ↦ none
      | some lo ↦ elim (numeric_as_of upper point.ts) [
        | none ↦ none
        | some up ↦ some (record { value = v; lower = lo; upper = up })
      ]
    ]
  ]

  unfoldable pub strictly_inside : Banded N → Bool
  strictly_inside b = f.lt b.lower b.value && f.lt b.value b.upper

  unfoldable pub strictly_outside : Banded N → Bool
  strictly_outside b = f.lt b.value b.lower || f.lt b.upper b.value

  unfoldable pub on_boundary : Banded N → Bool
  on_boundary b = f.same b.value b.lower || f.same b.value b.upper

  -- The walk for the baseline: the first older point that is off both boundaries.
  unfoldable pub channel_baseline :
      SeriesView N → SeriesView N → List (SeriesPoint N) → Option (Banded N)
  unfolding banded
  channel_baseline lower upper [] = none
  channel_baseline lower upper (point ∷ older) =
      let rest = channel_baseline lower upper older in
      elim (banded lower upper point) [
        | none ↦ rest
        | some b ↦ if on_boundary b then rest else some b
      ]

  -- The verdict on the newest point and the baseline.
  unfoldable pub channel_verdict : ChannelOperator → Banded N → Option (Banded N) → Bool
  unfolding strictly_inside strictly_outside
  channel_verdict inside_channel newest baseline = strictly_inside newest
  channel_verdict entering_channel newest baseline =
      if not (strictly_inside newest)
      then false
      else elim baseline [ none ↦ false | some b ↦ strictly_outside b ]
  channel_verdict exiting_channel newest baseline =
      if not (strictly_outside newest)
      then false
      else elim baseline [ none ↦ false | some b ↦ strictly_inside b ]

  unfoldable pub channel_walk :
      ChannelOperator → SeriesView N → SeriesView N → List (SeriesPoint N) → Bool
  unfolding banded on_boundary channel_baseline channel_verdict
  channel_walk operator lower upper [] = false
  channel_walk operator lower upper (newest ∷ older) = elim (banded lower upper newest) [
    | none ↦ false
    | some b ↦ channel_verdict operator b (channel_baseline lower upper older)
  ]

  unfoldable pub evaluate_channel : ChannelLeafCondition N → EvaluationContext N → Bool
  unfolding channel_walk
  evaluate_channel leaf ctx =
      channel_walk leaf.operator (ctx.resolve_series leaf.lower leaf.interval)
        (ctx.resolve_series leaf.upper leaf.interval)
        (ctx.resolve_series leaf.left leaf.interval).backward_walk
