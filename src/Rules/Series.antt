-- ===== src/Rules/Series.antt =====
-- What an operator reads (packages/backend/src/analytics/rules/series.types.ts and
-- evaluation-context.types.ts). A view is the finite list of points that its walk yields, newest
-- first, beside its `asOf`; the promises of the source resolve to these values.
use lametrader.Prelude.{ℕ, String, Option, none, some, List, if◌then◌else◌}
use lametrader.Float.{Float}
use lametrader.Config.{Period}
use lametrader.State.{StateValue, num}
use lametrader.Rules.Operand.{ConditionOperand}

pub record SeriesPoint (N : Type 0) : Type 0 where
  pub ts : ℕ
  pub value : StateValue N

pub record SeriesView (N : Type 0) : Type 0 where
  pub backward_walk : List (SeriesPoint N)
  pub as_of : ℕ → Option (SeriesPoint N)

pub record EvaluationContext (N : Type 0) : Type 0 where
  pub symbol_id : String
  pub resolve_latest : ConditionOperand N → Option Period → Option (StateValue N)
  pub resolve_prev : ConditionOperand N → Option Period → Option (StateValue N)
  pub resolve_series : ConditionOperand N → Option Period → SeriesView N

module _ {N : Type 0} ⦃f : Float N⦄ where
  -- A number that is not a NaN, or `none` (`numericPoint` of the operators).
  unfoldable pub numeric_point : StateValue N → Option N
  numeric_point (num x) = if f.is_nan x then none else some x
  numeric_point _ = none

  unfoldable pub numeric_as_of : SeriesView N → ℕ → Option N
  unfolding numeric_point
  numeric_as_of series ts = elim (series.as_of ts) [
    | none ↦ none
    | some point ↦ numeric_point point.value
  ]
