-- ===== src/Rules/Operators/Moving.antt =====
-- packages/backend/src/analytics/rules/operators/moving.ts
pub mod Laws
use lametrader.Prelude.{
  ℕ, ◌+◌, Bool, true, false, ◌&&◌, Option, none, some, List, [], ◌∷◌, if◌then◌else◌, nat_beq,
}
use lametrader.Float.{Float}
use lametrader.Rules.Condition.{
  MovingOperator, moving_up, moving_down, moving_up_percent, moving_down_percent,
  MovingLeafCondition,
}
use lametrader.Rules.Series.{SeriesPoint, EvaluationContext, numeric_point}

abbrev is_none {ℓ} : {A : Type ℓ} → Option A → Bool
is_none none = true
is_none (some a) = false

module _ {N : Type 0} ⦃f : Float N⦄ where
  -- One round of the loop at a point's number: `none` is the early `return false`, and `rest` goes
  -- on with the current value.
  unfoldable pub moving_round :
      ℕ
      → ℕ
      → Option N
      → Option N
      → (Option N → Option (Option N × Option N))
      → Option (Option N × Option N)
  moving_round lookback seen current number rest =
      if nat_beq seen 0 && is_none number
      then none
      else let now = if nat_beq seen 0 then number else current in
        if nat_beq seen lookback
        then (if is_none number then none else some (now, number))
        else rest now

  -- The loop over the walk, with the steps seen and the current value; it ends with `current` and
  -- `past`.
  unfoldable pub moving_scan :
      ℕ → ℕ → Option N → List (SeriesPoint N) → Option (Option N × Option N)
  unfolding moving_round
  moving_scan lookback seen current [] = some (current, none)
  moving_scan lookback seen current (point ∷ older) =
      moving_round lookback seen current (numeric_point point.value)
        (λ now. moving_scan lookback (seen + 1) now older)

  unfoldable pub moving_verdict : MovingOperator → N → N → N → Bool
  moving_verdict moving_up threshold current past = f.le threshold (f.sub current past)
  moving_verdict moving_down threshold current past = f.le threshold (f.neg (f.sub current past))
  moving_verdict moving_up_percent threshold current past =
      if f.same past (f.lit 0)
      then false
      else f.le threshold (f.mul (f.div (f.sub current past) past) (f.lit 100))
  moving_verdict moving_down_percent threshold current past =
      if f.same past (f.lit 0)
      then false
      else f.le threshold (f.mul (f.div (f.neg (f.sub current past)) past) (f.lit 100))

  unfoldable pub moving_result : MovingOperator → N → Option (Option N × Option N) → Bool
  moving_result operator threshold (some (some current, some past)) =
      moving_verdict operator threshold current past
  moving_result operator threshold _ = false

  unfoldable pub evaluate_moving : MovingLeafCondition N → EvaluationContext N → Bool
  unfolding moving_scan moving_result moving_verdict
  evaluate_moving leaf ctx = moving_result leaf.operator leaf.threshold (
      moving_scan leaf.lookback_bars 0 none
        (ctx.resolve_series leaf.left leaf.interval).backward_walk)
