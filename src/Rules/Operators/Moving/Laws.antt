-- ===== src/Rules/Operators/Moving/Laws.antt =====
-- What `evaluateMoving` decides: the loop reads the samples at two positions of the walk.
use lametrader.Prelude.{
  ℕ, zero, suc, ◌+◌, ◌<◌, ◌≡◌, refl, Bool, false, Option, none, some, List, [], ◌∷◌, arith,
  get_elem?,
}
use lametrader.Float.{Float}
use lametrader.Rules.Condition.{MovingLeafCondition}
use lametrader.Rules.Series.{SeriesPoint, EvaluationContext, numeric_point}
use lametrader.Rules.Operators.Moving.{moving_scan, moving_verdict, moving_result, evaluate_moving}

module _ {N : Type 0} ⦃f : Float N⦄ where
  -- The number at a position of a walk, newest first.
  pub sample : List (SeriesPoint N) → ℕ → Option N
  sample walk i = elim (get_elem? walk i) [ none ↦ none | some p ↦ numeric_point p.value ]

  -- What is left of the loop after the newest point: the sample `k` points on.
  past_at : Option N → Option (SeriesPoint N) → Option (Option N × Option N)
  past_at current none = some (current, none)
  past_at current (some p) = elim (numeric_point p.value) [
    | none ↦ none
    | some x ↦ some (current, some x)
  ]

  moving_scan-past :
      (k seen lookback : ℕ) (current : Option N) (walk : List (SeriesPoint N))
      → 0 < seen
      → lookback ≡ seen + k
      → moving_scan lookback seen current walk ≡ past_at current (get_elem? walk k)
  unfolding moving_scan past_at
  moving_scan-past k seen lookback current [] h e = refl
  moving_scan-past zero seen lookback current (p ∷ walk) h e = ground arith
  moving_scan-past (suc k) seen lookback current (p ∷ walk) h e =
      ground (arith, moving_scan-past k (seen + 1) lookback current walk)

  moving_scan-newest :
      (lookback : ℕ) (p : SeriesPoint N) (walk : List (SeriesPoint N))
      → moving_scan lookback 0 none (p ∷ walk) ≡ elim (numeric_point p.value) [
        | none ↦ none
        | some x ↦ past_at (some x) (get_elem? (p ∷ walk) lookback)
      ]
  unfolding moving_scan
  moving_scan-newest zero p walk = unfold past_at in ground arith
  moving_scan-newest (suc k) p walk =
      ground (arith, moving_scan-past k 1 (suc k) (numeric_point p.value) walk)

  -- The movement between the newest sample and the one `lookback` points back.
  pub moved : MovingLeafCondition N → Option N → Option N → Bool
  moved leaf (some current) (some past) = moving_verdict leaf.operator leaf.threshold current past
  moved leaf _ _ = false

  moving_result-scan :
      (leaf : MovingLeafCondition N) (walk : List (SeriesPoint N))
      → moving_result leaf.operator leaf.threshold (moving_scan leaf.lookback_bars 0 none walk)
        ≡ moved leaf (sample walk 0) (sample walk leaf.lookback_bars)
  unfolding moving_result moved sample
  moving_result-scan leaf [] = unfold moving_scan in ground arith
  moving_result-scan leaf (p ∷ walk) =
      unfold past_at in ground (arith, moving_scan-newest leaf.lookback_bars p walk)

-- The loop of a moving leaf decides by the samples at positions 0 and `lookbackBars` of the left
-- series' walk: false unless both are there and are numbers, and the operator's test of the two
-- otherwise, whatever lies between them.
pub evaluate_moving_by_samples :
    {N : Type 0} ⦃f : Float N⦄ (leaf : MovingLeafCondition N) (ctx : EvaluationContext N)
    → let walk = (ctx.resolve_series leaf.left leaf.interval).backward_walk in
      evaluate_moving leaf ctx ≡ moved leaf (sample walk 0) (sample walk leaf.lookback_bars)
unfolding evaluate_moving
evaluate_moving_by_samples leaf ctx =
    moving_result-scan leaf (ctx.resolve_series leaf.left leaf.interval).backward_walk
