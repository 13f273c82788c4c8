-- ===== src/Rules/Operators/Crossing/Laws.antt =====
-- What `evaluateCrossing` decides: a crossing is a change of side over the flat points between.
use lametrader.Prelude.{
  ◌≡◌, refl, ◌∙◌, ◌↔◌, inl, inr, true, false, ◌||◌, Option, none, some, List, [], ◌∷◌, arith,
  if◌then◌else◌, Option-cases, find_map, Found, find_map_iff,
}
use lametrader.Float.{Float}
use lametrader.Config.{Period}
use lametrader.Rules.Operand.{ConditionOperand}
use lametrader.Rules.Condition.{
  CrossingOperator, crossing, crossing_up, crossing_down, CrossingLeafCondition,
}
use lametrader.Rules.Series.{SeriesPoint, SeriesView, EvaluationContext}
use lametrader.Rules.Operators.Crossing.{
  difference, baseline_side, crossing_direction, crossing_verdict, crossing_walk, evaluate_crossing,
}

module _ {N : Type 0} ⦃f : Float N⦄ where
  -- The difference at a point that is not flat.
  pub off_level : SeriesView N → SeriesPoint N → Option N
  off_level right point = elim (difference right point) [
    | none ↦ none
    | some diff ↦ if f.same diff (f.lit 0) then none else some diff
  ]

  baseline_side-find :
      (right : SeriesView N) (older : List (SeriesPoint N))
      → baseline_side right older
        ≡ elim (find_map (off_level right) older) [ none ↦ f.lit 0 | some d ↦ f.sign d ]
  unfolding baseline_side off_level find_map
  baseline_side-find right [] = refl
  baseline_side-find right (p ∷ older) = ground (arith, baseline_side-find right older)

  -- The walk is at `point`, with the flat and the unresolved points after it passed over, and its
  -- difference to the right series there is `diff`.
  abbrev pub Baseline : SeriesView N → List (SeriesPoint N) → N → Type 0
  Baseline right = Found (off_level right)

  -- A crossing of the walk: the newest point and the first older one that is off the level lie on
  -- two sides, in the operator's direction.
  pub record Crosses (operator : CrossingOperator) (right : SeriesView N)
      (walk : List (SeriesPoint N)) : Type 0 where
    pub newest : SeriesPoint N
    pub older : List (SeriesPoint N)
    pub now : N
    pub past : N
    pub walk_is : walk ≡ newest ∷ older
    pub now_is : difference right newest ≡ some now
    pub past_is : Baseline right older past
    pub now_off : f.same (f.sign now) (f.lit 0) ≡ false
    pub past_off : f.same (f.sign past) (f.lit 0) ≡ false
    pub sides : f.same (f.sign past) (f.sign now) ≡ false
    pub direction : crossing_direction operator (f.sign now) ≡ true

  crossing_verdict-true :
      (operator : CrossingOperator) (c b : N)
      → crossing_verdict operator c b ≡ true
      → (f.same c (f.lit 0) ≡ false)
        × (f.same b (f.lit 0) ≡ false)
        × (f.same b c ≡ false)
        × (crossing_direction operator c ≡ true)
  unfolding crossing_verdict
  crossing_verdict-true operator c b h = (ground arith, ground arith, ground arith, ground arith)

  -- Without a baseline the walk's side is 0, and 0 is no side.
  baseline_side-Found :
      (right : SeriesView N) (older : List (SeriesPoint N))
      → f.same (f.lit 0) (f.lit 0) ≡ true
      → f.same (baseline_side right older) (f.lit 0) ≡ false
      → (past : N) × (baseline_side right older ≡ f.sign past) × Baseline right older past
  baseline_side-Found right older zero h = elim (Option-cases (find_map (off_level right) older)) [
    | inl e ↦ absurd (ground (arith, baseline_side-find right older))
    | inr (d, e) ↦ (
      d,
      baseline_side-find right older ∙ rw e refl,
      (find_map_iff (off_level right) older d).0 e,
    )
  ]

  crossing_walk-Crosses :
      (operator : CrossingOperator) (right : SeriesView N) (walk : List (SeriesPoint N))
      → f.same (f.lit 0) (f.lit 0) ≡ true
      → crossing_walk operator right walk ≡ true
      → Crosses operator right walk
  unfolding crossing_walk
  crossing_walk-Crosses operator right [] zero h = cc
  crossing_walk-Crosses operator right (newest ∷ older) zero h =
      elim (Option-cases (difference right newest)) [
        | inl e ↦ absurd (ground arith)
        | inr (now, e) ↦
            let v : crossing_verdict operator (f.sign now) (baseline_side right older) ≡ true =
              ground arith in
            let (now_off, past_off, sides, direction) =
              crossing_verdict-true operator (f.sign now) (baseline_side right older) v in
            let (past, side, b) = baseline_side-Found right older zero past_off in
            record {
              newest = newest;
              older = older;
              now = now;
              past = past;
              walk_is = refl;
              now_is = e;
              past_is = b;
              now_off = now_off;
              past_off = rw side at past_off;
              sides = rw side at sides;
              direction = direction;
            }
      ]

  Crosses-crossing_walk :
      (operator : CrossingOperator) (right : SeriesView N) (walk : List (SeriesPoint N))
      → Crosses operator right walk
      → crossing_walk operator right walk ≡ true
  unfolding crossing_walk crossing_verdict
  Crosses-crossing_walk operator right walk c =
      let side : baseline_side right c.older ≡ f.sign c.past =
        baseline_side-find right c.older
        ∙ rw ((find_map_iff (off_level right) c.older c.past).1 c.past_is) refl in
      rw c.walk_is (ground (arith, side, c.now_is, c.now_off, c.past_off, c.sides, c.direction))

-- On numbers where 0 equals itself, a crossing leaf is true exactly when the newest left point and
-- the first older point that is neither flat nor unresolved lie strictly on two sides of the right
-- series as of their times, in the operator's direction.
pub evaluate_crossing_iff :
    {N : Type 0} ⦃f : Float N⦄ (leaf : CrossingLeafCondition N) (ctx : EvaluationContext N)
    → f.same (f.lit 0) (f.lit 0) ≡ true
    → (evaluate_crossing leaf ctx ≡ true)
      ↔ Crosses leaf.operator
          (ctx.resolve_series leaf.right leaf.interval)
          (ctx.resolve_series leaf.left leaf.interval).backward_walk
unfolding evaluate_crossing
evaluate_crossing_iff leaf ctx zero =
    (crossing_walk-Crosses leaf.operator _ _ zero, Crosses-crossing_walk leaf.operator _ _)

module _ {N : Type 0} ⦃f : Float N⦄ where
  -- The two directions, on a side that is above or below 0.
  crossing_verdict-split :
      (c b : N)
      → (f.same c (f.lit 0) ≡ false → (f.lt (f.lit 0) c || f.lt c (f.lit 0)) ≡ true)
      → crossing_verdict crossing c b
        ≡ (crossing_verdict crossing_up c b || crossing_verdict crossing_down c b)
  unfolding crossing_verdict
  crossing_verdict-split c b h = ground (arith, h)

  crossing_walk-split :
      (right : SeriesView N) (walk : List (SeriesPoint N))
      → ((d : N)
          → f.same (f.sign d) (f.lit 0) ≡ false
          → (f.lt (f.lit 0) (f.sign d) || f.lt (f.sign d) (f.lit 0)) ≡ true)
      → crossing_walk crossing right walk
        ≡ (crossing_walk crossing_up right walk || crossing_walk crossing_down right walk)
  unfolding crossing_walk
  crossing_walk-split right [] h = refl
  crossing_walk-split right (newest ∷ older) h = elim (Option-cases (difference right newest)) [
    | inl e ↦ ground arith
    | inr (d, e) ↦
        ground (arith, crossing_verdict-split (f.sign d) (baseline_side right older) (h d))
  ]

abbrev pub crossing_leaf :
    {N : Type 0}
    → CrossingOperator
    → ConditionOperand N
    → ConditionOperand N
    → Option Period
    → CrossingLeafCondition N
crossing_leaf operator left right interval = record {
  operator = operator;
  left = left;
  right = right;
  interval = interval;
}

-- Where every side that is not 0 is above or below 0, `Crossing` is true exactly when `CrossingUp`
-- or `CrossingDown` is, over the same operands and interval.
pub evaluate_crossing-either :
    {N : Type 0} ⦃f : Float N⦄ (left right : ConditionOperand N) (interval : Option Period)
    (ctx : EvaluationContext N)
    → ((d : N)
        → f.same (f.sign d) (f.lit 0) ≡ false
        → (f.lt (f.lit 0) (f.sign d) || f.lt (f.sign d) (f.lit 0)) ≡ true)
    → evaluate_crossing (crossing_leaf crossing left right interval) ctx ≡ (
        evaluate_crossing (crossing_leaf crossing_up left right interval) ctx
        || evaluate_crossing (crossing_leaf crossing_down left right interval) ctx)
unfolding evaluate_crossing
evaluate_crossing-either left right interval ctx h =
    crossing_walk-split (ctx.resolve_series right interval)
      (ctx.resolve_series left interval).backward_walk h

-- A side that is no number: the newest difference is one whose sign is neither 0, above 0, below 0
-- nor equal to any side, as the difference of two infinite values is. Over a baseline off the
-- level `Crossing` is then true, and neither `CrossingUp` nor `CrossingDown` is.
pub crossing_without_side :
    {N : Type 0} ⦃f : Float N⦄ (right : SeriesView N) (newest : SeriesPoint N)
    (older : List (SeriesPoint N)) (now past : N)
    → difference right newest ≡ some now
    → ((x : N) → f.same x (f.sign now) ≡ false)
    → (f.same (f.sign now) (f.lit 0) ≡ false)
    → (f.lt (f.lit 0) (f.sign now) ≡ false)
    → (f.lt (f.sign now) (f.lit 0) ≡ false)
    → Baseline right older past
    → f.same (f.sign past) (f.lit 0) ≡ false
    → (crossing_walk crossing right (newest ∷ older) ≡ true)
      × (crossing_walk crossing_up right (newest ∷ older) ≡ false)
      × (crossing_walk crossing_down right (newest ∷ older) ≡ false)
unfolding crossing_walk crossing_verdict
crossing_without_side ⦃f⦄ right newest older now past e none_same off not_up not_down b past_off =
    let side : baseline_side right older ≡ f.sign past =
      baseline_side-find right older ∙ rw ((find_map_iff (off_level right) older past).1 b) refl in
    let fresh = none_same (f.sign past) in
    (ground (arith, side), ground (arith, side), ground (arith, side))
