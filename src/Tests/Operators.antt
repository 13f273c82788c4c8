-- ===== src/Tests/Operators.antt =====
-- The operators on a series that rises from 2 over 4 to 5.
use lametrader.Prelude.{ℕ, ◌≡◌, refl, sym, ◌||◌, ◌↔◌, true, none, some, List, [], ◌∷◌, arith}
use lametrader.Float.Integers.{ℤ, pos, negsuc, int_float}
use lametrader.Config.{one_minute}
use lametrader.State.{num}
use lametrader.Rules.Operand.{ConditionOperand, price, high, low, close}
use lametrader.Rules.Condition.{
  crossing_up, entering_channel, exiting_channel, inside_channel, moving_up, MovingLeafCondition,
  ConditionNode, and_node, or_node, leaf_node, nil, cons, cross, moving,
}
use lametrader.Rules.Series.{
  SeriesPoint, SeriesView, EvaluationContext, numeric_point, numeric_as_of,
}
use lametrader.Rules.Operators.Crossing.{evaluate_crossing}
use lametrader.Rules.Operators.Crossing.Laws.{Crosses, crossing_leaf, evaluate_crossing_iff}
use lametrader.Rules.Operators.Channel.{evaluate_channel}
use lametrader.Rules.Operators.Channel.Laws.{channel_leaf}
use lametrader.Rules.Operators.Channel.Baseline.{
  ComparisonLaws, EndsOff, Ends, Moves, InClosed, InOpen, OutOf, OutOrOn,
}
use lametrader.Rules.Operators.Channel.OffBounds.{evaluate_channel_off_bounds}
use lametrader.Rules.Operators.Moving.{evaluate_moving}
use lametrader.Rules.Operators.Moving.Laws.{sample, moved, evaluate_moving_by_samples}
use lametrader.Rules.Operators.Evaluate.{evaluate_condition}
use lametrader.Rules.Operators.Holds.{Holds, evaluate_condition_iff}

abbrev point : ℕ → ℕ → SeriesPoint ℤ
point ts value = record { ts = ts; value = num (pos value) }

abbrev constant : ℕ → SeriesView ℤ
constant value = record { backward_walk = []; as_of = λ ts. some (point ts value) }

abbrev rising : List (SeriesPoint ℤ)
rising = point 3 5 ∷ point 2 4 ∷ point 1 2 ∷ []

abbrev series_of : ConditionOperand ℤ → SeriesView ℤ
series_of price = record { backward_walk = rising; as_of = λ ts. none }
series_of high = constant 6
series_of low = constant 3
series_of _ = constant 4

abbrev market : EvaluationContext ℤ
market = record {
  symbol_id = "BTC";
  resolve_latest = λ operand interval. some (num (pos 5));
  resolve_prev = λ operand interval. none;
  resolve_series = λ operand interval. series_of operand;
}

evaluate_crossing_iff_example :
    (evaluate_crossing (crossing_leaf crossing_up price close none) market ≡ true)
    ↔ Crosses crossing_up (constant 4) rising
evaluate_crossing_iff_example =
    evaluate_crossing_iff (crossing_leaf crossing_up price close none) market refl

crosses_up : evaluate_crossing (crossing_leaf crossing_up price close none) market ≡ true
unfolding evaluate_crossing numeric_point numeric_as_of
crosses_up = refl

le-lt_same : (a b : ℤ) → int_float.le a b ≡ (int_float.lt a b || int_float.same a b)
le-lt_same (pos a) (pos b) = ground arith
le-lt_same (pos a) (negsuc b) = ground arith
le-lt_same (negsuc a) (pos b) = ground arith
le-lt_same (negsuc a) (negsuc b) = ground arith

same-symmetric : (a b : ℤ) → int_float.same a b ≡ int_float.same b a
same-symmetric (pos a) (pos b) = ground arith
same-symmetric (pos a) (negsuc b) = ground arith
same-symmetric (negsuc a) (pos b) = ground arith
same-symmetric (negsuc a) (negsuc b) = ground arith

int_laws : ComparisonLaws int_float
int_laws = record { le_is = le-lt_same; same_symmetric = same-symmetric }

five_off : EndsOff (constant 3) (constant 6) rising
unfolding numeric_point numeric_as_of
five_off newest older b e i =
    let at_five : point 3 5 ≡ newest = cc in
    let value_is = i.value_is in
    let lower_is = i.lower_is in
    let upper_is = i.upper_is in
    let values : some (pos 5) ≡ some b.value = rw (sym at_five) at value_is in
    let lowers : some (pos 3) ≡ some b.lower = lower_is in
    let uppers : some (pos 6) ≡ some b.upper = upper_is in
    let value : pos 5 ≡ b.value = cc in
    let lower : pos 3 ≡ b.lower = cc in
    let upper : pos 6 ≡ b.upper = cc in
    (rw (sym value, sym lower) refl, rw (sym value, sym upper) refl)

evaluate_channel_off_bounds_example :
    ((evaluate_channel (channel_leaf inside_channel price low high none) market ≡ true)
      ↔ Ends InClosed (constant 3) (constant 6) rising)
    × ((evaluate_channel (channel_leaf entering_channel price low high none) market ≡ true)
        ↔ Moves OutOf InClosed (constant 3) (constant 6) rising)
    × ((evaluate_channel (channel_leaf exiting_channel price low high none) market ≡ true)
        ↔ Moves InOpen OutOrOn (constant 3) (constant 6) rising)
evaluate_channel_off_bounds_example =
    evaluate_channel_off_bounds int_laws price low high none market five_off

abbrev up_by_two : MovingLeafCondition ℤ
up_by_two = record {
  operator = moving_up;
  left = price;
  threshold = pos 2;
  lookback_bars = 2;
  interval = some one_minute;
}

evaluate_moving_by_samples_example :
    evaluate_moving up_by_two market ≡ moved up_by_two (sample rising 0) (sample rising 2)
evaluate_moving_by_samples_example = evaluate_moving_by_samples up_by_two market

moves_up : evaluate_moving up_by_two market ≡ true
unfolding evaluate_moving numeric_point
moves_up = refl

abbrev tree : ConditionNode ℤ
tree = and_node (
    cons (leaf_node (moving up_by_two)) (
      cons (or_node (cons (leaf_node (cross (crossing_leaf crossing_up price close none))) nil))
        nil))

evaluate_condition_iff_example : (evaluate_condition tree market ≡ true) ↔ Holds market tree
evaluate_condition_iff_example = evaluate_condition_iff tree market
