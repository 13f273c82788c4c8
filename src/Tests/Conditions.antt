-- ===== src/Tests/Conditions.antt =====
-- A condition with two state leaves, one over prices on the minute bars and one over a symbol's key.
use lametrader.Prelude.{
  ◌≡◌, refl, ◌↔◌, inl, inr, true, none, some, [], All, any, includes, text_keyed,
}
use lametrader.Float.Integers.{ℤ, pos, int_float}
use lametrader.Config.{Period, one_minute, period_eq}
use lametrader.State.{num, string, text}
use lametrader.Rules.Operand.{close, symbol_state_ref, literal}
use lametrader.Rules.Condition.{
  equals, changes_to, StateLeafCondition, ConditionNode, and_node, leaf_node, nil, cons, state,
}
use lametrader.Rules.Condition.Leaves.{leaves}
use lametrader.Rules.Condition.Validate.{
  valid, collect_condition_intervals, validate_rule_condition,
}
use lametrader.Rules.Condition.Validate.Laws.{IsTimed, validate_rule_condition_iff}
use lametrader.Rules.Condition.References.Slots.{Wakes, references_slot_iff}
use lametrader.Rules.Condition.Intervals.{Distinct, needs_period, collect_condition_intervals_lem}
use lametrader.Rules.Condition.References.{references_slot}
use lametrader.Rules.Condition.Normalize.{normalize_node, keeps_state_family}
use lametrader.Rules.Condition.Normalize.Laws.{normalize_node_keeps}
use lametrader.Rules.Condition.Normalize.Meaning.{evaluate_condition-normalize}
use lametrader.Rules.Event.{EvaluationTriggerEvent, symbol_state_changed}
use lametrader.Rules.Series.{EvaluationContext}
use lametrader.Rules.Operators.Evaluate.{evaluate_condition}

abbrev on_close : StateLeafCondition ℤ
on_close = record {
  operator = equals;
  left = close;
  right = literal (num (pos 5));
  interval = some one_minute;
}

abbrev on_trend : StateLeafCondition ℤ
on_trend = record {
  operator = changes_to;
  left = symbol_state_ref "trend" string;
  right = literal (text "up");
  interval = none;
}

abbrev both : ConditionNode ℤ
both = and_node (cons (leaf_node (state on_close)) (cons (leaf_node (state on_trend)) nil))

abbrev trend_changed : EvaluationTriggerEvent ℤ
trend_changed = symbol_state_changed 7 "BTC" "p1" "trend" none (some (text "up"))

abbrev fives : EvaluationContext ℤ
fives = record {
  symbol_id = "BTC";
  resolve_latest = λ operand interval. some (num (pos 5));
  resolve_prev = λ operand interval. none;
  resolve_series = λ operand interval. record { backward_walk = []; as_of = λ ts. none };
}

validate_rule_condition_iff_example :
    (validate_rule_condition both ≡ valid) ↔ All IsTimed (leaves both)
validate_rule_condition_iff_example = validate_rule_condition_iff both

collect_condition_intervals_lem_example :
    Distinct (collect_condition_intervals both)
    × ((p : Period)
        → includes (collect_condition_intervals both) p ≡ any (needs_period p) (leaves both))
collect_condition_intervals_lem_example = collect_condition_intervals_lem both

references_slot_iff_example : (references_slot both trend_changed ≡ true) ↔ Wakes both trend_changed
references_slot_iff_example = references_slot_iff both trend_changed

normalize_node_keeps_example :
    (normalize_node (normalize_node both) ≡ normalize_node both)
    × (collect_condition_intervals (normalize_node both) ≡ collect_condition_intervals both)
    × (validate_rule_condition (normalize_node both) ≡ validate_rule_condition both)
    × ((event : EvaluationTriggerEvent ℤ)
        → references_slot (normalize_node both) event ≡ references_slot both event)
normalize_node_keeps_example = normalize_node_keeps both

evaluate_condition-normalize_example :
    evaluate_condition (normalize_node both) fives ≡ evaluate_condition both fives
unfolding leaves keeps_state_family
evaluate_condition-normalize_example = evaluate_condition-normalize fives both (
  inr record {
    x = pos 5;
    y = pos 5;
    left_is = refl;
    right_is = refl;
    left_number = refl;
    right_number = refl;
  },
  (inl refl, tt),
)
