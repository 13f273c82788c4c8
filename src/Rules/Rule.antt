-- ===== src/Rules/Rule.antt =====
-- Rules (packages/core/src/types/rules/rule.types.ts, scope.types.ts and action.types.ts).
use lametrader.Prelude.{ℕ, String, Bool, Option, List}
use lametrader.State.{StateValue}
use lametrader.Rules.Condition.{ConditionNode}
use lametrader.Rules.Event.{Trigger}

pub data RuleScope : Type 0 where
  one_symbol : String → RuleScope
  symbols : List String → RuleScope
  all_symbols : RuleScope

pub data Action (N : Type 0) : Type 0 where
  -- destination name, template
  notification : String → String → Action N
  set_symbol_state : String → StateValue N → Action N
  remove_symbol_state : String → Action N
  set_global_state : String → StateValue N → Action N
  remove_global_state : String → Action N

-- `expiration` is the instant of its `at`, or `none` for `null`.
pub record Rule (N : Type 0) : Type 0 where
  pub id : String
  pub profile_id : String
  pub name : String
  pub description : Option String
  pub scope : RuleScope
  pub condition : ConditionNode N
  pub trigger : Trigger
  pub expiration : Option ℕ
  pub actions : List (Action N)
  pub enabled : Bool
  pub order : ℕ
  pub created_at : ℕ
  pub updated_at : ℕ
  pub last_fired_at : Option ℕ
