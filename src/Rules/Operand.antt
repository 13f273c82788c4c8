-- ===== src/Rules/Operand.antt =====
-- What a condition leaf reads (packages/core/src/types/rules/operand.types.ts).
use lametrader.Prelude.{String}
use lametrader.State.{StateValue, StateValueType}

pub data ConditionOperand (N : Type 0) : Type 0 where
  price open_price high low close volume : ConditionOperand N
  -- instance id, state key, value type
  indicator_ref : String → String → StateValueType → ConditionOperand N
  -- key, value type
  symbol_state_ref : String → StateValueType → ConditionOperand N
  global_state_ref : String → StateValueType → ConditionOperand N
  literal : StateValue N → ConditionOperand N
