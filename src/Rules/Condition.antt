-- ===== src/Rules/Condition.antt =====
-- Condition trees (packages/core/src/types/rules/operator.types.ts and condition.types.ts).
pub mod Leaves
pub mod Operands
pub mod Validate
pub mod Intervals
pub mod Normalize
pub mod References
use lametrader.Prelude.{ℕ, Option}
use lametrader.Config.{Period}
use lametrader.Rules.Operand.{ConditionOperand}

pub data ComparisonOperator : Type 0 where
  gt lt gte lte eq neq : ComparisonOperator

pub data CrossingOperator : Type 0 where
  crossing crossing_up crossing_down : CrossingOperator

pub data ChannelOperator : Type 0 where
  entering_channel exiting_channel inside_channel : ChannelOperator

pub data MovingOperator : Type 0 where
  moving_up moving_down moving_up_percent moving_down_percent : MovingOperator

pub data StateOperator : Type 0 where
  equals not_equals changes_to changes_from : StateOperator

pub record ComparisonLeafCondition (N : Type 0) : Type 0 where
  pub operator : ComparisonOperator
  pub left : ConditionOperand N
  pub right : ConditionOperand N
  pub interval : Option Period

pub record CrossingLeafCondition (N : Type 0) : Type 0 where
  pub operator : CrossingOperator
  pub left : ConditionOperand N
  pub right : ConditionOperand N
  pub interval : Option Period

pub record ChannelLeafCondition (N : Type 0) : Type 0 where
  pub operator : ChannelOperator
  pub left : ConditionOperand N
  pub lower : ConditionOperand N
  pub upper : ConditionOperand N
  pub interval : Option Period

pub record MovingLeafCondition (N : Type 0) : Type 0 where
  pub operator : MovingOperator
  pub left : ConditionOperand N
  pub threshold : N
  pub lookback_bars : ℕ
  pub interval : Option Period

pub record StateLeafCondition (N : Type 0) : Type 0 where
  pub operator : StateOperator
  pub left : ConditionOperand N
  pub right : ConditionOperand N
  pub interval : Option Period

pub data LeafCondition (N : Type 0) : Type 0 where
  comparison : ComparisonLeafCondition N → LeafCondition N
  cross : CrossingLeafCondition N → LeafCondition N
  channel : ChannelLeafCondition N → LeafCondition N
  moving : MovingLeafCondition N → LeafCondition N
  state : StateLeafCondition N → LeafCondition N

-- `ConditionNodes` is the array of a group's children.
mutual
  pub data ConditionNode (N : Type 0) : Type 0 where
    and_node : ConditionNodes N → ConditionNode N
    or_node : ConditionNodes N → ConditionNode N
    leaf_node : LeafCondition N → ConditionNode N

  pub data ConditionNodes (N : Type 0) : Type 0 where
    nil : ConditionNodes N
    cons : ConditionNode N → ConditionNodes N → ConditionNodes N
