-- ===== src/State.antt =====
-- The values of the rules engine's state store (packages/core/src/types/state).
pub mod Repository
use Prim.Native.String.{String}
use lametrader.Prelude.{Bool, true, false, ◌==◌, text_keyed}
use lametrader.Float.{Float}

-- The kind of a value, its discriminant.
pub data StateValueType : Type 0 where
  string number bool : StateValueType

pub data StateValue (N : Type 0) : Type 0 where
  text : String → StateValue N
  num : N → StateValue N
  flag : Bool → StateValue N

abbrev pub type_beq : StateValueType → StateValueType → Bool
type_beq string string = true
type_beq number number = true
type_beq bool bool = true
type_beq _ _ = false

abbrev pub bool_beq : Bool → Bool → Bool
bool_beq true b = b
bool_beq false true = false
bool_beq false false = true

module _ {N : Type 0} where
  abbrev pub value_type : StateValue N → StateValueType
  value_type (text s) = string
  value_type (num x) = number
  value_type (flag b) = bool

module _ {N : Type 0} ⦃f : Float N⦄ where
  -- Structural equality of two tagged values. A number is compared by `===`, so a value that
  -- holds a NaN equals no value.
  unfoldable pub state_value_equals : StateValue N → StateValue N → Bool
  state_value_equals (text s) (text t) = s == t
  state_value_equals (num x) (num y) = f.same x y
  state_value_equals (flag a) (flag b) = bool_beq a b
  state_value_equals _ _ = false
