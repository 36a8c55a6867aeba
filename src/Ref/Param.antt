-- ===== src/Ref/Param.antt =====
-- src/base/param.h: the parameters that the conditions of an object hold.
use yan.Prelude.{ℕ, Bool, List, ◌++◌}
use yan.Prelude.Int.{ℤ}
use yan.Prelude.Text.{Text, bytes}
use yan.Types.{YanType}

-- A value of a C++ type of FOR_EACH_BASIC_TYPE or FOR_EACH_SPECIAL_TYPE. `real` holds the bit
-- pattern of a `float` or `double`.
pub data Value : Type 0 where
  integer : ℤ → Value
  real : ℕ → Value
  boolean : Bool → Value
  chars : Text → Value

-- The `T` of `Param<T>`: a value, or for EQUAL_LIST a `std::list` of values.
pub data ParamValue : Type 0 where
  one : Value → ParamValue
  many : List Value → ParamValue

pub record Param : Type 0 where
  pub name : Text
  pub type_ : YanType
  pub cond : ℕ
  pub seq : ℕ
  pub value : ParamValue

-- `name_ = prefix + "." + name_`
unfoldable pub prefix : Text → Param → Param
prefix p param = record param { name = p ++ bytes "." ++ param.name }
