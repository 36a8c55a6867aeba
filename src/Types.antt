-- ===== src/Types.antt =====
-- src/base/type.h: the enumerations of member types, condition types and operators, and their
-- texts. A constructor stands for the enumerator of its name; `unnamed` for a value of the
-- underlying `uint8_t` that has no enumerator.
pub mod Negation
use yan.Prelude.{ℕ, Bool, true, false, ◌≡◌, refl, if◌then◌else◌, ◌==◌}
use yan.Prelude.Text.{Text, bytes}

pub data YanType : Type 0 where
  unknown int8 int16 int32 int64 float double bool string : YanType
  auto_increment date timestamp text blob struct list : YanType

unfoldable pub get_yan_type_str : YanType → Text
unfolding bytes
get_yan_type_str YanType.unknown = bytes " unknown-yantype "
get_yan_type_str int8 = bytes "INT8"
get_yan_type_str int16 = bytes "INT16"
get_yan_type_str int32 = bytes "INT32"
get_yan_type_str int64 = bytes "INT64"
get_yan_type_str float = bytes "FLOAT"
get_yan_type_str double = bytes "DOUBLE"
get_yan_type_str bool = bytes "BOOL"
get_yan_type_str string = bytes "STRING"
get_yan_type_str auto_increment = bytes "AUTO_INCREMENT"
get_yan_type_str date = bytes "DATE"
get_yan_type_str timestamp = bytes "TIMESTAMP"
get_yan_type_str text = bytes "TEXT"
get_yan_type_str blob = bytes "BLOB"
get_yan_type_str struct = bytes "STRUCT"
get_yan_type_str list = bytes "LIST"

pub data CondType : Type 0 where
  unknown and or not group order_asc order_desc : CondType
  unnamed : ℕ → CondType

-- `static_cast<uint8_t>(condtype)`
unfoldable pub cond_code : CondType → ℕ
cond_code CondType.unknown = 0
cond_code and = 1
cond_code or = 2
cond_code CondType.not = 3
cond_code group = 4
cond_code order_asc = 5
cond_code order_desc = 6
cond_code (unnamed n) = n

-- `static_cast<CondType>(n)`
unfoldable pub cond_type : ℕ → CondType
cond_type n =
    if n == 0
    then CondType.unknown
    else if n == 1
    then and
    else if n == 2
    then or
    else if n == 3
    then CondType.not
    else if n == 4
    then group
    else if n == 5
    then order_asc
    else if n == 6
    then order_desc
    else unnamed n

unfoldable pub get_yan_cond_str : CondType → Text
get_yan_cond_str and = bytes "AND"
get_yan_cond_str or = bytes "OR"
get_yan_cond_str CondType.not = bytes "NOT"
get_yan_cond_str group = bytes "GROUP"
get_yan_cond_str order_asc = bytes "ORDER_ASC"
get_yan_cond_str order_desc = bytes "ORDER_DESC"
get_yan_cond_str c = bytes " unknown-condition-type "

pub data YanOpsType : Type 0 where
  unknown equal equal_list large large_or_equal less less_or_equal : YanOpsType
  unnamed : ℕ → YanOpsType

unfoldable pub ops_code : YanOpsType → ℕ
ops_code YanOpsType.unknown = 0
ops_code equal = 1
ops_code equal_list = 2
ops_code large = 3
ops_code large_or_equal = 4
ops_code less = 5
ops_code less_or_equal = 6
ops_code (YanOpsType.unnamed n) = n

unfoldable pub ops_type : ℕ → YanOpsType
ops_type n =
    if n == 0
    then YanOpsType.unknown
    else if n == 1
    then equal
    else if n == 2
    then equal_list
    else if n == 3
    then large
    else if n == 4
    then large_or_equal
    else if n == 5
    then less
    else if n == 6
    then less_or_equal
    else YanOpsType.unnamed n

unfoldable pub get_yan_ops_str : YanOpsType → Bool → Text
get_yan_ops_str equal n = if n then bytes " != " else bytes " == "
get_yan_ops_str equal_list n = if n then bytes " " else bytes " "
get_yan_ops_str large n = if n then bytes " <= " else bytes " > "
get_yan_ops_str large_or_equal n = if n then bytes " < " else bytes " >= "
get_yan_ops_str less n = if n then bytes " >= " else bytes " < "
get_yan_ops_str less_or_equal n = if n then bytes " > " else bytes " <= "
get_yan_ops_str o n = bytes " unknown-operator-type "
