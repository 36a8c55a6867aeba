-- ===== src/Ref/Struct.antt =====
-- src/base/ref.h, MemberInfo and YanStruct: the description of a STRUCT that its members register
-- at run time. A `YanStruct *` is the `id` of the static object that it points to, and an entry of
-- `ms` holds the member that its `MemberInfo *` points to; offsets into an object's memory are the
-- positions of its members.
pub mod Registry
pub mod Options
use Prim.Native.Nat.{◌^◌, ◌%◌}
use yan.Prelude.{
  ℕ, ◌+◌, Bool, true, false, Option, none, some, List, [], ◌∷◌, ◌++◌, length, get_elem?,
  if◌then◌else◌, Result, ok, err, runtime_error, undefined, ◌>>=◌,
}
use yan.Prelude.Int.{ℤ, pos}
use yan.Prelude.Text.{Text, bytes, text_eq, is_empty}
use yan.Prelude.Decimal.{to_string}
use yan.Types.{YanType}

pub record MemberInfo : Type 0 where
  pub type_ : YanType
  pub name : Text
  pub alias : Text
  -- the name of the struct that a temporary member is taken from
  pub from : Option Text
  -- `struct_member_`
  pub son : Option ℕ
  -- the type of the values of `list_member_`
  pub element : YanType
  pub length_ : ℤ
  pub can_be_null : Bool

-- `alias_` if it is given
unfoldable pub get_name : MemberInfo → Text
get_name m = if is_empty m.alias then m.name else m.alias

pub record YanStruct : Type 0 where
  pub id : ℕ
  pub name : Text
  pub alias : Text
  pub members : List MemberInfo
  pub ms : List (Text × MemberInfo)

unfoldable pub struct_name : YanStruct → Text
struct_name s = if is_empty s.alias then s.name else s.alias

-- `ms_.find(name)`
unfoldable pub find : Text → List (Text × MemberInfo) → Option MemberInfo
find n [] = none
find n ((k, m) ∷ ms) = if text_eq k n then some m else find n ms

-- The member's sequence number is the number of members before it, as a `uint16_t`.
unfoldable pub add : YanStruct → MemberInfo → Result (YanStruct × ℕ)
add s m = elim (find m.name s.ms) [
  | some old ↦ err (runtime_error (bytes "you have defined same member in struct" ++ m.name))
  | none ↦ ok (
    record s { members = s.members ++ m ∷ []; ms = (m.name, m) ∷ s.ms },
    length s.members % 2 ^ 16,
  )
]

-- `members_[seq]`
unfoldable pub member_at : YanStruct → ℕ → Result MemberInfo
member_at s seq = elim (get_elem? s.members seq) [ some m ↦ ok m | none ↦ err undefined ]

unfoldable pub get_member : YanStruct → Text → Result MemberInfo
get_member s n = elim (find n s.ms) [
  | some m ↦ ok m
  | none ↦ err (
      runtime_error
        (bytes "no such member named [" ++ n ++ bytes "] in struct[" ++ s.name ++ bytes "]"))
]

-- FIELD_BRIDGE: the condition of a join
unfoldable pub field_bridge : YanStruct → Text → YanStruct → Text → Result Text
field_bridge a af b bf = do
  ma ← get_member a af
  mb ← get_member b bf
  ok (
      struct_name a
      ++ bytes "."
      ++ get_name ma
      ++ bytes " = "
      ++ struct_name b
      ++ bytes "."
      ++ get_name mb)

-- `LEAST_TABLE_FIELD_CHAR_LENGTH`
abbrev pub least_table_field_char_length : ℤ
least_table_field_char_length = pos 32

unfoldable pub plain_info : Text → YanType → Text → MemberInfo
plain_info n t a = record {
  type_ = t;
  name = n;
  alias = a;
  from = none;
  son = none;
  element = YanType.unknown;
  length_ = least_table_field_char_length;
  can_be_null = false;
}

-- The loop of `__yan_tmp_member_register__`: every member of that name is added, with its source.
tmp_members : YanStruct → Text → Text → List MemberInfo → Bool → Result (YanStruct × Bool)
tmp_members s source n [] found = ok (s, found)
tmp_members s source n (m ∷ ms) found =
    let taken = add s (record (plain_info m.name m.type_ m.alias) { from = some source }) in
    let others = tmp_members s source n ms found in
    if text_eq m.name n then (taken >>= λ r. tmp_members r.0 source n ms true) else others

unfoldable pub tmp_member_register : YanStruct → YanStruct → Text → Result YanStruct
unfolding tmp_members
tmp_member_register s source n = do
  (s', found) ← tmp_members s (struct_name source) n source.members false
  if found
      then ok s'
      else err (
          runtime_error
            (bytes "no such member [" ++ n ++ bytes "] in struct [" ++ source.name ++ bytes "]"))
