-- ===== src/Ref/Nested/Register.antt =====
-- src/base/ref.h, __yan_list_member_register__ and __yan_struct_member_register__, with YanStruct::add:
-- how a class gets its members.
use Prim.Native.Nat.{◌^◌, ◌%◌}
use yan.Prelude.{ℕ, suc, Bool, true, false, ◌++◌, if◌then◌else◌, Result, ok, err, runtime_error}
use yan.Prelude.Text.{Text, bytes, text_eq}
use yan.Types.{YanType}
use yan.Ref.Struct.{MemberInfo}
use yan.Ref.Nested.{Class, entry, Kind}

-- `ms_.find(name) != ms_.end()`
unfoldable pub has_member : Text → Class → Bool
has_member n Class.end = false
has_member n (entry info k c) = if text_eq info.name n then true else has_member n c

unfoldable pub count_members : Class → ℕ
count_members Class.end = 0
count_members (entry info k c) = suc (count_members c)

-- `members_.push_back(member)`
unfoldable pub push_back : Class → MemberInfo → Kind → Class
push_back Class.end info k = entry info k Class.end
push_back (entry i ki c) info k = entry i ki (push_back c info k)

-- `add`, with what the info points to
unfoldable pub add_member : Class → MemberInfo → Kind → Result (Class × ℕ)
unfolding has_member count_members push_back
add_member c info k =
    if has_member info.name c
    then err (runtime_error (bytes "you have defined same member in struct" ++ info.name))
    else ok (push_back c info k, count_members c % 2 ^ 16)

-- `__yan_list_member_register__` of values
unfoldable pub list_member_register : Class → MemberInfo → YanType → Result (Class × ℕ)
unfolding add_member
list_member_register c info t = add_member c (record info { element = t }) Kind.values

-- `__yan_list_member_register__` of structs
unfoldable pub list_struct_register : Class → MemberInfo → Class → Result (Class × ℕ)
unfolding add_member
list_struct_register c info son = add_member c info (Kind.structs son)

-- `__yan_struct_member_register__`
unfoldable pub struct_member_register : Class → MemberInfo → Class → Result (Class × ℕ)
unfolding add_member
struct_member_register c info son = add_member c info (Kind.of_struct son)
