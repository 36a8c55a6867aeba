-- ===== src/RefOps/Write.antt =====
-- src/base/ref_ops.h, RefOps::set_value, WriteRefOps and ComWriteRef, with YanMember::set_value of
-- src/base/ref.h: the walk that fills an object, for the databases without nested values. It is over
-- the object and the state `Ctx` of a member operation.
use yan.Prelude.{
  ℕ, ◌+◌, true, Option, none, some, List, [], ◌∷◌, if◌then◌else◌, Result, ok, err, runtime_error,
  undefined, ◌>>=◌,
}
use yan.Prelude.Int.{ℤ, pos}
use yan.Prelude.Text.{Text, bytes}
use yan.Types.{YanType, struct, list}
use yan.Ref.Param.{Value}
use yan.Ref.Struct.{MemberInfo, YanStruct, get_name}
use yan.Ref.Object.{Member, Object, member_of, put_member}
use yan.RefOps.{is_plain}

-- `MemRefOps(obj, name).get<T>(cb)`: what it returns, and the value that it gives to `cb`, if it
-- calls it.
abbrev pub MemGet : Type 0 → Type 0
MemGet Ctx = Text → YanType → Ctx → Result ((ℤ × Option Value) × Ctx)

-- `YanMember::set_value`
unfoldable pub set_value : Member → Value → Member
set_value m v = record m { value = v; flag = true }

unfoldable pub set_if_given : ℕ → Option Value → Object → Result Object
unfolding set_value member_of put_member
set_if_given i none o = ok o
set_if_given i (some v) o = member_of o i >>= λ m. ok (put_member o i (set_value m v))

module _ {Ctx : Type 0} (get : MemGet Ctx) where
  unfoldable pub member_ref : ℕ → MemberInfo → Object × Ctx → Result (ℤ × (Object × Ctx))
  unfolding set_if_given
  member_ref i info (o, x) =
      if is_plain info.type_
      then (get (get_name info) info.type_ x >>= λ ((r, v), x').
          set_if_given i v o >>= λ o'. ok (r, (o', x')))
      else err undefined

  -- The constructors of WriteListRef and WriteStructRef throw.
  unfoldable pub handle_info : ℕ → MemberInfo → Object × Ctx → Result (ℤ × (Object × Ctx))
  unfolding member_ref
  handle_info i info x = elim info.type_ [
    | struct ↦ err (runtime_error (bytes "ComWriteRef has no struct member"))
    | list ↦ err (runtime_error (bytes "ComWriteRef has no list member"))
    | _ ↦ member_ref i info x
  ]

  -- The loop of `set_value`, from the member of that number on. What a member's handler returns is
  -- dropped.
  unfoldable pub set_members : List MemberInfo → ℕ → Object × Ctx → Result (Object × Ctx)
  unfolding handle_info
  set_members [] i x = ok x
  set_members (info ∷ infos) i x = handle_info i info x >>= λ (r, x'). set_members infos (i + 1) x'

  -- `WriteRefOps::get`
  unfoldable pub get_object : YanStruct → Object × Ctx → Result (ℤ × (Object × Ctx))
  unfolding set_members
  get_object s x = set_members s.members 0 x >>= λ x'. ok (pos 0, x')
