-- ===== src/RefOps.antt =====
-- src/base/ref_ops.h, RefOps, ReadRefOps and ComReadRef: the walks over the members of an object and
-- over the parameters of a condition, for the databases without nested values. A walk is over the
-- state `Ctx` of a member operation.
pub mod Plain
pub mod Write
use yan.Prelude.{
  ℕ, zero, suc, Bool, true, false, Option, none, some, List, [], ◌∷◌, ◌==◌, if◌then◌else◌,
  get_elem?, Result, ok, err, runtime_error, undefined, ◌>>=◌,
}
use yan.Prelude.Int.{ℤ, pos, is_neg}
use yan.Prelude.Text.{Text, bytes}
use yan.Types.{
  YanType, struct, list, unknown, CondType, and, cond_type, YanOpsType, equal, ops_type,
}
use yan.Ref.Word.{get_mem_cond_type, get_mem_ops_type}
use yan.Ref.Param.{Param, ParamValue, one}
use yan.Ref.Struct.{MemberInfo, YanStruct, get_name, member_at}
use yan.Ref.Object.{Member, Object, member_of}
use yan.Cond.{ReadCond, UpdateCond}

-- `MemRefOps(obj, name).append<T>(condtype, opstype, cb)`, where `T` is told by the type of the
-- member and the shape of the value that `cb` returns.
abbrev pub MemAppend : Type 0 → Type 0
MemAppend Ctx = Text → CondType → YanOpsType → YanType → ParamValue → Ctx → Result (ℤ × Ctx)

-- Whether a member of this type goes to `append<T>`: the other types are `assert(0)`.
abbrev pub is_plain : YanType → Bool
is_plain struct = false
is_plain list = false
is_plain unknown = false
is_plain t = true

module _ {Ctx : Type 0} (append : MemAppend Ctx) where
  unfoldable pub cond_ref : Text → Param → Ctx → Result (ℤ × Ctx)
  cond_ref name p x =
      if is_plain p.type_
      then append name (cond_type (get_mem_cond_type p.cond)) (ops_type (get_mem_ops_type p.cond))
          p.type_ p.value x
      else err undefined

  -- One round of the loop of `append_cond`. Parameters of nested types are passed over.
  unfoldable pub handle_param : YanStruct → Param → ℤ → Ctx → Result (ℤ × Ctx)
  unfolding cond_ref
  handle_param s p ret x = elim p.type_ [
    | struct ↦ ok (ret, x)
    | list ↦ ok (ret, x)
    | _ ↦ member_at s p.seq >>= λ info. cond_ref (get_name info) p x
  ]

  unfoldable pub append_params : YanStruct → List Param → ℤ → Ctx → Result (ℤ × Ctx)
  append_params s [] ret x = ok (ret, x)
  append_params s (p ∷ ps) ret x = handle_param s p ret x >>= λ (r, x').
      (let rest = append_params s ps r x' in if is_neg r then ok (r, x') else rest)

  -- It is called for a condition that has both.
  unfoldable pub append_cond : ReadCond → Ctx → Result (ℤ × Ctx)
  unfolding append_params
  append_cond c x = elim c.cys [
    | none ↦ err undefined
    | some s ↦ elim c.params [ none ↦ err undefined | some ps ↦ append_params s ps (pos 0) x ]
  ]

  -- One round of the loop of `append_refobj_cond`: a parameter's own name is the key.
  unfoldable pub handle_named : Param → ℤ → Ctx → Result (ℤ × Ctx)
  unfolding cond_ref
  handle_named p ret x = elim p.type_ [
    | struct ↦ ok (ret, x)
    | list ↦ ok (ret, x)
    | _ ↦ cond_ref p.name p x
  ]

  unfoldable pub append_named : List Param → ℤ → Ctx → Result (ℤ × Ctx)
  unfolding handle_named
  append_named [] ret x = ok (ret, x)
  append_named (p ∷ ps) ret x = handle_named p ret x >>= λ (r, x').
      (let rest = append_named ps r x' in if is_neg r then ok (r, x') else rest)

  unfoldable pub append_refobj_cond : Object → Ctx → Result (ℤ × Ctx)
  unfolding append_named
  append_refobj_cond o x = elim o.conds [
    | none ↦
        err (runtime_error (bytes "did you forget set parameter through functions like AND/OR..."))
    | some ps ↦ append_named ps (pos 0) x
  ]

  unfoldable pub member_ref : Member → MemberInfo → Ctx → Result (ℤ × Ctx)
  member_ref m info x =
      if m.flag
      then (if is_plain info.type_
          then append (get_name info) and equal info.type_ (one m.value) x
          else err undefined)
      else ok (pos 0, x)

  -- ComReadRef has no list and no struct members. What `sizecb_` returns is not the size of the list:
  -- it is given the address of the object and not that of the member, so it is a parameter.
  module _ (list_size : ℕ → ℕ) where
    unfoldable pub handle_info : Object → ℕ → MemberInfo → Ctx → Result (ℤ × Ctx)
    unfolding member_ref
    handle_info o i info x = elim info.type_ [
      | struct ↦ err (runtime_error (bytes "ComReadRef has no struct member"))
      | list ↦
          if list_size i == 0
          then ok (pos 0, x)
          else err (runtime_error (bytes "ComReadRef has no list member"))
      | _ ↦ member_of o i >>= λ m. member_ref m info x
    ]

    -- The loops of `assign_value` and of `append_value`: the number that a member's handler returns
    -- is dropped, and the loop goes on.
    unfoldable pub each_seq : YanStruct → Object → List ℕ → Ctx → Result Ctx
    unfolding handle_info
    each_seq s o [] x = ok x
    each_seq s o (i ∷ is) x =
        member_at s i >>= λ info. handle_info o i info x >>= λ (r, x'). each_seq s o is x'

    unfoldable pub assign_value : YanStruct → Object → Ctx → Result (ℤ × Ctx)
    unfolding each_seq
    assign_value s o x = each_seq s o o.seqset x >>= λ x'. ok (pos 0, x')

    unfoldable pub append_value : UpdateCond → Ctx → Result (ℤ × Ctx)
    unfolding each_seq
    append_value u x = elim u.lco.seqset [
      | [] ↦ err (
          runtime_error
            (bytes "please set the values you want to update when doing update operation"))
      | i ∷ is ↦ each_seq u.struct_ u.lco (i ∷ is) x >>= λ x'. ok (pos 0, x')
    ]

-- `append_field`, over `append(name, type, canbenull, length)`.
module _ {Ctx : Type 0} (append : Text → YanType → Bool → ℤ → Ctx → Result (ℤ × Ctx)) where
  unfoldable pub append_fields : List MemberInfo → Ctx → Result (ℤ × Ctx)
  append_fields [] x = ok (pos 0, x)
  append_fields (m ∷ ms) x =
      let skip = append_fields ms x in
      let take = append (get_name m) m.type_ m.can_be_null m.length_ x >>= λ (r, x').
      (let rest = append_fields ms x' in if is_neg r then ok (r, x') else rest) in
      elim m.type_ [ struct ↦ skip | list ↦ skip | _ ↦ take ]
