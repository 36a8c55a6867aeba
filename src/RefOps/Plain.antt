-- ===== src/RefOps/Plain.antt =====
-- What one round of the walks of src/base/ref_ops.h does with a parameter of a plain type.
use yan.Prelude.{◌≡◌, true, ok}
use yan.Prelude.Int.{ℤ}
use yan.Types.{YanType, struct, list, unknown, cond_type, ops_type}
use yan.Ref.Word.{get_mem_cond_type, get_mem_ops_type}
use yan.Ref.Param.{Param}
use yan.Ref.Struct.{MemberInfo, YanStruct, get_name, member_at}
use yan.RefOps.{MemAppend, handle_param, is_plain}

module _ {Ctx : Type 0} (append : MemAppend Ctx) (s : YanStruct) (p : Param) (info : MemberInfo)
    (e : member_at s p.seq ≡ ok info) (ret : ℤ) (x : Ctx) where
  plain_type :
      (t : YanType)
      → is_plain t ≡ true
      → handle_param append s (record p { type_ = t }) ret x
        ≡ append
            (get_name info)
            (cond_type (get_mem_cond_type p.cond))
            (ops_type (get_mem_ops_type p.cond))
            t
            p.value
            x
  unfolding handle_param
  plain_type struct h = absurd (cc)
  plain_type list h = absurd (cc)
  plain_type unknown h = absurd (cc)
  plain_type _ h = rw e

  -- It is handed to the member operation with the condition type and the operator of its word.
  pub handle_param-plain :
      is_plain p.type_ ≡ true
      → handle_param append s p ret x
        ≡ append
            (get_name info)
            (cond_type (get_mem_cond_type p.cond))
            (ops_type (get_mem_ops_type p.cond))
            p.type_
            p.value
            x
  handle_param-plain h = plain_type p.type_ h
