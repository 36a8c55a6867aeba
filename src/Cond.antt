-- ===== src/Cond.antt =====
-- src/base/ref_ops.h, ReadCond, ReadCondImpl, UpdateCond, UpdateCondImpl and JoinReadCond: what a
-- call of the library asks of the database. The template argument of a condition is its `ret`; the
-- structs that types stand for have all registered their members.
use yan.Prelude.{
  ℕ, Bool, true, false, ◌&&◌, Option, none, some, List, [], ◌∷◌, ◌++◌, ◌==◌, if◌then◌else◌, Result,
  ok, err, runtime_error, ◌>>=◌,
}
use yan.Prelude.Int.{ℤ, pos, is_neg}
use yan.Prelude.Text.{Text, bytes}
use yan.Prelude.Decimal.{decimal}
use yan.Types.{YanType, struct, list, unknown}
use yan.Ref.Param.{Param}
use yan.Ref.Struct.{MemberInfo, YanStruct, get_name, struct_name, member_at}
use yan.Ref.Object.{Object, fresh, insert_seq, is_auto_increment, member_of, put_member}

-- `Ret` of ReadCondImpl: `int64_t`, or a class of that struct or a sequence of it.
pub data RetType : Type 0 where
  count : RetType
  object : YanStruct → RetType

pub record ReadCond : Type 0 where
  pub ret : RetType
  pub cys : Option YanStruct
  pub params : Option (List Param)
  pub hash : Text

unfoldable pub new_cond : RetType → ReadCond
new_cond r = record { ret = r; cys = none; params = none; hash = [] }

abbrev pub no_param : Text
no_param = bytes "did you forget set parameter through functions like AND/OR..."

-- `append(cond, args…)`: each object replaces what the one before it set. The parameters, which the
-- condition shares with the object, are those that the object has at the call.
unfoldable pub append : ReadCond → List (YanStruct × Object) → Result ReadCond
append c [] = ok c
append c ((s, o) ∷ rest) =
    let next = append (record c { cys = some s; params = o.conds; hash = o.hashv }) rest in
    elim o.conds [ none ↦ err (runtime_error no_param) | some ps ↦ next ]

-- `append<CondObj>()`
unfoldable pub append_struct : ReadCond → YanStruct → ReadCond
append_struct c s = record c { cys = some s }

abbrev pub is_some {ℓ} : {A : Type ℓ} → Option A → Bool
is_some none = false
is_some (some a) = true

unfoldable pub has_cond : ReadCond → Bool
has_cond c = is_some c.cys && is_some c.params

unfoldable pub ret_equal_to_cond : ReadCond → Bool
ret_equal_to_cond c = elim c.ret [
  | count ↦ false
  | object r ↦ elim c.cys [ none ↦ true | some s ↦ r.id == s.id ]
]

abbrev pub source_of : MemberInfo → Text
source_of m = elim m.from [ none ↦ [] | some n ↦ n ]

abbrev pub count_field : Text
count_field = bytes "-"

-- The loops over members of `_get_read_members`, over the state of the callback.
module _ {Ctx : Type 0} (cb : Text → Text → Ctx → Result (ℤ × Ctx)) where
  unfoldable pub each_member : List MemberInfo → ℤ → Ctx → Result (ℤ × Ctx)
  each_member [] ret x = ok (ret, x)
  each_member (m ∷ ms) ret x = cb (source_of m) (get_name m) x >>= λ (r, x').
      (let rest = each_member ms r x' in if is_neg r then ok (r, x') else rest)

  unfoldable pub first_counted : List MemberInfo → Ctx → Result (ℤ × Ctx)
  first_counted [] x = ok (pos 0, x)
  first_counted (m ∷ ms) x =
      if is_auto_increment m.type_ then first_counted ms x else cb count_field (get_name m) x

  unfoldable pub count_members : List MemberInfo → Ctx → Result (ℤ × Ctx)
  unfolding first_counted
  count_members [] x = err (
      runtime_error
        (bytes "please specify a real table, not the tmp table, before doing count operation"))
  count_members (m ∷ ms) x = first_counted (m ∷ ms) x

  unfoldable pub get_read_members : ReadCond → Ctx → Result (ℤ × Ctx)
  unfolding each_member count_members
  get_read_members c x = elim c.ret [
    | object r ↦ each_member r.members (pos 0) x
    | count ↦ elim c.cys [
      | none ↦ err (runtime_error (bytes "please specify a table before doing count operation"))
      | some s ↦ count_members s.members x
    ]
  ]

unfoldable pub hash_value : ReadCond → Text
hash_value c = elim c.ret [
  | object r ↦ elim c.cys [
    | none ↦ struct_name r
    | some s ↦ struct_name r ++ (struct_name s ++ c.hash)
  ]
  | count ↦ elim c.cys [ none ↦ [] | some s ↦ struct_name s ++ c.hash ]
]

unfoldable pub get_obj_name : ReadCond → Result Text
get_obj_name c = elim c.cys [
  | some s ↦ ok (struct_name s)
  | none ↦ elim c.ret [
    | object r ↦ ok (struct_name r)
    | count ↦ err (runtime_error (bytes "please specify the table before doing count operation"))
  ]
]

-- UpdateCondImpl: the condition, and `lco_`, the copy of the values.
pub record UpdateCond : Type 0 where
  pub cond : ReadCond
  pub open cond use *
  pub struct_ : YanStruct
  pub lco : Object

-- The `switch` of `copy_refobj` on the type of an assigned member.
unfoldable pub copy_value : YanType → Object → ℕ → Object → Result Object
unfolding member_of put_member
copy_value struct r i l = ok l
copy_value list r i l = ok l
copy_value unknown r i l =
    err (runtime_error (bytes "unknown member type when copying the update object"))
copy_value t r i l = do
  from ← member_of r i
  to ← member_of l i
  ok (put_member l i (record to { value = from.value; flag = true }))

unfoldable pub copy_values : YanStruct → Object → List ℕ → Object → Result Object
unfolding copy_value
copy_values s r [] l = ok l
copy_values s r (i ∷ is) l = do
  info ← member_at s i
  l' ← copy_value info.type_ r i l
  copy_values s r is l'

-- `copy_seqs`
unfoldable pub copy_seqs : List ℕ → List ℕ → List ℕ
copy_seqs [] l = l
copy_seqs (i ∷ is) l = copy_seqs is (insert_seq i l)

unfoldable pub copy_refobj : YanStruct → Object → Result UpdateCond
unfolding copy_seqs copy_values
copy_refobj s r = do
  l ← copy_values s r r.seqset (record (fresh s) { seqset = copy_seqs r.seqset [] })
  ok (record {
    cond = record { ret = object s; cys = some s; params = r.conds; hash = r.hashv };
    struct_ = s;
    lco = l;
  })

unfoldable pub decimals : List ℕ → Text
decimals [] = []
decimals (i ∷ is) = decimal i ++ decimals is

unfoldable pub update_hash_value : UpdateCond → Text
unfolding hash_value decimals
update_hash_value u = hash_value u.cond ++ decimals u.lco.seqset

pub record JoinReadCond : Type 0 where
  pub struct_ : YanStruct
  pub equals : List Text

unfoldable pub join_obj_name : JoinReadCond → Text
join_obj_name j = struct_name j.struct_

unfoldable pub concat : List Text → Text
concat [] = []
concat (t ∷ ts) = t ++ concat ts

unfoldable pub join_hash_value : JoinReadCond → Text
unfolding concat
join_hash_value j = struct_name j.struct_ ++ concat j.equals
