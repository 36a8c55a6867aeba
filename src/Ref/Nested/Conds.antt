-- ===== src/Ref/Nested/Conds.antt =====
-- src/base/ref.h: conditions on the members of a nested struct, which `condcb_` hands to the object
-- around it under a prefixed name.
use yan.Prelude.{
  ℕ, List, [], ◌∷◌, ◌++◌, ◌==◌, else-eq-ok, ok-injective, >>=-eq-ok, if◌then◌else◌, some, Result,
  ok, err, runtime_error, ◌>>=◌, ◌≡◌, refl, sym, ap, ◌∙◌,
}
use yan.Prelude.Text.{Text, bytes}
use yan.Types.{YanOpsType, ops_code, equal_list, and, cond_code}
use yan.Ref.Nested.{ListMember}
use yan.Ref.Word.{cond_word}
use yan.Ref.Param.{Value, many, ParamValue, Param, prefix}
use yan.Ref.Struct.{MemberInfo, YanStruct, member_at}
use yan.Ref.Object.{
  Object, member_of, put_member, append_param, append_cond, cond_list, no_cond_type,
}

-- `condcb_` of the structs around a condition, by their names, the innermost first: the last hands it to
-- `append` of an object that the user declares.
unfoldable pub hand_out : List Text → Param → Object → Object
unfolding prefix append_param
hand_out [] p outer = append_param p outer
hand_out (mem ∷ mems) p outer = hand_out mems (prefix mem p) outer

-- The parameter of a condition, before any name is put in front
abbrev pub nested_param : MemberInfo → ℕ → ℕ → YanOpsType → ParamValue → Param
nested_param info c seq ops value = record {
  name = info.name;
  type_ = info.type_;
  cond = cond_word c (ops_code ops);
  seq = seq;
  value = value;
}

-- The rest of __SET_MEM_COND_TYPE__, at a member of that description
unfoldable after :
    ℕ
    → YanOpsType
    → ParamValue
    → List Text
    → Object
    → Object
    → MemberInfo
    → Result (Object × Object)
unfolding hand_out put_member
after seq ops value mems inner outer info = member_of inner seq >>= λ m.
    if m.cond == 0
    then err (runtime_error no_cond_type)
    else ok (
      put_member inner seq (record m { cond = 0 }),
      hand_out mems (nested_param info m.cond seq ops value) outer,
    )

-- __SET_MEM_COND_TYPE__ for a member of the struct at the end of a path, which has a `condcb_`: what
-- becomes of that struct, and of the object around it all.
unfoldable pub set_nested_cond :
    YanStruct → ℕ → YanOpsType → ParamValue → List Text → Object → Object → Result (Object × Object)
unfolding after
set_nested_cond s seq ops value mems inner outer =
    member_at s seq >>= after seq ops value mems inner outer

-- AND() of a list of values
unfoldable pub and_list : ListMember → ListMember
and_list l = record l { cond = cond_code and }

-- `operator==` of a list of values: the parameter has the type of the values.
unfoldable pub compare_list :
    MemberInfo → ℕ → List Value → ListMember → Object → Result (ListMember × Object)
unfolding append_cond
compare_list info seq vs l o =
    if l.cond == 0
    then err (runtime_error no_cond_type)
    else ok (
      record l { cond = 0 },
      append_cond
          (record (nested_param info l.cond seq equal_list (many vs)) { type_ = info.element }) o,
    )

-- The name of a member under the names of the structs around it, the innermost first
unfoldable pub dotted : List Text → Text → Text
dotted [] n = n
dotted (mem ∷ mems) n = dotted mems (mem ++ bytes "." ++ n)

pub hand_out-conds :
    (mems : List Text) (p : Param) (o : Object)
    → (hand_out mems p o).conds
      ≡ some (cond_list o.conds ++ (record p { name = dotted mems p.name }) ∷ [])
unfolding hand_out dotted append_param prefix
hand_out-conds [] p o = refl
hand_out-conds (mem ∷ mems) p o = hand_out-conds mems (prefix mem p) o

-- What a condition that is set has handed out, and what it leaves.
pub set_nested_cond-hand_out :
    (s : YanStruct) (seq : ℕ) (ops : YanOpsType) (value : ParamValue) (mems : List Text)
    (inner outer inner' outer' : Object) (info : MemberInfo)
    → member_at s seq ≡ ok info
    → set_nested_cond s seq ops value mems inner outer ≡ ok (inner', outer')
    → (c : ℕ) × (inner'.conds ≡ inner.conds)
      × (outer' ≡ hand_out mems (nested_param info c seq ops value) outer)
unfolding set_nested_cond after put_member
set_nested_cond-hand_out s seq ops value mems inner outer inner' outer' info e set =
    let start = sym (ap (λ r. r >>= after seq ops value mems inner outer) e) ∙ set in
    let (m, held, rest) = >>=-eq-ok (member_of inner seq) _ start in
    let both = ok-injective (else-eq-ok (m.cond == 0) _ _ rest) in
    (m.cond, sym (ap (λ p. p.0.conds) both), sym (ap (λ p. p.1) both))
