-- ===== src/Mongo/Nested.antt =====
-- src/mongo/mongo_readref.h, MakeCondBson, for conditions on the members of nested structs
-- (src/base/ref.h).
use yan.Prelude.{
  ok-injective, else-eq-ok, ◌==◌, sym, ℕ, ◌≡◌, refl, ap, ◌∙◌, true, some, List, [], ◌∷◌, ◌++◌, map,
  All, All-append, ok,
}
use yan.Prelude.Text.{bytes, Text}
use yan.Types.{YanOpsType, equal_list}
use yan.Ref.Param.{Value, ParamValue, many, Param}
use yan.Ref.Struct.{MemberInfo, YanStruct, member_at}
use yan.Ref.Object.{Object, cond_list, append_cond}
use yan.Ref.Nested.{ListMember}
use yan.Ref.Nested.Conds.{
  compare_list, nested_param, set_nested_cond, set_nested_cond-hand_out, dotted, hand_out-conds,
}
use yan.RefOps.{is_plain}
use yan.Mongo.{make_cond, array_under}
use yan.Mongo.Filter.{match_of, field, make_cond-fields}

map-append {ℓ κ} :
    {A : Type ℓ} {B : Type κ} (f : A → B) (xs ys : List A) → map f (xs ++ ys) ≡ map f xs ++ map f ys
map-append f [] ys = refl
map-append f (x ∷ xs) ys = ap (λ zs. f x ∷ zs) (map-append f xs ys)

-- A condition that is set on a member of a nested struct, after conditions on plain members, asks
-- MongoDB for that member under the dotted path from the object that the user declares, behind what
-- was asked before. It leaves no condition on the struct itself.
pub set_nested_cond-fields :
    (s : YanStruct) (seq : ℕ) (ops : YanOpsType) (value : ParamValue) (mems : List Text)
    (inner outer inner' outer' : Object) (info : MemberInfo)
    → member_at s seq ≡ ok info
    → is_plain info.type_ ≡ true
    → All (λ p. is_plain p.type_ ≡ true) (cond_list outer.conds)
    → set_nested_cond s seq ops value mems inner outer ≡ ok (inner', outer')
    → (make_cond outer'
        ≡ ok (map field (cond_list outer.conds) ++ (dotted mems info.name, match_of value) ∷ []))
      × (inner'.conds ≡ inner.conds)
set_nested_cond-fields s seq ops value mems inner outer inner' outer' info e t h set =
    let (c, kept, out) =
      set_nested_cond-hand_out s seq ops value mems inner outer inner' outer' info e set in
    let olds = cond_list outer.conds in
    let p : Param = record (nested_param info c seq ops value) { name = dotted mems info.name } in
    let news : outer'.conds ≡ some (olds ++ p ∷ []) =
      ap (λ o. o.conds) out ∙ hand_out-conds mems (nested_param info c seq ops value) outer in
    (
      make_cond-fields outer' (olds ++ p ∷ []) news (All-append _ olds (p ∷ []) h (t, tt))
          ∙ ap ok (map-append field olds (p ∷ [])),
      kept,
    )

-- A list of values that a member which is a list is compared with is asked for under `$eleMatch`, in an
-- array.
compare_list-fields :
    (info : MemberInfo) (seq : ℕ) (vs : List Value) (l l' : ListMember) (o o' : Object)
    → is_plain info.element ≡ true
    → All (λ p. is_plain p.type_ ≡ true) (cond_list o.conds)
    → compare_list info seq vs l o ≡ ok (l', o')
    → make_cond o'
      ≡ ok (map field (cond_list o.conds) ++ (info.name, array_under (bytes "$eleMatch") vs) ∷ [])
unfolding compare_list append_cond match_of
compare_list-fields info seq vs l l' o o' t h e =
    let olds = cond_list o.conds in
    let p : Param = record (nested_param info l.cond seq equal_list (many vs)) {
      type_ = info.element;
    } in
    let pair = ok-injective (else-eq-ok (l.cond == 0) _ _ e) in
    make_cond-fields o' (olds ++ p ∷ []) (sym (ap (λ r. r.1.conds) pair))
      (All-append _ olds (p ∷ []) h (t, tt))
    ∙ ap ok (map-append field olds (p ∷ []))
