-- ===== src/Sql/Query/Shift/Conds.antt =====
-- The conditions of src/sqlite/sqlite_readref.cpp, behind a text.
use yan.Prelude.{
  ◌≡◌, refl, ap, Bool, true, false, Bool-cases, inl, inr, Option, none, some, List, [], ◌∷◌,
  append_assoc, if◌then◌else◌, Result, ok, err, undefined, ◌>>=◌,
}
use yan.Prelude.Int.{ℤ, pos, is_neg}
use yan.Prelude.Text.{Text}
use yan.Types.{CondType, and, or, group, order_asc, order_desc, YanOpsType, YanType, struct, list}
use yan.Ref.Param.{Param, ParamValue}
use yan.Ref.Struct.{MemberInfo, YanStruct, member_at, get_name}
use yan.Cond.{ReadCond}
use yan.RefOps.{append_params, append_cond, handle_param, cond_ref, is_plain}
use yan.Sql.Query.{
  SqlContext, append_text, append_compare, append_ordering, append_cond_sql, append_query,
  append_where,
}
use yan.Sql.Query.Shift.{
  shift, lift, shift_pair, Appends, AppendsPair, context, bind-shift, checked-shift,
}

append_compare-shift :
    (name op join pre sql : Text) (r c : Bool)
    → append_compare name op join (shift pre (context sql r c))
      ≡ shift pre (append_compare name op join (context sql r c))
unfolding append_compare append_text
append_compare-shift name op join pre sql r true = simp append_assoc
append_compare-shift name op join pre sql r false = simp append_assoc

append_ordering-shift :
    (name text pre sql : Text) (r c : Bool)
    → append_ordering name text (shift pre (context sql r c))
      ≡ lift (shift pre) (append_ordering name text (context sql r c))
unfolding append_ordering append_text
append_ordering-shift name text pre sql r true = refl
append_ordering-shift name text pre sql r false = simp append_assoc

order_desc-shift :
    (name text last pre sql : Text) (r c : Bool)
    → (append_ordering name text (shift pre (context sql r c)) >>= λ x. ok (append_text last x))
      ≡ lift
          (shift pre)
          (append_ordering name text (context sql r c) >>= λ x. ok (append_text last x))
unfolding append_ordering append_text
order_desc-shift name text last pre sql r true = refl
order_desc-shift name text last pre sql r false = simp append_assoc

append_cond_sql-shift :
    (name : Text) (c : CondType) (ops : YanOpsType) → Appends (append_cond_sql name c ops)
unfolding append_cond_sql
append_cond_sql-shift name and ops pre x =
    ap ok (append_compare-shift name _ _ pre x.sql x.append_ret_first x.append_cond_first)
append_cond_sql-shift name or ops pre x =
    ap ok (append_compare-shift name _ _ pre x.sql x.append_ret_first x.append_cond_first)
append_cond_sql-shift name CondType.not ops pre x =
    ap ok (append_compare-shift name _ _ pre x.sql x.append_ret_first x.append_cond_first)
append_cond_sql-shift name group ops pre x =
    append_ordering-shift name _ pre x.sql x.append_ret_first x.append_cond_first
append_cond_sql-shift name order_asc ops pre x =
    append_ordering-shift name _ pre x.sql x.append_ret_first x.append_cond_first
append_cond_sql-shift name order_desc ops pre x =
    order_desc-shift name _ _ pre x.sql x.append_ret_first x.append_cond_first
append_cond_sql-shift name CondType.unknown ops pre x = refl
append_cond_sql-shift name (CondType.unnamed n) ops pre x = refl

append_query-shift :
    (name : Text) (c : CondType) (ops : YanOpsType) (t : YanType) (v : ParamValue)
    → AppendsPair (append_query name c ops t v)
unfolding append_query
append_query-shift name c ops t v pre x =
    bind-shift (append_cond_sql name c ops x) _ (shift pre) (shift_pair pre) _
      (append_cond_sql-shift name c ops pre x) (λ y. refl)

cond_ref-shift : (name : Text) (p : Param) → AppendsPair (cond_ref append_query name p)
unfolding cond_ref
cond_ref-shift name p pre x = elim (Bool-cases (is_plain p.type_)) [
  | inl e ↦ rw e (append_query-shift name _ _ p.type_ p.value pre x)
  | inr e ↦ rw e
]

read_param-shift :
    (s : YanStruct) (p : Param)
    → AppendsPair (λ x. member_at s p.seq >>= λ info. cond_ref append_query (get_name info) p x)
read_param-shift s p pre x = go (member_at s p.seq)
  where
    go :
        (m : Result MemberInfo)
        → (m >>= λ info. cond_ref append_query (get_name info) p (shift pre x))
          ≡ lift (shift_pair pre) (m >>= λ info. cond_ref append_query (get_name info) p x)
    go (ok info) = cond_ref-shift (get_name info) p pre x
    go (err e) = refl

handle_param-shift :
    (s : YanStruct) (p : Param) (ret : ℤ) → AppendsPair (handle_param append_query s p ret)
unfolding handle_param
handle_param-shift s p ret pre x = go p.type_
  where
    read : SqlContext → Result (ℤ × SqlContext)
    read x = member_at s p.seq >>= λ info. cond_ref append_query (get_name info) p x

    go :
        (t : YanType)
        → (elim t as (λ u. Result (ℤ × SqlContext)) [
          | struct ↦ ok (ret, shift pre x)
          | list ↦ ok (ret, shift pre x)
          | _ ↦ read (shift pre x)
        ])
          ≡ lift (shift_pair pre) (elim t as (λ u. Result (ℤ × SqlContext)) [
            | struct ↦ ok (ret, x)
            | list ↦ ok (ret, x)
            | _ ↦ read x
          ])
    go struct = refl
    go list = refl
    go _ = read_param-shift s p pre x

append_params-shift :
    (s : YanStruct) (ps : List Param) (ret : ℤ) → AppendsPair (append_params append_query s ps ret)
unfolding append_params
append_params-shift s [] ret pre x = refl
append_params-shift s (p ∷ ps) ret pre x =
    bind-shift (handle_param append_query s p ret x) _ (shift_pair pre) (shift_pair pre) _
      (handle_param-shift s p ret pre x)
      (λ a. go (is_neg a.0) a.0 a.1 (append_params-shift s ps a.0 pre a.1))
  where
    go :
        (b : Bool) (r : ℤ) (y : SqlContext)
        → append_params append_query s ps r (shift pre y)
          ≡ lift (shift_pair pre) (append_params append_query s ps r y)
        → (if b then ok (r, shift pre y) else append_params append_query s ps r (shift pre y))
          ≡ lift (shift_pair pre) (if b then ok (r, y) else append_params append_query s ps r y)
    go true r y h = refl
    go false r y h = h

append_cond-shift : (c : ReadCond) → AppendsPair (append_cond append_query c)
unfolding append_cond
append_cond-shift c pre x = go c.cys c.params
  where
    walk : Option YanStruct → Option (List Param) → SqlContext → Result (ℤ × SqlContext)
    walk s ps y = elim s [
      | none ↦ err undefined
      | some s ↦ elim ps [
        | none ↦ err undefined
        | some ps ↦ append_params append_query s ps (pos 0) y
      ]
    ]

    go :
        (s : Option YanStruct) (ps : Option (List Param))
        → walk s ps (shift pre x) ≡ lift (shift_pair pre) (walk s ps x)
    go none ps = refl
    go (some s) none = refl
    go (some s) (some ps) = append_params-shift s ps (pos 0) pre x

pub append_where-shift : (c : ReadCond) → Appends (append_where c)
unfolding append_where
append_where-shift c pre x =
    bind-shift (append_cond append_query c x) _ (shift_pair pre) (shift pre) _
      (append_cond-shift c pre x) (checked-shift _ pre)
