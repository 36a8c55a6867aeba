-- ===== src/Sql/Query/Shift.antt =====
-- What the writers of src/sqlite/sqlite_readref.cpp append does not depend on the text before it.
pub mod Conds
pub mod Columns
use yan.Prelude.{
  String, ◌≡◌, refl, ap, ◌∙◌, Bool, true, false, Bool-cases, inl, inr, Option, none, some, List, [],
  ◌∷◌, ◌++◌, append_assoc, if◌then◌else◌, Result, ok, err, undefined, runtime_error, ◌>>=◌,
}
use yan.Prelude.Int.{ℤ, pos, is_neg}
use yan.Prelude.Text.{Text, bytes, text_eq}
use yan.Types.{CondType, and, or, group, order_asc, order_desc, YanOpsType, YanType, struct, list}
use yan.Ref.Param.{Param, ParamValue}
use yan.Ref.Struct.{MemberInfo, YanStruct, member_at, get_name}
use yan.Cond.{
  ReadCond, RetType, count, object, get_read_members, each_member, first_counted, count_members,
  ret_equal_to_cond, count_field, source_of,
}
use yan.Ref.Object.{is_auto_increment}
use yan.RefOps.{append_params, append_cond, handle_param, cond_ref, is_plain}
use yan.Sql.Query.{
  SqlContext, append_text, append_compare, append_ordering, append_cond_sql, append_query,
  append_name, append_column, append_where, select_columns, checked,
}

-- The same context behind a text that was written before.
abbrev pub shift : Text → SqlContext → SqlContext
shift pre x = record x { sql = pre ++ x.sql }

abbrev pub lift {ℓ} : {A : Type ℓ} → (A → A) → Result A → Result A
lift f (ok a) = ok (f a)
lift f (err e) = err e

abbrev pub shift_pair : Text → ℤ × SqlContext → ℤ × SqlContext
shift_pair pre p = (p.0, shift pre p.1)

-- What a writer appends does not depend on what stands before.
abbrev pub Appends : (SqlContext → Result SqlContext) → Type 0
Appends f = (pre : Text) (x : SqlContext) → f (shift pre x) ≡ lift (shift pre) (f x)

abbrev AppendsPair : (SqlContext → Result (ℤ × SqlContext)) → Type 0
AppendsPair f = (pre : Text) (x : SqlContext) → f (shift pre x) ≡ lift (shift_pair pre) (f x)

abbrev context : Text → Bool → Bool → SqlContext
context sql r c = record { sql = sql; append_ret_first = r; append_cond_first = c }

-- Two writers, one behind the other.
pub bind-shift {ℓ κ} :
    {A : Type ℓ} {B : Type κ} (m m' : Result A) (f : A → A) (g : B → B) (k : A → Result B)
    → m' ≡ lift f m
    → ((a : A) → k (f a) ≡ lift g (k a))
    → (m' >>= k) ≡ lift g (m >>= k)
bind-shift (ok a) m' f g k e h = rw e (h a)
bind-shift (err x) m' f g k e h = rw e

checked-shift :
    (message : String) (pre : Text) (r : ℤ × SqlContext)
    → checked message (shift_pair pre r) ≡ lift (shift pre) (checked message r)
checked-shift message pre (r, x) = elim (Bool-cases (is_neg r)) [ inl e ↦ rw e | inr e ↦ rw e ]
