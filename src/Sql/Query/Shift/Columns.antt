-- ===== src/Sql/Query/Shift/Columns.antt =====
-- The columns of src/sqlite/sqlite_readref.cpp, behind a text.
use yan.Prelude.{
  ◌≡◌, refl, ap, ◌∙◌, Bool, true, false, Option, none, some, List, [], ◌∷◌, ◌++◌, append_assoc,
  if◌then◌else◌, Result, ok, err, runtime_error, ◌>>=◌,
}
use yan.Prelude.Int.{ℤ, pos, is_neg}
use yan.Prelude.Text.{Text, bytes, text_eq}
use yan.Ref.Struct.{MemberInfo, YanStruct, get_name}
use yan.Cond.{
  ReadCond, RetType, count, object, get_read_members, each_member, first_counted, count_members,
  ret_equal_to_cond, count_field, source_of,
}
use yan.Ref.Object.{is_auto_increment}
use yan.Sql.Query.{SqlContext, append_text, append_name, append_column, select_columns, checked}
use yan.Sql.Query.Shift.{
  shift, lift, shift_pair, Appends, AppendsPair, context, bind-shift, checked-shift,
}

append_name-shift :
    (table name pre : Text) (x : SqlContext)
    → append_name table name (shift pre x) ≡ shift pre (append_name table name x)
unfolding append_name append_text
append_name-shift [] name pre x = simp append_assoc
append_name-shift (c ∷ table) name pre x = simp append_assoc

append_column-shift :
    (table name pre sql : Text) (r c : Bool)
    → append_column table name (shift pre (context sql r c))
      ≡ lift (shift_pair pre) (append_column table name (context sql r c))
unfolding append_column append_text
append_column-shift table name pre sql true c = go (text_eq table count_field)
  where
    go :
        (b : Bool)
        → (if b
            then ok (
              pos 0,
              append_text
                  (bytes ")")
                  (append_text name (append_text (bytes "COUNT(") (context (pre ++ sql) false c))),
            )
            else ok (pos 0, append_name table name (context (pre ++ sql) false c)))
          ≡ lift (shift_pair pre) (
              if b
              then ok (
                pos 0,
                append_text
                    (bytes ")")
                    (append_text name (append_text (bytes "COUNT(") (context sql false c))),
              )
              else ok (pos 0, append_name table name (context sql false c)))
    go true = simp append_assoc
    go false = ap (λ y. ok (pos 0, y)) (append_name-shift table name pre (context sql false c))
append_column-shift table name pre sql false c =
    ap (λ y. ok (pos 0, y))
      (ap (append_name table name) (λ i. context (append_assoc pre sql (bytes ", ") i) false c)
        ∙ append_name-shift table name pre (context (sql ++ bytes ", ") false c))

module _ (cb : Text → Text → SqlContext → Result (ℤ × SqlContext))
    (h : (t n : Text) → AppendsPair (cb t n)) where
  each_member-shift : (ms : List MemberInfo) (ret : ℤ) → AppendsPair (each_member cb ms ret)
  unfolding each_member
  each_member-shift [] ret pre x = refl
  each_member-shift (m ∷ ms) ret pre x =
      bind-shift (cb (source_of m) (get_name m) x) _ (shift_pair pre) (shift_pair pre) _
        (h (source_of m) (get_name m) pre x)
        (λ a. go (is_neg a.0) a.0 a.1 (each_member-shift ms a.0 pre a.1))
    where
      go :
          (b : Bool) (r : ℤ) (y : SqlContext)
          → each_member cb ms r (shift pre y) ≡ lift (shift_pair pre) (each_member cb ms r y)
          → (if b then ok (r, shift pre y) else each_member cb ms r (shift pre y))
            ≡ lift (shift_pair pre) (if b then ok (r, y) else each_member cb ms r y)
      go true r y e = refl
      go false r y e = e

  first_counted-shift : (ms : List MemberInfo) → AppendsPair (first_counted cb ms)
  unfolding first_counted
  first_counted-shift [] pre x = refl
  first_counted-shift (m ∷ ms) pre x = go (is_auto_increment m.type_) (first_counted-shift ms pre x)
    where
      go :
          (b : Bool)
          → first_counted cb ms (shift pre x) ≡ lift (shift_pair pre) (first_counted cb ms x)
          → (if b
              then first_counted cb ms (shift pre x)
              else cb count_field (get_name m) (shift pre x))
            ≡ lift
                (shift_pair pre)
                (if b then first_counted cb ms x else cb count_field (get_name m) x)
      go true e = e
      go false e = h count_field (get_name m) pre x

  count_members-shift : (ms : List MemberInfo) → AppendsPair (count_members cb ms)
  unfolding count_members
  count_members-shift [] pre x = refl
  count_members-shift (m ∷ ms) pre x = first_counted-shift (m ∷ ms) pre x

  get_read_members-shift : (c : ReadCond) → AppendsPair (get_read_members cb c)
  unfolding get_read_members
  get_read_members-shift c pre x = go c.ret c.cys
    where
      members : RetType → Option YanStruct → SqlContext → Result (ℤ × SqlContext)
      members r s y = elim r [
        | object r ↦ each_member cb r.members (pos 0) y
        | count ↦ elim s [
          | none ↦ err (runtime_error (bytes "please specify a table before doing count operation"))
          | some s ↦ count_members cb s.members y
        ]
      ]

      go :
          (r : RetType) (s : Option YanStruct)
          → members r s (shift pre x) ≡ lift (shift_pair pre) (members r s x)
      go (object r) s = each_member-shift r.members (pos 0) pre x
      go count none = refl
      go count (some s) = count_members-shift s.members pre x

pub select_columns-shift : (c : ReadCond) → Appends (select_columns c)
unfolding select_columns append_text
select_columns-shift c pre x = go (ret_equal_to_cond c)
  where
    read : SqlContext → Result SqlContext
    read y = get_read_members append_column c y >>= λ r.
        checked "sqlite get return object's members for query sql failed: " r

    go :
        (b : Bool)
        → (if b then ok (append_text (bytes "*") (shift pre x)) else read (shift pre x))
          ≡ lift (shift pre) (if b then ok (append_text (bytes "*") x) else read x)
    go true = simp append_assoc
    go false =
        bind-shift (get_read_members append_column c x) _ (shift_pair pre) (shift pre) _
          (get_read_members-shift append_column
            (λ t n p y. append_column-shift t n p y.sql y.append_ret_first y.append_cond_first) c
            pre x)
          (checked-shift _ pre)
