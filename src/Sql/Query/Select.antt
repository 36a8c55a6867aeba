-- ===== src/Sql/Query/Select.antt =====
-- The text of a SELECT with conditions (src/sqlite/sqlite_readref.cpp), as one expression.
use yan.Prelude.{
  ◌≡◌, refl, sym, ap, ◌∙◌, Bool, true, false, some, List, [], ◌∷◌, ◌++◌, append_assoc, append-nil,
  ◌==◌, if◌then◌else◌, All, Result, ok, ◌>>=◌,
}
use yan.Prelude.Int.{pos, is_neg}
use yan.Prelude.Text.{Text, bytes, text_eq, is_empty}
use yan.Ref.Param.{Param}
use yan.Ref.Struct.{MemberInfo, YanStruct, get_name, struct_name}
use yan.Cond.{
  ReadCond, object, has_cond, get_obj_name, ret_equal_to_cond, get_read_members, each_member,
  count_field, source_of,
}
use yan.RefOps.{append_cond}
use yan.Sql.Query.Where.{Term, Reads, IsTerm, is_comparison, where_text, append_params-where_text}
use yan.Sql.Query.Union.{text_of}
use yan.Sql.Query.{
  SqlContext, start, append_text, append_name, append_column, append_where, select_columns,
  make_query, checked,
}

-- A column, behind the table that a temporary member names.
unfoldable pub column : MemberInfo → Text
column m = (if is_empty (source_of m) then [] else source_of m ++ bytes ".") ++ get_name m

unfoldable pub more_columns : List MemberInfo → Text
unfolding column
more_columns [] = []
more_columns (m ∷ ms) = bytes ", " ++ (column m ++ more_columns ms)

unfoldable pub columns : List MemberInfo → Text
unfolding more_columns
columns [] = []
columns (m ∷ ms) = column m ++ more_columns ms

-- The first column is not of a struct that is named like the mark of a count.
abbrev pub NoCount : List MemberInfo → Type 0
NoCount [] = Unit
NoCount (m ∷ ms) = text_eq (source_of m) count_field ≡ false

append_name-column :
    (m : MemberInfo) (x : SqlContext)
    → append_name (source_of m) (get_name m) x ≡ record x { sql = x.sql ++ column m }
unfolding append_name append_text column
append_name-column m x = go (source_of m)
  where
    go :
        (t : Text)
        → (let y = if is_empty t then x else record x { sql = (x.sql ++ t) ++ bytes "." } in
            record y { sql = y.sql ++ get_name m })
          ≡ record x { sql = x.sql ++ ((if is_empty t then [] else t ++ bytes ".") ++ get_name m) }
    go [] = refl
    go (c ∷ t) = simp append_assoc

abbrev reading : Text → Bool → Bool → SqlContext
reading sql r c = record { sql = sql; append_ret_first = r; append_cond_first = c }

more_members :
    (ms : List MemberInfo) (sql : Text) (c : Bool)
    → each_member append_column ms (pos 0) (reading sql false c)
      ≡ ok (pos 0, reading (sql ++ more_columns ms) false c)
unfolding each_member append_column more_columns append_text
more_members [] sql c = ap (λ q. ok (pos 0, reading q false c)) (sym (append-nil sql))
more_members (m ∷ ms) sql c =
    ap (each_member append_column ms (pos 0)) (append_name-column m _)
    ∙ more_members ms ((sql ++ bytes ", ") ++ column m) c
    ∙ ap (λ q. ok (pos 0, reading q false c)) (simp append_assoc)

-- The columns of a nonempty list of members, which leave no column to come first.
all_members :
    (m : MemberInfo) (ms : List MemberInfo) (sql : Text) (c : Bool)
    → NoCount (m ∷ ms)
    → each_member append_column (m ∷ ms) (pos 0) (reading sql true c)
      ≡ ok (pos 0, reading (sql ++ columns (m ∷ ms)) false c)
unfolding each_member append_column columns
all_members m ms sql c h =
    ap
      (λ b.
        (if b
          then ok (
            pos 0,
            append_text (bytes ")")
                (append_text (get_name m) (append_text (bytes "COUNT(") (reading sql false c))),
          )
          else ok (pos 0, append_name (source_of m) (get_name m) (reading sql false c)))
        >>= λ (q, x).
            (let rest = each_member append_column ms q x in if is_neg q then ok (q, x) else rest))
      h
    ∙ ap (each_member append_column ms (pos 0)) (append_name-column m (reading sql false c))
    ∙ more_members ms (sql ++ column m) c
    ∙ ap (λ q. ok (pos 0, reading q false c)) (append_assoc sql (column m) (more_columns ms))

-- What stands between SELECT and FROM.
unfoldable pub selection : Bool → List MemberInfo → Text
selection same ms = if same then bytes "*" else columns ms

-- A query for objects of struct `r` under a condition on struct `s`.
abbrev pub query_of : YanStruct → YanStruct → List Param → Text → ReadCond
query_of r s ps h = record { ret = object r; cys = some s; params = some ps; hash = h }

select_columns-selection :
    (r s : YanStruct) (ps : List Param) (h : Text) (sql : Text)
    → (m : MemberInfo) (ms : List MemberInfo) → r.members ≡ m ∷ ms
    → NoCount (m ∷ ms)
    → select_columns (query_of r s ps h) (reading sql true true)
      ≡ ok (reading (sql ++ selection (r.id == s.id) (m ∷ ms)) (r.id == s.id) true)
unfolding select_columns ret_equal_to_cond get_read_members selection append_text
select_columns-selection r s ps h sql m ms e k = go (r.id == s.id)
  where
    walk :
        each_member append_column r.members (pos 0) (reading sql true true)
        ≡ ok (pos 0, reading (sql ++ columns (m ∷ ms)) false true)
    walk =
        ap (λ l. each_member append_column l (pos 0) (reading sql true true)) e
        ∙ all_members m ms sql true k

    go :
        (b : Bool)
        → (if b
            then ok (reading (sql ++ bytes "*") true true)
            else (each_member append_column r.members (pos 0) (reading sql true true) >>= λ q.
                checked "sqlite get return object's members for query sql failed: " q))
          ≡ ok (reading (sql ++ (if b then bytes "*" else columns (m ∷ ms))) b true)
    go true = refl
    go false =
        ap (λ w. w >>= λ q. checked "sqlite get return object's members for query sql failed: " q)
          walk

-- The statement that reads objects of struct `r` out of the table of struct `s`.
unfoldable pub select_text : YanStruct → YanStruct → List Term → Text
unfolding selection where_text
select_text r s ts =
    bytes "SELECT "
    ++ (selection (r.id == s.id) r.members
        ++ (bytes " FROM " ++ (struct_name s ++ (bytes " WHERE " ++ where_text ts))))

-- For a condition that begins with a comparison and in which every term is a comparison or an
-- ordering, `make` writes the statement that selects all columns when the objects read are of the
-- condition's own struct, and the columns of their struct otherwise.
pub make_query-select_text :
    (r s : YanStruct) (ps : List Param) (h : Text) (t : Term) (ts : List Term)
    → (m : MemberInfo) (ms : List MemberInfo) → r.members ≡ m ∷ ms
    → NoCount (m ∷ ms)
    → Reads s ps (t ∷ ts)
    → is_comparison t.cond ≡ true
    → All IsTerm ts
    → text_of (make_query (query_of r s ps h) start) ≡ ok (select_text r s (t ∷ ts))
unfolding make_query append_where append_cond get_obj_name has_cond select_text append_text
make_query-select_text r s ps h t ts m ms e k reads c terms =
    ap (λ w. text_of (w >>= finish)) (select_columns-selection r s ps h (bytes "SELECT ") m ms e k)
    ∙ ap (λ w. text_of (w >>= λ q. checked "sqlite append condition for query sql failed: " q))
        (append_params-where_text s ps t ts _ (r.id == s.id) reads c terms)
    ∙ ap
        (λ l. ok (
          (((((bytes "SELECT " ++ selection (r.id == s.id) l) ++ bytes " FROM ") ++ struct_name s)
              ++ bytes " WHERE ")
            ++ where_text (t ∷ ts))))
        (sym e)
    ∙ ap ok (simp append_assoc)
  where
    finish : SqlContext → Result SqlContext
    finish x1 = append_where (query_of r s ps h) (
        append_text (bytes " WHERE ")
          (append_text (struct_name s) (append_text (bytes " FROM ") x1)))
