-- ===== src/Sql/Query.antt =====
-- MakeQuerySql and MakeDeleteSql of src/sqlite/sqlite_readref.h and .cpp: SELECT from a table, a
-- union or a join, INSERT INTO … SELECT, and DELETE.
pub mod Same
pub mod Shift
pub mod Union
pub mod Where
pub mod Select
use yan.Prelude.{
  ℕ, String, zero, suc, Bool, true, false, List, [], ◌∷◌, ◌++◌, if◌then◌else◌, Result, ok, err,
  runtime_error, ◌>>=◌,
}
use yan.Prelude.Int.{ℤ, pos, is_neg}
use yan.Prelude.Text.{Text, bytes, text_eq, is_empty}
use yan.Prelude.Decimal.{to_string}
use yan.Types.{
  YanType, CondType, and, or, group, order_asc, order_desc, cond_code, YanOpsType, get_yan_ops_str,
}
use yan.Ref.Param.{ParamValue}
use yan.Cond.{
  ReadCond, JoinReadCond, has_cond, ret_equal_to_cond, get_read_members, get_obj_name,
  join_obj_name, count_field,
}
use yan.RefOps.{MemAppend, append_cond}

pub record SqlContext : Type 0 where
  pub sql : Text
  pub append_ret_first : Bool
  pub append_cond_first : Bool

abbrev pub start : SqlContext
start = record { sql = []; append_ret_first = true; append_cond_first = true }

abbrev pub first_cond : Text
first_cond = bytes "sqlite's first condition should be pointed to a field"

-- `sqlctx_.sql_.append(t)`
unfoldable pub append_text : Text → SqlContext → SqlContext
append_text t x = record x { sql = x.sql ++ t }

-- A condition with a placeholder, behind the word that joins it to the one before.
unfoldable pub append_compare : Text → Text → Text → SqlContext → SqlContext
append_compare name op join x =
    let joined =
      if x.append_cond_first then record x { append_cond_first = false } else append_text join x in
    append_text (bytes "?") (append_text op (append_text name joined))

unfoldable pub append_ordering : Text → Text → SqlContext → Result SqlContext
append_ordering name text x =
    if x.append_cond_first
    then err (runtime_error first_cond)
    else ok (append_text name (append_text text x))

-- `append_cond` of ReadMemRef
unfoldable pub append_cond_sql : Text → CondType → YanOpsType → SqlContext → Result SqlContext
unfolding append_compare append_ordering
append_cond_sql name and ops x =
    ok (append_compare name (get_yan_ops_str ops false) (bytes " AND ") x)
append_cond_sql name or ops x =
    ok (append_compare name (get_yan_ops_str ops false) (bytes " OR ") x)
append_cond_sql name CondType.not ops x =
    ok (append_compare name (get_yan_ops_str ops true) (bytes " AND ") x)
append_cond_sql name group ops x = append_ordering name (bytes " GROUP BY ") x
append_cond_sql name order_asc ops x = append_ordering name (bytes " ORDER BY ") x
append_cond_sql name order_desc ops x =
    append_ordering name (bytes " ORDER BY ") x >>= λ x'. ok (append_text (bytes " DESC ") x')
append_cond_sql name c ops x =
    err (runtime_error (bytes "unknown condition type: " ++ to_string (pos (cond_code c))))

unfoldable pub append_query : MemAppend SqlContext
append_query name c ops t v x = append_cond_sql name c ops x >>= λ x'. ok (pos 0, x')

-- `table.name`, or the name alone
unfoldable pub append_name : Text → Text → SqlContext → SqlContext
append_name table name x =
    append_text name (if is_empty table then x else append_text (bytes ".") (append_text table x))

-- The callback of `make` that writes the columns to be read.
unfoldable pub append_column : Text → Text → SqlContext → Result (ℤ × SqlContext)
unfolding append_name
append_column table name x =
    if x.append_ret_first
    then (if text_eq table count_field
        then ok (
          pos 0,
          append_text (bytes ")") (
              append_text name
                (append_text (bytes "COUNT(") (record x { append_ret_first = false }))),
        )
        else ok (pos 0, append_name table name (record x { append_ret_first = false })))
    else ok (pos 0, append_name table name (append_text (bytes ", ") x))

-- The callback of the joining and the copying `make`, which knows no COUNT.
unfoldable pub append_join_column : Text → Text → SqlContext → Result (ℤ × SqlContext)
unfolding append_name
append_join_column table name x =
    if x.append_ret_first
    then ok (pos 0, append_name table name (record x { append_ret_first = false }))
    else ok (pos 0, append_name table name (append_text (bytes ", ") x))

-- A negative number from a walk is an error.
abbrev pub checked : String → ℤ × SqlContext → Result SqlContext
checked message (ret, x) =
    if is_neg ret then err (runtime_error (bytes message ++ to_string ret)) else ok x

unfoldable pub append_where : ReadCond → SqlContext → Result SqlContext
append_where c x =
    append_cond append_query c x >>= λ r. checked "sqlite append condition for query sql failed: " r

unfoldable pub select_columns : ReadCond → SqlContext → Result SqlContext
select_columns c x =
    if ret_equal_to_cond c
    then ok (append_text (bytes "*") x)
    else (get_read_members append_column c x >>= λ r.
        checked "sqlite get return object's members for query sql failed: " r)

-- `make(const ReadCond *)`
unfoldable pub make_query : ReadCond → SqlContext → Result SqlContext
make_query c x = do
  x1 ← select_columns c (append_text (bytes "SELECT ") x)
  name ← get_obj_name c
  let x2 = append_text name (append_text (bytes " FROM ") x1)
  if has_cond c then append_where c (append_text (bytes " WHERE ") x2) else ok x2

-- The loop of `make(const std::list<ReadCond *> &)` behind the first round.
unfoldable pub more_queries : List ReadCond → SqlContext → Result SqlContext
more_queries [] x = ok x
more_queries (c ∷ cs) x =
    make_query c (record (append_text (bytes " UNION ") x) {
      append_ret_first = true;
      append_cond_first = true;
    })
    >>= λ x'. more_queries cs x'

unfoldable pub make_union : List ReadCond → SqlContext → Result SqlContext
make_union [] x = err (runtime_error (bytes "no condition for union read"))
make_union (c ∷ cs) x =
    make_query c (record x { append_ret_first = true; append_cond_first = true }) >>= λ x'.
    more_queries cs x'

-- The conditions of a join or a copy, one behind the other in one WHERE.
unfoldable pub append_wheres : List ReadCond → SqlContext → Result SqlContext
append_wheres [] x = ok x
append_wheres (c ∷ cs) x = append_where c x >>= λ x'. append_wheres cs x'

unfoldable pub append_equals : Bool → List Text → SqlContext → SqlContext
append_equals first [] x = x
append_equals first (e ∷ es) x =
    append_equals false es
      (if first then append_text e x else append_text e (append_text (bytes " AND ") x))

unfoldable pub join_tables : Bool → List JoinReadCond → SqlContext → SqlContext
unfolding append_equals
join_tables first [] x = x
join_tables first (j ∷ js) x = join_tables false js (
    append_equals true j.equals (
      if first
      then append_text (join_obj_name j) (append_text (bytes " FROM ") x)
      else append_text (bytes " ON ")
          (append_text (join_obj_name j) (append_text (bytes " LEFT JOIN ") x))))

unfoldable pub left_join : List JoinReadCond → List ReadCond → SqlContext → Result SqlContext
left_join equals [] x = ok (join_tables true equals x)
left_join equals (c ∷ cs) x =
    append_wheres (c ∷ cs) (append_text (bytes " WHERE ") (join_tables true equals x))

-- `make(retcond, equals, conds)`
unfoldable pub make_join :
    ReadCond → List JoinReadCond → List ReadCond → SqlContext → Result SqlContext
make_join retcond [] conds x = err (runtime_error (bytes "no condition for join read"))
make_join retcond (j ∷ js) conds x =
    get_read_members append_join_column retcond (append_text (bytes "SELECT ") x) >>= λ r.
    checked "sqlite get return object's members for join read sql failed: " r >>= λ x'.
    left_join (j ∷ js) conds x'

-- `make(froms, column, conds)`
unfoldable pub make_copy :
    List JoinReadCond → ReadCond → List ReadCond → SqlContext → Result SqlContext
make_copy (from ∷ []) column conds x = do
  table ← get_obj_name column
  r ← get_read_members append_join_column column x
  x' ← checked "sqlite get column members for copy sql failed: " r
  let sql =
      bytes "INSERT INTO "
      ++ (table
          ++ (bytes " ("
              ++ (x'.sql
                  ++ (bytes ") SELECT " ++ (x'.sql ++ (bytes " FROM " ++ join_obj_name from))))))
  let x2 = record x' { sql = sql }
  elim conds [ [] ↦ ok x2 | c ∷ cs ↦ append_wheres (c ∷ cs) (append_text (bytes " WHERE ") x2) ]
make_copy froms column conds x = err (runtime_error (bytes "unknow copy from table"))

-- MakeDeleteSql::make
unfoldable pub make_delete : ReadCond → SqlContext → Result SqlContext
make_delete c x = do
  name ← get_obj_name c
  let x1 = append_text name (append_text (bytes "DELETE FROM ") x)
  if has_cond c
      then (append_cond append_query c (append_text (bytes " WHERE ") x1) >>= λ r.
          checked "sqlite append condition for delete sql failed: " r)
      else ok x1
