-- ===== src/Sql/Update.antt =====
-- MakeUpdateSql of src/sqlite/sqlite_readref.h and .cpp: UPDATE.
use yan.Prelude.{ℕ, Bool, true, false, ◌++◌, if◌then◌else◌, Result, ok, err, runtime_error, ◌>>=◌}
use yan.Prelude.Int.{pos, is_neg}
use yan.Prelude.Text.{Text, bytes}
use yan.Prelude.Decimal.{to_string}
use yan.Cond.{UpdateCond, has_cond, get_obj_name}
use yan.RefOps.{MemAppend, append_value, append_cond}
use yan.Sql.Query.{append_query}

pub record FieldContext : Type 0 where
  pub fields : Text
  pub append_first : Bool

-- `ReadFieldMemRef::append`
unfoldable pub append_field_sql : MemAppend FieldContext
append_field_sql name c ops t v x =
    let before = if x.append_first then x.fields else x.fields ++ bytes ", " in
    ok (pos 0, record { fields = (before ++ name) ++ bytes " = ?"; append_first = false })

-- `make`
unfoldable pub make_update : (ℕ → ℕ) → UpdateCond → Result Text
unfolding append_field_sql
make_update list_size u = do
  name ← get_obj_name u.cond
  (ret, f) ←
      append_value append_field_sql list_size u
        (record { fields = bytes "UPDATE " ++ (name ++ bytes " SET "); append_first = true })
  if is_neg ret
      then err (runtime_error (bytes "invalid updating value when doing update operation"))
      else if has_cond u.cond
      then (append_cond append_query u.cond (record {
        sql = f.fields ++ bytes " WHERE ";
        append_ret_first = true;
        append_cond_first = true;
      })
          >>= λ (r, x).
              if is_neg r
              then err (
                  runtime_error
                    (bytes "sqlite append condition for update sql failed: " ++ to_string r))
              else ok x.sql)
      else ok f.fields
