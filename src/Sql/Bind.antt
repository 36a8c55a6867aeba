-- ===== src/Sql/Bind.antt =====
-- BindSqlParam of src/sqlite/sqlite_readref.h: the values of the conditions are bound to the
-- placeholders of a prepared statement, one position after the other.
pub mod Marks
pub mod Positions
pub mod Orderings
use yan.Prelude.{
  ℕ, zero, suc, ◌+◌, Bool, true, false, List, [], ◌∷◌, ◌++◌, ◌==◌, if◌then◌else◌, Result, ok, err,
  runtime_error, ◌>>=◌,
}
use yan.Prelude.Int.{ℤ, pos, is_neg}
use yan.Prelude.Text.{Text, bytes}
use yan.Prelude.Decimal.{to_string, decimal}
use yan.Types.{YanType, int32, int64, string, auto_increment, date, timestamp, text, blob}
use yan.Ref.Param.{Value, ParamValue, one, many}
use yan.Cond.{ReadCond, UpdateCond, has_cond}
use yan.RefOps.{MemAppend, append_cond, append_value}

-- `index_`, and the bindings that the database has accepted, in order.
pub record BindContext : Type 0 where
  pub index : ℕ
  pub bound : List (ℕ × Value)

abbrev pub start : BindContext
start = record { index = 0; bound = [] }

-- The types that `append_value` has a binding function for.
abbrev pub is_bindable : YanType → Bool
is_bindable int32 = true
is_bindable int64 = true
is_bindable auto_increment = true
is_bindable date = true
is_bindable timestamp = true
is_bindable string = true
is_bindable text = true
is_bindable blob = true
is_bindable t = false

abbrev pub no_bind : Text
no_bind = bytes "sqlite does not implement bind value func"

-- sqlite3 for one statement: `bind` is the code that sqlite3_bind_text, sqlite3_bind_int or
-- sqlite3_bind_int64 returns for a value at a position, SQLITE_OK being 0, and `errstr` its text.
module _ (bind : ℕ → Value → ℕ) (errstr : ℕ → Text) where
  abbrev pub bind_error : Text → ℕ → ℕ → Text
  bind_error name index code =
      bytes "sqlite bind ["
      ++ (name ++ (bytes ":" ++ (decimal index ++ (bytes "] value failed: " ++ errstr code))))

  -- `ReadMemRef::append`
  unfoldable pub append_bind : MemAppend BindContext
  append_bind name c ops t (many vs) x = err (runtime_error no_bind)
  append_bind name c ops t (one v) x =
      let index = x.index + 1 in
      let code = bind index v in
      if is_bindable t
      then (if code == 0
          then ok (pos 0, record { index = index; bound = x.bound ++ (index, v) ∷ [] })
          else err (runtime_error (bind_error name index code)))
      else err (runtime_error no_bind)

  -- `bind(const ReadCond *)`
  unfoldable pub bind_cond : ReadCond → BindContext → Result BindContext
  unfolding append_bind
  bind_cond c x =
      if has_cond c
      then (append_cond append_bind c x >>= λ (ret, x').
          if is_neg ret
          then err (
              runtime_error (bytes "sqlite bind condition for query sql failed: " ++ to_string ret))
          else if x'.index == 0
          then err (runtime_error (bytes "no parameter was binded"))
          else ok x')
      else ok x

  -- `bind` of the conditions of a union, a join or a copy
  unfoldable pub bind_conds : List ReadCond → BindContext → Result BindContext
  unfolding bind_cond
  bind_conds [] x = ok x
  bind_conds (c ∷ cs) x = bind_cond c x >>= λ x'. bind_conds cs x'

  -- `bind(const UpdateCond *)`
  unfoldable pub bind_update : (ℕ → ℕ) → UpdateCond → BindContext → Result BindContext
  unfolding bind_cond
  bind_update list_size u x = append_value append_bind list_size u x >>= λ (ret, x').
      if is_neg ret
      then err (runtime_error (bytes "sqlite bind value for update sql failed: " ++ to_string ret))
      else bind_cond u.cond x'
