-- ===== src/Sql/Fetch.antt =====
-- src/sqlite/sqlite_writeref.h, FetchSqlResult: a row of a statement's result as an object.
pub mod Columns
pub mod Unfetchable
pub mod Written
use yan.Prelude.{
  ℕ, ◌+◌, Bool, true, false, Option, none, some, ◌++◌, if◌then◌else◌, Result, ok, err,
  runtime_error, ◌>>=◌,
}
use yan.Prelude.Int.{ℤ, pos, is_neg}
use yan.Prelude.Text.{Text, bytes}
use yan.Prelude.Decimal.{to_string}
use yan.Types.{YanType, int32, int64, string, auto_increment, date, timestamp, text, blob}
use yan.Ref.Param.{Value, integer, chars}
use yan.Ref.Struct.{YanStruct}
use yan.Ref.Object.{Object}
use yan.RefOps.Write.{MemGet, get_object}

-- `col_`, of which this is the next: `col_ + 1`.
pub record FetchContext : Type 0 where
  pub col : ℕ

abbrev pub start : FetchContext
start = record { col = 0 }

-- What sqlite3_column_text, sqlite3_column_int and sqlite3_column_int64 give for the columns of the
-- current row.
pub record Row : Type 0 where
  pub column_text : ℕ → Option Text
  pub column_int : ℕ → ℤ
  pub column_int64 : ℕ → ℤ

abbrev pub text_value : Option Text → Option Value
text_value none = none
text_value (some t) = some (chars t)

abbrev pub no_fetch : Text
no_fetch = bytes "sqlite does not implement bind value func"

-- The end of `fetch`, by what the walk returns.
unfoldable check_fetched : Result (ℤ × (Object × FetchContext)) → Result Object
check_fetched (err e) = err e
check_fetched (ok (ret, (o, x))) =
    if is_neg ret
    then err (runtime_error (bytes "sqlite fetch result failed: " ++ to_string ret))
    else ok o

module _ (row : Row) where
  open row use {column_text, column_int, column_int64}

  -- `get_value`, by the C++ type of the member
  unfoldable pub get_value : YanType → ℕ → Result (Option Value)
  get_value string c = ok (text_value (column_text c))
  get_value text c = ok (text_value (column_text c))
  get_value blob c = ok (text_value (column_text c))
  get_value int32 c = ok (some (integer (column_int c)))
  get_value int64 c = ok (some (integer (column_int64 c)))
  get_value auto_increment c = ok (some (integer (column_int64 c)))
  get_value date c = ok (some (integer (column_int64 c)))
  get_value timestamp c = ok (some (integer (column_int64 c)))
  get_value t c = err (runtime_error no_fetch)

  -- `WriteMemRef::get`
  unfoldable pub get_column : MemGet FetchContext
  unfolding get_value
  get_column name t x = get_value t x.col >>= λ v. ok ((pos 0, v), record { col = x.col + 1 })

  -- `fetch` of an object
  unfoldable pub fetch : YanStruct → Object → Result Object
  unfolding get_column check_fetched
  fetch s o = check_fetched (get_object get_column s (o, start))

  -- `fetch` of a count
  unfoldable pub fetch_count : ℤ
  fetch_count = column_int64 0
