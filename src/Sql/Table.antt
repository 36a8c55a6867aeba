-- ===== src/Sql/Table.antt =====
-- MakeTableSql of src/sqlite/sqlite_readref.h and .cpp: CREATE TABLE.
use yan.Prelude.{Bool, true, false, [], ◌++◌, if◌then◌else◌, Result, ok, err, runtime_error, ◌>>=◌}
use yan.Prelude.Int.{ℤ, pos, is_neg, is_nonpos}
use yan.Prelude.Text.{Text, bytes}
use yan.Prelude.Decimal.{to_string}
use yan.Types.{YanType, int8, int16, int32, int64, string, auto_increment, date, get_yan_type_str}
use yan.Ref.Struct.{YanStruct, struct_name, least_table_field_char_length}
use yan.RefOps.{append_fields}

pub record SqlContext : Type 0 where
  pub fields : Text
  pub append_first : Bool

abbrev pub bad_length : Text
bad_length =
    bytes "sqlite's field length with char type should be large than "
    ++ to_string least_table_field_char_length

-- The `switch` of `ReadMemRef::append` on the type of the column, for types that NOT NULL may follow.
unfoldable pub field_type : YanType → ℤ → Result Text
field_type int8 length = ok (bytes " INT")
field_type int16 length = ok (bytes " INT")
field_type int32 length = ok (bytes " INT")
field_type int64 length = ok (bytes " INT")
field_type string length =
    if is_nonpos length
    then err (runtime_error bad_length)
    else ok (bytes " CHAR(" ++ (to_string length ++ bytes ")"))
field_type date length = ok (bytes " INT")
field_type t length =
    err (runtime_error (bytes "unsupports the field type [" ++ (get_yan_type_str t ++ bytes "]")))

unfoldable pub column_type : YanType → Bool → ℤ → Result Text
unfolding field_type
column_type auto_increment canbenull length = ok (bytes " INTEGER PRIMARY_KEY AUTO_INCREMENT")
column_type t canbenull length =
    field_type t length >>= λ f. ok (if canbenull then f else f ++ bytes " NOT NULL")

-- `ReadMemRef::append`
unfoldable pub append_column : Text → YanType → Bool → ℤ → SqlContext → Result (ℤ × SqlContext)
unfolding column_type
append_column name t canbenull length x =
    let before = if x.append_first then x.fields else x.fields ++ bytes ", " in
    column_type t canbenull length >>= λ c.
    ok (pos 0, record { fields = (before ++ name) ++ c; append_first = false })

-- `create`
unfoldable pub create_table : Text → SqlContext → Text
create_table table x =
    bytes "CREATE TABLE IF NOT EXISTS "
    ++ (table ++ (bytes " " ++ (bytes "(" ++ (x.fields ++ bytes ") "))))

-- `make<Table>`
unfoldable pub make_table : YanStruct → Result Text
unfolding append_column create_table
make_table s =
    append_fields append_column s.members (record { fields = []; append_first = true })
    >>= λ (ret, x).
        if is_neg ret
        then err (
            runtime_error (
              bytes "create sqlite sql for table ["
              ++ (struct_name s ++ (bytes "] failed: " ++ to_string ret))))
        else if x.append_first
        then err (
            runtime_error (
              bytes "sqlite has no field set when creating table sql ["
              ++ (struct_name s ++ bytes "]")))
        else ok (create_table (struct_name s) x)
