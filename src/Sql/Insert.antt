-- ===== src/Sql/Insert.antt =====
-- MakeInsertSql of src/sqlite/sqlite_readref.h and .cpp: INSERT of one object or of a sequence.
pub mod Cells
pub mod Rows
use yan.Prelude.{
  ℕ, Bool, true, false, List, [], ◌∷◌, ◌++◌, if◌then◌else◌, Result, ok, err, runtime_error,
  undefined, ◌>>=◌,
}
use yan.Prelude.Int.{ℤ, pos, negsuc, is_neg}
use yan.Prelude.Text.{Text, bytes}
use yan.Prelude.Decimal.{to_string}
use yan.Types.{YanType, CondType, and, YanOpsType}
use yan.Ref.Param.{Value, integer, real, boolean, chars, ParamValue, one, many}
use yan.Ref.Struct.{YanStruct, struct_name}
use yan.Ref.Object.{Object}
use yan.RefOps.{MemAppend, assign_value}

pub record SqlContext : Type 0 where
  pub fields : Text
  pub values : Text
  pub append_first : Bool
  pub onlyone : Bool

abbrev pub start : SqlContext
start = record { fields = []; values = []; append_first = true; onlyone = true }

unfoldable pub reset : SqlContext → SqlContext
reset x = record x { values = []; append_first = true; onlyone = false }

-- `float_text` is `std::to_string` of a `float` or `double` of that bit pattern.
module _ (float_text : ℕ → Text) where
  unfoldable pub literal : Value → Text
  literal (integer n) = to_string n
  literal (real r) = float_text r
  literal (boolean true) = to_string (pos 1)
  literal (boolean false) = to_string (pos 0)
  literal (chars t) = bytes "'" ++ (t ++ bytes "'")

  unfoldable pub append_value : Text → ParamValue → SqlContext → Result SqlContext
  unfolding literal
  append_value name (one v) x = ok (record x {
    fields = if x.onlyone then x.fields ++ name else x.fields;
    values = x.values ++ literal v;
  })
  append_value name (many vs) x = err undefined

  abbrev separate : SqlContext → SqlContext
  separate x = if x.append_first then record x { append_first = false } else record x {
    fields = if x.onlyone then x.fields ++ bytes ", " else x.fields;
    values = x.values ++ bytes ", ";
  }

  -- `ReadMemRef::append`
  unfoldable pub append_insert : MemAppend SqlContext
  unfolding append_value
  append_insert name and ops t v x = append_value name v (separate x) >>= λ x'. ok (pos 0, x')
  append_insert name c ops t v x = ok (negsuc 0, x)

  -- `create`
  unfoldable pub create_insert : Text → SqlContext → Text
  create_insert name x =
      bytes "INSERT INTO "
      ++ (name
          ++ (bytes " "
              ++ (bytes "("
                  ++ (x.fields ++ (bytes ") " ++ (bytes "VALUES (" ++ (x.values ++ bytes ")")))))))

  module _ (list_size : ℕ → ℕ) where
    -- `make` of one object, with the context that it leaves
    unfoldable pub make_insert : YanStruct → Object → SqlContext → Result (Text × SqlContext)
    unfolding append_insert create_insert
    make_insert s o x = assign_value append_insert list_size s o x >>= λ (ret, x').
        if is_neg ret
        then err (
            runtime_error (
              bytes "sqlite append insert sql failed: ["
              ++ (struct_name s ++ (bytes "] failed: " ++ to_string ret))))
        else if x'.append_first
        then err (runtime_error (bytes "sqlite has no field set when creating insert sql"))
        else ok (create_insert (struct_name s) x', x')

    -- The rounds of the loop of `make` behind the first.
    unfoldable pub more_rows : YanStruct → List Object → Text → SqlContext → Result Text
    unfolding reset append_insert
    more_rows s [] sql x = ok sql
    more_rows s (o ∷ os) sql x = assign_value append_insert list_size s o (reset x) >>= λ (ret, x').
        (let rest = more_rows s os (sql ++ (bytes ", (" ++ (x'.values ++ bytes ")"))) x' in
          if is_neg ret
          then err (runtime_error (bytes "sqlite append insert list sql failed: " ++ to_string ret))
          else rest)

    -- `make` of a sequence
    unfoldable pub make_insert_list : YanStruct → List Object → Result Text
    unfolding make_insert more_rows
    make_insert_list s [] = ok []
    make_insert_list s (o ∷ os) = make_insert s o start >>= λ (sql, x). more_rows s os sql x
