-- ===== src/Examples/Rows.antt =====
-- The theorems on rows (src/sqlite/sqlite_writeref.h and the loops of src/sqlite/sqlite_context.h),
-- over a statement with two rows.
use yan.Prelude.{
  ℕ, zero, suc, ◌≡◌, ◌≢◌, ◌⊎◌, refl, true, false, Option, none, some, List, [], ◌∷◌, get_elem?,
  Error, ok, err, runtime_error, ◌>>=◌, arith,
}
use yan.Prelude.Int.{pos}
use yan.Prelude.Text.{Text, bytes}
use yan.Prelude.Decimal.{decimal}
use yan.Types.{double}
use yan.Ref.Param.{Value, integer, chars}
use yan.Ref.Struct.{MemberInfo, YanStruct, member_at}
use yan.Ref.Object.{Object, Member, fresh, assign}
use yan.Cond.{copy_refobj}
use yan.Sql.Insert.{make_insert, start as start_insert}
use yan.Sql.Update.{make_update}
use yan.RefOps.Write.{get_object}
use yan.Sql.Fetch.{Row, get_value, fetch}
use yan.Sql.Fetch.Columns.{given, fetch-column}
use yan.Sql.Fetch.Written.{assigns, fetched_never_written}
use yan.Context.{error_of}
use yan.Context.Rows.{
  done_code, exec_list, exec_entity, Rows, last, next, Fetches, Fails, exec_entity-Rows,
  exec_list-Rows,
}
use yan.Examples.Objects.{person, age_info, nick_info}
use yan.Examples.Connections.{counting}

-- The row 18, "bo".
abbrev bo : Row
bo = record {
  column_text = λ c. some (bytes "bo");
  column_int = λ c. pos 18;
  column_int64 = λ c. pos 18;
}

abbrev new_person : Object
new_person = fresh person

fetch-column_example :
    (o : Object) × (v : Option Value) × (fetch bo person new_person ≡ ok o)
    × (o.seqset ≡ [])
    × (get_value bo nick_info.type_ 1 ≡ ok v)
    × (get_elem? o.members 1 ≡ some (given v (record { cond = 0; flag = false; value = chars [] })))
unfolding fresh
fetch-column_example =
    fetch-column bo person new_person (refl, (refl, tt)) refl 1 nick_info
      (record { cond = 0; flag = false; value = chars [] }) refl refl

-- A table of weights can be written to, but not read.
abbrev weight_info : MemberInfo
weight_info = record age_info { type_ = double; name = bytes "weight" }

abbrev weight : YanStruct
weight = record person {
  id = 4;
  name = bytes "Weight";
  members = weight_info ∷ [];
  ms = (bytes "weight", weight_info) ∷ [];
}

abbrev bo_member : Value → Member
bo_member v = record { cond = 0; flag = true; value = v }

abbrev read_person : Object
read_person = record {
  seqset = [];
  conds = none;
  hashv = [];
  members = bo_member (integer (pos 18)) ∷ bo_member (chars (bytes "bo")) ∷ [];
}

-- `age = 19` after the reading.
abbrev changed_person : Object
changed_person = record read_person {
  members = bo_member (integer (pos 19)) ∷ bo_member (chars (bytes "bo")) ∷ [];
}

abbrev no_size : ℕ → ℕ
no_size i = 0

fetched_never_written_example :
    (make_insert decimal no_size person changed_person start_insert
      ≡ err (runtime_error (bytes "sqlite has no field set when creating insert sql")))
    × ((copy_refobj person changed_person >>= make_update no_size)
        ≡ err (
            runtime_error
              (bytes "please set the values you want to update when doing update operation")))
unfolding assigns fetch fresh get_object assign member_at
fetched_never_written_example =
    fetched_never_written bo (λ c. (bytes "bo", refl)) person ((0, integer (pos 19)) ∷ [])
      read_person changed_person (refl, (refl, tt)) refl refl decimal no_size

-- The world is the number of rows behind; there are two.
abbrev two_steps : Text → ℕ → ℕ × ℕ
two_steps s zero = (100, 1)
two_steps s (suc zero) = (100, 2)
two_steps s (suc (suc n)) = (101, 3)

abbrev always_bo : Text → ℕ → Row
always_bo s w = bo

two-Rows : Rows counting two_steps always_bo [] 0 (bo ∷ bo ∷ []) 101 3
two-Rows = next refl (next refl (last refl (λ e. absurd (omega (arith, e)))))

exec_entity-Rows_example :
    ((101 ≡ done_code) × (exec_entity counting two_steps always_bo 3 4 [] 0 ≡ some (ok 6, 3)))
    ⊎ ((101 ≢ done_code)
        × (exec_entity counting two_steps always_bo 3 4 [] 0
            ≡ some (
              err (runtime_error (error_of counting "sqlite update/delete value failed" 101 3)),
              3,
            )))
exec_entity-Rows_example =
    exec_entity-Rows counting two_steps always_bo [] 0 3 (bo ∷ bo ∷ []) 101 two-Rows 4 3
      (omega arith)

exec_list-Rows_example :
    ((os : List Object) × Fetches counting two_steps always_bo person (bo ∷ bo ∷ []) os
      × (101 ≡ done_code)
      × (exec_list counting two_steps always_bo 3 person [] [] 0 ≡ some (ok os, 3)))
    ⊎ ((os : List Object) × Fetches counting two_steps always_bo person (bo ∷ bo ∷ []) os
        × (101 ≢ done_code)
        × (exec_list counting two_steps always_bo 3 person [] [] 0
            ≡ some (
              err (runtime_error (error_of counting "sqlite query multi-value failed: " 101 3)),
              3,
            )))
    ⊎ ((e : Error) × Fails counting two_steps always_bo person (bo ∷ bo ∷ []) e
        × (u : ℕ) × (exec_list counting two_steps always_bo 3 person [] [] 0 ≡ some (err e, u)))
exec_list-Rows_example =
    exec_list-Rows counting two_steps always_bo person [] 0 3 (bo ∷ bo ∷ []) 101 two-Rows [] 3
      (omega arith)
