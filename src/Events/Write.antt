-- ===== src/Events/Write.antt =====
-- src/sqlite/sqlite_event.h, WriteEvent and CreateTable: events that execute texts.
use yan.Prelude.{
  ◌⊎◌, inl, inr, ℕ, ◌+◌, ◌-◌, ◌%◌, ◌^◌, List, [], ◌∷◌, ◌++◌, ltb, ◌==◌, if◌then◌else◌, length,
  Error, Result, ok, err, runtime_error, undefined, Outcome, ◌>>=◌,
}
use yan.Prelude.Int.{ℤ, pos, negsuc}
use yan.Prelude.Text.{Text, bytes}
use yan.Ref.Struct.{YanStruct}
use yan.Ref.Object.{Object}
use yan.Sql.Insert.{make_insert, make_insert_list, start}
use yan.Sql.Table.{make_table}
use yan.Context.{Sqlite, SqliteContext, write}
use yan.Events.{Pool, with_connection}

-- `sqls_` and `entity_`, an `int` by its bit pattern
pub record WriteEvent : Type 0 where
  pub sqls : List Text
  pub entity : ℕ

abbrev pub new_event : WriteEvent
new_event = record { sqls = []; entity = 0 }

-- An argument of `prehandle`.
pub data Written : Type 0 where
  single : YanStruct → Object → Written
  sequence : YanStruct → List Object → Written

-- `std::int64_t` of an `int`
unfoldable pub int64_of : ℕ → ℤ
int64_of n = if ltb n (2 ^ 31) then pos n else negsuc (2 ^ 32 - 1 - n)

unfoldable pub add_sql : Text → ℕ → WriteEvent → WriteEvent
add_sql sql n e = record { sqls = e.sqls ++ (sql ++ bytes ";") ∷ []; entity = n }

-- What `MakeTableSql::make` and `prehandle` of the tables leave.
unfoldable pub make_tables : List YanStruct → WriteEvent → Result WriteEvent
unfolding add_sql
make_tables [] e = ok e
make_tables (s ∷ ss) e = make_table s >>= λ sql. make_tables ss (add_sql sql e.entity e)

-- `CreateTable::prehandle`
unfoldable pub prehandle_tables : List YanStruct → Result WriteEvent
unfolding make_tables
prehandle_tables ss =
    make_tables ss new_event >>= λ e. ok (record e { entity = length ss % 2 ^ 32 })

module _ (float_text : ℕ → Text) (list_size : ℕ → ℕ) where
  -- `prehandle` of one argument. For one object the `int` is counted up, which has no meaning behind
  -- the largest; for a sequence its size is added as a `size_t`.
  unfoldable pub prehandle_one : Written → WriteEvent → Result WriteEvent
  unfolding add_sql
  prehandle_one (single s o) e = make_insert float_text list_size s o start >>= λ (sql, x).
      (if e.entity == 2 ^ 31 - 1
        then err undefined
        else ok (add_sql sql ((e.entity + 1) % 2 ^ 32) e))
  prehandle_one (sequence s os) e = make_insert_list float_text list_size s os >>= λ sql.
      ok (add_sql sql ((e.entity + length os) % 2 ^ 32) e)

  -- `WriteEvent::prehandle`
  unfoldable pub prehandle : List Written → WriteEvent → Result WriteEvent
  unfolding prehandle_one
  prehandle [] e = ok e
  prehandle (w ∷ ws) e = prehandle_one w e >>= λ e'. prehandle ws e'

-- What is behind a call that returned, in the same `try`.
abbrev pub return_value : {A B S : Type 0} → B → Outcome S A → Outcome S B
return_value b (err e, x) = (err e, x)
return_value b (ok a, x) = (ok b, x)

-- Two statements of one `try`.
unfoldable pub and_then : {A S : Type 0} → Outcome S A → (S → Outcome S A) → Outcome S A
and_then (err e, x) next = (err e, x)
and_then (ok a, x) next = next x

abbrev pub no_table : Text
no_table = bytes "please specify at least one table when creating tables"

unfoldable pub check_texts : {A : Type 0} → List Text → A → A ⊎ Error
check_texts [] settled = inr (runtime_error no_table)
check_texts (sql ∷ sqls) settled = inl settled

module _ (db : Sqlite) where
  -- `for (auto& sql : sqls_) ctx->write(sql);`
  unfoldable pub write_all : List Text → SqliteContext db → Outcome (SqliteContext db) Unit
  unfolding and_then
  write_all [] x = (ok tt, x)
  write_all (sql ∷ sqls) x = and_then (write db sql x) (λ y. write_all sqls y)

module _ (db : Sqlite) (open_v2 : Text → db.World → ℕ × db.World) where
  -- `WriteEvent::handle`
  unfoldable pub handle_write : WriteEvent → Pool db → Outcome (Pool db) ℤ
  unfolding write_all int64_of
  handle_write e d =
      with_connection db open_v2 (λ x. return_value (int64_of e.entity) (write_all db e.sqls x)) d

  -- `CreateTable::handle`. Without a text it throws outside of its `try`, so nothing is put into the
  -- promise: that is `inr`.
  unfoldable pub handle_tables : WriteEvent → Pool db → Outcome (Pool db) ℤ ⊎ Error
  unfolding handle_write check_texts
  handle_tables e d = check_texts e.sqls (handle_write e d)
