-- ===== src/Events/Queries.antt =====
-- src/sqlite/sqlite_event.h, UpdateEvent, ReadEvent and DeleteEvent, and the tasks of
-- src/sqlite/sqlite_union.h, sqlite_join.h and sqlite_copy.h: what runs a prepared statement.
use yan.Prelude.{ℕ, Bool, List, Result, ok, err, Outcome}
use yan.Prelude.Int.{ℤ, pos}
use yan.Prelude.Text.{Text}
use yan.Ref.Param.{Value}
use yan.Ref.Struct.{YanStruct}
use yan.Ref.Object.{Object}
use yan.Cond.{
  RetType, count, ReadCond, UpdateCond, JoinReadCond, new_cond, append, append_struct, copy_refobj,
}
use yan.Context.{Sqlite, SqliteContext}
use yan.Context.Keys.{read, read_union, read_join, del, copy, update}
use yan.Events.{Pool, with_connection}
use yan.Events.Write.{return_value}

-- `UpdateEvent::prehandle`
unfoldable pub prehandle_update : YanStruct → Object → Result UpdateCond
prehandle_update s o = copy_refobj s o

-- `ReadEvent::prehandle` of objects, and of a struct alone
unfoldable pub prehandle_read : RetType → List (YanStruct × Object) → Result ReadCond
prehandle_read r args = append (new_cond r) args

unfoldable pub prehandle_struct : RetType → YanStruct → ReadCond
prehandle_struct r s = append_struct (new_cond r) s

-- `DeleteEvent::prehandle`
unfoldable pub prehandle_delete : List (YanStruct × Object) → Result ReadCond
prehandle_delete args = append (new_cond count) args

module _ (db : Sqlite) (open_v2 : Text → db.World → ℕ × db.World) (entry_first : Bool)
    (bind : db.Stmt → db.World → ℕ → Value → ℕ)
    (bound : db.Stmt → List (ℕ × Value) → db.World → db.World)
    (step : db.Stmt → db.World → ℕ × db.World) where
  open db use {World, Stmt}

  -- What `update` does with its statement: the code of the step is dropped.
  unfoldable pub step_once : Stmt → World → Outcome World Unit
  step_once s w = (ok tt, (step s w).1)

  -- `UpdateEvent::handle`
  unfoldable pub handle_update : (ℕ → ℕ) → (ℕ → ℕ) → UpdateCond → Pool db → Outcome (Pool db) ℤ
  unfolding step_once
  handle_update made_size bound_size u d =
      with_connection db open_v2
        (λ x.
          return_value (pos 1)
            (update db entry_first bind bound step_once made_size bound_size u x))
        d

  -- The `ret` that `exe` has left in the world, behind a call that returned.
  abbrev pub return_ret :
      {A : Type 0} → (World → A) → Outcome (SqliteContext db) Unit → Outcome (SqliteContext db) A
  return_ret ret (err e, x) = (err e, x)
  return_ret ret (ok _, x) = (ok (ret x.world), x)

  module _ {A : Type 0} (ret : World → A) (exe : Stmt → World → Outcome World Unit) where
    -- `ReadEvent::handle`
    unfoldable pub handle_read : ReadCond → Pool db → Outcome (Pool db) A
    handle_read c d =
        with_connection db open_v2 (λ x. return_ret ret (read db entry_first bind bound exe c x)) d

    -- `DeleteEvent::handle`
    unfoldable pub handle_delete : ReadCond → Pool db → Outcome (Pool db) A
    handle_delete c d =
        with_connection db open_v2 (λ x. return_ret ret (del db entry_first bind bound exe c x)) d

    -- The tasks that `commit` of SqliteUnion, SqliteJoin and SqliteCopy submit
    unfoldable pub run_union : List ReadCond → Pool db → Outcome (Pool db) A
    run_union cs d =
        with_connection db open_v2
          (λ x. return_ret ret (read_union db entry_first bind bound exe cs x)) d

    unfoldable pub run_join :
        ReadCond → List JoinReadCond → List ReadCond → Pool db → Outcome (Pool db) A
    run_join retcond js cs d =
        with_connection db open_v2
          (λ x. return_ret ret (read_join db entry_first bind bound exe retcond js cs x)) d

  -- The value of a copy is 0.
  unfoldable pub run_copy :
      List JoinReadCond → ReadCond → List ReadCond → Pool db → Outcome (Pool db) ℤ
  unfolding step_once
  run_copy froms column cs d =
      with_connection db open_v2
        (λ x. return_value (pos 0) (copy db entry_first bind bound step_once froms column cs x)) d
