-- ===== src/Events/Calls.antt =====
-- src/sqlite/sqlite.h, Sqlite, and `commit` of src/sqlite/sqlite_union.h, sqlite_join.h and
-- sqlite_copy.h: how a call becomes an event or a task of the thread pool, and what future it
-- returns. A number stands for the event or the task that a call makes.
pub mod Turn
use yan.Prelude.{
  ℕ, ◌<◌, Bool, true, false, List, [], ◌∷◌, ◌++◌, ltb, if◌then◌else◌, length, Error, Result, ok,
  err, runtime_error, undefined, Outcome, ◌>>=◌,
}
use yan.Prelude.Text.{Text, bytes}
use yan.Ref.Struct.{YanStruct}
use yan.Ref.Object.{Object}
use yan.Cond.{RetType, count, object, ReadCond, JoinReadCond, new_cond, append}
use yan.ThreadPool.{Queue, ThreadPool, insert, submit}
use yan.Events.Write.{Written, new_event, prehandle, prehandle_tables}
use yan.Events.Queries.{prehandle_update, prehandle_read, prehandle_struct, prehandle_delete}

-- The future of the promise of that event or task, or one that holds an exception.
pub data Future : Type 0 where
  promised : ℕ → Future
  exception : Error → Future

-- `condlist_` of SqliteUnion
pub record SqliteUnion : Type 0 where
  pub condlist : List ReadCond

-- `read`, which `union_read` and `union_all` call
unfoldable pub union_read : RetType → List (YanStruct × Object) → SqliteUnion → Result SqliteUnion
union_read r args u =
    append (new_cond r) args >>= λ c. ok (record { condlist = u.condlist ++ c ∷ [] })

-- SqliteJoinBase
pub record SqliteJoin : Type 0 where
  pub joincondlist : List JoinReadCond
  pub condlist : List ReadCond

-- `join`, and `left_join`, which calls it
unfoldable pub join : JoinReadCond → SqliteJoin → SqliteJoin
join c j = record j { joincondlist = j.joincondlist ++ c ∷ [] }

unfoldable pub set_cond : YanStruct × Object → SqliteJoin → Result SqliteJoin
set_cond (s, o) j = append (new_cond (object s)) ((s, o) ∷ []) >>= λ c.
    ok (record j { condlist = j.condlist ++ c ∷ [] })

-- The calls of `set_cond` in `commit` with conditions.
unfoldable pub set_conds : List (YanStruct × Object) → SqliteJoin → Result SqliteJoin
unfolding set_cond
set_conds [] j = ok j
set_conds (a ∷ more) j = set_cond a j >>= λ j'. set_conds more j'

module _ (queue : Queue) where
  -- What `catch (const std::exception &)` makes of an exception.
  unfoldable pub exception_future : {A : Type 0} → Error → A → Outcome A Future
  exception_future (runtime_error m) p = (ok (exception (runtime_error m)), p)
  exception_future undefined p = (err undefined, p)

  -- The rest of the `try` of `create_event`, by what `insert` does: its `bool` is not looked at.
  unfoldable pub inserted : ℕ → Outcome (ThreadPool queue) Bool → Outcome (ThreadPool queue) Future
  unfolding exception_future
  inserted e (err thrown, p) = exception_future thrown p
  inserted e (ok b, p) = (ok (promised e), p)

  -- `create_event`, by what `prehandle` of the event does
  unfoldable pub create_event :
      {E : Type 0} → Result E → ℕ → ThreadPool queue → Outcome (ThreadPool queue) Future
  unfolding inserted
  create_event (err thrown) e p = exception_future thrown p
  create_event (ok event) e p = inserted e (insert queue e p)

  -- A `submit` is outside of any `try`.
  unfoldable pub submitted : Outcome (ThreadPool queue) ℕ → Outcome (ThreadPool queue) Future
  submitted (err thrown, p) = (err thrown, p)
  submitted (ok t, p) = (ok (promised t), p)

  unfoldable pub create_table :
      List YanStruct → ℕ → ThreadPool queue → Outcome (ThreadPool queue) Future
  unfolding create_event
  create_table ss e p = create_event (prehandle_tables ss) e p

  unfoldable pub write :
      (ℕ → Text) → (ℕ → ℕ) → List Written → ℕ → ThreadPool queue → Outcome (ThreadPool queue) Future
  unfolding create_event
  write float_text list_size ws e p = create_event (prehandle float_text list_size ws new_event) e p

  unfoldable pub update :
      YanStruct → Object → ℕ → ThreadPool queue → Outcome (ThreadPool queue) Future
  unfolding create_event
  update s o e p = create_event (prehandle_update s o) e p

  unfoldable pub read :
      RetType → List (YanStruct × Object) → ℕ → ThreadPool queue → Outcome (ThreadPool queue) Future
  unfolding create_event
  read r args e p = create_event (prehandle_read r args) e p

  unfoldable pub del : YanStruct × Object → ℕ → ThreadPool queue → Outcome (ThreadPool queue) Future
  unfolding create_event
  del arg e p = create_event (prehandle_delete (arg ∷ [])) e p

  -- `count` of a condition, and of a table
  unfoldable pub count_cond :
      YanStruct × Object → ℕ → ThreadPool queue → Outcome (ThreadPool queue) Future
  unfolding create_event
  count_cond arg e p = create_event (prehandle_read count (arg ∷ [])) e p

  unfoldable pub count_table : YanStruct → ℕ → ThreadPool queue → Outcome (ThreadPool queue) Future
  unfolding create_event
  count_table s e p = create_event (ok (prehandle_struct count s)) e p

  unfoldable pub commit_union : ℕ → ThreadPool queue → Outcome (ThreadPool queue) Future
  unfolding submitted
  commit_union t p = submitted (submit queue t p)

  -- `commit` of a join or a copy, which wants that many tables, by what `set_cond` does.
  unfoldable pub commit_tables :
      ℕ → Text → Result SqliteJoin → ℕ → ThreadPool queue → Outcome (ThreadPool queue) Future
  unfolding exception_future submitted
  commit_tables least message (err thrown) t p = exception_future thrown p
  commit_tables least message (ok j) t p =
      if ltb (length j.joincondlist) least
      then (ok (exception (runtime_error message)), p)
      else submitted (submit queue t p)

  unfoldable pub commit_join :
      List (YanStruct × Object)
      → SqliteJoin
      → ℕ
      → ThreadPool queue
      → Outcome (ThreadPool queue) Future
  unfolding commit_tables set_conds
  commit_join args j t p =
      commit_tables 2 (bytes "sqlite join read requires at least two tables") (set_conds args j) t p

  -- `to` of a copy; `column_` is the condition of the struct to copy to.
  unfoldable pub commit_copy :
      List (YanStruct × Object)
      → SqliteJoin
      → ℕ
      → ThreadPool queue
      → Outcome (ThreadPool queue) Future
  unfolding commit_tables set_conds
  commit_copy args j t p =
      commit_tables 1 (bytes "sqlite copy operation requires the from and to tables")
        (set_conds args j) t p
