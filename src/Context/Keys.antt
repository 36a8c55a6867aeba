-- ===== src/Context/Keys.antt =====
-- What the operations of SqliteContext (src/sqlite/sqlite_context.h) hand to `execute`: the hash of
-- the call, the text that is made if there is no statement of that hash, and how the statement is
-- run.
use yan.Prelude.{Outcome, ℕ, Bool, List, [], ◌∷◌, ◌++◌, Result, ok, err, ◌>>=◌}
use yan.Prelude.Text.{Text, bytes}
use yan.Ref.Param.{Value}
use yan.Cond.{
  ReadCond, UpdateCond, JoinReadCond, hash_value, update_hash_value, join_hash_value, get_obj_name,
}
use yan.Sql.Query.{SqlContext, start, make_query, make_union, make_join, make_copy, make_delete}
use yan.Sql.Update.{make_update}
use yan.Sql.Bind.{BindContext, start as bind_start, bind_cond, bind_conds, bind_update}
use yan.Context.{Sqlite, SqliteContext, execute}

unfoldable pub conds_hash : List ReadCond → Text
conds_hash [] = []
conds_hash (c ∷ cs) = hash_value c ++ conds_hash cs

unfoldable pub joins_hash : List JoinReadCond → Text
joins_hash [] = []
joins_hash (j ∷ js) = join_hash_value j ++ joins_hash js

unfoldable pub read_key : ReadCond → Text
read_key c = hash_value c

unfoldable pub union_key : List ReadCond → Text
unfolding conds_hash
union_key cs = conds_hash cs

unfoldable pub join_key : List JoinReadCond → List ReadCond → Text
unfolding joins_hash conds_hash
join_key js cs = joins_hash js ++ conds_hash cs

unfoldable pub update_key : UpdateCond → Text
update_key u = update_hash_value u ++ bytes "U"

unfoldable pub del_key : ReadCond → Text
del_key c = hash_value c ++ bytes "D"

unfoldable pub copy_key : List JoinReadCond → ReadCond → List ReadCond → Result Text
copy_key froms column cs =
    get_obj_name column >>= λ name. ok (bytes "C" ++ (joins_hash froms ++ (conds_hash cs ++ name)))

abbrev pub sql_of : Result SqlContext → Result Text
sql_of m = m >>= λ x. ok x.sql

module _ (db : Sqlite) where
  open db use {World, Stmt, errstr}

  -- `bind` is the code of sqlite3_bind_… for a statement, a position and a value, and `bound` the
  -- state behind the bindings; `exe` is the function that the operation hands over, which steps the
  -- statement and fetches its rows.
  module _ (entry_first : Bool) (bind : Stmt → World → ℕ → Value → ℕ)
      (bound : Stmt → List (ℕ × Value) → World → World)
      (exe : Stmt → World → Outcome World Unit) where
    unfoldable pub run_with :
        ((ℕ → Value → ℕ) → BindContext → Result BindContext) → Stmt → World → Outcome World Unit
    run_with binds s w = elim (binds (bind s w) bind_start) [
      | err e ↦ (err e, w)
      | ok b ↦ exe s (bound s b.bound w)
    ]

    unfoldable pub read : ReadCond → SqliteContext db → Outcome (SqliteContext db) Unit
    unfolding run_with
    read c x =
        execute db entry_first (read_key c) (sql_of (make_query c start))
          (run_with (λ f. bind_cond f errstr c)) x

    unfoldable pub read_union : List ReadCond → SqliteContext db → Outcome (SqliteContext db) Unit
    unfolding run_with
    read_union cs x =
        execute db entry_first (union_key cs) (sql_of (make_union cs start))
          (run_with (λ f. bind_conds f errstr cs)) x

    unfoldable pub read_join :
        ReadCond
        → List JoinReadCond
        → List ReadCond
        → SqliteContext db
        → Outcome (SqliteContext db) Unit
    unfolding run_with
    read_join retcond js cs x =
        execute db entry_first (join_key js cs) (sql_of (make_join retcond js cs start))
          (run_with (λ f. bind_conds f errstr cs)) x

    unfoldable pub del : ReadCond → SqliteContext db → Outcome (SqliteContext db) Unit
    unfolding run_with
    del c x =
        execute db entry_first (del_key c) (sql_of (make_delete c start))
          (run_with (λ f. bind_cond f errstr c)) x

    unfoldable pub copy :
        List JoinReadCond
        → ReadCond
        → List ReadCond
        → SqliteContext db
        → Outcome (SqliteContext db) Unit
    unfolding run_with
    copy froms column cs x = elim (copy_key froms column cs) [
      | err e ↦ (err e, x)
      | ok h ↦
          execute db entry_first h (sql_of (make_copy froms column cs start))
            (run_with (λ f. bind_conds f errstr cs)) x
    ]

    -- The two sizes are what `sizecb_` returns when the text is made and when the values are bound.
    unfoldable pub update :
        (ℕ → ℕ) → (ℕ → ℕ) → UpdateCond → SqliteContext db → Outcome (SqliteContext db) Unit
    unfolding run_with
    update made_size bound_size u x =
        execute db entry_first (update_key u) (make_update made_size u)
          (run_with (λ f. bind_update f errstr bound_size u)) x
