-- ===== src/Context.antt =====
-- src/sqlite/sqlite_context.h, SqliteContext: a connection with the prepared statements of the
-- conditions that it has run before.
pub mod Cache
pub mod Entries
pub mod Calls
pub mod Finalized
pub mod Keys
pub mod Rows
pub mod Open
use yan.Prelude.{
  Outcome, ℕ, String, Bool, true, false, Option, none, some, List, [], ◌∷◌, ◌++◌, ◌==◌,
  if◌then◌else◌, Error, Result, ok, err, runtime_error, undefined, ◌>>=◌,
}
use yan.Prelude.Text.{Text, bytes, text_eq}

-- What the code uses of sqlite3. A `World` is what a call may read or change besides the context:
-- the database, the statements and the object that a query's rows are stored in. Each operation
-- returns its code, SQLITE_OK being 0; `Stmt` are the values of a `sqlite3_stmt *`.
pub record Sqlite : Type 1 where
  pub World : Type 0
  pub Stmt : Type 0
  -- `sqlite3_exec`
  pub exec : Text → World → ℕ × World
  -- `sqlite3_prepare_v2`, with the statement that it stores
  pub prepare : Text → World → (ℕ × Stmt) × World
  pub finalize : Stmt → World → World
  -- `sqlite3_reset` and `sqlite3_clear_bindings`
  pub reset : Stmt → World → World
  pub clear_bindings : Stmt → World → World
  pub errstr : ℕ → Text
  -- `sqlite3_errmsg`
  pub errmsg : World → Text
  pub null : Stmt

module _ (db : Sqlite) where
  open db use {World, Stmt, exec, prepare, finalize, reset, clear_bindings, errstr, errmsg, null}

  -- `conn_` is whether it is a connection.
  pub record SqliteContext : Type 0 where
    pub conn : Bool
    pub read_stmts : List (Text × Stmt)
    pub world : World

  abbrev pub error_of : String → ℕ → World → Text
  error_of selfdef ret w =
      bytes selfdef ++ (bytes ": " ++ (errstr ret ++ (bytes "[" ++ (errmsg w ++ bytes "]"))))

  unfoldable pub write : Text → SqliteContext → Outcome SqliteContext Unit
  write sql x =
      let (ret, w) = exec sql x.world in
      let x' = record x { world = w } in
      if ret == 0
      then (ok tt, x')
      else (err (runtime_error (error_of "sqlite write sql failed" ret w)), x')

  -- `read_stmts_.find(hash)`
  unfoldable pub find : Text → List (Text × Stmt) → Option Stmt
  find h [] = none
  find h ((k, s) ∷ es) = if text_eq k h then some s else find h es

  unfoldable pub erase : Text → List (Text × Stmt) → List (Text × Stmt)
  erase h [] = []
  erase h ((k, s) ∷ es) = let rest = erase h es in if text_eq k h then rest else (k, s) ∷ rest

  -- `read_stmts_[hash] = s`
  unfoldable pub assign : Text → Stmt → List (Text × Stmt) → List (Text × Stmt)
  unfolding erase
  assign h s es = (h, s) ∷ erase h es

  -- The end of `create_stmt`, by what the database returned.
  unfoldable pub check_stmt : (ℕ × Stmt) × World → SqliteContext → Outcome SqliteContext Stmt
  check_stmt ((ret, s), w) x =
      let x' = record x { world = w } in
      if ret == 0
      then (ok s, x')
      else (err (runtime_error (error_of "sqlite create prepared statement failed" ret w)), x')

  unfoldable pub create_stmt : Result Text → SqliteContext → Outcome SqliteContext Stmt
  unfolding check_stmt
  create_stmt (err e) x = (err e, x)
  create_stmt (ok text) x =
      if x.conn then check_stmt (prepare (text ++ bytes ";") x.world) x else (err undefined, x)

  -- `read_stmts_[hash] = create_stmt(…)`, by what the right side gives
  unfoldable pub keep_stmt : Text → Outcome SqliteContext Stmt → Outcome SqliteContext Stmt
  unfolding assign
  keep_stmt hash (err e, x) = (err e, x)
  keep_stmt hash (ok s, x) = (ok s, record x { read_stmts = assign hash s x.read_stmts })

  -- C++11 leaves open whether the entry `read_stmts_[hash]` or the statement is made first:
  -- `entry_first` is what the compiler chose.
  unfoldable pub before_stmt : Bool → Text → SqliteContext → SqliteContext
  unfolding assign
  before_stmt entry_first hash x =
      if entry_first then record x { read_stmts = assign hash null x.read_stmts } else x

  -- What `execute` does to find the statement of a hash.
  unfoldable pub obtain : Bool → Text → Result Text → SqliteContext → Outcome SqliteContext Stmt
  unfolding find create_stmt keep_stmt before_stmt
  obtain entry_first hash make x = elim (find hash x.read_stmts) [
    | some s ↦ (ok s, x)
    | none ↦ keep_stmt hash (create_stmt make (before_stmt entry_first hash x))
  ]

  -- What `execute` does behind the `try`, by what came of binding the values and calling `exe`.
  unfoldable pub after_use :
      Text → Stmt → Outcome World Unit → SqliteContext → Outcome SqliteContext Unit
  unfolding erase
  after_use hash s (ok _, w) x = (ok tt, record x { world = clear_bindings s (reset s w) })
  after_use hash s (err undefined, w) x = (err undefined, record x { world = w })
  after_use hash s (err (runtime_error e), w) x = (
    err (runtime_error (bytes "sqlite bind/exec query sql failed: " ++ e)),
    record x { world = finalize s w; read_stmts = erase hash x.read_stmts },
  )

  -- The rest of `execute`, by the statement.
  unfoldable pub use_stmt :
      Text
      → (Stmt → World → Outcome World Unit)
      → Outcome SqliteContext Stmt
      → Outcome SqliteContext Unit
  unfolding after_use
  use_stmt hash run (err e, x) = (err e, x)
  use_stmt hash run (ok s, x) = after_use hash s (run s x.world) x

  -- `run` binds the values and calls `exe`.
  unfoldable pub execute :
      Bool
      → Text
      → Result Text
      → (Stmt → World → Outcome World Unit)
      → SqliteContext
      → Outcome SqliteContext Unit
  unfolding obtain use_stmt
  execute entry_first hash make run x = use_stmt hash run (obtain entry_first hash make x)
