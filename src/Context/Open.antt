-- ===== src/Context/Open.antt =====
-- src/sqlite/sqlite_context.h, the constructor of SqliteContext and set_sqlite_pragma.
use yan.Prelude.{ℕ, List, [], ◌∷◌, ◌++◌, ◌==◌, if◌then◌else◌, ok, err, runtime_error, Outcome}
use yan.Prelude.Text.{Text, bytes}
use yan.Context.{Sqlite}

-- `kv`, in the order of a `std::map`
abbrev pub pragmas : List (Text × Text)
pragmas =
    (bytes "auto_vacuum", bytes "FULL")
    ∷ (bytes "busy_timeout", bytes "1000")
    ∷ (bytes "journal_mode", bytes "WAL")
    ∷ (bytes "synchronous", bytes "FULL")
    ∷ []

abbrev pub pragma_sql : Text × Text → Text
pragma_sql (key, value) = bytes "PRAGMA " ++ (key ++ (bytes " = " ++ (value ++ bytes ";")))

abbrev pub no_connection : Text → Text
no_connection path = bytes "create sqlite connection failed with path: " ++ path

-- `open_v2` is sqlite3_open_v2.
module _ (db : Sqlite) (open_v2 : Text → db.World → ℕ × db.World) where
  open db use {World, Stmt, exec, errstr}

  abbrev pub pragma_error : Text × Text → ℕ → Text
  pragma_error (key, value) ret =
      bytes "sqlite set pragma failed [key:"
      ++ (key ++ (bytes ", value:" ++ (value ++ (bytes "], reason: " ++ errstr ret))))

  -- The loop of `set_sqlite_pragma`.
  unfoldable pub set_pragmas : List (Text × Text) → World → Outcome World Unit
  set_pragmas [] w = (ok tt, w)
  set_pragmas (kv ∷ kvs) w0 =
      let (ret, w) = exec (pragma_sql kv) w0 in
      let rest = set_pragmas kvs w in
      if ret == 0 then rest else (err (runtime_error (pragma_error kv ret)), w)

  -- The body of the constructor behind `sqlite3_open_v2`, by what that returns.
  unfoldable pub opened : Text → ℕ × World → Outcome World Unit
  unfolding set_pragmas
  opened path (ret, w) =
      if ret == 0 then set_pragmas pragmas w else (err (runtime_error (no_connection path)), w)

  -- The constructor: what it leaves is `read_stmts_` of the new context, which has a connection.
  unfoldable pub new_context : Text → World → Outcome World (List (Text × Stmt))
  unfolding opened
  new_context path w0 =
      let (r, w) = opened path (open_v2 path w0) in
      elim r [ err e ↦ (err e, w) | ok _ ↦ (ok [], w) ]
