-- ===== src/Events.antt =====
-- src/sqlite/sqlite_event.h and the union, join and copy of src/sqlite: how a call of the library is
-- carried out by the one thread of its EventOps (src/base/event_ops.h), with a connection of the
-- pool. What a handler puts into its promise (src/base/event.h) is a `Result`.
pub mod Write
pub mod Rest
pub mod Texts
pub mod Entities
pub mod Tables
pub mod Queries
pub mod Calls
use yan.Prelude.{ℕ, ◌+◌, Bool, true, false, List, [], ◌∷◌, ◌++◌, Error, Result, ok, err, Outcome}
use yan.Prelude.Text.{Text}
use yan.Context.{Sqlite, SqliteContext}
use yan.Context.Open.{new_context}

module _ (db : Sqlite) where
  open db use {World, Stmt}

  -- The connection pool between two events: `conns_` by the `read_stmts_` of its contexts, which all
  -- have a connection; and the world of the database.
  pub record Pool : Type 0 where
    pub url : Text
    pub conns : List (List (Text × Stmt))
    pub used_conns : ℕ
    pub world : World

  abbrev pub new_pool : Text → World → Pool
  new_pool url w = record { url = url; conns = []; used_conns = 0; world = w }

module _ (db : Sqlite) (open_v2 : Text → db.World → ℕ × db.World) where
  open db use {World, Stmt}

  -- `make_shared<Connection>(url_)` and its handler, by what the constructor does.
  unfoldable pub created :
      Outcome World (List (Text × Stmt)) → Pool db → Outcome (Pool db) (SqliteContext db)
  created (err e, w) d = (err e, record d { world = w })
  created (ok stmts, w) d = (
    ok (record { conn = true; read_stmts = stmts; world = w }),
    record d { used_conns = d.used_conns + 1; world = w },
  )

  -- `ConnectionPool::get`, by one thread
  unfoldable pub get : Pool db → Outcome (Pool db) (SqliteContext db)
  unfolding created
  get d = elim d.conns [
    | [] ↦ created (new_context db open_v2 d.url d.world) d
    | stmts ∷ rest ↦ (
      ok (record { conn = true; read_stmts = stmts; world = d.world }),
      record d { conns = rest },
    )
  ]

  -- `ConnectionPool::release`, by one thread
  unfoldable pub release : SqliteContext db → Pool db → Pool db
  release x d = record d { conns = d.conns ++ x.read_stmts ∷ []; world = x.world }

  -- The rest of a `try`, by what `get` does.
  unfoldable held :
      {A : Type 0}
      → (SqliteContext db → Outcome (SqliteContext db) A)
      → Outcome (Pool db) (SqliteContext db)
      → Outcome (Pool db) A
  unfolding release
  held body (err e, d) = (err e, d)
  held body (ok x0, d) = let (r, x) = body x0 in (r, release x d)

  -- The `try` that the handlers have: `body` is what is done with the connection, which is released
  -- behind it and in the handler of what it throws.
  unfoldable pub with_connection :
      {A : Type 0}
      → (SqliteContext db → Outcome (SqliteContext db) A)
      → Pool db
      → Outcome (Pool db) A
  unfolding get held
  with_connection body d0 = held body (get d0)
