-- ===== src/Events/Rest.antt =====
-- What every handler of an event (src/sqlite/sqlite_event.h and the union, join and copy of
-- src/sqlite) keeps of the connection pool, when one thread runs them all.
use yan.Prelude.{
  ℕ, ◌≤◌, ◌≡◌, ◌⊎◌, inl, inr, Error, refl, sym, ap, subst, Bool, true, List, [], ◌∷◌, length,
  length-append, ok, err, Outcome, arith,
}
use yan.Prelude.Int.{ℤ}
use yan.Prelude.Text.{Text}
use yan.Ref.Param.{Value}
use yan.Cond.{ReadCond, UpdateCond, JoinReadCond}
use yan.Context.{Sqlite, SqliteContext}
use yan.Context.Open.{new_context}
use yan.Events.{Pool, new_pool, created, get, release, held, with_connection}
use yan.Events.Write.{WriteEvent, check_texts, handle_write, handle_tables}
use yan.Events.Queries.{handle_update, handle_read, handle_delete, run_union, run_join, run_copy}

-- All connections that were created are in the pool, and there is one at most.
record AtRest {db : Sqlite} (d : Pool db) : Type 0 where
  pub all_back : length d.conns ≡ d.used_conns
  pub one_at_most : d.used_conns ≤ 1

module _ (db : Sqlite) (open_v2 : Text → db.World → ℕ × db.World) where
  open db use {World, Stmt}

  created-AtRest :
      {A : Type 0} (body : SqliteContext db → Outcome (SqliteContext db) A)
      (made : Outcome World (List (Text × Stmt))) (d : Pool db)
      → d.conns ≡ []
      → AtRest d
      → AtRest (held db open_v2 body (created db open_v2 made d)).1
  unfolding held created release
  created-AtRest body (err e, w) d none_there r = record {
    all_back = r.all_back;
    one_at_most = r.one_at_most;
  }
  created-AtRest body (ok stmts, w) d none_there r = record {
    all_back = omega (arith, r.all_back, ap length none_there, length-append d.conns (_ ∷ []));
    one_at_most = omega (arith, r.all_back, ap length none_there);
  }

  get-empty :
      (d : Pool db)
      → d.conns ≡ []
      → get db open_v2 d ≡ created db open_v2 (new_context db open_v2 d.url d.world) d
  unfolding get
  get-empty d e = rw e

  pub get-front :
      (d : Pool db) (stmts : List (Text × Stmt)) (rest : List (List (Text × Stmt)))
      → d.conns ≡ stmts ∷ rest
      → get db open_v2 d ≡ (
        ok (record { conn = true; read_stmts = stmts; world = d.world }),
        record d { conns = rest },
      )
  unfolding get
  get-front d stmts rest e = rw e

  with_connection-AtRest :
      {A : Type 0} (body : SqliteContext db → Outcome (SqliteContext db) A) (d : Pool db)
      → AtRest d
      → AtRest (with_connection db open_v2 body d).1
  unfolding with_connection held release
  with_connection-AtRest {A} body d r = by_conns d.conns refl
    where
      by_conns :
          (conns : List (List (Text × Stmt)))
          → d.conns ≡ conns
          → AtRest (held db open_v2 body (get db open_v2 d)).1
      by_conns [] e =
          subst (λ g. AtRest (held db open_v2 body g).1) (sym (get-empty d e))
            (created-AtRest body (new_context db open_v2 d.url d.world) d e r)
      by_conns (stmts ∷ rest) e =
          subst (λ g. AtRest (held db open_v2 body g).1) (sym (get-front d stmts rest e))
            (record {
              all_back = omega (arith, r.all_back, ap length e, length-append rest (_ ∷ []));
              one_at_most = r.one_at_most;
            })

-- An event or a task that is run by the thread. `exe` steps the statement and fetches its rows.
pub data Task (db : Sqlite) : Type 0 where
  write_event : WriteEvent → Task db
  table_event : WriteEvent → Task db
  update_event : (ℕ → ℕ) → (ℕ → ℕ) → UpdateCond → Task db
  read_event : (db.Stmt → db.World → Outcome db.World Unit) → ReadCond → Task db
  delete_event : (db.Stmt → db.World → Outcome db.World Unit) → ReadCond → Task db
  union : (db.Stmt → db.World → Outcome db.World Unit) → List ReadCond → Task db
  join :
      (db.Stmt → db.World → Outcome db.World Unit)
      → ReadCond
      → List JoinReadCond
      → List ReadCond
      → Task db
  copy : List JoinReadCond → ReadCond → List ReadCond → Task db

-- A handler that throws past its promise has not used the pool.
abbrev pub pool_after : {db : Sqlite} → Pool db → Outcome (Pool db) ℤ ⊎ Error → Pool db
pool_after d (inl o) = o.1
pool_after d (inr e) = d

module _ (db : Sqlite) (open_v2 : Text → db.World → ℕ × db.World) where
  pool_after-AtRest :
      (sqls : List Text) (o : Outcome (Pool db) ℤ) (d : Pool db)
      → AtRest o.1
      → AtRest d
      → AtRest (pool_after d (check_texts sqls o))
  unfolding check_texts
  pool_after-AtRest [] o d r r' = r'
  pool_after-AtRest (sql ∷ sqls) o d r r' = r

module _ (db : Sqlite) (open_v2 : Text → db.World → ℕ × db.World) (entry_first : Bool)
    (bind : db.Stmt → db.World → ℕ → Value → ℕ)
    (bound : db.Stmt → List (ℕ × Value) → db.World → db.World)
    (step : db.Stmt → db.World → ℕ × db.World) where
  -- What a task leaves of the pool.
  unfoldable pub run_task : Task db → Pool db → Pool db
  unfolding handle_write handle_tables handle_update handle_read handle_delete run_union run_join
      run_copy
  run_task (write_event e) d = (handle_write db open_v2 e d).1
  run_task (table_event e) d = pool_after d (handle_tables db open_v2 e d)
  run_task (update_event m b u) d = (handle_update db open_v2 entry_first bind bound step m b u d).1
  run_task (read_event exe c) d =
      (handle_read db open_v2 entry_first bind bound step (λ w. tt) exe c d).1
  run_task (delete_event exe c) d =
      (handle_delete db open_v2 entry_first bind bound step (λ w. tt) exe c d).1
  run_task (union exe cs) d =
      (run_union db open_v2 entry_first bind bound step (λ w. tt) exe cs d).1
  run_task (join exe c js cs) d =
      (run_join db open_v2 entry_first bind bound step (λ w. tt) exe c js cs d).1
  run_task (copy js c cs) d = (run_copy db open_v2 entry_first bind bound step js c cs d).1

  unfoldable pub run_tasks : List (Task db) → Pool db → Pool db
  unfolding run_task
  run_tasks [] d = d
  run_tasks (t ∷ ts) d = run_tasks ts (run_task t d)

  run_task-AtRest : (t : Task db) (d : Pool db) → AtRest d → AtRest (run_task t d)
  unfolding run_task
  run_task-AtRest (write_event e) d r = with_connection-AtRest db open_v2 _ d r
  run_task-AtRest (table_event e) d r =
      pool_after-AtRest db open_v2 e.sqls (handle_write db open_v2 e d) d
        (with_connection-AtRest db open_v2 _ d r) r
  run_task-AtRest (update_event m b u) d r = with_connection-AtRest db open_v2 _ d r
  run_task-AtRest (read_event exe c) d r = with_connection-AtRest db open_v2 _ d r
  run_task-AtRest (delete_event exe c) d r = with_connection-AtRest db open_v2 _ d r
  run_task-AtRest (union exe cs) d r = with_connection-AtRest db open_v2 _ d r
  run_task-AtRest (join exe c js cs) d r = with_connection-AtRest db open_v2 _ d r
  run_task-AtRest (copy js c cs) d r = with_connection-AtRest db open_v2 _ d r

  -- Whatever the one thread of the library runs, from a new pool on, and whatever the database makes
  -- of it: every connection that was created is in the pool again behind each task, and there is
  -- never more than one.
  pub run_tasks-one_connection :
      (url : Text) (w : db.World) (ts : List (Task db))
      → (length (run_tasks ts (new_pool db url w)).conns
          ≡ (run_tasks ts (new_pool db url w)).used_conns)
        × ((run_tasks ts (new_pool db url w)).used_conns ≤ 1)
  unfolding run_tasks
  run_tasks-one_connection url w ts =
      let r =
        run_tasks-AtRest ts (new_pool db url w)
          (record { all_back = refl; one_at_most = omega arith }) in
      (r.all_back, r.one_at_most)
    where
      run_tasks-AtRest : (ts : List (Task db)) (d : Pool db) → AtRest d → AtRest (run_tasks ts d)
      run_tasks-AtRest [] d r = r
      run_tasks-AtRest (t ∷ ts) d r = run_tasks-AtRest ts (run_task t d) (run_task-AtRest t d r)
