-- ===== src/Events/Texts.antt =====
-- What WriteEvent of src/sqlite/sqlite_event.h does when one of its texts fails, and when none does.
use yan.Prelude.{
  ℕ, ◌≡◌, ◌≢◌, ◌⊎◌, inl, inr, refl, sym, ap, ◌∙◌, Bool, true, false, Option, none, some, List, [],
  ◌∷◌, ◌++◌, ◌==◌, if◌then◌else◌, append-nil, Error, Result, ok, err, runtime_error, Outcome, arith,
}
use yan.Prelude.Int.{ℤ}
use yan.Prelude.Text.{Text}
use yan.Context.{Sqlite, SqliteContext, write, error_of}
use yan.Events.{Pool, release, held, with_connection}
use yan.Events.Rest.{get-front}
use yan.Events.Write.{WriteEvent, int64_of, return_value, and_then, write_all, handle_write}

module _ (db : Sqlite) where
  open db use {World, exec}

  -- The world behind texts that all succeed.
  unfoldable pub executes : List Text → World → Option World
  executes [] w = some w
  executes (sql ∷ sqls) w =
      let rest = executes sqls (exec sql w).1 in if (exec sql w).0 == 0 then rest else none

  write-ok :
      (sql : Text) (x : SqliteContext db)
      → (exec sql x.world).0 ≡ 0
      → write db sql x ≡ (ok tt, record x { world = (exec sql x.world).1 })
  unfolding write
  write-ok sql x e = ground (arith, e)

  write-err :
      (sql : Text) (x : SqliteContext db) (code : ℕ) (w : World)
      → exec sql x.world ≡ (code, w)
      → code ≢ 0
      → write db sql x ≡ (
        err (runtime_error (error_of db "sqlite write sql failed" code w)),
        record x { world = w },
      )
  unfolding write
  write-err sql x code w e n = ground (arith, e)

  write_all-first :
      (sql : Text) (sqls : List Text) (x y : SqliteContext db)
      → write db sql x ≡ (ok tt, y)
      → write_all db (sql ∷ sqls) x ≡ write_all db sqls y
  unfolding write_all and_then
  write_all-first sql sqls x y e = ap (λ r. and_then r (λ z. write_all db sqls z)) e

  write_all-stop :
      (sql : Text) (sqls : List Text) (x y : SqliteContext db) (e : Error)
      → write db sql x ≡ (err e, y)
      → write_all db (sql ∷ sqls) x ≡ (err e, y)
  unfolding write_all and_then
  write_all-stop sql sqls x y e h = ap (λ r. and_then r (λ z. write_all db sqls z)) h

  executes-cons :
      (sql : Text) (sqls : List Text) (w v : World)
      → executes (sql ∷ sqls) w ≡ some v
      → ((exec sql w).0 ≡ 0) × (executes sqls (exec sql w).1 ≡ some v)
  unfolding executes
  executes-cons sql sqls w v e = (ground (arith, e), ground (arith, e))

  write_all-append :
      (before after : List Text) (x : SqliteContext db) (w : World)
      → executes before x.world ≡ some w
      → write_all db (before ++ after) x ≡ write_all db after (record x { world = w })
  unfolding executes
  write_all-append [] after x w e =
      let same : x.world ≡ w = cc in ap (λ v. write_all db after (record x { world = v })) same
  write_all-append (sql ∷ before) after x w e =
      let (code, rest) = executes-cons sql before x.world w e in
      write_all-first sql (before ++ after) x _ (write-ok sql x code)
      ∙ write_all-append before after (record x { world = (exec sql x.world).1 }) w rest

  write_all-ok :
      (sqls : List Text) (x : SqliteContext db) (w : World)
      → executes sqls x.world ≡ some w
      → write_all db sqls x ≡ (ok tt, record x { world = w })
  unfolding write_all and_then
  write_all-ok sqls x w e =
      ap (λ z. write_all db z x) (sym (append-nil sqls)) ∙ write_all-append sqls [] x w e

  -- Either all texts succeed, or there is a first that does not.
  abbrev pub AllSucceed : List Text → World → World → Type 0
  AllSucceed sqls w v = executes sqls w ≡ some v

  abbrev pub Failing : List Text → World → ℕ → World → Type 0
  Failing sqls w code v =
      (before : List Text) × (sql : Text) × (after : List Text) × (u : World) × (sqls
        ≡ before ++ sql ∷ after)
      × (executes before w ≡ some u)
      × (exec sql u ≡ (code, v))
      × (code ≢ 0)

  executes_cases :
      (sqls : List Text) (w : World)
      → ((v : World) × AllSucceed sqls w v) ⊎ ((code : ℕ) × (v : World) × Failing sqls w code v)
  unfolding executes
  executes_cases [] w = inl (w, refl)
  executes_cases (sql ∷ sqls) w =
      by_code ((exec sql w).0 == 0) refl (executes_cases sqls (exec sql w).1)
    where
      by_code :
          (b : Bool)
          → ((exec sql w).0 == 0) ≡ b
          → ((v : World) × AllSucceed sqls (exec sql w).1 v)
            ⊎ ((code : ℕ) × (v : World) × Failing sqls (exec sql w).1 code v)
          → ((v : World) × AllSucceed (sql ∷ sqls) w v)
            ⊎ ((code : ℕ) × (v : World) × Failing (sql ∷ sqls) w code v)
      by_code false e rest =
          inr (
            (exec sql w).0,
            (exec sql w).1,
            ([], sql, sqls, w, refl, refl, refl, ground (arith, e)),
          )
      by_code true e (inl (v, all)) = inl (v, ground (arith, e, all))
      by_code true e (inr (code, v, (before, bad, after, u, split, ran, step, n))) = inr (
        code,
        v,
        (sql ∷ before, bad, after, u, ap (λ z. sql ∷ z) split, ground (arith, e, ran), step, n),
      )

module _ (db : Sqlite) (open_v2 : Text → db.World → ℕ × db.World) where
  open db use {World, Stmt}

  abbrev context : List (Text × Stmt) → World → SqliteContext db
  context stmts w = record { conn = true; read_stmts = stmts; world = w }

  all_written :
      (e : WriteEvent) (d : Pool db) (stmts : List (Text × Stmt)) (v : World)
      → AllSucceed db e.sqls d.world v
      → write_all db e.sqls (context stmts d.world) ≡ (ok tt, context stmts v)
  all_written e d stmts v all = write_all-ok db e.sqls (context stmts d.world) v all

  written_until_error :
      (e : WriteEvent) (d : Pool db) (stmts : List (Text × Stmt)) (code : ℕ) (v : World)
      → Failing db e.sqls d.world code v
      → write_all db e.sqls (context stmts d.world)
        ≡ (err (runtime_error (error_of db "sqlite write sql failed" code v)), context stmts v)
  written_until_error e d stmts code v (before, sql, after, u, split, ran, step, n) =
      ap (λ sqls. write_all db sqls (context stmts d.world)) split
      ∙ write_all-append db before (sql ∷ after) (context stmts d.world) u ran
      ∙ write_all-stop db sql after (context stmts u) _ _
          (write-err db sql (context stmts u) code v step n)

  abbrev given_back :
      WriteEvent
      → Pool db
      → List (List (Text × Stmt))
      → Outcome (SqliteContext db) Unit
      → Outcome (Pool db) ℤ
  given_back e d rest o = (
    (return_value (int64_of e.entity) o).0,
    release db open_v2 (return_value (int64_of e.entity) o).1 (record d { conns = rest }),
  )

  handle_write-ran :
      (e : WriteEvent) (d : Pool db) (stmts : List (Text × Stmt)) (rest : List (List (Text × Stmt)))
      → d.conns ≡ stmts ∷ rest
      → (r : Result Unit) (v : World)
      → write_all db e.sqls (context stmts d.world) ≡ (r, context stmts v)
      → handle_write db open_v2 e d ≡ (
        (return_value {S = SqliteContext db} (int64_of e.entity) (r, context stmts v)).0,
        record d { conns = rest ++ stmts ∷ []; world = v },
      )
  unfolding handle_write with_connection held release
  handle_write-ran e d stmts rest c (ok a) v ran =
      ap (held db open_v2 (λ x. return_value (int64_of e.entity) (write_all db e.sqls x)))
        (get-front db open_v2 d stmts rest c)
      ∙ ap (given_back e d rest) ran
  handle_write-ran e d stmts rest c (err thrown) v ran =
      ap (held db open_v2 (λ x. return_value (int64_of e.entity) (write_all db e.sqls x)))
        (get-front db open_v2 d stmts rest c)
      ∙ ap (given_back e d rest) ran

  -- `WriteEvent::handle` with a connection at hand, which goes to the end of the pool. Either all
  -- texts of the event succeed, one after the other, and it returns the number of its entities. Or
  -- it executes the texts up to the first that fails and throws what SQLite says of that one: what
  -- the texts before it have written stays, and those behind it are not executed.
  pub handle_write_cases :
      (e : WriteEvent) (d : Pool db) (stmts : List (Text × Stmt)) (rest : List (List (Text × Stmt)))
      → d.conns ≡ stmts ∷ rest
      → ((v : World) × AllSucceed db e.sqls d.world v
          × (handle_write db open_v2 e d
              ≡ (ok (int64_of e.entity), record d { conns = rest ++ stmts ∷ []; world = v })))
        ⊎ ((code : ℕ) × (v : World) × Failing db e.sqls d.world code v
            × (handle_write db open_v2 e d ≡ (
              err (runtime_error (error_of db "sqlite write sql failed" code v)),
              record d { conns = rest ++ stmts ∷ []; world = v },
            )))
  handle_write_cases e d stmts rest c = by_texts (executes_cases db e.sqls d.world)
    where
      by_texts :
          ((v : World) × AllSucceed db e.sqls d.world v)
            ⊎ ((code : ℕ) × (v : World) × Failing db e.sqls d.world code v)
          → ((v : World) × AllSucceed db e.sqls d.world v
              × (handle_write db open_v2 e d
                  ≡ (ok (int64_of e.entity), record d { conns = rest ++ stmts ∷ []; world = v })))
            ⊎ ((code : ℕ) × (v : World) × Failing db e.sqls d.world code v
                × (handle_write db open_v2 e d ≡ (
                  err (runtime_error (error_of db "sqlite write sql failed" code v)),
                  record d { conns = rest ++ stmts ∷ []; world = v },
                )))
      by_texts (inl (v, all)) =
          inl (v, all, handle_write-ran e d stmts rest c (ok tt) v (all_written e d stmts v all))
      by_texts (inr (code, v, failing)) = inr (
        code,
        v,
        failing,
        handle_write-ran e d stmts rest c _ v (written_until_error e d stmts code v failing),
      )
