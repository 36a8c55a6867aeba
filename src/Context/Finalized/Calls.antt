-- ===== src/Context/Finalized/Calls.antt =====
-- The calls of SqliteContext::execute (src/sqlite/sqlite_context.h), and the statements that they are
-- given and finalize.
use yan.Prelude.{
  Outcome, ℕ, ◌≡◌, ◌≢◌, ◌⊎◌, inl, inr, refl, ap, ◌∙◌, subst, Bool, true, false, Option, none, some,
  List, [], ◌∷◌, ◌++◌, ◌==◌, if◌then◌else◌, All, Result, ok, err, runtime_error, undefined, arith,
}
use yan.Prelude.Text.{Text, bytes}
use yan.Context.{
  Sqlite, SqliteContext, error_of, find, erase, assign, check_stmt, create_stmt, before_stmt,
  keep_stmt, obtain, after_use, use_stmt, execute,
}
use yan.Context.Entries.{find-assign}
use yan.Context.Finalized.{
  IsOpening, KeepsOpen, Usable, Kept, Kept-imp, Kept-erase, Kept-find, erase-Apart, Kept-finalize,
  fresh-Apart, null-Apart,
}

module _ (db : Sqlite) where
  open db use {World, Stmt}

  -- A call with its hash, its text and what it runs
  abbrev pub Execution : Type 0
  Execution = Text × Result Text × (Stmt → World → Outcome World Unit)

  abbrev offer : Outcome (SqliteContext db) Stmt → List (Stmt × World) → List (Stmt × World)
  offer (err e, x) rest = rest
  offer (ok s, x) rest = (s, x.world) ∷ rest

  -- The statements that the calls are given, each with the state in which it is run.
  abbrev pub given_stmts : List Execution → SqliteContext db → List (Stmt × World)
  given_stmts [] x = []
  given_stmts ((h, make, run) ∷ cs) x =
      offer (obtain db false h make x) (given_stmts cs (execute db false h make run x).1)

module _ (db : Sqlite) (Open : db.World → db.Stmt → Type 0) (laws : IsOpening db Open) where
  open db use {World, Stmt, null}

  -- What a call has done to the map, and that what it returns is in it.
  abbrev Found : Text → Outcome (SqliteContext db) Stmt → Type 0
  Found h (err e, x) = Kept db Open x.world x.read_stmts
  Found h (ok s, x) = Kept db Open x.world x.read_stmts × (find db h x.read_stmts ≡ some s)

  assign-Kept :
      (h : Text) (w w' : World) (s : Stmt) (es : List (Text × Stmt))
      → (s ≡ null) ⊎ (Open w' s × ((u : Stmt) → Open w u → u ≢ s))
      → ((u : Stmt) → Open w u → Open w' u)
      → Kept db Open w es
      → Kept db Open w' (assign db h s es)
  unfolding assign
  assign-Kept h w w' s es (inl n) f k = (
    inl n,
    null-Apart db Open laws s (erase db h es) n,
    Kept-imp db Open w w' (erase db h es) f (Kept-erase db Open w h es k),
  )
  assign-Kept h w w' s es (inr (o, fresh)) f k = (
    inr o,
    fresh-Apart db Open laws w s (erase db h es) fresh (Kept-erase db Open w h es k),
    Kept-imp db Open w w' (erase db h es) f (Kept-erase db Open w h es k),
  )

  check_stmt-Found :
      (h : Text) (t : Text) (x : SqliteContext db) (p : (ℕ × Stmt) × World)
      → db.prepare t x.world ≡ p
      → Kept db Open x.world x.read_stmts
      → Found h (keep_stmt db h (check_stmt db p x))
  unfolding keep_stmt check_stmt
  check_stmt-Found h t x ((ret, s), w) e k = by_code (ret == 0) refl
    where
      still : (u : Stmt) → Open x.world u → Open w u
      still u o = subst (λ (p : (ℕ × Stmt) × World). Open p.1 u) e (laws.prepare-Open t x.world u o)

      by_code :
          (b : Bool)
          → (ret == 0) ≡ b
          → Found h (
              keep_stmt db h (
                if b then (ok s, record x { world = w }) else (
                  err (runtime_error (error_of db "sqlite create prepared statement failed" ret w)),
                  record x { world = w },
                )))
      by_code false z = Kept-imp db Open x.world w x.read_stmts still k
      by_code true z =
          let zero_ : ret ≡ 0 = ground (arith, z) in
          (
            assign-Kept h x.world w s x.read_stmts
                (laws.prepared t x.world w s (e ∙ ap (λ r. ((r, s), w)) zero_)) still k,
            find-assign db h s x.read_stmts,
          )

  create_stmt-Found :
      (h : Text) (make : Result Text) (x : SqliteContext db)
      → Kept db Open x.world x.read_stmts
      → Found h (keep_stmt db h (create_stmt db make x))
  unfolding keep_stmt create_stmt
  create_stmt-Found h (err e) x k = k
  create_stmt-Found h (ok t) x k = by_conn x.conn
    where
      by_conn :
          (c : Bool)
          → Found h (
              keep_stmt db h (
                if c
                then check_stmt db (db.prepare (t ++ bytes ";") x.world) x
                else (err undefined, x)))
      by_conn true = check_stmt-Found h (t ++ bytes ";") x _ refl k
      by_conn false = k

  obtain-Found :
      (h : Text) (make : Result Text) (x : SqliteContext db)
      → Kept db Open x.world x.read_stmts
      → Found h (obtain db false h make x)
  unfolding obtain before_stmt
  obtain-Found h make x k = by_found (find db h x.read_stmts) refl
    where
      by_found :
          (f : Option Stmt)
          → find db h x.read_stmts ≡ f
          → Found h (elim f as (λ q. Outcome (SqliteContext db) Stmt) [
            | some q ↦ (ok q, x)
            | none ↦ keep_stmt db h (create_stmt db make x)
          ])
      by_found (some q) e = (k, e)
      by_found none e = create_stmt-Found h make x k

  after_use-Kept :
      (h : Text) (s : Stmt) (m : Outcome World Unit) (x : SqliteContext db)
      → ((u : Stmt) → Open x.world u → Open m.1 u)
      → find db h x.read_stmts ≡ some s
      → Kept db Open x.world x.read_stmts
      → Kept db Open (after_use db h s m x).1.world (after_use db h s m x).1.read_stmts
  unfolding after_use
  after_use-Kept h s (ok _, w) x f e k =
      Kept-imp db Open x.world (db.clear_bindings s (db.reset s w)) x.read_stmts
        (λ u o. laws.clear_bindings-Open s (db.reset s w) u (laws.reset-Open s w u (f u o))) k
  after_use-Kept h s (err undefined, w) x f e k = Kept-imp db Open x.world w x.read_stmts f k
  after_use-Kept h s (err (runtime_error t), w) x f e k =
      Kept-finalize db Open laws w s (erase db h x.read_stmts)
        (erase-Apart db Open x.world h x.read_stmts s k e)
        (Kept-imp db Open x.world w (erase db h x.read_stmts) f
          (Kept-erase db Open x.world h x.read_stmts k))

  use_stmt-Kept :
      (h : Text) (run : Stmt → World → Outcome World Unit)
      → KeepsOpen db Open run
      → (m : Outcome (SqliteContext db) Stmt) → Found h m
      → Kept db Open (use_stmt db h run m).1.world (use_stmt db h run m).1.read_stmts
  unfolding use_stmt
  use_stmt-Kept h run f (err e, x) k = k
  use_stmt-Kept h run f (ok s, x) (k, e) = after_use-Kept h s (run s x.world) x (f s x.world) e k

  offer-Usable :
      (h : Text) (m : Outcome (SqliteContext db) Stmt) (rest : List (Stmt × World))
      → Found h m
      → All (λ g. Usable db Open g.1 g.0) rest
      → All (λ g. Usable db Open g.1 g.0) (offer db m rest)
  offer-Usable h (err e, x) rest f r = r
  offer-Usable h (ok s, x) rest (k, e) r = (Kept-find db Open x.world h x.read_stmts s k e, r)

  -- Where the compiler makes the statement before the entry of the map, and from a connection on whose
  -- map has statements that are open or null, none but a null twice: in every sequence of calls,
  -- whatever their hashes and texts are and however they fail, and whatever they run that finalizes
  -- nothing itself, each statement that a call is given is a null or open at that time, so that
  -- none has been finalized.
  pub given_stmts-Usable :
      (cs : List (Execution db)) (x : SqliteContext db)
      → All (λ c. KeepsOpen db Open c.2) cs
      → Kept db Open x.world x.read_stmts
      → All (λ g. Usable db Open g.1 g.0) (given_stmts db cs x)
  unfolding execute
  given_stmts-Usable [] x f k = tt
  given_stmts-Usable ((h, make, run) ∷ cs) x (f, fs) k =
      let found = obtain-Found h make x k in
      offer-Usable h (obtain db false h make x) _ found (
        given_stmts-Usable cs (execute db false h make run x).1 fs
          (use_stmt-Kept h run f (obtain db false h make x) found))
