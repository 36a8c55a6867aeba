-- ===== src/Context/Calls.antt =====
-- Calls of SqliteContext::execute (src/sqlite/sqlite_context.h), one after the other.
use yan.Prelude.{
  Outcome, ◌≡◌, refl, sym, ap, ◌∙◌, Bool, Option, none, some, List, [], ◌∷◌, ◌++◌, All, Result, ok,
  err, runtime_error, subst,
}
use yan.Prelude.Text.{Text, bytes}
use yan.Context.{
  Sqlite, SqliteContext, find, assign, create_stmt, before_stmt, keep_stmt, obtain, after_use,
  use_stmt, execute,
}
use yan.Context.Cache.{IsCache, Fits, obtain-Fits, execute-IsCache}
use yan.Context.Entries.{find-erase, find-assign}

module _ (db : Sqlite) where
  open db use {World, Stmt, reset, clear_bindings}

  found_after_keep :
      (h : Text) (m : Outcome (SqliteContext db) Stmt) (s : Stmt) (x' : SqliteContext db)
      → keep_stmt db h m ≡ (ok s, x')
      → find db h x'.read_stmts ≡ some s
  unfolding keep_stmt
  found_after_keep h (err e, x) s x' eq = absurd (cc)
  found_after_keep h (ok t, x) s x' eq =
      let st : t ≡ s = cc in
      let same : record x { read_stmts = assign db h t x.read_stmts } ≡ x' = cc in
      sym (ap (λ y. find db h y.read_stmts) same) ∙ find-assign db h t x.read_stmts ∙ ap some st

  found_after_obtain :
      (b : Bool) (h : Text) (make : Result Text) (x x' : SqliteContext db) (s : Stmt)
      → obtain db b h make x ≡ (ok s, x')
      → find db h x'.read_stmts ≡ some s
  unfolding obtain
  found_after_obtain b h make x x' s eq = go (find db h x.read_stmts) refl eq
    where
      go :
          (f : Option Stmt)
          → find db h x.read_stmts ≡ f
          → (elim f as (λ q. Outcome (SqliteContext db) Stmt) [
            | some q ↦ (ok q, x)
            | none ↦ keep_stmt db h (create_stmt db make (before_stmt db b h x))
          ])
            ≡ (ok s, x')
          → find db h x'.read_stmts ≡ some s
      go (some q) e eq' =
          let same : x ≡ x' = cc in
          let st : q ≡ s = cc in sym (ap (λ y. find db h y.read_stmts) same) ∙ e ∙ ap some st
      go none e eq' = found_after_keep h (create_stmt db make (before_stmt db b h x)) s x' eq'

  module _ (b : Bool) (h : Text) (make : Result Text) (run : Stmt → World → Outcome World Unit)
      (x x1 : SqliteContext db) (s : Stmt) (w : World)
      (got : obtain db b h make x ≡ (ok s, x1)) where
    outcome :
        (m : Outcome World Unit)
        → run s x1.world ≡ m
        → execute db b h make run x ≡ after_use db h s m x1
    unfolding execute use_stmt
    outcome m e = ap (use_stmt db h run) got ∙ ap (λ q. after_use db h s q x1) e

    -- A call whose statement is obtained and whose binding and execution succeed leaves the statement
    -- behind: a call with its hash that comes next is given that statement, whatever its own text
    -- would be, with the connection as it is, so that no text is written or prepared.
    pub reused_after_success :
        run s x1.world ≡ (ok tt, w)
        → (again : Result Text)
        → (let x' = (execute db b h make run x).1 in obtain db b h again x' ≡ (ok s, x'))
    unfolding after_use obtain
    reused_after_success done again =
        subst (λ q. obtain db b h again q.1 ≡ (ok s, q.1)) (sym (outcome (ok tt, w) done))
          (ap
            (λ f. elim f as (λ q. Outcome (SqliteContext db) Stmt) [
              | some q ↦ (ok q, y)
              | none ↦ keep_stmt db h (create_stmt db again (before_stmt db b h y))
            ])
            (found_after_obtain b h make x x1 s got))
      where
        y : SqliteContext db
        y = record x1 { world = clear_bindings s (reset s w) }

    -- A call whose binding or execution throws leaves no statement behind, so that the next call
    -- with its hash prepares one anew, and it throws on what was thrown.
    pub forgotten_after_failure :
        (e : Text)
        → run s x1.world ≡ (err (runtime_error e), w)
        → (let (thrown, x') = execute db b h make run x in
            (find db h x'.read_stmts ≡ none)
            × (thrown ≡ err (runtime_error (bytes "sqlite bind/exec query sql failed: " ++ e))))
    unfolding after_use
    forgotten_after_failure e failed =
        subst
          (λ (q : Outcome (SqliteContext db) Unit).
            (find db h q.1.read_stmts ≡ none)
            × (q.0 ≡ err (runtime_error (bytes "sqlite bind/exec query sql failed: " ++ e))))
          (sym (outcome (err (runtime_error e), w) failed)) (find-erase db h x1.read_stmts, refl)

  module _ {Key : Type 0} (hash : Key → Text) (sql : Key → Result Text)
      (same_sql : (j k : Key) → hash j ≡ hash k → sql j ≡ sql k) where
    -- The statements that a sequence of calls is given, with the keys of the calls.
    pub statements :
        Bool
        → List (Key × (Stmt → World → Outcome World Unit))
        → SqliteContext db
        → List (Key × Stmt)
    statements b [] x = []
    statements b ((k, run) ∷ cs) x =
        let rest = statements b cs (execute db b (hash k) (sql k) run x).1 in
        elim (obtain db b (hash k) (sql k) x).0 [ err e ↦ rest | ok s ↦ (k, s) ∷ rest ]

    abbrev pub Suits : Bool → Key × Stmt → Type 0
    Suits b (k, s) = Fits db hash sql same_sql b k s

    -- When calls with one hash have one text, then from a connection on whose cache fits these texts,
    -- each call of every sequence, failing ones among them, that is given a statement is given one
    -- that was prepared for its own text, or, where the compiler makes the entry of the map first,
    -- possibly a null.
    pub statements-Suits :
        (b : Bool) (cs : List (Key × (Stmt → World → Outcome World Unit))) (x : SqliteContext db)
        → IsCache db hash sql same_sql b x
        → All (Suits b) (statements b cs x)
    unfolding statements
    statements-Suits b [] x c = tt
    statements-Suits b ((k, run) ∷ cs) x c =
        go (obtain db b (hash k) (sql k) x) refl
          (statements-Suits b cs x' (execute-IsCache db hash sql same_sql b k run x c))
      where
        x' : SqliteContext db
        x' = (execute db b (hash k) (sql k) run x).1

        go :
            (m : Outcome (SqliteContext db) Stmt)
            → obtain db b (hash k) (sql k) x ≡ m
            → All (Suits b) (statements b cs x')
            → All (Suits b) (elim m.0 as (λ q. List (Key × Stmt)) [
              | err e ↦ statements b cs x'
              | ok s ↦ (k, s) ∷ statements b cs x'
            ])
        go (err e, y) same rest = rest
        go (ok s, y) same rest = ((obtain-Fits db hash sql same_sql b k x y s c same).0, rest)
