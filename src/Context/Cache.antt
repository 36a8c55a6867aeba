-- ===== src/Context/Cache.antt =====
-- The prepared statements that SqliteContext of src/sqlite/sqlite_context.h keeps.
use yan.Prelude.{
  Outcome, ℕ, zero, suc, ◌==◌, ◌≡◌, refl, sym, ap, ◌∙◌, ◌⊎◌, inl, inr, Bool, true, false, Option,
  none, some, List, ◌++◌, if◌then◌else◌, All, Result, ok, err, runtime_error, undefined, subst,
  arith,
}
use yan.Prelude.Text.{Text, bytes}
use yan.Context.{
  Sqlite, SqliteContext, find, assign, check_stmt, create_stmt, keep_stmt, before_stmt, obtain,
  after_use, use_stmt, execute, error_of,
}
use yan.Context.Entries.{find-All, erase-All}

module _ (db : Sqlite) where
  open db use {World, Stmt, prepare, finalize, reset, clear_bindings, null}

  -- `s` is what the database once prepared from the text `t`.
  abbrev pub Made : Text → Stmt → Type 0
  Made t s = (w : World) × ((prepare (t ++ bytes ";") w).0 ≡ (0, s))

  -- Calls of `execute` are told apart by `Key`: a key has a hash and a statement, and keys with one
  -- hash have one statement.
  module _ {Key : Type 0} (hash : Key → Text) (sql : Key → Result Text)
      (same_sql : (j k : Key) → hash j ≡ hash k → sql j ≡ sql k) where
    -- `s` was prepared for the text of the key `k`.
    abbrev pub Serves : Key → Stmt → Type 0
    Serves k s = (t : Text) × (sql k ≡ ok t) × Made t s

    -- Where the compiler makes an entry before its statement, it may stay null.
    abbrev pub Fits : Bool → Key → Stmt → Type 0
    Fits b k s = Serves k s ⊎ ((b ≡ true) × (s ≡ null))

    abbrev pub IsEntry : Bool → Text × Stmt → Type 0
    IsEntry b (h, s) = (k : Key) × (hash k ≡ h) × Fits b k s

    abbrev pub IsCache : Bool → SqliteContext db → Type 0
    IsCache b x = All (IsEntry b) x.read_stmts

    moved : (b : Bool) (j k : Key) (s : Stmt) → hash j ≡ hash k → Fits b j s → Fits b k s
    moved b j k s h (inl (t, e, m)) = inl (t, sym (same_sql j k h) ∙ e, m)
    moved b j k s h (inr n) = inr n

    check_stmt-ok :
        (p : (ℕ × Stmt) × World) (x x' : SqliteContext db) (s : Stmt)
        → check_stmt db p x ≡ (ok s, x')
        → (p.0 ≡ (0, s)) × (x'.read_stmts ≡ x.read_stmts)
    unfolding check_stmt
    check_stmt-ok ((zero, s'), w) x x' s h =
        let st : s' ≡ s = cc in
        let same : record x { world = w } ≡ x' = cc in
        ((λ i. (0, st i)), ap (λ y. y.read_stmts) (sym same))
    check_stmt-ok ((suc n, s'), w) x x' s h = absurd (ground arith)

    create_stmt-ok :
        (m : Result Text) (x x' : SqliteContext db) (s : Stmt)
        → create_stmt db m x ≡ (ok s, x')
        → ((t : Text) × (m ≡ ok t) × Made t s) × (x'.read_stmts ≡ x.read_stmts)
    unfolding create_stmt
    create_stmt-ok (err e) x x' s h = absurd (cc)
    create_stmt-ok (ok t) x x' s h = go x.conn h
      where
        go :
            (c : Bool)
            → (if c then check_stmt db (prepare (t ++ bytes ";") x.world) x else (err undefined, x))
              ≡ (ok s, x')
            → ((u : Text) × (ok t ≡ ok u) × Made u s) × (x'.read_stmts ≡ x.read_stmts)
        go true h' =
            let (made, same) = check_stmt-ok (prepare (t ++ bytes ";") x.world) x x' s h' in
            ((t, refl, (x.world, made)), same)
        go false h' = absurd (cc)

    pub keep_stmt-ok :
        (h : Text) (m : Outcome (SqliteContext db) Stmt) (x' : SqliteContext db) (s : Stmt)
        → keep_stmt db h m ≡ (ok s, x')
        → (x : SqliteContext db) × (m ≡ (ok s, x)) × (x'.read_stmts ≡ assign db h s x.read_stmts)
    unfolding keep_stmt
    keep_stmt-ok h (err e, x) x' s eq = absurd (cc)
    keep_stmt-ok h (ok t, x) x' s eq =
        let st : t ≡ s = cc in
        let same : record x { read_stmts = assign db h t x.read_stmts } ≡ x' = cc in
        (
          x,
          (λ i. (ok (st i), x)),
          ap (λ y. y.read_stmts) (sym same) ∙ ap (λ q. assign db h q x.read_stmts) st,
        )

    before_stmt-IsCache :
        (b : Bool) (k : Key) (x : SqliteContext db)
        → IsCache b x
        → IsCache b (before_stmt db b (hash k) x)
    unfolding before_stmt assign
    before_stmt-IsCache true k x c =
        ((k, refl, inr (refl, refl)), erase-All db (IsEntry true) (hash k) x.read_stmts c)
    before_stmt-IsCache false k x c = c

    assign-All :
        (b : Bool) (k : Key) (s : Stmt) (es : List (Text × Stmt))
        → Fits b k s
        → All (IsEntry b) es
        → All (IsEntry b) (assign db (hash k) s es)
    unfolding assign
    assign-All b k s es f a = ((k, refl, f), erase-All db (IsEntry b) (hash k) es a)

    -- The statement that a call is given is the one for its own text, or, where entries are made
    -- first, a null that an earlier failure left; the statements that are kept stay so.
    pub obtain-Fits :
        (b : Bool) (k : Key) (x x' : SqliteContext db) (s : Stmt)
        → IsCache b x
        → obtain db b (hash k) (sql k) x ≡ (ok s, x')
        → Fits b k s × IsCache b x'
    unfolding obtain
    obtain-Fits b k x x' s c h = go (find db (hash k) x.read_stmts) refl h
      where
        go :
            (f : Option Stmt)
            → find db (hash k) x.read_stmts ≡ f
            → (elim f [
              | some q ↦ (ok q, x)
              | none ↦ keep_stmt db (hash k) (create_stmt db (sql k) (before_stmt db b (hash k) x))
            ])
              ≡ (ok s, x')
            → Fits b k s × IsCache b x'
        go (some q) e h' =
            let same : x ≡ x' = cc in
            let st : q ≡ s = cc in
            let (j, key_eq, fits) = find-All db (IsEntry b) (hash k) x.read_stmts q c e in
            (subst (Fits b k) st (moved b j k q key_eq fits), subst (IsCache b) same c)
        go none e h' =
            let (y, made, kept) =
              keep_stmt-ok (hash k) (create_stmt db (sql k) (before_stmt db b (hash k) x)) x' s
                h' in
            let (serves, same) = create_stmt-ok (sql k) (before_stmt db b (hash k) x) y s made in
            let old : IsCache b y =
              subst (All (IsEntry b)) (sym same) (before_stmt-IsCache b k x c) in
            (
              inl serves,
              subst (All (IsEntry b)) (sym kept) (assign-All b k s y.read_stmts (inl serves) old),
            )

    after_use-IsCache :
        (b : Bool) (h : Text) (s : Stmt) (m : Outcome World Unit) (x : SqliteContext db)
        → IsCache b x
        → IsCache b (after_use db h s m x).1
    unfolding after_use
    after_use-IsCache b h s (ok _, w) x c = c
    after_use-IsCache b h s (err undefined, w) x c = c
    after_use-IsCache b h s (err (runtime_error e), w) x c =
        erase-All db (IsEntry b) h x.read_stmts c

    create_stmt-same :
        (m : Result Text) (x : SqliteContext db) → (create_stmt db m x).1.read_stmts ≡ x.read_stmts
    unfolding create_stmt check_stmt
    create_stmt-same (err e) x = refl
    create_stmt-same (ok t) x = go x.conn (prepare (t ++ bytes ";") x.world)
      where
        chosen :
            (q : Bool) (r : ℕ) (s : Stmt) (w : World)
            → (if◌then◌else◌ {A = Outcome (SqliteContext db) Stmt} q
                (ok s, record x { world = w })
                (
                  err (runtime_error (error_of db "sqlite create prepared statement failed" r w)),
                  record x { world = w },
                )).1.read_stmts
              ≡ x.read_stmts
        chosen true r s w = refl
        chosen false r s w = refl

        go :
            (c : Bool) (p : (ℕ × Stmt) × World)
            → (if◌then◌else◌ {A = Outcome (SqliteContext db) Stmt} c
                (check_stmt db p x)
                (err undefined, x)).1.read_stmts
              ≡ x.read_stmts
        go true ((r, s), w) = chosen (r == 0) r s w
        go false p = refl

    keep_stmt-IsCache :
        (b : Bool) (k : Key) (m : Outcome (SqliteContext db) Stmt)
        → IsCache b m.1
        → ((s : Stmt) (x : SqliteContext db) → m ≡ (ok s, x) → Fits b k s)
        → IsCache b (keep_stmt db (hash k) m).1
    unfolding keep_stmt
    keep_stmt-IsCache b k (err e, x) c f = c
    keep_stmt-IsCache b k (ok s, x) c f = assign-All b k s x.read_stmts (f s x refl) c

    -- Whether it finds a statement or throws.
    obtain-IsCache :
        (b : Bool) (k : Key) (x : SqliteContext db)
        → IsCache b x
        → IsCache b (obtain db b (hash k) (sql k) x).1
    unfolding obtain
    obtain-IsCache b k x c = go (find db (hash k) x.read_stmts)
      where
        y : SqliteContext db
        y = before_stmt db b (hash k) x

        go :
            (f : Option Stmt)
            → IsCache b
                (elim f as (λ q. Outcome (SqliteContext db) Stmt) [
                  | some q ↦ (ok q, x)
                  | none ↦ keep_stmt db (hash k) (create_stmt db (sql k) y)
                ]).1
        go (some q) = c
        go none =
            keep_stmt-IsCache b k (create_stmt db (sql k) y)
              (subst (All (IsEntry b)) (sym (create_stmt-same (sql k) y))
                (before_stmt-IsCache b k x c))
              (λ s z e. inl (create_stmt-ok (sql k) y z s e).0)

    use_stmt-IsCache :
        (b : Bool) (h : Text) (run : Stmt → World → Outcome World Unit)
        (m : Outcome (SqliteContext db) Stmt)
        → IsCache b m.1
        → IsCache b (use_stmt db h run m).1
    unfolding use_stmt
    use_stmt-IsCache b h run (err e, x) c = c
    use_stmt-IsCache b h run (ok s, x) c = after_use-IsCache b h s (run s x.world) x c

    -- Every call of `execute`, whether it returns or throws, keeps the property of the cache that
    -- each statement in it was prepared for the text of a call with that hash, or is a null where
    -- the compiler makes entries first.
    pub execute-IsCache :
        (b : Bool) (k : Key) (run : Stmt → World → Outcome World Unit) (x : SqliteContext db)
        → IsCache b x
        → IsCache b (execute db b (hash k) (sql k) run x).1
    unfolding execute
    execute-IsCache b k run x c =
        use_stmt-IsCache b (hash k) run (obtain db b (hash k) (sql k) x) (obtain-IsCache b k x c)
