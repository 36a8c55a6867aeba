-- ===== src/Context/Finalized.antt =====
-- Which statements SqliteContext::execute (src/sqlite/sqlite_context.h) has finalized, and the map of
-- those that it keeps.
pub mod Calls
use yan.Prelude.{
  Outcome, ◌≡◌, ◌≢◌, ◌⊎◌, inl, inr, sym, ◌∙◌, subst, Bool, true, false, some, List, [], ◌∷◌,
  if◌then◌else◌, All,
}
use yan.Prelude.Text.{Text, text_eq}
use yan.Context.{Sqlite, find, erase}
use yan.Context.Entries.{find-All, erase-All}

-- `Open w s`: `s` has been prepared and not been finalized. A successful preparation gives a statement
-- that is not open yet, or a null, for a text without SQL; only `sqlite3_finalize` closes one.
pub record IsOpening (db : Sqlite) (Open : db.World → db.Stmt → Type 0) : Type 0 where
  pub null-Open : (w : db.World) → Open w db.null → ⊥
  pub prepared :
      (t : Text) (w w' : db.World) (s : db.Stmt)
      → db.prepare t w ≡ ((0, s), w')
      → (s ≡ db.null) ⊎ (Open w' s × ((u : db.Stmt) → Open w u → u ≢ s))
  pub prepare-Open : (t : Text) (w : db.World) (u : db.Stmt) → Open w u → Open (db.prepare t w).1 u
  pub finalize-Open :
      (s : db.Stmt) (w : db.World) (u : db.Stmt) → u ≢ s → Open w u → Open (db.finalize s w) u
  pub finalized : (s : db.Stmt) (w : db.World) → Open (db.finalize s w) s → ⊥
  pub reset-Open : (s : db.Stmt) (w : db.World) (u : db.Stmt) → Open w u → Open (db.reset s w) u
  pub clear_bindings-Open :
      (s : db.Stmt) (w : db.World) (u : db.Stmt) → Open w u → Open (db.clear_bindings s w) u

module _ (db : Sqlite) (Open : db.World → db.Stmt → Type 0) where
  open db use {World, Stmt, null}

  -- Binding the values and calling `exe` finalizes nothing.
  abbrev pub KeepsOpen : (Stmt → World → Outcome World Unit) → Type 0
  KeepsOpen run = (s : Stmt) (w : World) (u : Stmt) → Open w u → Open (run s w).1 u

  abbrev pub Usable : World → Stmt → Type 0
  Usable w s = (s ≡ null) ⊎ Open w s

  -- Only a null can be in two entries.
  abbrev Apart : Stmt → Text × Stmt → Type 0
  Apart s (k, t) = t ≡ s → s ≡ null

  abbrev pub Kept : World → List (Text × Stmt) → Type 0
  Kept w [] = Unit
  Kept w ((k, s) ∷ es) = Usable w s × All (Apart s) es × Kept w es

  pub Kept-imp :
      (w w' : World) (es : List (Text × Stmt))
      → ((u : Stmt) → Open w u → Open w' u)
      → Kept w es
      → Kept w' es
  Kept-imp w w' [] f k = tt
  Kept-imp w w' ((k, s) ∷ es) f (u, a, r) = (usable u, a, Kept-imp w w' es f r)
    where
      usable : Usable w s → Usable w' s
      usable (inl n) = inl n
      usable (inr o) = inr (f s o)

  pub Kept-erase :
      (w : World) (h : Text) (es : List (Text × Stmt)) → Kept w es → Kept w (erase db h es)
  unfolding erase
  Kept-erase w h [] k = tt
  Kept-erase w h ((k, s) ∷ es) (u, a, r) =
      go (text_eq k h) (erase-All db (Apart s) h es a) (Kept-erase w h es r)
    where
      go :
          (b : Bool)
          → All (Apart s) (erase db h es)
          → Kept w (erase db h es)
          → Kept w (if b then erase db h es else (k, s) ∷ erase db h es)
      go true a' r' = r'
      go false a' r' = (u, a', r')

  pub Kept-find :
      (w : World) (h : Text) (es : List (Text × Stmt)) (s : Stmt)
      → Kept w es
      → find db h es ≡ some s
      → Usable w s
  unfolding find
  Kept-find w h [] s k e = absurd (cc)
  Kept-find w h ((k, t) ∷ es) s (u, a, r) e = go (text_eq k h) e (Kept-find w h es s r)
    where
      go :
          (b : Bool)
          → (if b then some t else find db h es) ≡ some s
          → (find db h es ≡ some s → Usable w s)
          → Usable w s
      go true e' ih = let st : t ≡ s = cc in subst (Usable w) st u
      go false e' ih = ih e'

  -- What else is in the map than what is found is apart from it.
  pub erase-Apart :
      (w : World) (h : Text) (es : List (Text × Stmt)) (s : Stmt)
      → Kept w es
      → find db h es ≡ some s
      → All (Apart s) (erase db h es)
  unfolding find erase
  erase-Apart w h [] s k e = tt
  erase-Apart w h ((k, t) ∷ es) s (u, a, r) e =
      go (text_eq k h) e (erase-Apart w h es s r) (erase-All db (Apart t) h es a)
        (find-All db (Apart t) h es s a)
    where
      go :
          (b : Bool)
          → (if b then some t else find db h es) ≡ some s
          → (find db h es ≡ some s → All (Apart s) (erase db h es))
          → All (Apart t) (erase db h es)
          → (find db h es ≡ some s → s ≡ t → t ≡ null)
          → All (Apart s) (if b then erase db h es else (k, t) ∷ erase db h es)
      go true e' ih a' other =
          let st : t ≡ s = cc in subst (λ q. All (Apart q) (erase db h es)) st a'
      go false e' ih a' other = ((λ same. sym same ∙ other e' (sym same)), ih e')

  module _ (laws : IsOpening db Open) where
    pub Kept-finalize :
        (w : World) (s : Stmt) (es : List (Text × Stmt))
        → All (Apart s) es
        → Kept w es
        → Kept (db.finalize s w) es
    Kept-finalize w s [] a k = tt
    Kept-finalize w s ((k, t) ∷ es) (p, a) (u, b, r) = (usable u, b, Kept-finalize w s es a r)
      where
        usable : Usable w t → Usable (db.finalize s w) t
        usable (inl n) = inl n
        usable (inr o) =
            inr (laws.finalize-Open s w t (λ e. laws.null-Open w (subst (Open w) (e ∙ p e) o)) o)

    pub fresh-Apart :
        (w : World) (s : Stmt) (es : List (Text × Stmt))
        → ((u : Stmt) → Open w u → u ≢ s)
        → Kept w es
        → All (Apart s) es
    fresh-Apart w s [] f k = tt
    fresh-Apart w s ((k, t) ∷ es) f (u, a, r) = (apart u, fresh-Apart w s es f r)
      where
        apart : Usable w t → t ≡ s → s ≡ null
        apart (inl n) e = sym e ∙ n
        apart (inr o) e = absurd (f t o e)

    pub null-Apart : (s : Stmt) (es : List (Text × Stmt)) → s ≡ null → All (Apart s) es
    null-Apart s [] n = tt
    null-Apart s ((k, t) ∷ es) n = ((λ e. n), null-Apart s es n)
