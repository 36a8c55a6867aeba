-- ===== src/Context/Entries.antt =====
-- The map of prepared statements of src/sqlite/sqlite_context.h, as a list of its entries.
use yan.Prelude.{
  ◌≡◌, refl, ap, ◌∙◌, Bool, true, false, none, some, List, [], ◌∷◌, if◌then◌else◌, All, subst,
}
use yan.Prelude.Text.{Text, text_eq, text_eq_sound, text_eq_refl}
use yan.Context.{Sqlite, find, erase, assign}

module _ (db : Sqlite) where
  open db use {World, Stmt}

  pub find-All :
      (P : Text × Stmt → Type 0) (h : Text) (es : List (Text × Stmt)) (s : Stmt)
      → All P es
      → find db h es ≡ some s
      → P (h, s)
  unfolding find
  find-All P h [] s a e = absurd (cc)
  find-All P h ((k, t) ∷ es) s (p, a) e = go (text_eq k h) refl e (find-All P h es s a)
    where
      go :
          (b : Bool)
          → text_eq k h ≡ b
          → (if b then some t else find db h es) ≡ some s
          → (find db h es ≡ some s → P (h, s))
          → P (h, s)
      go true same e' ih =
          let st : t ≡ s = cc in
          subst (λ (q : Text × Stmt). P q) (λ i. (text_eq_sound k h same i, st i)) p
      go false same e' ih = ih e'

  pub erase-All :
      (P : Text × Stmt → Type 0) (h : Text) (es : List (Text × Stmt))
      → All P es
      → All P (erase db h es)
  unfolding erase
  erase-All P h [] a = tt
  erase-All P h ((k, t) ∷ es) (p, a) = go (text_eq k h) (erase-All P h es a)
    where
      go :
          (b : Bool)
          → All P (erase db h es)
          → All P (if b then erase db h es else (k, t) ∷ erase db h es)
      go true a' = a'
      go false a' = (p, a')

  pub find-erase : (h : Text) (es : List (Text × Stmt)) → find db h (erase db h es) ≡ none
  unfolding find erase
  find-erase h [] = refl
  find-erase h ((k, t) ∷ es) = go (text_eq k h) refl (find-erase h es)
    where
      go :
          (b : Bool)
          → text_eq k h ≡ b
          → find db h (erase db h es) ≡ none
          → find db h (if b then erase db h es else (k, t) ∷ erase db h es) ≡ none
      go true same ih = ih
      go false same ih = ap (λ q. if q then some t else find db h (erase db h es)) same ∙ ih

  pub find-assign :
      (h : Text) (s : Stmt) (es : List (Text × Stmt)) → find db h (assign db h s es) ≡ some s
  unfolding find assign
  find-assign h s es = ap (λ q. if q then some s else find db h (erase db h es)) (text_eq_refl h)
