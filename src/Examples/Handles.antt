-- ===== src/Examples/Handles.antt =====
-- The theorem on finalized statements (src/sqlite/sqlite_context.h), over a database whose statements
-- are numbered from 1 on, and whose state is which of them are open.
use yan.Prelude.{
  ℕ, zero, suc, ◌≡◌, ◌≢◌, ◌⊎◌, inr, refl, sym, ap, ◌∙◌, subst, Bool, true, false, some, List, [],
  ◌∷◌, ◌++◌, All, length, get_elem?, get_elem?-lt_length, get_elem?-set_ne, get_elem?-append_length,
  set, Outcome, Result, ok, err, runtime_error, arith,
}
use yan.Prelude.Text.{Text, bytes, text_eq}
use yan.Prelude.Decimal.{decimal}
use yan.Context.{Sqlite, SqliteContext, obtain, execute}
use yan.Context.Finalized.{IsOpening, Usable}
use yan.Context.Finalized.Calls.{Execution, given_stmts, given_stmts-Usable}

abbrev close_handle : ℕ → List Bool → List Bool
close_handle zero w = w
close_handle (suc i) w = set w i false

abbrev handles : Sqlite
handles = record {
  World = List Bool;
  Stmt = ℕ;
  exec = λ t w. (0, w);
  prepare = λ t w. ((0, suc (length w)), w ++ true ∷ []);
  finalize = close_handle;
  reset = λ s w. w;
  clear_bindings = λ s w. w;
  errstr = λ n. decimal n;
  errmsg = λ w. [];
  null = 0;
}

abbrev IsOpen : List Bool → ℕ → Type 0
IsOpen w zero = ⊥
IsOpen w (suc i) = get_elem? w i ≡ some true

get_elem?-append_left :
    (w : List Bool) (i : ℕ) (b : Bool) (v : List Bool)
    → get_elem? w i ≡ some b
    → get_elem? (w ++ v) i ≡ some b
get_elem?-append_left [] i b v e = absurd (cc)
get_elem?-append_left (a ∷ w) zero b v e = e
get_elem?-append_left (a ∷ w) (suc i) b v e = get_elem?-append_left w i b v e

append-IsOpen : (w : List Bool) (u : ℕ) → IsOpen w u → IsOpen (w ++ true ∷ []) u
append-IsOpen w zero o = o
append-IsOpen w (suc i) o = get_elem?-append_left w i true (true ∷ []) o

close_handle-IsOpen :
    (s : ℕ) (w : List Bool) (u : ℕ) → u ≢ s → IsOpen w u → IsOpen (close_handle s w) u
close_handle-IsOpen s w zero ne o = absurd o
close_handle-IsOpen zero w (suc i) ne o = o
close_handle-IsOpen (suc j) w (suc i) ne o =
    get_elem?-set_ne w j i false (λ e. ne (ap suc (sym e))) ∙ o

not_open : (w : List Bool) (i : ℕ) → get_elem? (set w i false) i ≡ some true → ⊥
not_open [] i e = cc
not_open (b ∷ w) zero e = cc
not_open (b ∷ w) (suc i) e = not_open w i e

closed : (s : ℕ) (w : List Bool) → IsOpen (close_handle s w) s → ⊥
closed zero w o = o
closed (suc i) w o = not_open w i o

fresh_handle : (w : List Bool) (u : ℕ) → IsOpen w u → u ≢ suc (length w)
fresh_handle w zero o e = o
fresh_handle w (suc i) o e = absurd (omega (arith, get_elem?-lt_length w i true o, e))

handles-IsOpening : IsOpening handles IsOpen
handles-IsOpening = record {
  null-Open = λ w o. o;
  prepared = λ t w w' s e.
      subst
        (λ (p : (ℕ × ℕ) × List Bool).
          (p.0.1 ≡ 0) ⊎ (IsOpen p.1 p.0.1 × ((u : ℕ) → IsOpen w u → u ≢ p.0.1)))
        e (inr (get_elem?-append_length w true [], fresh_handle w));
  prepare-Open = λ t w u o. append-IsOpen w u o;
  finalize-Open = close_handle-IsOpen;
  finalized = closed;
  reset-Open = λ s w u o. o;
  clear_bindings-Open = λ s w u o. o;
}

-- The same call three times, of which the first and the last fail.
abbrev busy : ℕ → List Bool → Outcome (List Bool) Unit
busy s w = (err (runtime_error (bytes "busy")), w)

abbrev fine : ℕ → List Bool → Outcome (List Bool) Unit
fine s w = (ok tt, w)

abbrev people : Result Text
people = ok (bytes "SELECT * FROM Person")

abbrev three_calls : List (Execution handles)
three_calls =
    (bytes "Person", people, busy)
    ∷ (bytes "Person", people, fine)
    ∷ (bytes "Person", people, busy)
    ∷ []

abbrev connected : SqliteContext handles
connected = record { conn = true; read_stmts = []; world = [] }

given_stmts-Usable_example :
    All (λ g. Usable handles IsOpen g.1 g.0) (given_stmts handles three_calls connected)
given_stmts-Usable_example =
    given_stmts-Usable handles IsOpen handles-IsOpening three_calls connected
      ((λ s w u o. o), ((λ s w u o. o), ((λ s w u o. o), tt))) tt

-- The statement of the first call is finalized, and the two others are given the next.
two_handles :
    given_stmts handles three_calls connected
    ≡ (1, true ∷ []) ∷ (2, false ∷ true ∷ []) ∷ (2, false ∷ true ∷ []) ∷ []
unfolding obtain execute text_eq bytes
two_handles = refl
