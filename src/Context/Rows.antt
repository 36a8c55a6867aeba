-- ===== src/Context/Rows.antt =====
-- src/sqlite/sqlite_context.h, the loops of SqliteContext::exec and exec_entity over the rows of a
-- statement. A loop has as much fuel as it may take steps; `none` is that it has used it up.
use yan.Prelude.{
  ℕ, String, zero, suc, ◌+◌, ◌<◌, ◌≡◌, ◌≢◌, ◌⊎◌, inl, inr, refl, Option, none, some, List, [], ◌∷◌,
  ◌++◌, ◌==◌, if◌then◌else◌, length, Error, Result, ok, err, runtime_error, Outcome, ◌∙◌, ap, Bool,
  true, false, append-nil, append_assoc, ◌>>=◌, arith,
}
use yan.Ref.Struct.{YanStruct}
use yan.Ref.Object.{Object, fresh}
use yan.Prelude.Int.{ℤ}
use yan.Sql.Fetch.{Row, fetch, fetch_count}
use yan.Context.{Sqlite, error_of}

-- SQLITE_ROW and SQLITE_DONE
abbrev pub row_code : ℕ
row_code = 100

abbrev pub done_code : ℕ
done_code = 101

-- `step` is sqlite3_step, and `row` the row that a statement stands at.
module _ (db : Sqlite) (step : db.Stmt → db.World → ℕ × db.World)
    (row : db.Stmt → db.World → Row) where
  open db use {World, Stmt}

  -- `exec` of one object: the `while` is left behind the first row, and the code is not looked at.
  unfoldable pub exec_object : YanStruct → Object → Stmt → World → Outcome World Object
  exec_object t ro s w0 =
      let (ret, w) = step s w0 in if ret == row_code then (fetch (row s w) t ro, w) else (ok ro, w)

  -- `exec` of a count, which is what `ret` was before if there is no row
  unfoldable pub exec_count : ℤ → Stmt → World → Outcome World ℤ
  exec_count ret s w0 =
      let (code, w) = step s w0 in
      if code == row_code then (ok (fetch_count (row s w)), w) else (ok ret, w)

  -- What follows the `while` of the others, by the code of the last step.
  unfoldable pub check_done : {A : Type 0} → String → ℕ → A → World → Result A
  check_done selfdef ret a w =
      if ret == done_code then ok a else err (runtime_error (error_of db selfdef ret w))

  -- A row is fetched into a new object, which is appended.
  unfoldable pub fetch_onto : YanStruct → List Object → Row → Result (List Object)
  fetch_onto t ro r = fetch r t (fresh t) >>= λ o. ok (ro ++ o ∷ [])

  unfoldable pub exec_list :
      ℕ → YanStruct → List Object → Stmt → World → Option (Outcome World (List Object))
  unfolding check_done fetch_onto
  exec_list zero t ro s w0 = none
  exec_list (suc n) t ro s w0 =
      let (ret, w) = step s w0 in
      if ret == row_code
      then elim (fetch_onto t ro (row s w)) [
        | err e ↦ some (err e, w)
        | ok ro' ↦ exec_list n t ro' s w
      ]
      else some (check_done "sqlite query multi-value failed: " ret ro w, w)

  unfoldable pub exec_entity : ℕ → ℕ → Stmt → World → Option (Outcome World ℕ)
  unfolding check_done
  exec_entity zero r s w0 = none
  exec_entity (suc n) r s w0 =
      let (ret, w) = step s w0 in
      let rest = exec_entity n (r + 1) s w in
      if ret == row_code
      then rest
      else some (check_done "sqlite update/delete value failed" ret r w, w)

  -- From the world `w` on the statement comes to these rows, and then to a step with that code.
  pub data Rows (s : Stmt) : World → List Row → ℕ → World → Type 0 where
    last : {w w' : World} {ret : ℕ} → step s w ≡ (ret, w') → ret ≢ row_code → Rows s w [] ret w'
    next :
        {w w1 w' : World} {rs : List Row} {ret : ℕ}
        → step s w ≡ (row_code, w1)
        → Rows s w1 rs ret w'
        → Rows s w (row s w1 ∷ rs) ret w'

  exec_entity-last :
      (s : Stmt) (w w' : World) (rs : List Row) (ret : ℕ)
      → Rows s w rs ret w'
      → (r n : ℕ) → length rs < n
      → exec_entity n r s w
        ≡ some (check_done "sqlite update/delete value failed" ret (r + length rs) w', w')
  unfolding exec_entity
  exec_entity-last s w w' rs ret h r zero l = absurd (omega (arith, l))
  exec_entity-last s w w' _ ret (last e d) r (suc n) l = ground (arith, e)
  exec_entity-last s w w' _ ret (next {w1 = w1} {rs = rs} e h) r (suc n) l =
      let rest = exec_entity-last s w1 w' rs ret h (r + 1) n (omega arith) in
      ground (arith, e, rest)

  check_done-cases :
      {A : Type 0} (selfdef : String) (ret : ℕ) (a : A) (w : World)
      → ((ret ≡ done_code) × (check_done selfdef ret a w ≡ ok a))
        ⊎ ((ret ≢ done_code)
            × (check_done selfdef ret a w ≡ err (runtime_error (error_of db selfdef ret w))))
  unfolding check_done
  check_done-cases selfdef ret a w = cases (ret == done_code) refl
    where
      cases :
          (b : Bool)
          → (ret == done_code) ≡ b
          → ((ret ≡ done_code)
              × ((if ret == done_code
                    then ok a
                    else err (runtime_error (error_of db selfdef ret w)))
                  ≡ ok a))
            ⊎ ((ret ≢ done_code)
                × ((if ret == done_code
                      then ok a
                      else err (runtime_error (error_of db selfdef ret w)))
                    ≡ err (runtime_error (error_of db selfdef ret w))))
      cases true e = inl (ground (arith, e), rw e refl)
      cases false e = inr ((λ same. absurd (ground (arith, e, same))), rw e refl)

  -- A statement that comes to an end: the loop of `exec_entity` returns with as much fuel as there are
  -- rows and one more. If the last code is SQLITE_DONE, it has added the number of the rows to `r`; if
  -- it is another, it throws with the database's words for that code.
  pub exec_entity-Rows :
      (s : Stmt) (w w' : World) (rs : List Row) (ret : ℕ)
      → Rows s w rs ret w'
      → (r n : ℕ) → length rs < n
      → ((ret ≡ done_code) × (exec_entity n r s w ≡ some (ok (r + length rs), w')))
        ⊎ ((ret ≢ done_code)
            × (exec_entity n r s w
                ≡ some (
                  err (runtime_error (error_of db "sqlite update/delete value failed" ret w')),
                  w',
                )))
  exec_entity-Rows s w w' rs ret h r n l =
      elim (check_done-cases "sqlite update/delete value failed" ret (r + length rs) w') [
        | inl done ↦
            inl (done.0, exec_entity-last s w w' rs ret h r n l ∙ ap (λ x. some (x, w')) done.1)
        | inr other ↦
            inr (other.0, exec_entity-last s w w' rs ret h r n l ∙ ap (λ x. some (x, w')) other.1)
      ]

  -- Each row can be fetched into a new object, and these are the objects.
  abbrev pub Fetches : YanStruct → List Row → List Object → Type 0
  Fetches t [] [] = Unit
  Fetches t (r ∷ rs) (o ∷ os) = (fetch r t (fresh t) ≡ ok o) × Fetches t rs os
  Fetches t rs os = ⊥

  -- A row cannot be fetched, for that reason, and those before it can.
  abbrev pub Fails : YanStruct → List Row → Error → Type 0
  Fails t [] e = ⊥
  Fails t (r ∷ rs) e =
      (fetch r t (fresh t) ≡ err e) ⊎ ((o : Object) × (fetch r t (fresh t) ≡ ok o) × Fails t rs e)

  fetch_each :
      (t : YanStruct) (rs : List Row)
      → ((os : List Object) × Fetches t rs os) ⊎ ((e : Error) × Fails t rs e)
  fetch_each t [] = inl ([], tt)
  fetch_each t (r ∷ rs) = cases (fetch r t (fresh t)) refl (fetch_each t rs)
    where
      cases :
          (x : Result Object)
          → fetch r t (fresh t) ≡ x
          → ((os : List Object) × Fetches t rs os) ⊎ ((e : Error) × Fails t rs e)
          → ((os : List Object) × Fetches t (r ∷ rs) os) ⊎ ((e : Error) × Fails t (r ∷ rs) e)
      cases (err e) f rest = inr (e, inl f)
      cases (ok o) f (inl (os, fs)) = inl (o ∷ os, (f, fs))
      cases (ok o) f (inr (e, fs)) = inr (e, inr (o, f, fs))

  fetch_onto-ok :
      (t : YanStruct) (ro : List Object) (r : Row) (o : Object)
      → fetch r t (fresh t) ≡ ok o
      → fetch_onto t ro r ≡ ok (ro ++ o ∷ [])
  unfolding fetch_onto
  fetch_onto-ok t ro r o e = rw e refl

  fetch_onto-err :
      (t : YanStruct) (ro : List Object) (r : Row) (e : Error)
      → fetch r t (fresh t) ≡ err e
      → fetch_onto t ro r ≡ err e
  unfolding fetch_onto
  fetch_onto-err t ro r e f = rw f refl

  exec_list-Fetches :
      (t : YanStruct) (s : Stmt) (w w' : World) (rs : List Row) (ret : ℕ)
      → Rows s w rs ret w'
      → (ro os : List Object) (n : ℕ) → length rs < n
      → Fetches t rs os
      → exec_list n t ro s w
        ≡ some (check_done "sqlite query multi-value failed: " ret (ro ++ os) w', w')
  unfolding exec_list
  exec_list-Fetches t s w w' rs ret h ro os zero l f = absurd (omega (arith, l))
  exec_list-Fetches t s w w' _ ret (last e d) ro [] (suc n) l f = ground (arith, e, append-nil ro)
  exec_list-Fetches t s w w' _ ret (last e d) ro (o ∷ os) (suc n) l f = absurd f
  exec_list-Fetches t s w w' _ ret (next {w1 = w1} {rs = rs} e h) ro [] (suc n) l f = absurd f
  exec_list-Fetches t s w w' _ ret (next {w1 = w1} {rs = rs} e h) ro (o ∷ os) (suc n) l f =
      let first = fetch_onto-ok t ro (row s w1) o f.0 in
      let rest = exec_list-Fetches t s w1 w' rs ret h (ro ++ o ∷ []) os n (omega arith) f.1 in
      ground (arith, e, first, rest, append_assoc ro (o ∷ []) os)

  exec_list-Fails :
      (t : YanStruct) (s : Stmt) (w w' : World) (rs : List Row) (ret : ℕ)
      → Rows s w rs ret w'
      → (ro : List Object) (e : Error) (n : ℕ) → length rs < n
      → Fails t rs e
      → (u : World) × (exec_list n t ro s w ≡ some (err e, u))
  unfolding exec_list
  exec_list-Fails t s w w' rs ret h ro e zero l f = absurd (omega (arith, l))
  exec_list-Fails t s w w' _ ret (last a d) ro e (suc n) l f = absurd f
  exec_list-Fails t s w w' _ ret (next {w1 = w1} {rs = rs} a h) ro e (suc n) l (inl f) =
      let first = fetch_onto-err t ro (row s w1) e f in (w1, ground (arith, a, first))
  exec_list-Fails t s w w' _ ret (next {w1 = w1} {rs = rs} a h) ro e (suc n) l (inr (o, f, fs)) =
      let first = fetch_onto-ok t ro (row s w1) o f in
      let (u, run) = exec_list-Fails t s w1 w' rs ret h (ro ++ o ∷ []) e n (omega arith) fs in
      (u, ground (arith, a, first, run))

  -- A statement that comes to an end: the loop of `exec` for a sequence returns with as much fuel as
  -- there are rows and one more. If every row can be fetched into a new object, it has appended
  -- these objects, one for each row and in order, when the last code is SQLITE_DONE, and throws with
  -- the database's words for the last code when it is another; and if a row cannot be fetched, it
  -- throws what `fetch` throws of the first such row.
  pub exec_list-Rows :
      (t : YanStruct) (s : Stmt) (w w' : World) (rs : List Row) (ret : ℕ)
      → Rows s w rs ret w'
      → (ro : List Object) (n : ℕ) → length rs < n
      → ((os : List Object) × Fetches t rs os
          × (ret ≡ done_code)
          × (exec_list n t ro s w ≡ some (ok (ro ++ os), w')))
        ⊎ ((os : List Object) × Fetches t rs os
            × (ret ≢ done_code)
            × (exec_list n t ro s w
                ≡ some (
                  err (runtime_error (error_of db "sqlite query multi-value failed: " ret w')),
                  w',
                )))
        ⊎ ((e : Error) × Fails t rs e × (u : World) × (exec_list n t ro s w ≡ some (err e, u)))
  exec_list-Rows t s w w' rs ret h ro n l = elim (fetch_each t rs) [
    | inl all ↦
        let run = exec_list-Fetches t s w w' rs ret h ro all.0 n l all.1 in
        elim (check_done-cases "sqlite query multi-value failed: " ret (ro ++ all.0) w') [
          | inl done ↦ inl (all.0, all.1, done.0, run ∙ ap (λ x. some (x, w')) done.1)
          | inr other ↦ inr (inl (all.0, all.1, other.0, run ∙ ap (λ x. some (x, w')) other.1))
        ]
    | inr one ↦
        let (u, run) = exec_list-Fails t s w w' rs ret h ro one.0 n l one.1 in
        inr (inr (one.0, one.1, u, run))
  ]
