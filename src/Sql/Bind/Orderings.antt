-- ===== src/Sql/Bind/Orderings.antt =====
-- What BindSqlParam (src/sqlite/sqlite_readref.h) does with the parameters of a query whose
-- conditions group or order its rows.
use yan.Prelude.{
  Throws, ℕ, zero, suc, ◌+◌, ◌≡◌, ◌≢◌, refl, sym, ap, ◌⊎◌, inl, inr, true, some, List, [], ◌∷◌,
  ◌++◌, ◌==◌, ◌<◌, ◌≤◌, if◌then◌else◌, All, length, Error, subst, Result, ok, err, runtime_error,
  ◌>>=◌, arith,
}
use yan.Prelude.Int.{ℤ, pos, is_neg}
use yan.Prelude.Text.{Text, bytes, count}
use yan.Prelude.Decimal.{to_string}
use yan.Types.{CondType, group, order_asc, order_desc}
use yan.Ref.Param.{Param, Value}
use yan.Ref.Struct.{YanStruct, get_name}
use yan.Cond.{RetType, has_cond}
use yan.RefOps.{append_params, append_cond}
use yan.Sql.Query.Where.{Term, Reads, is_comparison, is_ordering, where_text}
use yan.Sql.Bind.Marks.{mark, comparisons, IsUnmarked, count-where_text}
use yan.Sql.Bind.Positions.{Holds, bind_param}
use yan.Sql.Bind.{BindContext, start, append_bind, bind_cond, bind_error}

module _ (bind : ℕ → Value → ℕ) (errstr : ℕ → Text) where
  -- No value is taken at a position behind the last placeholder of a statement that has `n`.
  abbrev pub Refuses : ℕ → Type 0
  Refuses n = (k : ℕ) (v : Value) → n < k → bind k v ≢ 0

  too_many :
      (n : ℕ)
      → Refuses n
      → (s : YanStruct) (ps : List Param) (vs : List Value) (x : BindContext) → Holds s ps vs
      → x.index ≤ n
      → n < x.index + length vs
      → Throws (append_params (append_bind bind errstr) s ps (pos 0) x)
  unfolding append_params
  too_many n refuses s [] [] x h le lt = absurd (omega arith)
  too_many n refuses s [] (v ∷ vs) x h le lt = absurd h
  too_many n refuses s (p ∷ ps) [] x h le lt = absurd h
  too_many n refuses s (p ∷ ps) (v ∷ vs) x ((info, e, b, same), h) le lt =
      subst (λ m. Throws (m >>= walk)) (sym (bind_param bind errstr s p v (pos 0) x info e b same))
        (go (bind (x.index + 1) v) refl
          (λ fits. too_many n refuses s ps vs next h fits (omega arith)))
    where
      walk : ℤ × BindContext → Result (ℤ × BindContext)
      walk (q, x') =
          let rest = append_params (append_bind bind errstr) s ps q x' in
          if is_neg q then ok (q, x') else rest

      next : BindContext
      next = record { index = x.index + 1; bound = x.bound ++ (x.index + 1, v) ∷ [] }

      failure : ℕ → Error
      failure code = runtime_error (bind_error bind errstr (get_name info) (x.index + 1) code)

      go :
          (code : ℕ)
          → bind (x.index + 1) v ≡ code
          → (next.index ≤ n → Throws (walk (pos 0, next)))
          → Throws (
              if◌then◌else◌ {A = Result (ℤ × BindContext)}
                (code == 0)
                (ok (pos 0, next))
                (err (failure code))
              >>= walk)
      go zero zeroed ih =
          let fits : ¬ (n < x.index + 1) = λ less. refuses (x.index + 1) v less zeroed in
          ih (omega arith)
      go (suc c) other ih = (failure (suc c), ground arith)

-- Some term is an ordering or a grouping.
abbrev pub HasOrdering : List Term → Type 0
HasOrdering [] = ⊥
HasOrdering (t ∷ ts) = (is_ordering t.cond ≡ true) ⊎ HasOrdering ts

comparisons-le_length : (ts : List Term) → comparisons ts ≤ length ts
unfolding comparisons
comparisons-le_length [] = omega arith
comparisons-le_length (t ∷ ts) = ground (arith, comparisons-le_length ts)

comparisons-lt_length : (ts : List Term) → HasOrdering ts → comparisons ts < length ts
unfolding comparisons
comparisons-lt_length [] h = absurd h
comparisons-lt_length (t ∷ ts) (inl o) = go t.cond o
  where
    go :
        (c : CondType)
        → is_ordering c ≡ true
        → (if is_comparison c then 1 else 0) + comparisons ts < suc (length ts)
    go group o = omega (arith, comparisons-le_length ts)
    go order_asc o = omega (arith, comparisons-le_length ts)
    go order_desc o = omega (arith, comparisons-le_length ts)
    go c o = absurd (cc)
comparisons-lt_length (t ∷ ts) (inr h) = ground (arith, comparisons-lt_length ts h)

length-Reads :
    (s : YanStruct) (ps : List Param) (ts : List Term) (vs : List Value)
    → Reads s ps ts
    → Holds s ps vs
    → length ts ≡ length vs
length-Reads s [] [] [] h k = refl
length-Reads s [] [] (v ∷ vs) h k = absurd k
length-Reads s [] (t ∷ ts) vs h k = absurd h
length-Reads s (p ∷ ps) [] vs h k = absurd h
length-Reads s (p ∷ ps) (t ∷ ts) [] h k = absurd k
length-Reads s (p ∷ ps) (t ∷ ts) (v ∷ vs) (g, h) (l, k) = ap suc (length-Reads s ps ts vs h k)

module _ (bind : ℕ → Value → ℕ) (errstr : ℕ → Text) where
  -- A query that groups or orders its rows binds more values than its text has placeholders, when
  -- no column's name has a question mark in it: over a database that takes no value behind the last
  -- placeholder, the binding throws, whatever the values are.
  pub ordering-Throws :
      (r : RetType) (s : YanStruct) (ps : List Param) (hash : Text) (ts : List Term)
      (vs : List Value)
      → Reads s ps ts
      → Holds s ps vs
      → HasOrdering ts
      → All IsUnmarked ts
      → Refuses bind errstr (count mark (where_text ts))
      → Throws (
          bind_cond bind errstr
            (record { ret = r; cys = some s; params = some ps; hash = hash })
            start)
  unfolding bind_cond append_cond has_cond
  ordering-Throws r s ps hash ts vs reads holds o u refuses =
      let (e, same) =
        too_many bind errstr (count mark (where_text ts)) refuses s ps vs start holds (omega arith)
          (omega (
            arith,
            count-where_text ts u,
            comparisons-lt_length ts o,
            length-Reads s ps ts vs reads holds,
          )) in
      (
        e,
        ap
            (λ m. m >>= λ (q, x').
              if is_neg q
              then err (
                  runtime_error
                    (bytes "sqlite bind condition for query sql failed: " ++ to_string q))
              else if x'.index == 0
              then err (runtime_error (bytes "no parameter was binded"))
              else ok x')
            same,
      )
