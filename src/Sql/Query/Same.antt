-- ===== src/Sql/Query/Same.antt =====
-- The key under which a SELECT is kept (`hash_value` of src/base/ref_ops.h) and its text.
use yan.Prelude.{
  ◌≡◌, refl, sym, fun_ext, ap, ◌∙◌, Option-cases, inl, inr, some, List, [], ◌∷◌, ◌++◌, map, All,
  Result, ok, err, if◌then◌else◌, ◌>>=◌, arith,
}
use yan.Prelude.Int.{ℤ, pos, is_neg}
use yan.Prelude.Text.{Text, bytes}
use yan.Ref.Param.{Param, ParamValue}
use yan.Ref.Struct.{YanStruct, struct_name, member_at}
use yan.Ref.Object.{Object}
use yan.Ref.Object.Hash.{hash_of, hash_of_injective, key, IsWords}
use yan.Ref.Object.Invariant.{IsObject, IsParam}
use yan.Cond.{
  ReadCond, RetType, new_cond, append, hash_value, has_cond, get_obj_name, ret_equal_to_cond,
  get_read_members,
}
use yan.RefOps.{append_params, append_cond, handle_param}
use yan.Sql.Query.{
  SqlContext, append_query, make_query, make_delete, select_columns, append_where, append_text,
  checked,
}

append_left_cancel : (t a b : Text) → t ++ a ≡ t ++ b → a ≡ b
append_left_cancel [] a b e = e
append_left_cancel (c ∷ t) a b e = append_left_cancel t a b (ground arith)

-- A parameter's own name and value are not read when the query is written.
query_ignores :
    (s : YanStruct) (p : Param) (n : Text) (v : ParamValue) (ret : ℤ) (x : SqlContext)
    → handle_param append_query s p ret x
      ≡ handle_param append_query s (record p { name = n; value = v }) ret x
unfolding handle_param append_query
query_ignores s p n v ret x = refl

same_param :
    (s : YanStruct) (p q : Param) (ret : ℤ) (x : SqlContext)
    → p.type_ ≡ q.type_
    → p.seq ≡ q.seq
    → p.cond ≡ q.cond
    → handle_param append_query s p ret x ≡ handle_param append_query s q ret x
same_param s p q ret x e f g =
    query_ignores s p q.name q.value ret x ∙ ap (λ r. handle_param append_query s r ret x) fields
  where
    fields : record p { name = q.name; value = q.value } ≡ q
    fields = λ i. record q { type_ = e i; seq = f i; cond = g i }

same_type :
    (s : YanStruct) (p q : Param) → IsParam s p → IsParam s q → p.seq ≡ q.seq → p.type_ ≡ q.type_
same_type s p q (i, at, n, t, w) (j, at', n', t', w') e =
    let same_info : ok i ≡ ok j = sym at ∙ ap (member_at s) e ∙ at' in cc

same_params :
    (s : YanStruct) (ps qs : List Param) (ret : ℤ) (x : SqlContext)
    → All (IsParam s) ps
    → All (IsParam s) qs
    → map key ps ≡ map key qs
    → append_params append_query s ps ret x ≡ append_params append_query s qs ret x
unfolding append_params
same_params s [] [] ret x hp hq e = refl
same_params s [] (q ∷ qs) ret x hp hq e = absurd (cc)
same_params s (p ∷ ps) [] ret x hp hq e = absurd (cc)
same_params s (p ∷ ps) (q ∷ qs) ret x hp hq e =
    let seqs : p.seq ≡ q.seq = ground arith in
    let conds : p.cond ≡ q.cond = ground arith in
    let rests : map key ps ≡ map key qs = ground arith in
    rw (same_param s p q ret x (same_type s p q hp.0 hq.0 seqs) seqs conds) (
      same_bind (handle_param append_query s q ret x) ps qs
        (λ r y. same_params s ps qs r y hp.1 hq.1 rests))
  where
    same_bind :
        (m : Result (ℤ × SqlContext)) (ps qs : List Param)
        → ((r : ℤ) (y : SqlContext)
            → append_params append_query s ps r y ≡ append_params append_query s qs r y)
        → (m >>= λ (r, y).
            (let rest = append_params append_query s ps r y in
              if is_neg r then ok (r, y) else rest))
          ≡ (m >>= λ (r, y).
              (let rest = append_params append_query s qs r y in
                if is_neg r then ok (r, y) else rest))
    same_bind (ok (r, y)) ps qs h = rw (h r y)
    same_bind (err e) ps qs h = refl

module _ (s : YanStruct) (r : RetType) where
  -- The condition of a call with one object.
  abbrev cond_of : Object → ReadCond
  cond_of o = record { ret = r; cys = some s; params = o.conds; hash = o.hashv }

  with_object :
      (o : Object) {c : ReadCond}
      → append (new_cond r) ((s, o) ∷ []) ≡ ok c
      → (ps : List Param) × (o.conds ≡ some ps) × (cond_of o ≡ c)
  unfolding append new_cond
  with_object o e = elim (Option-cases o.conds) [
    | inl nothing ↦ absurd (ground arith)
    | inr (ps, e') ↦ (ps, e', ground arith)
  ]

  same_hash :
      (o1 o2 : Object) → hash_value (cond_of o1) ≡ hash_value (cond_of o2) → o1.hashv ≡ o2.hashv
  unfolding hash_value
  same_hash o1 o2 e =
      elim r
          as (λ k.
            hash_value (record (cond_of o1) { ret = k })
              ≡ hash_value (record (cond_of o2) { ret = k })
            → o1.hashv ≡ o2.hashv) [
              | RetType.count ↦ λ h. append_left_cancel (struct_name s) o1.hashv o2.hashv h
              | RetType.object t ↦ λ h.
                  append_left_cancel (struct_name s) o1.hashv o2.hashv
                    (append_left_cancel (struct_name t) _ _ h)
            ]
        e

  walk_of : List Param → SqlContext → Result (ℤ × SqlContext)
  walk_of ps = append_params append_query s ps (pos 0)

  abbrev written : List Param → Text → ReadCond
  written ps h = record { ret = r; cys = some s; params = some ps; hash = h }

  cond_of-eq : (o : Object) (ps : List Param) → o.conds ≡ some ps → cond_of o ≡ written ps o.hashv
  cond_of-eq o ps e = λ i. record { ret = r; cys = some s; params = e i; hash = o.hashv }

  -- The two statements as functions of the walk over the parameters.
  query_by : (SqlContext → Result (ℤ × SqlContext)) → SqlContext → Result SqlContext
  query_by walk x = do
    x1 ← select_columns (written [] []) (append_text (bytes "SELECT ") x)
    let x2 = append_text (struct_name s) (append_text (bytes " FROM ") x1)
    walk (append_text (bytes " WHERE ") x2) >>= λ w.
        checked "sqlite append condition for query sql failed: " w

  make_query-written :
      (ps : List Param) (h : Text) (x : SqlContext)
      → make_query (written ps h) x ≡ query_by (walk_of ps) x
  unfolding make_query query_by walk_of has_cond get_obj_name select_columns append_where
      append_cond ret_equal_to_cond get_read_members
  make_query-written ps h x = refl

  delete_by : (SqlContext → Result (ℤ × SqlContext)) → SqlContext → Result SqlContext
  delete_by walk x =
      walk (
        append_text (bytes " WHERE ")
          (append_text (struct_name s) (append_text (bytes "DELETE FROM ") x)))
      >>= λ w. checked "sqlite append condition for delete sql failed: " w

  make_delete-written :
      (ps : List Param) (h : Text) (x : SqlContext)
      → make_delete (written ps h) x ≡ delete_by (walk_of ps) x
  unfolding make_delete delete_by walk_of has_cond get_obj_name append_cond
  make_delete-written ps h x = refl

  same_walk :
      (ps qs : List Param)
      → All (IsParam s) ps
      → All (IsParam s) qs
      → hash_of ps ≡ hash_of qs
      → walk_of ps ≡ walk_of qs
  unfolding walk_of
  same_walk ps qs hp hq e = fun_ext λ x.
      same_params s ps qs (pos 0) x hp hq (hash_of_injective ps qs (words ps hp) (words qs hq) e)
    where
      words : (ps : List Param) → All (IsParam s) ps → All IsWords ps
      words [] h = tt
      words (p ∷ ps) ((i, a, n, t, w), h) = (w, words ps h)

  -- Two reads of one return type whose conditions were made on objects of one table have the same
  -- key only if they have the same statement: the text of the query, or the error, is the same, and
  -- so is that of a deletion under these conditions.
  pub same_hash_same_sql :
      (o1 o2 : Object)
      → IsObject s o1
      → IsObject s o2
      → {c1 c2 : ReadCond} → append (new_cond r) ((s, o1) ∷ []) ≡ ok c1
      → append (new_cond r) ((s, o2) ∷ []) ≡ ok c2
      → hash_value c1 ≡ hash_value c2
      → (x : SqlContext)
      → (make_query c1 x ≡ make_query c2 x) × (make_delete c1 x ≡ make_delete c2 x)
  same_hash_same_sql o1 o2 v1 v2 {c1} {c2} e1 e2 h x =
      let (ps, p1, q1) = with_object o1 e1 in
      let (qs, p2, q2) = with_object o2 e2 in
      let bytes_eq : o1.hashv ≡ o2.hashv =
        same_hash o1 o2 (ap hash_value q1 ∙ h ∙ ap hash_value (sym q2)) in
      let w1 : c1 ≡ written ps o1.hashv = sym q1 ∙ cond_of-eq o1 ps p1 in
      let w2 : c2 ≡ written qs o2.hashv = sym q2 ∙ cond_of-eq o2 qs p2 in
      let words_eq : hash_of ps ≡ hash_of qs =
        sym (rw p1 at v1.hashed) ∙ bytes_eq ∙ (rw p2 at v2.hashed) in
      let walks = same_walk ps qs (rw p1 at v1.params) (rw p2 at v2.params) words_eq in
      (
        ap (λ c. make_query c x) w1
            ∙ make_query-written ps o1.hashv x
            ∙ ap (λ w. query_by w x) walks
            ∙ sym (ap (λ c. make_query c x) w2 ∙ make_query-written qs o2.hashv x),
        ap (λ c. make_delete c x) w1
            ∙ make_delete-written ps o1.hashv x
            ∙ ap (λ w. delete_by w x) walks
            ∙ sym (ap (λ c. make_delete c x) w2 ∙ make_delete-written qs o2.hashv x),
      )
