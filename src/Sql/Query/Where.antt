-- ===== src/Sql/Query/Where.antt =====
-- The text that the conditions of a query become (src/sqlite/sqlite_readref.cpp), written down as
-- one expression of the terms that the user asked for.
use yan.Prelude.{
  ◌≡◌, sym, ap, ◌∙◌, ◌⊎◌, Bool, true, false, List, [], ◌∷◌, ◌++◌, append_assoc, append-nil,
  if◌then◌else◌, All, ok, ◌>>=◌, arith,
}
use yan.Prelude.Int.{ℤ, pos, is_neg}
use yan.Prelude.Text.{Text, bytes}
use yan.Types.{
  CondType, and, or, group, order_asc, order_desc, cond_type, YanOpsType, ops_type, get_yan_ops_str,
}
use yan.Ref.Word.{get_mem_cond_type, get_mem_ops_type}
use yan.Ref.Param.{Param}
use yan.Ref.Struct.{MemberInfo, YanStruct, get_name, member_at}
use yan.RefOps.{append_params, handle_param, is_plain}
use yan.RefOps.Plain.{handle_param-plain}
use yan.Sql.Query.{
  SqlContext, append_text, append_compare, append_ordering, append_cond_sql, append_query,
}

-- What a parameter says: the column, and what the user wrote of it.
pub record Term : Type 0 where
  pub name : Text
  pub cond : CondType
  pub ops : YanOpsType

-- The parameters `ps` of a condition on `s` say `ts`.
abbrev pub Reads : YanStruct → List Param → List Term → Type 0
Reads s [] [] = Unit
Reads s [] (t ∷ ts) = ⊥
Reads s (p ∷ ps) [] = ⊥
Reads s (p ∷ ps) (t ∷ ts) =
    ((info : MemberInfo) × (member_at s p.seq ≡ ok info)
      × (is_plain p.type_ ≡ true)
      × (t ≡ record {
        name = get_name info;
        cond = cond_type (get_mem_cond_type p.cond);
        ops = ops_type (get_mem_ops_type p.cond);
      }))
    × Reads s ps ts

-- AND, OR and NOT are comparisons, and the rest of the six are orderings.
abbrev pub is_comparison : CondType → Bool
is_comparison and = true
is_comparison or = true
is_comparison CondType.not = true
is_comparison c = false

abbrev pub is_ordering : CondType → Bool
is_ordering group = true
is_ordering order_asc = true
is_ordering order_desc = true
is_ordering c = false

abbrev pub IsTerm : Term → Type 0
IsTerm t = (is_comparison t.cond ≡ true) ⊎ (is_ordering t.cond ≡ true)

unfoldable pub joiner : CondType → Text
joiner and = bytes " AND "
joiner or = bytes " OR "
joiner CondType.not = bytes " AND "
joiner c = []

unfoldable pub body_of : Text → CondType → YanOpsType → Text
body_of n and o = n ++ (get_yan_ops_str o false ++ bytes "?")
body_of n or o = n ++ (get_yan_ops_str o false ++ bytes "?")
body_of n CondType.not o = n ++ (get_yan_ops_str o true ++ bytes "?")
body_of n group o = bytes " GROUP BY " ++ n
body_of n order_asc o = bytes " ORDER BY " ++ n
body_of n order_desc o = bytes " ORDER BY " ++ (n ++ bytes " DESC ")
body_of n c o = []

abbrev pub body : Term → Text
body t = body_of t.name t.cond t.ops

unfoldable pub where_rest : List Term → Text
where_rest [] = []
where_rest (t ∷ ts) = (joiner t.cond ++ body t) ++ where_rest ts

unfoldable pub where_text : List Term → Text
unfolding where_rest
where_text [] = []
where_text (t ∷ ts) = body t ++ where_rest ts

abbrev pub later : Text → Bool → SqlContext
later sql r = record { sql = sql; append_ret_first = r; append_cond_first = false }

later_term :
    (n : Text) (c : CondType) (o : YanOpsType) (sql : Text) (r : Bool)
    → (is_comparison c ≡ true) ⊎ (is_ordering c ≡ true)
    → append_cond_sql n c o (later sql r) ≡ ok (later (sql ++ (joiner c ++ body_of n c o)) r)
unfolding append_cond_sql append_compare append_ordering append_text joiner body_of
later_term n and o sql r h = simp append_assoc
later_term n or o sql r h = simp append_assoc
later_term n CondType.not o sql r h = simp append_assoc
later_term n group o sql r h = simp append_assoc
later_term n order_asc o sql r h = simp append_assoc
later_term n order_desc o sql r h = simp append_assoc
later_term n CondType.unknown o sql r h = absurd (ground arith)
later_term n (CondType.unnamed k) o sql r h = absurd (ground arith)

first_term :
    (n : Text) (c : CondType) (o : YanOpsType) (sql : Text) (r : Bool)
    → is_comparison c ≡ true
    → append_cond_sql n c o (record { sql = sql; append_ret_first = r; append_cond_first = true })
      ≡ ok (later (sql ++ body_of n c o) r)
unfolding append_cond_sql append_compare append_text body_of
first_term n and o sql r h = simp append_assoc
first_term n or o sql r h = simp append_assoc
first_term n CondType.not o sql r h = simp append_assoc
first_term n group o sql r h = absurd (cc)
first_term n order_asc o sql r h = absurd (cc)
first_term n order_desc o sql r h = absurd (cc)
first_term n CondType.unknown o sql r h = absurd (cc)
first_term n (CondType.unnamed k) o sql r h = absurd (cc)

-- One round of the walk, by what the parameter says.
pub read_param :
    (s : YanStruct) (p : Param) (t : Term) (ret : ℤ) (x : SqlContext)
    → (info : MemberInfo) → member_at s p.seq ≡ ok info
    → is_plain p.type_ ≡ true
    → t ≡ record {
      name = get_name info;
      cond = cond_type (get_mem_cond_type p.cond);
      ops = ops_type (get_mem_ops_type p.cond);
    }
    → handle_param append_query s p ret x
      ≡ (append_cond_sql t.name t.cond t.ops x >>= λ x'. ok (pos 0, x'))
unfolding append_query
read_param s p t ret x info e h same =
    handle_param-plain append_query s p info e ret x h
    ∙ ap (λ (u : Term). append_cond_sql u.name u.cond u.ops x >>= λ x'. ok (pos 0, x')) (sym same)

later_params :
    (s : YanStruct) (ps : List Param) (ts : List Term) (sql : Text) (r : Bool)
    → Reads s ps ts
    → All IsTerm ts
    → append_params append_query s ps (pos 0) (later sql r)
      ≡ ok (pos 0, later (sql ++ where_rest ts) r)
unfolding append_params where_rest
later_params s [] [] sql r h k = ap (λ q. ok (pos 0, later q r)) (sym (append-nil sql))
later_params s [] (t ∷ ts) sql r h k = absurd h
later_params s (p ∷ ps) [] sql r h k = absurd h
later_params s (p ∷ ps) (t ∷ ts) sql r ((info, e, plain, same), h) k =
    ap
      (λ m. m >>= λ (q, x').
        (let rest = append_params append_query s ps q x' in if is_neg q then ok (q, x') else rest))
      (read_param s p t (pos 0) _ info e plain same
        ∙ ap (λ m. m >>= λ x'. ok (pos 0, x')) (later_term t.name t.cond t.ops sql r k.0))
    ∙ later_params s ps ts (sql ++ (joiner t.cond ++ body t)) r h k.1
    ∙ ap (λ q. ok (pos 0, later q r)) (append_assoc sql (joiner t.cond ++ body t) (where_rest ts))

-- From the start of a WHERE clause, with a comparison first, the walk over the parameters appends
-- the text of their terms.
pub append_params-where_text :
    (s : YanStruct) (ps : List Param) (t : Term) (ts : List Term) (sql : Text) (r : Bool)
    → Reads s ps (t ∷ ts)
    → is_comparison t.cond ≡ true
    → All IsTerm ts
    → append_params append_query s ps
        (pos 0)
        (record { sql = sql; append_ret_first = r; append_cond_first = true })
      ≡ ok (pos 0, later (sql ++ where_text (t ∷ ts)) r)
unfolding append_params where_text
append_params-where_text s [] t ts sql r h c k = absurd h
append_params-where_text s (p ∷ ps) t ts sql r ((info, e, plain, same), h) c k =
    ap
      (λ m. m >>= λ (q, x').
        (let rest = append_params append_query s ps q x' in if is_neg q then ok (q, x') else rest))
      (read_param s p t (pos 0) _ info e plain same
        ∙ ap (λ m. m >>= λ x'. ok (pos 0, x')) (first_term t.name t.cond t.ops sql r c))
    ∙ later_params s ps ts (sql ++ body t) r h k
    ∙ ap (λ q. ok (pos 0, later q r)) (append_assoc sql (body t) (where_rest ts))
