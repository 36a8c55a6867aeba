-- ===== src/Sql/Bind/Marks.antt =====
-- The placeholders in the text of a WHERE clause (src/sqlite/sqlite_readref.cpp).
use yan.Prelude.Int.{pos}
use yan.Ref.Param.{Param}
use yan.Ref.Struct.{YanStruct}
use yan.RefOps.{append_params}
use yan.Sql.Query.{SqlContext, append_query}
use yan.Prelude.{
  ok, ℕ, ◌+◌, ◌≡◌, refl, Bool, true, false, List, [], ◌∷◌, ◌++◌, if◌then◌else◌, All, arith,
}
use yan.Prelude.Text.{Text, bytes, count, count-append}
use yan.Types.{
  CondType, and, or, group, order_asc, order_desc, YanOpsType, equal, equal_list, large,
  large_or_equal, less, less_or_equal, get_yan_ops_str,
}
use yan.Sql.Query.Where.{
  Term, Reads, IsTerm, append_params-where_text, is_comparison, where_text, where_rest, body,
  body_of, joiner,
}

-- `?`
abbrev pub mark : ℕ
mark = 63

-- How many of the terms are comparisons.
unfoldable pub comparisons : List Term → ℕ
comparisons [] = 0
comparisons (t ∷ ts) = (if is_comparison t.cond then 1 else 0) + comparisons ts

abbrev pub IsUnmarked : Term → Type 0
IsUnmarked t = count mark t.name ≡ 0

ops_str_unmarked : (o : YanOpsType) (b : Bool) → count mark (get_yan_ops_str o b) ≡ 0
unfolding get_yan_ops_str count bytes
ops_str_unmarked equal true = refl
ops_str_unmarked equal false = refl
ops_str_unmarked equal_list true = refl
ops_str_unmarked equal_list false = refl
ops_str_unmarked large true = refl
ops_str_unmarked large false = refl
ops_str_unmarked large_or_equal true = refl
ops_str_unmarked large_or_equal false = refl
ops_str_unmarked less true = refl
ops_str_unmarked less false = refl
ops_str_unmarked less_or_equal true = refl
ops_str_unmarked less_or_equal false = refl
ops_str_unmarked o b = refl

joiner_unmarked : (c : CondType) → count mark (joiner c) ≡ 0
unfolding joiner count bytes
joiner_unmarked and = refl
joiner_unmarked or = refl
joiner_unmarked CondType.not = refl
joiner_unmarked group = refl
joiner_unmarked order_asc = refl
joiner_unmarked order_desc = refl
joiner_unmarked CondType.unknown = refl
joiner_unmarked (CondType.unnamed k) = refl

one_mark : count mark (bytes "?") ≡ 1
unfolding count bytes
one_mark = refl

compared :
    (n op : Text) → count mark n ≡ 0 → count mark op ≡ 0 → count mark (n ++ (op ++ bytes "?")) ≡ 1
compared n op h k =
    omega (
      arith,
      h,
      k,
      one_mark,
      count-append mark n (op ++ bytes "?"),
      count-append mark op (bytes "?"),
    )

ordering_words :
    (count mark (bytes " GROUP BY ") ≡ 0)
    × (count mark (bytes " ORDER BY ") ≡ 0)
    × (count mark (bytes " DESC ") ≡ 0)
unfolding count bytes
ordering_words = (refl, refl, refl)

marks-body :
    (n : Text) (c : CondType) (o : YanOpsType)
    → count mark n ≡ 0
    → count mark (body_of n c o) ≡ (if is_comparison c then 1 else 0)
unfolding body_of count
marks-body n and o h = compared n _ h (ops_str_unmarked o false)
marks-body n or o h = compared n _ h (ops_str_unmarked o false)
marks-body n CondType.not o h = compared n _ h (ops_str_unmarked o true)
marks-body n group o h = omega (arith, h, ordering_words, count-append mark (bytes " GROUP BY ") n)
marks-body n order_asc o h =
    omega (arith, h, ordering_words, count-append mark (bytes " ORDER BY ") n)
marks-body n order_desc o h = omega (
  arith,
  h,
  ordering_words,
  count-append mark n (bytes " DESC "),
  count-append mark (bytes " ORDER BY ") (n ++ bytes " DESC "),
)
marks-body n CondType.unknown o h = refl
marks-body n (CondType.unnamed k) o h = refl

marks-where_rest :
    (ts : List Term) → All IsUnmarked ts → count mark (where_rest ts) ≡ comparisons ts
unfolding where_rest comparisons count
marks-where_rest [] h = refl
marks-where_rest (t ∷ ts) h = omega (
  arith,
  count-append mark (joiner t.cond ++ body t) (where_rest ts),
  count-append mark (joiner t.cond) (body t),
  joiner_unmarked t.cond,
  marks-body t.name t.cond t.ops h.0,
  marks-where_rest ts h.1,
)

-- When no column's name has a question mark in it, the text of the conditions has one placeholder
-- for each comparison, and the orderings and groupings have none.
pub count-where_text :
    (ts : List Term) → All IsUnmarked ts → count mark (where_text ts) ≡ comparisons ts
unfolding where_text comparisons count
count-where_text [] h = refl
count-where_text (t ∷ ts) h = omega (
  arith,
  count-append mark (body t) (where_rest ts),
  marks-body t.name t.cond t.ops h.0,
  marks-where_rest ts h.1,
)

-- For a condition that begins with a comparison, and in which every term is a comparison or an
-- ordering and no column's name has a question mark in it, the walk that writes the condition
-- appends one placeholder for each comparison, and none for the orderings and groupings.
pub append_params-placeholders :
    (s : YanStruct) (ps : List Param) (t : Term) (ts : List Term) (sql : Text) (r : Bool)
    → Reads s ps (t ∷ ts)
    → is_comparison t.cond ≡ true
    → All IsTerm ts
    → All IsUnmarked (t ∷ ts)
    → (x : SqlContext) × (append_params append_query s ps
          (pos 0)
          (record { sql = sql; append_ret_first = r; append_cond_first = true })
        ≡ ok (pos 0, x))
      × (count mark x.sql ≡ count mark sql + comparisons (t ∷ ts))
append_params-placeholders s ps t ts sql r reads c terms u = (
  _,
  append_params-where_text s ps t ts sql r reads c terms,
  omega (arith, count-append mark sql (where_text (t ∷ ts)), count-where_text (t ∷ ts) u),
)
