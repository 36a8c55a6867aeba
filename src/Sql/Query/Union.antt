-- ===== src/Sql/Query/Union.antt =====
-- The statement of a union (src/sqlite/sqlite_readref.cpp), by the statements of its queries.
use yan.Prelude.{
  ◌≡◌, refl, sym, ap, ◌∙◌, Bool, true, false, List, [], ◌∷◌, ◌++◌, append_assoc, append-nil,
  if◌then◌else◌, Result, ok, err, ◌>>=◌,
}
use yan.Prelude.Text.{Text, bytes}
use yan.Cond.{ReadCond, has_cond, get_obj_name}
use yan.Sql.Query.Shift.{Appends, shift, lift, bind-shift}
use yan.Sql.Query.Shift.Conds.{append_where-shift}
use yan.Sql.Query.Shift.Columns.{select_columns-shift}
use yan.Sql.Query.{
  SqlContext, start, append_text, append_where, select_columns, make_query, more_queries,
  make_union,
}

append_text-shift :
    (t pre : Text) (x : SqlContext) → append_text t (shift pre x) ≡ shift pre (append_text t x)
unfolding append_text
append_text-shift t pre x = λ i. record x { sql = append_assoc pre x.sql t i }

-- What follows the columns of a query.
rest_of : ReadCond → Text → SqlContext → Result SqlContext
rest_of c name x =
    let x2 = append_text name (append_text (bytes " FROM ") x) in
    if has_cond c then append_where c (append_text (bytes " WHERE ") x2) else ok x2

rest_of-shift : (c : ReadCond) (name : Text) → Appends (rest_of c name)
unfolding rest_of
rest_of-shift c name pre x =
    let x2 = append_text name (append_text (bytes " FROM ") x) in
    let moved : append_text name (append_text (bytes " FROM ") (shift pre x)) ≡ shift pre x2 =
      ap (append_text name) (append_text-shift (bytes " FROM ") pre x)
      ∙ append_text-shift name pre _ in
    ap (λ y. if has_cond c then append_where c (append_text (bytes " WHERE ") y) else ok y) moved
    ∙ go (has_cond c) x2
  where
    go :
        (b : Bool) (y : SqlContext)
        → (if b
            then append_where c (append_text (bytes " WHERE ") (shift pre y))
            else ok (shift pre y))
          ≡ lift (shift pre) (if b then append_where c (append_text (bytes " WHERE ") y) else ok y)
    go true y =
        ap (append_where c) (append_text-shift (bytes " WHERE ") pre y) ∙ append_where-shift c pre _
    go false y = refl

named-shift : (c : ReadCond) (n : Result Text) → Appends (λ x. n >>= λ name. rest_of c name x)
named-shift c (ok name) = rest_of-shift c name
named-shift c (err e) = λ pre x. refl

make_query-shift : (c : ReadCond) → Appends (make_query c)
unfolding make_query rest_of
make_query-shift c pre x =
    bind-shift (select_columns c (append_text (bytes "SELECT ") x)) _ (shift pre) (shift pre) _
      (ap (select_columns c) (append_text-shift (bytes "SELECT ") pre x)
        ∙ select_columns-shift c pre _)
      (named-shift c (get_obj_name c) pre)

-- The statements of the queries on their own, or the first error.
pub texts : List ReadCond → Result (List Text)
texts [] = ok []
texts (c ∷ cs) = make_query c start >>= λ x. texts cs >>= λ ts. ok (x.sql ∷ ts)

pub tails : List Text → Text
tails [] = []
tails (t ∷ ts) = bytes " UNION " ++ (t ++ tails ts)

-- The texts with " UNION " between them.
pub joined : List Text → Text
unfolding tails
joined [] = []
joined (t ∷ ts) = t ++ tails ts

abbrev pub text_of : Result SqlContext → Result Text
text_of r = r >>= λ x. ok x.sql

more_queries-texts :
    (cs : List ReadCond) (x : SqlContext)
    → text_of (more_queries cs x) ≡ (texts cs >>= λ ts. ok (x.sql ++ tails ts))
unfolding more_queries texts tails append_text
more_queries-texts [] x = ap ok (sym (append-nil x.sql))
more_queries-texts (c ∷ cs) x =
    ap (λ m. text_of (m >>= λ x'. more_queries cs x')) head
    ∙ go (make_query c start) (more_queries-texts cs)
  where
    pre : Text
    pre = x.sql ++ bytes " UNION "

    head :
        make_query c (record (append_text (bytes " UNION ") x) {
          append_ret_first = true;
          append_cond_first = true;
        })
        ≡ lift (shift pre) (make_query c start)
    head =
        ap (make_query c) (λ i. record start { sql = sym (append-nil pre) i })
        ∙ make_query-shift c pre start

    tail :
        (t : Text) (r : Result (List Text))
        → (r >>= λ ts. ok ((pre ++ t) ++ tails ts))
          ≡ ((r >>= λ ts. ok (t ∷ ts)) >>= λ ts. ok (x.sql ++ tails ts))
    tail t (ok ts) = simp append_assoc
    tail t (err e) = refl

    go :
        (m : Result SqlContext)
        → ((z : SqlContext)
            → text_of (more_queries cs z) ≡ (texts cs >>= λ ts. ok (z.sql ++ tails ts)))
        → text_of (lift (shift pre) m >>= λ x'. more_queries cs x')
          ≡ ((m >>= λ y. texts cs >>= λ ts. ok (y.sql ∷ ts)) >>= λ ts. ok (x.sql ++ tails ts))
    go (ok y) ih = ih (shift pre y) ∙ tail y.sql (texts cs)
    go (err e) ih = refl

-- The statement of a union is the statement of each of its queries, in their order, with UNION
-- between two of them; it is written exactly when each of the queries on its own is, and otherwise
-- the first error of these is thrown.
pub make_union-joined :
    (c : ReadCond) (cs : List ReadCond)
    → text_of (make_union (c ∷ cs) start) ≡ (texts (c ∷ cs) >>= λ ts. ok (joined ts))
unfolding make_union texts joined
make_union-joined c cs = go (make_query c start)
  where
    tail :
        (t : Text) (r : Result (List Text))
        → (r >>= λ ts. ok (t ++ tails ts)) ≡ ((r >>= λ ts. ok (t ∷ ts)) >>= λ ts. ok (joined ts))
    tail t (ok ts) = refl
    tail t (err e) = refl

    go :
        (m : Result SqlContext)
        → text_of (m >>= λ x'. more_queries cs x')
          ≡ ((m >>= λ y. texts cs >>= λ ts. ok (y.sql ∷ ts)) >>= λ ts. ok (joined ts))
    go (ok y) = more_queries-texts cs y ∙ tail y.sql (texts cs)
    go (err e) = refl
