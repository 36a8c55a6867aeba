-- ===== src/Examples/Statements.antt =====
-- The theorems on statements (src/sqlite/sqlite_readref.h and .cpp) at conditions on one struct.
use yan.Prelude.{
  Throws, ◌+◌, true, ℕ, ◌≡◌, refl, leb, if◌then◌else◌, List, [], ◌∷◌, All, inl, inr, ok, ◌>>=◌,
  arith,
}
use yan.Prelude.Int.{pos}
use yan.Prelude.Text.{Text, bytes, count, text_eq}
use yan.Prelude.Decimal.{decimal}
use yan.Types.{
  get_yan_ops_str, int32, string, and, or, order_asc, large_or_equal, equal, cond_type, cond_code,
  ops_type, ops_code,
}
use yan.Ref.Word.{cond_word, get_mem_cond_type, get_mem_ops_type, u16_bytes}
use yan.Ref.Param.{Value, integer, chars, one, Param}
use yan.Ref.Struct.{member_at, get_name, struct_name}
use yan.Ref.Object.{Object, fresh, compare_with, set_cond}
use yan.Ref.Object.Hash.{hash_of}
use yan.Ref.Object.Calls.{run, call}
use yan.Cond.{ReadCond, object, new_cond, append, hash_value}
use yan.RefOps.{append_params}
use yan.Sql.Query.{SqlContext, append_query, start, make_query, make_delete, make_union}
use yan.Sql.Query.Same.{same_hash_same_sql}
use yan.Sql.Query.Union.{text_of, texts, joined, make_union-joined}
use yan.Sql.Query.Where.{Term, body_of, joiner, Reads, where_text}
use yan.Sql.Query.Select.{query_of, select_text, make_query-select_text}
use yan.Sql.Bind.{bind_cond, start as bind_start}
use yan.Sql.Bind.Marks.{mark, IsUnmarked, comparisons, append_params-placeholders}
use yan.Sql.Bind.Positions.{Holds, numbered, bind_cond-numbered}
use yan.Sql.Bind.Orderings.{Refuses, ordering-Throws}
use yan.Examples.Objects.{person, age_info, nick_info, grown, older, person-IsObject}

-- What the objects of the two uses hold.
abbrev pub conds_of : ℕ → Text → List Param
conds_of n t =
    record {
      name = bytes "age";
      type_ = int32;
      cond = cond_word (cond_code and) (ops_code large_or_equal);
      seq = 0;
      value = one (integer (pos n));
    }
    ∷ record {
      name = bytes "nick";
      type_ = string;
      cond = cond_word (cond_code or) (ops_code equal);
      seq = 1;
      value = one (chars t);
    }
    ∷ []

abbrev pub cond_with : ℕ → Text → ReadCond
cond_with n t = query_of person person (conds_of n t) (hash_of (conds_of n t))

abbrev pub grown_person : Object
grown_person = run person grown (fresh person)

abbrev pub older_person : Object
older_person = run person older (fresh person)

pub grown_conds :
    append (new_cond (object person)) ((person, grown_person) ∷ []) ≡ ok (cond_with 18 (bytes "bo"))
unfolding run fresh bytes append call hash_of compare_with member_at set_cond cond_code new_cond
    u16_bytes
grown_conds = refl

pub older_conds :
    append (new_cond (object person)) ((person, older_person) ∷ []) ≡ ok (cond_with 40 (bytes "al"))
unfolding run fresh bytes append call hash_of compare_with member_at set_cond cond_code new_cond
    u16_bytes
older_conds = refl

pub one_key : hash_value (cond_with 18 (bytes "bo")) ≡ hash_value (cond_with 40 (bytes "al"))
unfolding hash_value hash_of
one_key = refl

same_hash_same_sql_example :
    (make_query (cond_with 18 (bytes "bo")) start ≡ make_query (cond_with 40 (bytes "al")) start)
    × (make_delete (cond_with 18 (bytes "bo")) start
        ≡ make_delete (cond_with 40 (bytes "al")) start)
same_hash_same_sql_example =
    same_hash_same_sql person (object person) grown_person older_person (person-IsObject grown)
      (person-IsObject older) grown_conds older_conds one_key start

abbrev pub age_term : Term
age_term = record { name = bytes "age"; cond = and; ops = large_or_equal }

abbrev pub nick_term : Term
nick_term = record { name = bytes "nick"; cond = or; ops = equal }

pub reads : (n : ℕ) (t : Text) → Reads person (conds_of n t) (age_term ∷ nick_term ∷ [])
unfolding member_at get_name bytes cond_type ops_type get_mem_cond_type get_mem_ops_type cond_word
    cond_code ops_code
reads n t = ((age_info, refl, refl, refl), ((nick_info, refl, refl, refl), tt))

make_query-select_text_example :
    text_of (make_query (cond_with 18 (bytes "bo")) start)
    ≡ ok (select_text person person (age_term ∷ nick_term ∷ []))
unfolding text_eq bytes
make_query-select_text_example =
    make_query-select_text person person (conds_of 18 (bytes "bo"))
      (hash_of (conds_of 18 (bytes "bo"))) age_term (nick_term ∷ []) age_info (nick_info ∷ []) refl
      refl (reads 18 (bytes "bo")) refl (inl refl, tt)

-- The text, spelled out.
select_text-person :
    select_text person person (age_term ∷ nick_term ∷ [])
    ≡ bytes "SELECT * FROM Person WHERE age >= ? OR nick == ?"
unfolding select_text bytes struct_name body_of get_yan_ops_str joiner
select_text-person = refl

make_union-joined_example :
    text_of (make_union (cond_with 18 (bytes "bo") ∷ cond_with 40 (bytes "al") ∷ []) start)
    ≡ (texts (cond_with 18 (bytes "bo") ∷ cond_with 40 (bytes "al") ∷ []) >>= λ ts. ok (joined ts))
make_union-joined_example =
    make_union-joined (cond_with 18 (bytes "bo")) (cond_with 40 (bytes "al") ∷ [])

unmarked : All IsUnmarked (age_term ∷ nick_term ∷ [])
unfolding count bytes
unmarked = (refl, (refl, tt))

append_params-placeholders_example :
    (x : SqlContext) × (append_params append_query person
        (conds_of 18 (bytes "bo"))
        (pos 0)
        (record {
          sql = bytes "SELECT * FROM Person WHERE ";
          append_ret_first = true;
          append_cond_first = true;
        })
      ≡ ok (pos 0, x))
    × (count mark x.sql
        ≡ count mark (bytes "SELECT * FROM Person WHERE ")
          + comparisons (age_term ∷ nick_term ∷ []))
append_params-placeholders_example =
    append_params-placeholders person (conds_of 18 (bytes "bo")) age_term (nick_term ∷ [])
      (bytes "SELECT * FROM Person WHERE ") true (reads 18 (bytes "bo")) refl (inl refl, tt)
      unmarked

-- A database that takes every value at the first position, and none behind it.
abbrev one_place : ℕ → Value → ℕ
one_place k v = if leb k 1 then 0 else 25

abbrev code_text : ℕ → Text
code_text n = decimal n

abbrev all_places : ℕ → Value → ℕ
all_places k v = 0

abbrev bo_values : List Value
bo_values = chars (bytes "bo") ∷ []

holds : Holds person (conds_of 18 (bytes "bo")) (integer (pos 18) ∷ bo_values)
unfolding member_at
holds = ((age_info, refl, refl, refl), ((nick_info, refl, refl, refl), tt))

bind_cond-numbered_example :
    bind_cond all_places code_text (cond_with 18 (bytes "bo")) bind_start
    ≡ ok (record { index = 2; bound = numbered 0 (integer (pos 18) ∷ bo_values) })
bind_cond-numbered_example =
    bind_cond-numbered all_places code_text (object person) person _ _
      (hash_of (conds_of 18 (bytes "bo"))) (integer (pos 18)) bo_values holds (refl, (refl, tt))

-- `age >= 18`, in the order of the nicks
abbrev ordered_conds : List Param
ordered_conds =
    record {
      name = bytes "age";
      type_ = int32;
      cond = cond_word (cond_code and) (ops_code large_or_equal);
      seq = 0;
      value = one (integer (pos 18));
    }
    ∷ record {
      name = bytes "nick";
      type_ = string;
      cond = cond_word (cond_code order_asc) (ops_code equal);
      seq = 1;
      value = one (chars []);
    }
    ∷ []

abbrev order_term : Term
order_term = record { name = bytes "nick"; cond = order_asc; ops = equal }

ordered-Reads : Reads person ordered_conds (age_term ∷ order_term ∷ [])
unfolding member_at get_name bytes cond_type ops_type get_mem_cond_type get_mem_ops_type cond_word
    cond_code ops_code
ordered-Reads = ((age_info, refl, refl, refl), ((nick_info, refl, refl, refl), tt))

ordered_holds : Holds person ordered_conds (integer (pos 18) ∷ chars [] ∷ [])
unfolding member_at
ordered_holds = ((age_info, refl, refl, refl), ((nick_info, refl, refl, refl), tt))

ordered-IsUnmarked : All IsUnmarked (age_term ∷ order_term ∷ [])
unfolding count bytes
ordered-IsUnmarked = (refl, (refl, tt))

one_mark_only : count mark (where_text (age_term ∷ order_term ∷ [])) ≡ 1
unfolding count bytes where_text body_of get_yan_ops_str joiner
one_mark_only = refl

refuses : Refuses one_place code_text (count mark (where_text (age_term ∷ order_term ∷ [])))
refuses k v less = λ taken. ground (arith, one_mark_only, less, taken)

ordering-Throws_example :
    Throws (bind_cond one_place code_text (query_of person person ordered_conds []) bind_start)
ordering-Throws_example =
    ordering-Throws one_place code_text (object person) person ordered_conds []
      (age_term ∷ order_term ∷ []) (integer (pos 18) ∷ chars [] ∷ []) ordered-Reads ordered_holds
      (inr (inl refl)) ordered-IsUnmarked refuses
