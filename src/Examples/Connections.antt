-- ===== src/Examples/Connections.antt =====
-- The theorems on connections (src/sqlite/sqlite_context.h, src/com/conn_pool.h) and on INSERT, over
-- a small database.
use yan.Prelude.{
  Outcome, ℕ, ◌+◌, ◌≡◌, refl, sym, ap, Bool, true, false, none, some, get_elem?, List, [], ◌∷◌,
  ◌++◌, All, Result, ok, err, runtime_error,
}
use yan.Prelude.Int.{pos}
use yan.Prelude.Text.{Text, bytes}
use yan.Prelude.Decimal.{decimal, to_string}
use yan.Ref.Param.{integer, chars}
use yan.Ref.Struct.{get_name, struct_name, member_at}
use yan.Ref.Object.{Object, member_of}
use yan.Cond.{object, ReadCond}
use yan.Sql.Query.{start, make_query}
use yan.Sql.Query.Same.{same_hash_same_sql}
use yan.Sql.Insert.{literal, make_insert_list}
use yan.Sql.Insert.Cells.{Cell}
use yan.Sql.Insert.Rows.{Rows, insert_text, make_insert_list-insert_text}
use yan.Context.{Sqlite, SqliteContext, find, obtain, execute}
use yan.Context.Calls.{
  statements, Suits, statements-Suits, reused_after_success, forgotten_after_failure,
}
use yan.Context.Keys.{sql_of, read_key}
use yan.ConnPool.{
  new_pool, Thread, outside, getting, in_get, got, System, Steps, here, further, thread, call_get,
  lock_get, create, create_throws, failed,
}
use yan.ConnPool.Invariant.{IsSystem, Steps-IsSystem}
use yan.ConnPool.Waiting.{Steps-waiting}
use yan.Examples.Objects.{person, age_info, nick_info, grown, older, person-IsObject}
use yan.Examples.Statements.{
  cond_with, grown_person, older_person, grown_conds, older_conds, one_key,
}

-- A database whose state counts the statements prepared, and whose statements are their texts.
abbrev pub counting : Sqlite
counting = record {
  World = ℕ;
  Stmt = Text;
  exec = λ t w. (0, w);
  prepare = λ t w. ((0, t), w + 1);
  finalize = λ s w. w;
  reset = λ s w. w;
  clear_bindings = λ s w. w;
  errstr = λ n. decimal n;
  errmsg = λ w. [];
  null = [];
}

abbrev opened : SqliteContext counting
opened = record { conn = true; read_stmts = []; world = 0 }

-- Two keys, of the two conditions with one hash.
abbrev asked : Bool → ReadCond
asked true = cond_with 18 (bytes "bo")
asked false = cond_with 40 (bytes "al")

abbrev asked_key : Bool → Text
asked_key b = read_key (asked b)

abbrev asked_sql : Bool → Result Text
asked_sql b = sql_of (make_query (asked b) start)

same_asked : make_query (asked true) start ≡ make_query (asked false) start
same_asked =
    (same_hash_same_sql person (object person) grown_person older_person (person-IsObject grown)
      (person-IsObject older) grown_conds older_conds one_key start).0

asked_same_sql : (j k : Bool) → asked_key j ≡ asked_key k → asked_sql j ≡ asked_sql k
asked_same_sql true true e = refl
asked_same_sql true false e = ap sql_of same_asked
asked_same_sql false true e = ap sql_of (sym same_asked)
asked_same_sql false false e = refl

abbrev fails : Text → ℕ → Outcome ℕ Unit
fails s w = (err (runtime_error (bytes "busy")), w)

abbrev works : Text → ℕ → Outcome ℕ Unit
works s w = (ok tt, w)

abbrev three_calls : List (Bool × (Text → ℕ → Outcome ℕ Unit))
three_calls = (true, fails) ∷ (false, works) ∷ (true, works) ∷ []

statements-Suits_example :
    All
      (Suits counting asked_key asked_sql asked_same_sql false)
      (statements counting asked_key asked_sql asked_same_sql false three_calls opened)
statements-Suits_example =
    statements-Suits counting asked_key asked_sql asked_same_sql false three_calls opened tt

abbrev all_people : Result Text
all_people = ok (bytes "SELECT * FROM Person")

abbrev people_stmt : Text
people_stmt = bytes "SELECT * FROM Person" ++ bytes ";"

abbrev prepared : Text → Text → SqliteContext counting
prepared h s = record { conn = true; read_stmts = (h, s) ∷ []; world = 1 }

forgotten_after_failure_example :
    (let (thrown, x') = execute counting false (bytes "Person") all_people fails opened in
      (find counting (bytes "Person") x'.read_stmts ≡ none)
      × (thrown
          ≡ err (runtime_error (bytes "sqlite bind/exec query sql failed: " ++ bytes "busy"))))
unfolding obtain
forgotten_after_failure_example =
    forgotten_after_failure counting false (bytes "Person") all_people fails opened
      (prepared (bytes "Person") people_stmt) people_stmt 1 refl (bytes "busy") refl

reused_after_success_example :
    (let x' = (execute counting false (bytes "Person") all_people works opened).1 in
      obtain counting false (bytes "Person") (ok (bytes "SELECT age FROM Person")) x'
      ≡ (ok people_stmt, x'))
unfolding obtain
reused_after_success_example =
    reused_after_success counting false (bytes "Person") all_people works opened
      (prepared (bytes "Person") people_stmt) people_stmt 1 refl refl
      (ok (bytes "SELECT age FROM Person"))

-- Two threads, of which the first has created a connection and not left `get`.
abbrev two_threads : List Thread
two_threads = outside [] ∷ outside [] ∷ []

abbrev one_inside : System
one_inside = record {
  pool = record { spin_lock = true; conns = []; used_conns = 1 };
  threads = got 0 [] ∷ outside [] ∷ [];
}

into_get : Steps (record { pool = new_pool; threads = two_threads }) one_inside
into_get =
    further
      (further (further here (thread 0 (outside []) refl call_get))
        (thread 0 (getting []) refl (lock_get refl)))
      (thread 0 (in_get []) refl (create refl))

Steps-IsSystem_example : IsSystem one_inside
Steps-IsSystem_example = Steps-IsSystem two_threads (refl, (refl, tt)) one_inside into_get

-- The first thread has not been able to create a connection, and the second spins.
abbrev one_failed : System
one_failed = record {
  pool = record { spin_lock = true; conns = []; used_conns = 0 };
  threads = failed [] ∷ getting [] ∷ [];
}

into_failed : Steps (record { pool = new_pool; threads = two_threads }) one_failed
into_failed =
    further
      (further
        (further (further here (thread 0 (outside []) refl call_get))
          (thread 0 (getting []) refl (lock_get refl)))
        (thread 0 (in_get []) refl (create_throws refl)))
      (thread 1 (outside []) refl call_get)

Steps-waiting_example :
    (y : System) × Steps one_failed y
    × (y.pool.spin_lock ≡ true)
    × (get_elem? y.threads 1 ≡ some (in_get []))
Steps-waiting_example =
    Steps-waiting two_threads (refl, (refl, tt)) one_failed into_failed 1 (getting []) refl refl

-- An object that assigns the age, and one that assigns the nick.
abbrev pub aged : Object
aged = record {
  seqset = 0 ∷ [];
  conds = none;
  hashv = [];
  members =
      record { cond = 0; flag = true; value = integer (pos 7) }
      ∷ record { cond = 0; flag = false; value = chars [] }
      ∷ [];
}

abbrev nicked : Object
nicked = record {
  seqset = 1 ∷ [];
  conds = none;
  hashv = [];
  members =
      record { cond = 0; flag = false; value = integer (pos 0) }
      ∷ record { cond = 0; flag = true; value = chars (bytes "bo") }
      ∷ [];
}

abbrev age_cell : Cell
age_cell = record { column = bytes "age"; value = integer (pos 7) }

abbrev nick_cell : Cell
nick_cell = record { column = bytes "nick"; value = chars (bytes "bo") }

abbrev pub no_size : ℕ → ℕ
no_size i = 0

two-Rows :
    Rows decimal no_size person (aged ∷ nicked ∷ []) ((age_cell ∷ []) ∷ (nick_cell ∷ []) ∷ [])
unfolding member_at member_of get_name bytes
two-Rows = (
  ((age_info, _, refl, refl, refl, refl, refl), tt),
  (((nick_info, _, refl, refl, refl, refl, refl), tt), tt),
)

make_insert_list-insert_text_example :
    make_insert_list decimal no_size person (aged ∷ nicked ∷ [])
    ≡ ok (insert_text decimal no_size (struct_name person) (age_cell ∷ []) ((nick_cell ∷ []) ∷ []))
make_insert_list-insert_text_example =
    make_insert_list-insert_text decimal no_size person aged (nicked ∷ []) age_cell []
      ((nick_cell ∷ []) ∷ []) two-Rows

-- The value of the second object stands under the column of the first.
misplaced :
    insert_text decimal no_size (struct_name person) (age_cell ∷ []) ((nick_cell ∷ []) ∷ [])
    ≡ bytes "INSERT INTO Person (age) VALUES (7), ('bo')"
unfolding insert_text bytes struct_name literal to_string
misplaced = refl
