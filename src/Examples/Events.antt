-- ===== src/Examples/Events.antt =====
-- The theorems on events (src/sqlite/sqlite_event.h and sqlite.h), over a database that is full
-- behind one text.
use yan.Prelude.{
  ℕ, zero, suc, ◌≤◌, ◌≡◌, ◌⊎◌, refl, true, false, List, [], ◌∷◌, length, ok, err, runtime_error,
  arith,
}
use yan.Prelude.Text.{Text, bytes}
use yan.Prelude.Decimal.{decimal}
use yan.Ref.Param.{Value}
use yan.Context.{Sqlite, error_of}
use yan.ThreadPool.{ThreadPool}
use yan.Events.{Pool, new_pool}
use yan.Events.Write.{WriteEvent, Written, single, sequence, int64_of, handle_write}
use yan.Events.Rest.{Task, write_event, run_tasks, run_tasks-one_connection}
use yan.Events.Texts.{AllSucceed, Failing, handle_write_cases}
use yan.Events.Calls.{promised, create_event, commit_union}
use yan.Events.Calls.Turn.{refused_silently}
use yan.Examples.Objects.{person}
use yan.Examples.Connections.{aged}
use yan.Examples.Threads.{lists}

-- SQLITE_FULL from the second text on.
abbrev exec_one : Text → ℕ → ℕ × ℕ
exec_one t zero = (0, 1)
exec_one t (suc w) = (13, suc w)

abbrev small : Sqlite
small = record {
  World = ℕ;
  Stmt = Text;
  exec = exec_one;
  prepare = λ t w. ((0, t), w);
  finalize = λ s w. w;
  reset = λ s w. w;
  clear_bindings = λ s w. w;
  errstr = λ n. decimal n;
  errmsg = λ w. [];
  null = [];
}

abbrev open_ : Text → ℕ → ℕ × ℕ
open_ path w = (0, w)

abbrev two_texts : WriteEvent
two_texts = record { sqls = bytes "a;" ∷ bytes "b;" ∷ []; entity = 2 }

abbrev one_connection : Pool small
one_connection = record { url = []; conns = [] ∷ []; used_conns = 1; world = 0 }

handle_write_cases_example :
    ((v : ℕ) × AllSucceed small two_texts.sqls 0 v
      × (handle_write small open_ two_texts one_connection
          ≡ (ok (int64_of 2), record one_connection { conns = [] ∷ []; world = v })))
    ⊎ ((code : ℕ) × (v : ℕ) × Failing small two_texts.sqls 0 code v
        × (handle_write small open_ two_texts one_connection ≡ (
          err (runtime_error (error_of small "sqlite write sql failed" code v)),
          record one_connection { conns = [] ∷ []; world = v },
        )))
handle_write_cases_example = handle_write_cases small open_ two_texts one_connection [] [] refl

abbrev two_written : List Written
two_written = single person aged ∷ sequence person (aged ∷ aged ∷ []) ∷ []

abbrev person_event : WriteEvent
person_event = record {
  sqls =
      bytes "INSERT INTO Person (age) VALUES (7);"
      ∷ bytes "INSERT INTO Person (age) VALUES (7), (7);"
      ∷ [];
  entity = 3;
}

abbrev no_bind : Text → ℕ → ℕ → Value → ℕ
no_bind s w i v = 0

abbrev bound : Text → List (ℕ × Value) → ℕ → ℕ
bound s vs w = w

abbrev done : Text → ℕ → ℕ × ℕ
done s w = (101, w)

abbrev two_tasks : List (Task small)
two_tasks = write_event two_texts ∷ write_event two_texts ∷ []

run_tasks-one_connection_example :
    (length (run_tasks small open_ true no_bind bound done two_tasks (new_pool small [] 0)).conns
      ≡ (run_tasks small open_ true no_bind bound done two_tasks (new_pool small [] 0)).used_conns)
    × ((run_tasks small open_ true no_bind bound done two_tasks (new_pool small [] 0)).used_conns
        ≤ 1)
run_tasks-one_connection_example =
    run_tasks-one_connection small open_ true no_bind bound done [] 0 two_tasks

-- A pool of one full queue.
abbrev full : ThreadPool lists
full = record { consumers = (4 ∷ 5 ∷ []) ∷ []; stop = false; seq = 2 }

refused_silently_example :
    (create_event lists (ok two_texts) 7 full ≡ (ok (promised 7), record full { seq = 3 }))
    × (commit_union lists 7 full ≡ (ok (promised 7), record full { seq = 3 }))
refused_silently_example =
    refused_silently lists two_texts 7 full (4 ∷ 5 ∷ []) refl (omega arith) (omega arith) refl refl

abbrev person_table : WriteEvent
person_table = record {
  sqls =
      bytes "CREATE TABLE IF NOT EXISTS Person (age INT NOT NULL, nick CHAR(32) NOT NULL) ;" ∷ [];
  entity = 1;
}
