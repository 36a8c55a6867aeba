-- ===== src/Mongo/Events.antt =====
-- src/mongo/mongo_event.h and mongo.h: the events of the MongoDB side, and how a call becomes one.
-- What a handler puts into its promise is a `Result`.
pub mod Counts
use yan.Prelude.{
  ℕ, ◌+◌, Bool, List, [], ◌∷◌, ◌++◌, length, if◌then◌else◌, Error, Result, ok, err, Outcome, ◌>>=◌,
}
use yan.Prelude.Int.{ℤ}
use yan.Prelude.Text.{Text}
use yan.Ref.Struct.{YanStruct}
use yan.Ref.Object.{Object}
use yan.Ref.Nested.{Class, Node, fresh_node}
use yan.ThreadPool.{Queue, ThreadPool}
use yan.Events.Calls.{Future, create_event}
use yan.Mongo.{Document, FilterEvent, prehandle_filter}
use yan.Mongo.Document.{Fields, Getters}
use yan.Mongo.Write.{make}
use yan.Mongo.Client.{
  Mongocxx, MongoContext, new_context, init, fetch_first, fetch_each, write, read, del,
}

-- `entities_`, `coll_` and `docs_`
pub record WriteEvent : Type 0 where
  pub entities : ℕ
  pub coll : Text
  pub docs : List Fields

abbrev pub new_event : WriteEvent
new_event = record { entities = 0; coll = []; docs = [] }

-- The `Ret` of a read: an object, or a sequence of objects
pub data Read : Type 0 where
  one : Node → Read
  sequence : List Node → Read

-- By the number that `read` returns, which is dropped.
abbrev one_of : ℤ × Node → Read
one_of (n, o) = one o

abbrev sequence_of : ℤ × List Node → Read
sequence_of (n, os) = sequence os

module _ (size_at : Node → ℕ) where
  -- `prehandle` of an object, whose class has the name `name`
  unfoldable pub prehandle_one : Text → Class → Node → WriteEvent → Result WriteEvent
  prehandle_one name c o e = make size_at c o >>= λ doc.
      ok (record { entities = e.entities + 1; coll = name; docs = e.docs ++ doc ∷ [] })

  -- The loop of `prehandle` of a sequence
  unfoldable pub make_docs : Class → List Node → List Fields → Result (List Fields)
  make_docs c [] docs = ok docs
  make_docs c (o ∷ os) docs = make size_at c o >>= λ doc. make_docs c os (docs ++ doc ∷ [])

  -- `prehandle` of a sequence
  unfoldable pub prehandle_sequence : Text → Class → List Node → WriteEvent → Result WriteEvent
  unfolding make_docs
  prehandle_sequence name c os e = make_docs c os e.docs >>= λ docs.
      ok (record { entities = length os; coll = name; docs = docs })

-- What `find` has found, fetched: by a `Ret` that is an object, or a sequence.
unfoldable pub fetch_value : Getters → Class → Bool → List (Result Fields) → Result Read
fetch_value g c single cursor =
    if single
    then (fetch_first g c cursor (fresh_node c) >>= λ r. ok (one_of r))
    else (fetch_each g c cursor 0 [] >>= λ r. ok (sequence_of r))

-- `MongoDB::init`: a new context; the one thread of its EventOps runs the events.
module _ (db : Mongocxx) where
  unfoldable pub init_context : Text → db.World → Outcome db.World (ℤ × MongoContext)
  init_context uri w = init db uri new_context w

module _ (db : Mongocxx) (x : MongoContext) where
  open db use {World}

  -- The promise of WriteEvent, by what `write` of the context does
  unfoldable pub settled : WriteEvent → Outcome World Bool → Outcome World ℕ
  settled e (err thrown, w) = (err thrown, w)
  settled e (ok b, w) = (ok e.entities, w)

  unfoldable pub handle_write : WriteEvent → World → Outcome World ℕ
  unfolding settled
  handle_write e w = settled e (write db x e.coll e.docs w)

  -- The promise of ReadEvent, by what `find` gives
  unfoldable pub fetched :
      Getters → Class → Bool → Outcome World (List (Result Fields)) → Outcome World Read
  unfolding fetch_value
  fetched g c single (r, w) = (r >>= λ cursor. fetch_value g c single cursor, w)

  unfoldable pub handle_read : Getters → Class → Bool → FilterEvent → World → Outcome World Read
  unfolding fetched
  handle_read g c single e w = fetched g c single (read db x e.coll e.doc w)

  unfoldable pub handle_delete : FilterEvent → World → Outcome World ℕ
  handle_delete e w = del db x e.coll e.doc w

-- MongoDB: the events go through the one queue of its EventOps.
module _ (queue : Queue) where
  unfoldable pub write_one :
      (Node → ℕ) → Text → Class → Node → ℕ → ThreadPool queue → Outcome (ThreadPool queue) Future
  unfolding prehandle_one
  write_one size_at name c o e p = create_event queue (prehandle_one size_at name c o new_event) e p

  unfoldable pub write_sequence :
      (Node → ℕ)
      → Text
      → Class
      → List Node
      → ℕ
      → ThreadPool queue
      → Outcome (ThreadPool queue) Future
  unfolding prehandle_sequence
  write_sequence size_at name c os e p =
      create_event queue (prehandle_sequence size_at name c os new_event) e p

  -- `read` and `del`, whose events are prepared alike
  unfoldable pub filtered :
      YanStruct → Object → ℕ → ThreadPool queue → Outcome (ThreadPool queue) Future
  filtered s o e p = create_event queue (prehandle_filter s o) e p
