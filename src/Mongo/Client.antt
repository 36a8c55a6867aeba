-- ===== src/Mongo/Client.antt =====
-- src/mongo/mongo_context.h: the pool of clients of MongoDB. mongocxx is a parameter; a cursor is the
-- list of what its iteration gives, each a document or what it throws.
use yan.Prelude.{
  ℕ, ◌+◌, Bool, true, false, List, [], ◌∷◌, ◌++◌, Option, none, some, if◌then◌else◌, Result, ok,
  err, runtime_error, undefined, Outcome, ◌>>=◌,
}
use yan.Prelude.Int.{ℤ, pos, negsuc}
use yan.Prelude.Text.{Text}
use yan.Ref.Nested.{Class, Node, fresh_node}
use yan.Mongo.{Document}
use yan.Mongo.Document.{Fields, Getters}
use yan.Mongo.Fetch.{fetch_view}

pub record Mongocxx : Type 1 where
  pub World : Type 0
  -- the constructors of a `uri` and of a `pool`
  pub open_pool : Text → World → Outcome World Bool
  -- `acquire`, the collection of a database, and the call
  pub insert_many : Text → Text → List Fields → World → Outcome World Bool
  pub find : Text → Text → Document → World → Outcome World (List (Result Fields))
  -- without a result when the write is unacknowledged
  pub delete_many : Text → Text → Document → World → Outcome World (Option ℕ)

-- `pool_`, by whether it is set, and `schema_`
pub record MongoContext : Type 0 where
  pub pool : Bool
  pub schema : Text

abbrev pub new_context : MongoContext
new_context = record { pool = false; schema = [] }

-- `fetch_value` of one object: the first document of the cursor, and how many it has taken.
unfoldable pub fetch_first : Getters → Class → List (Result Fields) → Node → Result (ℤ × Node)
fetch_first g c [] o = ok (pos 0, o)
fetch_first g c (r ∷ cursor) o = r >>= λ view. fetch_view g c view o >>= λ o'. ok (pos 1, o')

-- `fetch_value` of a sequence
unfoldable pub fetch_each :
    Getters → Class → List (Result Fields) → ℕ → List Node → Result (ℤ × List Node)
fetch_each g c [] n os = ok (pos n, os)
fetch_each g c (r ∷ cursor) n os = r >>= λ view.
    fetch_view g c view (fresh_node c) >>= λ o. fetch_each g c cursor (n + 1) (os ++ o ∷ [])

-- `*cursor` of a delete
unfoldable pub deleted_count : Option ℕ → Result ℕ
deleted_count none = err undefined
deleted_count (some n) = ok n

module _ (db : Mongocxx) where
  open db use {World}

  -- The `try` of `init`, by what the constructors do
  unfoldable pub opened : MongoContext → Outcome World Bool → Outcome World (ℤ × MongoContext)
  opened x (ok b, w) = (ok (pos 0, record x { pool = true }), w)
  opened x (err (runtime_error m), w) = (ok (negsuc 0, x), w)
  opened x (err undefined, w) = (err undefined, w)

  unfoldable pub init : Text → MongoContext → World → Outcome World (ℤ × MongoContext)
  unfolding opened
  init uri x w = opened x (db.open_pool uri w)

  unfoldable pub write : MongoContext → Text → List Fields → World → Outcome World Bool
  write x table docs w = if x.pool then db.insert_many x.schema table docs w else (err undefined, w)

  unfoldable pub read :
      MongoContext → Text → Document → World → Outcome World (List (Result Fields))
  read x table doc w = if x.pool then db.find x.schema table doc w else (err undefined, w)

  -- The end of `del`
  unfoldable pub counted : Outcome World (Option ℕ) → Outcome World ℕ
  unfolding deleted_count
  counted (r, w) = (r >>= λ n. deleted_count n, w)

  unfoldable pub del : MongoContext → Text → Document → World → Outcome World ℕ
  unfolding counted
  del x table doc w =
      if x.pool then counted (db.delete_many x.schema table doc w) else (err undefined, w)
