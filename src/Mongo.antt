-- ===== src/Mongo.antt =====
-- src/mongo: the filters of the MongoDB side (mongo_readref.h), which its events that read and delete
-- hold (mongo_event.h).
pub mod Filter
pub mod Document
pub mod Write
pub mod Fetch
pub mod Nested
pub mod Typed
pub mod RoundTrip
pub mod Fetched
pub mod Rewritten
pub mod Single
pub mod Unreadable
pub mod Client
pub mod Events
use yan.Prelude.{
  ℕ, Bool, true, false, List, [], ◌∷◌, ◌++◌, if◌then◌else◌, Result, ok, err, runtime_error, Outcome,
  ◌>>=◌,
}
use yan.Prelude.Int.{ℤ, pos, is_neg}
use yan.Prelude.Text.{Text, bytes}
use yan.Prelude.Decimal.{to_string}
use yan.Ref.Param.{Value, ParamValue, one, many}
use yan.Ref.Struct.{YanStruct, struct_name}
use yan.Ref.Object.{Object}
use yan.RefOps.{MemAppend, append_refobj_cond}

-- The values that the library puts into a document: a value, or a document with one field, which
-- holds an array.
pub data Bson : Type 0 where
  scalar : Value → Bson
  array_under : Text → List Value → Bson

-- `document`, by its fields
abbrev pub Document : Type 0
Document = List (Text × Bson)

-- `ReadMemRef::append_value` of MakeCondBson
unfoldable pub append_value : Text → ParamValue → Document → Document
append_value name (many vs) doc = doc ++ (name, array_under (bytes "$eleMatch") vs) ∷ []
append_value name (one v) doc = doc ++ (name, scalar v) ∷ []

-- `ReadMemRef::append` of MakeCondBson
unfoldable pub append_cond_bson : MemAppend Document
unfolding append_value
append_cond_bson name c ops t v doc = ok (pos 0, append_value name v doc)

-- The end of `MakeCondBson::make`, by what the walk returns.
unfoldable check_made : Result (ℤ × Document) → Result Document
check_made (err e) = err e
check_made (ok (ret, doc)) =
    if is_neg ret
    then err (runtime_error (bytes "mongo makes condition bson failed:" ++ to_string ret))
    else ok doc

-- `MakeCondBson::make`
unfoldable pub make_cond : Object → Result Document
unfolding append_cond_bson check_made
make_cond o = check_made (append_refobj_cond append_cond_bson o [])

-- `coll_` and `doc_` of ReadEvent and of DeleteEvent
pub record FilterEvent : Type 0 where
  pub coll : Text
  pub doc : Document

-- `prehandle` of ReadEvent and of DeleteEvent
unfoldable pub prehandle_filter : YanStruct → Object → Result FilterEvent
unfolding make_cond
prehandle_filter s o = make_cond o >>= λ doc. ok (record { coll = struct_name s; doc = doc })
