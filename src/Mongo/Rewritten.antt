-- ===== src/Mongo/Rewritten.antt =====
-- Objects that src/mongo/mongo_writeref.h has filled, given to MakeWriteBson (src/mongo/mongo_readref.h)
-- again.
use yan.Prelude.{ℕ, [], ◌≡◌, refl, subst, All, All-imp, ok, >>=-eq-ok, ok-injective, Bool}
use yan.Ref.Nested.{Class, Node, node, fresh_node, seqs_of}
use yan.Mongo.{FilterEvent}
use yan.Mongo.Document.{Fields, Getters}
use yan.Mongo.Fetch.{set_value_loop, fetch_view}
use yan.Mongo.Write.{make, write_seqs}
use yan.Mongo.Client.{Mongocxx, MongoContext}
use yan.Mongo.Events.{Read, handle_read}
use yan.Mongo.Fetched.{objects, handle_read-All}

abbrev IsUnassigned : Node → Type 0
IsUnassigned o = seqs_of o ≡ []

fetch_view-IsUnassigned :
    (g : Getters) (c : Class) (view : Fields) (o o' : Node)
    → IsUnassigned o
    → fetch_view g c view o ≡ ok o'
    → IsUnassigned o'
unfolding fetch_view
fetch_view-IsUnassigned g c view (node ks ss) o' h e =
    let (ss', done, rest) = >>=-eq-ok (set_value_loop g c view ss) _ e in
    subst IsUnassigned (ok-injective rest) h

make-IsUnassigned :
    (size_at : Node → ℕ) (c : Class) (o : Node) → IsUnassigned o → make size_at c o ≡ ok Fields.end
unfolding make write_seqs
make-IsUnassigned size_at c (node ks ss) h = rw h refl

-- An object that was read is written as an empty document, whatever it was read from, with no error.
pub handle_read-rewritten :
    (size_at : Node → ℕ) (db : Mongocxx) (x : MongoContext) (g : Getters) (c : Class)
    (single : Bool) (e : FilterEvent) (w w' : db.World) (r : Read)
    → handle_read db x g c single e w ≡ (ok r, w')
    → All (λ o. make size_at c o ≡ ok Fields.end) (objects r)
unfolding fresh_node
handle_read-rewritten size_at db x g c single e w w' r h =
    All-imp IsUnassigned _ (objects r) (λ o. make-IsUnassigned size_at c o)
      (handle_read-All g c IsUnassigned refl (fetch_view-IsUnassigned g c) db x single e w w' r h)
