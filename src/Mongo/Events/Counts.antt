-- ===== src/Mongo/Events/Counts.antt =====
-- The numbers of documents and objects that the events of src/mongo/mongo_event.h handle.
use yan.Prelude.{
  append-nil, append_assoc, subst, ℕ, ◌+◌, Bool, true, false, List, [], ◌∷◌, ◌++◌, length,
  length-append, ◌≡◌, sym, ap, ◌∙◌, if◌then◌else◌, Result, ok, err, Error, Outcome, ◌>>=◌,
  >>=-eq-ok, ok-injective, arith,
}
use yan.Prelude.Int.{ℤ}
use yan.Prelude.Text.{Text}
use yan.Ref.Nested.{Class, Node, fresh_node}
use yan.Mongo.{FilterEvent}
use yan.Mongo.Document.{Fields, Getters}
use yan.Mongo.Write.{make}
use yan.Mongo.Fetch.{fetch_view}
use yan.Mongo.Client.{Mongocxx, MongoContext, read, write, fetch_first, fetch_each}
use yan.Mongo.Events.{
  WriteEvent, new_event, Read, make_docs, prehandle_sequence, settled, handle_write, fetch_value,
  fetched, handle_read,
}
use yan.Mongo.Fetched.{objects}

-- A promise that is fulfilled, by what the database has done
settled-ok :
    (db : Mongocxx) (x : MongoContext) (e : WriteEvent) (o : Outcome db.World Bool) (w' : db.World)
    (n : ℕ)
    → settled db x e o ≡ (ok n, w')
    → (b : Bool) × (o ≡ (ok b, w')) × (n ≡ e.entities)
unfolding settled
settled-ok db x e (err thrown, w) w' n h = absurd (err-ne-ok (ap (λ p. p.0) h))
  where
    err-ne-ok : {A : Type 0} {t : Error} {a : A} → err t ≡ ok a → ⊥
    err-ne-ok q = cc
settled-ok db x e (ok b, w) w' n h =
    (b, ap (λ p. (ok b, p.1)) h, sym (ok-injective (ap (λ p. p.0) h)))

module _ (size_at : Node → ℕ) where
  -- The documents are those that `make` makes of the objects, one for each and in order.
  abbrev pub Made : Class → List Node → List Fields → Type 0
  Made c [] [] = Unit
  Made c (o ∷ os) (doc ∷ docs) = (make size_at c o ≡ ok doc) × Made c os docs
  Made c os docs = ⊥

  make_docs-Made :
      (c : Class) (os : List Node) (before after : List Fields)
      → make_docs size_at c os before ≡ ok after
      → (docs : List Fields) × Made c os docs × (after ≡ before ++ docs)
  unfolding make_docs
  make_docs-Made c [] before after h = ([], tt, sym (ok-injective h) ∙ sym (append-nil before))
  make_docs-Made c (o ∷ os) before after h =
      let (doc, made, rest) = >>=-eq-ok (make size_at c o) _ h in
      let (docs, others, same) = make_docs-Made c os (before ++ doc ∷ []) after rest in
      (doc ∷ docs, (made, others), same ∙ append_assoc before (doc ∷ []) docs)

  prehandle_sequence-Made :
      (name : Text) (c : Class) (os : List Node) (e : WriteEvent)
      → prehandle_sequence size_at name c os new_event ≡ ok e
      → (e.entities ≡ length os) × Made c os e.docs × (e.coll ≡ name)
  unfolding prehandle_sequence
  prehandle_sequence-Made name c os e h =
      let (after, made, rest) = >>=-eq-ok (make_docs size_at c os []) _ h in
      let (docs, each, all) = make_docs-Made c os [] after made in
      let same = ok-injective rest in
      (
        sym (ap (λ x. x.entities) same),
        subst (Made c os) (sym all ∙ ap (λ x. x.docs) same) each,
        sym (ap (λ x. x.coll) same),
      )

  -- If the objects can be made into documents, and handling the write of them does not throw, what is
  -- done is one write to the collection of the struct, of the documents that `make` makes of the
  -- objects, one for each and in their order; and the promise is fulfilled with the number of the
  -- objects.
  pub handle_write-sequence :
      (db : Mongocxx) (x : MongoContext) (name : Text) (c : Class) (os : List Node) (e : WriteEvent)
      (w w' : db.World) (n : ℕ)
      → prehandle_sequence size_at name c os new_event ≡ ok e
      → handle_write db x e w ≡ (ok n, w')
      → (docs : List Fields) × (b : Bool) × Made c os docs
        × (n ≡ length os)
        × (write db x name docs w ≡ (ok b, w'))
  unfolding handle_write settled
  handle_write-sequence db x name c os e w w' n p h =
      let (count, made, coll) = prehandle_sequence-Made name c os e p in
      let (b, written, n_eq) = settled-ok db x e (write db x e.coll e.docs w) w' n h in
      (e.docs, b, made, n_eq ∙ count, ap (λ t. write db x t e.docs w) (sym coll) ∙ written)

module _ (g : Getters) (c : Class) where
  fetch_each-length :
      (cursor : List (Result Fields)) (k : ℕ) (n : ℤ) (os os' : List Node)
      → fetch_each g c cursor k os ≡ ok (n, os')
      → length os' ≡ length os + length cursor
  unfolding fetch_each
  fetch_each-length [] k n os os' h = omega (arith, ap (λ x. length x.1) (ok-injective h))
  fetch_each-length (r ∷ cursor) k n os os' h =
      let (view, got, rest) = >>=-eq-ok r _ h in
      let (o, done, more) = >>=-eq-ok (fetch_view g c view (fresh_node c)) _ rest in
      omega (
        arith,
        fetch_each-length cursor (k + 1) n (os ++ o ∷ []) os' more,
        length-append os (o ∷ []),
      )

  fetch_value-length :
      (single : Bool) (cursor : List (Result Fields)) (r : Read)
      → fetch_value g c single cursor ≡ ok r
      → length (objects r) ≡ (if single then 1 else length cursor)
  unfolding fetch_value
  fetch_value-length true cursor r h =
      let ((n, o), done, rest) = >>=-eq-ok (fetch_first g c cursor (fresh_node c)) _ h in
      sym (ap (λ x. length (objects x)) (ok-injective rest))
  fetch_value-length false cursor r h =
      let ((n, os), done, rest) = >>=-eq-ok (fetch_each g c cursor 0 []) _ h in
      omega (
        arith,
        fetch_each-length cursor 0 n [] os done,
        ap (λ x. length (objects x)) (ok-injective rest),
      )

  -- A read that succeeds gives an object for each document that was found, or, when one object is
  -- asked for, one object however many were found, even none.
  handle_read-length :
      (db : Mongocxx) (x : MongoContext) (single : Bool) (e : FilterEvent) (w w' : db.World)
      (cursor : List (Result Fields)) (r : Read)
      → read db x e.coll e.doc w ≡ (ok cursor, w')
      → handle_read db x g c single e w ≡ (ok r, w')
      → length (objects r) ≡ (if single then 1 else length cursor)
  unfolding handle_read fetched
  handle_read-length db x single e w w' cursor r found h =
      fetch_value-length single cursor r
        (ap (λ p. p.0 >>= λ cs. fetch_value g c single cs) (sym found) ∙ ap (λ p. p.0) h)
