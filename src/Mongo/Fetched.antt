-- ===== src/Mongo/Fetched.antt =====
-- The objects of the promise of a read (src/mongo/mongo_event.h), which are new ones that documents have
-- filled.
use yan.Prelude.{
  ℕ, ◌+◌, Bool, true, false, List, [], ◌∷◌, ◌++◌, ◌≡◌, ap, subst, All, All-append, Result, ok,
  >>=-eq-ok, ok-injective,
}
use yan.Prelude.Int.{ℤ}
use yan.Ref.Nested.{Class, Node, fresh_node}
use yan.Mongo.{FilterEvent}
use yan.Mongo.Document.{Fields, Getters}
use yan.Mongo.Fetch.{fetch_view}
use yan.Mongo.Client.{Mongocxx, MongoContext, read, fetch_first, fetch_each}
use yan.Mongo.Events.{Read, one, sequence, fetch_value, fetched, handle_read}

-- The objects of a `Ret`
abbrev pub objects : Read → List Node
objects (one o) = o ∷ []
objects (sequence os) = os

-- A property of new objects that filling keeps
module _ (g : Getters) (c : Class) (P : Node → Type 0) (start : P (fresh_node c))
    (keeps : (view : Fields) (o o' : Node) → P o → fetch_view g c view o ≡ ok o' → P o') where
  fetch_first-All :
      (cursor : List (Result Fields)) (o o' : Node) (n : ℤ)
      → P o
      → fetch_first g c cursor o ≡ ok (n, o')
      → P o'
  unfolding fetch_first
  fetch_first-All [] o o' n t h = subst (λ x. P x.1) (ok-injective h) t
  fetch_first-All (r ∷ cursor) o o' n t h =
      let (view, got, rest) = >>=-eq-ok r _ h in
      let (o1, done, last) = >>=-eq-ok (fetch_view g c view o) _ rest in
      subst (λ x. P x.1) (ok-injective last) (keeps view o o1 t done)

  fetch_each-All :
      (cursor : List (Result Fields)) (k : ℕ) (n : ℤ) (os os' : List Node)
      → All P os
      → fetch_each g c cursor k os ≡ ok (n, os')
      → All P os'
  unfolding fetch_each
  fetch_each-All [] k n os os' t h = subst (λ x. All P x.1) (ok-injective h) t
  fetch_each-All (r ∷ cursor) k n os os' t h =
      let (view, got, rest) = >>=-eq-ok r _ h in
      let (o, done, more) = >>=-eq-ok (fetch_view g c view (fresh_node c)) _ rest in
      fetch_each-All cursor (k + 1) n (os ++ o ∷ []) os'
        (All-append P os (o ∷ []) t (keeps view (fresh_node c) o start done, tt)) more

  fetch_value-All :
      (single : Bool) (cursor : List (Result Fields)) (r : Read)
      → fetch_value g c single cursor ≡ ok r
      → All P (objects r)
  unfolding fetch_value
  fetch_value-All true cursor r h =
      let ((n, o), done, rest) = >>=-eq-ok (fetch_first g c cursor (fresh_node c)) _ h in
      subst (λ x. All P (objects x)) (ok-injective rest)
        (fetch_first-All cursor (fresh_node c) o n start done, tt)
  fetch_value-All false cursor r h =
      let ((n, os), done, rest) = >>=-eq-ok (fetch_each g c cursor 0 []) _ h in
      subst (λ x. All P (objects x)) (ok-injective rest) (fetch_each-All cursor 0 n [] os tt done)

  pub handle_read-All :
      (db : Mongocxx) (x : MongoContext) (single : Bool) (e : FilterEvent) (w w' : db.World)
      (r : Read)
      → handle_read db x g c single e w ≡ (ok r, w')
      → All P (objects r)
  unfolding handle_read fetched
  handle_read-All db x single e w w' r h =
      let (cursor, found, rest) = >>=-eq-ok (read db x e.coll e.doc w).0 _ (ap (λ p. p.0) h) in
      fetch_value-All single cursor r rest
