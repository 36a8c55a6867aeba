-- ===== src/Mongo/RoundTrip/Through.antt =====
-- The way of objects through src/mongo: a write (mongo_event.h, mongo_readref.h), and a read that finds
-- what was written (mongo_writeref.h).
use yan.Prelude.{
  ℕ, suc, ◌+◌, ◌<◌, Bool, false, List, [], ◌∷◌, ◌++◌, map, length, ◌≡◌, sym, ap, ◌∙◌, ap₂, All,
  arith, append-nil, append_assoc, ok, ◌>>=◌,
}
use yan.Prelude.Int.{pos}
use yan.Prelude.Text.{Text}
use yan.Ref.Nested.{Class, Node, node, fresh_node, seqs_of, slots_of}
use yan.Ref.Nested.Marked.{Marked}
use yan.Ref.Nested.Typed.{Typed}
use yan.Mongo.{Document}
use yan.Mongo.Document.{Fields, Getters, GettersLaws}
use yan.Mongo.Write.{make}
use yan.Mongo.Fetch.{fetch_view}
use yan.Mongo.Client.{Mongocxx, MongoContext, read, write, fetch_each}
use yan.Mongo.Events.{
  WriteEvent, new_event, sequence, make_docs, prehandle_sequence, settled, handle_write,
  fetch_value, fetched, handle_read,
}
use yan.Mongo.RoundTrip.{names, Storable, kept}
use yan.Mongo.RoundTrip.Reading.{SameAt, make-fetch_view}

-- An object of the class as programs make them: with values of their types, marked, and with no number
-- of a member that the class does not have.
abbrev pub IsSound : Class → Node → Type 0
IsSound c o = Typed c o × Marked o × All (λ k. k < length (names c)) (seqs_of o)

-- What a new object keeps of another
abbrev pub kept_node : Class → Node → Node
kept_node c o = node [] (kept c (slots_of o))

-- What is found are the documents in their order, perhaps with fields besides that are no members of
-- the class, like the `_id` that is generated for a document without one.
abbrev pub Finds : Getters → Class → List Fields → List Fields → Type 0
Finds g c [] [] = Unit
Finds g c (doc ∷ docs) (found ∷ founds) = SameAt g (names c) doc found × Finds g c docs founds
Finds g c docs founds = ⊥

module _ (g : Getters) (laws : GettersLaws g) (size_at : Node → ℕ) (c : Class)
    (h : Storable c) where
  one-round_trip :
      (o : Node)
      → IsSound c o
      → (doc : Fields) × (make size_at c o ≡ ok doc)
        × ((found : Fields)
            → SameAt g (names c) doc found
            → fetch_view g c found (fresh_node c) ≡ ok (kept_node c o))
  one-round_trip (node ks ss) s = make-fetch_view g laws size_at c ks ss h s.0 s.1 s.2

  each-made :
      (os : List Node)
      → All (IsSound c) os
      → (docs : List Fields) × ((before : List Fields)
          → make_docs size_at c os before ≡ ok (before ++ docs))
        × ((founds : List Fields)
            → Finds g c docs founds
            → (k : ℕ) (done : List Node)
            → fetch_each g c (map ok founds) k done
              ≡ ok (pos (k + length os), done ++ map (kept_node c) os))
  unfolding make_docs fetch_each
  each-made [] s = ([], (λ before. ap ok (sym (append-nil before))), nothing)
    where
      nothing :
          (founds : List Fields)
          → Finds g c [] founds
          → (k : ℕ) (done : List Node)
          → fetch_each g c (map ok founds) k done ≡ ok (pos (k + 0), done ++ [])
      nothing [] f k done = ap₂ (λ n d. ok (pos n, d)) (omega arith) (sym (append-nil done))
      nothing (found ∷ founds) f k done = absurd f
  each-made (o ∷ os) s =
      let (doc, made, filled) = one-round_trip o s.0 in
      let (docs, all_made, all_filled) = each-made os s.1 in
      (
        doc ∷ docs,
        (λ before.
            ap (λ r. r >>= λ d. make_docs size_at c os (before ++ d ∷ [])) made
            ∙ all_made (before ++ doc ∷ [])
            ∙ ap ok (append_assoc before (doc ∷ []) docs)),
        further doc docs filled all_filled,
      )
    where
      further :
          (doc : Fields) (docs : List Fields)
          → ((found : Fields)
              → SameAt g (names c) doc found
              → fetch_view g c found (fresh_node c) ≡ ok (kept_node c o))
          → ((founds : List Fields)
              → Finds g c docs founds
              → (k : ℕ) (done : List Node)
              → fetch_each g c (map ok founds) k done
                ≡ ok (pos (k + length os), done ++ map (kept_node c) os))
          → (founds : List Fields) → Finds g c (doc ∷ docs) founds
          → (k : ℕ) (done : List Node)
          → fetch_each g c (map ok founds) k done
            ≡ ok (pos (k + suc (length os)), done ++ map (kept_node c) (o ∷ os))
      further doc docs filled all_filled [] f k done = absurd f
      further doc docs filled all_filled (found ∷ founds) f k done =
          ap (λ r. r >>= λ x. fetch_each g c (map ok founds) (k + 1) (done ++ x ∷ []))
            (filled found f.0)
          ∙ all_filled founds f.1 (k + 1) (done ++ kept_node c o ∷ [])
          ∙ ap₂ (λ n d. ok (pos n, d)) (omega arith)
              (append_assoc done (kept_node c o ∷ []) (map (kept_node c) os))

  -- For a class of plain members of the five types that MongoDB reads and of structs of such members,
  -- with different keys in one object, and a sequence of objects with values of their types and with
  -- their assigned members marked: a write to a database that takes the documents fulfils its promise
  -- with the number of the objects; and a read that then finds these documents in their order, each
  -- perhaps with other fields that are no members, such as a generated `_id`, fulfils its own with as
  -- many objects, in that order, each with the flags and the flagged values of the one that was
  -- written, at every level, and without a number in any set of assigned members.
  pub write_then_read :
      (db : Mongocxx) (x : MongoContext) (name : Text) (doc : Document) (os : List Node)
      (w w' : db.World) (b : Bool) (founds : List Fields)
      → All (IsSound c) os
      → ((docs : List Fields)
          → make_docs size_at c os [] ≡ ok docs
          → write db x name docs w ≡ (ok b, w'))
      → ((docs : List Fields) → make_docs size_at c os [] ≡ ok docs → Finds g c docs founds)
      → read db x name doc w' ≡ (ok (map ok founds), w')
      → (e : WriteEvent) × (prehandle_sequence size_at name c os new_event ≡ ok e)
        × (handle_write db x e w ≡ (ok (length os), w'))
        × (handle_read db x g c false (record { coll = name; doc = doc }) w'
            ≡ (ok (sequence (map (kept_node c) os)), w'))
  unfolding prehandle_sequence handle_write settled handle_read fetched fetch_value
  write_then_read db x name doc os w w' b founds s written finds found =
      let (docs, made, filled) = each-made os s in
      (
        record { entities = length os; coll = name; docs = docs },
        ap (λ r. r >>= λ d. ok (record { entities = length os; coll = name; docs = d })) (made []),
        ap (settled db x (record { entities = length os; coll = name; docs = docs }))
            (written docs (made [])),
        ap (fetched db x g c false) found
            ∙ ap (λ r. ((r >>= λ n. ok (sequence n.1)), w'))
                (filled founds (finds docs (made [])) 0 []),
      )
