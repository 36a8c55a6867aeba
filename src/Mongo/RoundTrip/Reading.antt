-- ===== src/Mongo/RoundTrip/Reading.antt =====
-- What a new object is filled with (src/mongo/mongo_writeref.h) from a document that holds another, and
-- the way of an object through MongoDB.
use yan.Prelude.{
  ℕ, ◌<◌, Bool, true, false, List, [], ◌∷◌, length, none, some, ◌≡◌, refl, sym, ap, ◌∙◌, inl, inr,
  ◌⊎◌, if◌then◌else◌, All, ok, ◌>>=◌,
}
use yan.Prelude.Int.{pos}
use yan.Prelude.Text.{Text}
use yan.Types.{YanType, int32, double, string, text, blob}
use yan.Ref.Param.{Value, integer, real, chars}
use yan.Ref.Struct.{MemberInfo, get_name}
use yan.Ref.Object.{zero_value}
use yan.RefOps.Write.{set_value}
use yan.Ref.Nested.{
  Class, entry, Kind, plain, Node, node, Slots, slot, Slot, member, fresh_slots, fresh_slot,
  fresh_node,
}
use yan.Ref.Nested.Marked.{Marked}
use yan.Ref.Nested.Typed.{is_of, TypedSlots, TypedSlot, Typed}
use yan.Mongo.Document.{scalar, Fields, Getters, GettersLaws}
use yan.Mongo.Fetch.{
  set_given, set_slots, get_value, fetch_plain, fetch_struct, fetch_members, fetch_member,
  set_value_loop, fetch_view,
}
use yan.Mongo.Write.{make}
use yan.Mongo.RoundTrip.{
  storable_type, names, Storable, StorableKind, encode, encode_slots, kept_slot, kept, put_seqs,
  HoldsSlot, Holds,
}
use yan.Mongo.RoundTrip.Holding.{encode_slots-Holds}
use yan.Mongo.RoundTrip.Seqset.{put_seqs-Holds}
use yan.Mongo.RoundTrip.Writing.{storable_type-is_plain, make-put_seqs}

-- Two documents hold the same under these names, whatever they hold under others.
abbrev pub SameAt : Getters → List Text → Fields → Fields → Type 0
SameAt g ns doc found = All (λ n. g.view_at found n ≡ g.view_at doc n) ns

module _ (g : Getters) (laws : GettersLaws g) where
  empty-names : (ns : List Text) → All (λ n. g.view_at Fields.end n ≡ none) ns
  empty-names [] = tt
  empty-names (n ∷ ns) = (laws.at_end n, empty-names ns)

  get_value-scalar :
      (t : YanType) (v : Value)
      → storable_type t ≡ true
      → is_of t v ≡ true
      → get_value g t (some (scalar t v)) ≡ ok (some v)
  unfolding get_value storable_type is_of
  get_value-scalar string (chars x) h i = rw (laws.of_string x) refl
  get_value-scalar text (chars x) h i = rw (laws.of_text x) refl
  get_value-scalar blob (chars x) h i = rw (laws.of_blob x) refl
  get_value-scalar int32 (integer x) h i = rw (laws.of_int32 x i) refl
  get_value-scalar double (real x) h i = rw (laws.of_double x i) refl
  get_value-scalar t v h i = absurd (cc)

  get_value-none : (t : YanType) → storable_type t ≡ true → get_value g t none ≡ ok none
  unfolding get_value storable_type
  get_value-none string h = refl
  get_value-none text h = refl
  get_value-none blob h = refl
  get_value-none int32 h = refl
  get_value-none double h = refl
  get_value-none t h = absurd (cc)

  -- A new member, from what the document holds of a member with that flag
  fetch_plain-Holds :
      (info : MemberInfo) (doc : Fields) (b : Bool) (v : Value)
      → storable_type info.type_ ≡ true
      → is_of info.type_ v ≡ true
      → g.view_at doc (get_name info) ≡ (if b then some (scalar info.type_ v) else none)
      → fetch_plain g info doc (record { cond = 0; flag = false; value = zero_value info.type_ })
        ≡ ok (
          pos 0,
          member (record { cond = 0; flag = b; value = if b then v else zero_value info.type_ }),
        )
  unfolding fetch_plain set_given set_value
  fetch_plain-Holds info doc true v h i e =
      rw (storable_type-is_plain info.type_ h, e, get_value-scalar info.type_ v h i) refl
  fetch_plain-Holds info doc false v h i e =
      rw (storable_type-is_plain info.type_ h, e, get_value-none info.type_ h) refl

  -- A member that the document does not hold
  fetch_member-none :
      (k : Kind) (info : MemberInfo) (doc : Fields)
      → StorableKind k info
      → g.view_at doc (get_name info) ≡ none
      → fetch_member g k info doc (fresh_slot info k) ≡ ok (pos 0, fresh_slot info k)
  unfolding fetch_member fetch_plain fetch_struct set_given fresh_slot Storable
  fetch_member-none plain info doc h e =
      rw (storable_type-is_plain info.type_ h, e, get_value-none info.type_ h) refl
  fetch_member-none (Kind.of_struct c) info doc h e = rw e refl
  fetch_member-none Kind.values info doc h e = absurd h
  fetch_member-none (Kind.structs c) info doc h e = absurd h

  mutual
    unfolding fetch_members fetch_struct set_slots fresh_slots kept Storable encode TypedSlots Holds
        HoldsSlot

    fetch_members-Holds :
        (c : Class) (ss : Slots) (doc : Fields)
        → Storable c
        → TypedSlots c ss
        → Holds g c ss doc
        → fetch_members g c doc (pos 0) (fresh_slots c) ≡ ok (pos 0, kept c ss)
    fetch_members-Holds Class.end Slots.end doc h t v = refl
    fetch_members-Holds (entry info k c) (slot s ss) doc h t v =
        rw (fetch_member-Holds k info s doc h.0 t.0 v.0, fetch_members-Holds c ss doc h.2 t.1 v.1)
          refl
    fetch_members-Holds Class.end (slot s ss) doc h t v = absurd t
    fetch_members-Holds (entry info k c) Slots.end doc h t v = absurd t

    fetch_member-Holds :
        (k : Kind) (info : MemberInfo) (s : Slot) (doc : Fields)
        → StorableKind k info
        → TypedSlot k info s
        → HoldsSlot g k info s doc
        → fetch_member g k info doc (fresh_slot info k) ≡ ok (pos 0, kept_slot k info s)
    fetch_member-Holds plain info (member m) doc h t (inl e) =
        fetch_plain-Holds info doc m.flag m.value h t e
    fetch_member-Holds (Kind.of_struct c) info (Slot.of_struct (node qs ss)) doc h t (inl e) =
        rw
          (
            e,
            laws.of_document (encode_slots c ss Fields.end),
            fetch_members-Holds c ss (encode_slots c ss Fields.end) h t
                (encode_slots-Holds g laws c ss Fields.end h (empty-names (names c))),
          )
          refl
    fetch_member-Holds Kind.values info s doc h t v = absurd h
    fetch_member-Holds (Kind.structs c) info s doc h t v = absurd h
    fetch_member-Holds k info s doc h t (inr e) =
        fetch_member-none k info doc h e.0 ∙ ap (λ x. ok (pos 0, x)) (sym e.1)
    fetch_member-Holds k info s doc h t v = absurd t

  set_value_loop-Holds :
      (c : Class) (ss : Slots) (doc : Fields)
      → Storable c
      → TypedSlots c ss
      → Holds g c ss doc
      → set_value_loop g c doc (fresh_slots c) ≡ ok (kept c ss)
  unfolding set_value_loop fresh_slots kept Storable TypedSlots Holds
  set_value_loop-Holds Class.end Slots.end doc h t v = refl
  set_value_loop-Holds (entry info k c) (slot s ss) doc h t v =
      rw (fetch_member-Holds k info s doc h.0 t.0 v.0, set_value_loop-Holds c ss doc h.2 t.1 v.1)
        refl
  set_value_loop-Holds Class.end (slot s ss) doc h t v = absurd t
  set_value_loop-Holds (entry info k c) Slots.end doc h t v = absurd t

  Holds-SameAt :
      (c : Class) (ss : Slots) (doc found : Fields)
      → SameAt g (names c) doc found
      → Holds g c ss doc
      → Holds g c ss found
  unfolding Holds HoldsSlot
  Holds-SameAt Class.end ss doc found a h = tt
  Holds-SameAt (entry info k c) (slot s ss) doc found a h =
      (held h.0, Holds-SameAt c ss doc found a.1 h.1)
    where
      held :
          (g.view_at doc (get_name info) ≡ encode k info s)
            ⊎ ((g.view_at doc (get_name info) ≡ none) × (kept_slot k info s ≡ fresh_slot info k))
          → (g.view_at found (get_name info) ≡ encode k info s)
            ⊎ ((g.view_at found (get_name info) ≡ none) × (kept_slot k info s ≡ fresh_slot info k))
      held (inl e) = inl (a.0 ∙ e)
      held (inr e) = inr (a.0 ∙ e.0, e.1)
  Holds-SameAt (entry info k c) Slots.end doc found a h = tt

  -- An object whose assigned members are marked, of a class of plain members of the five types that
  -- MongoDB reads and of structs of such members, makes a document, and a new object that is filled
  -- with it, or with one that has other fields besides, has its flags and its flagged values, at
  -- every level; but no number in any seqset.
  pub make-fetch_view :
      (size_at : Node → ℕ) (c : Class) (ks : List ℕ) (ss : Slots)
      → Storable c
      → Typed c (node ks ss)
      → Marked (node ks ss)
      → All (λ k. k < length (names c)) ks
      → (doc : Fields) × (make size_at c (node ks ss) ≡ ok doc)
        × ((found : Fields)
            → SameAt g (names c) doc found
            → fetch_view g c found (fresh_node c) ≡ ok (node [] (kept c ss)))
  unfolding fetch_view fresh_node Marked
  make-fetch_view size_at c ks ss h t m l = (
    put_seqs c ss ks Fields.end,
    make-put_seqs size_at c ks ss h t l,
    (λ found a.
        ap (λ r. r >>= λ x. ok (node [] x))
          (set_value_loop-Holds c ss found h t
            (Holds-SameAt c ss _ found a (put_seqs-Holds g laws c ks ss h t m)))),
  )
