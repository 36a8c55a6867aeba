-- ===== src/Mongo/RoundTrip/Seqset.antt =====
-- What a document of src/mongo holds of an object of which the walk handles the members of its seqset.
use yan.Prelude.{
  ℕ, zero, suc, ◌+◌, Bool, true, false, List, [], ◌∷◌, Option, none, some, ◌≡◌, refl, sym, ap, ◌∙◌,
  inl, inr, if◌then◌else◌, arith,
}
use yan.Prelude.Text.{Text}
use yan.Ref.Struct.{MemberInfo, get_name}
use yan.Ref.Object.{zero_value}
use yan.Ref.Object.Members.{has}
use yan.Ref.Nested.{
  Class, entry, Kind, plain, node, Slots, slot, Slot, member, fresh_slots, fresh_slot,
}
use yan.Ref.Nested.Marked.{MarkedSlots, MarkedSlot}
use yan.Ref.Nested.Typed.{TypedSlots, TypedSlot}
use yan.Mongo.Document.{Element, scalar, Fields, Getters, GettersLaws}
use yan.Mongo.RoundTrip.{
  Storable, StorableKind, put, encode, kept_slot, kept, put_nth, put_seqs, HoldsSlot, Holds,
  HoldsSome, also,
}
use yan.Mongo.RoundTrip.Lookup.{view_at-put, view_at-put_again}
use yan.Mongo.RoundTrip.Holding.{put_nth-other, put-HoldsSome}

module _ (g : Getters) (laws : GettersLaws g) where
  -- A member that is handled is held, for the first time or again.
  put_held :
      (b : Bool) (n : Text) (e : Option Element) (doc : Fields)
      → g.view_at doc n ≡ (if b then e else none)
      → g.view_at (put n e doc) n ≡ e
  put_held true n e doc v = view_at-put_again g laws n e doc v
  put_held false n e doc v = view_at-put g laws n e doc v

  put_nth-HoldsSome :
      (c : Class) (ss : Slots) (p : ℕ → Bool) (i m k : ℕ) (doc : Fields)
      → k ≡ i + m
      → Storable c
      → HoldsSome g p i c ss doc
      → HoldsSome g (also k p) i c ss (put_nth c ss m doc)
  unfolding put_nth HoldsSome Storable
  put_nth-HoldsSome (entry info kind c) (slot s ss) p i zero k doc e h v =
      let here : true ≡ also k p i = ground arith in
      (
        put_held (p i) (get_name info) (encode kind info s) doc v.0
            ∙ ap (λ b. if b then encode kind info s else none) here,
        put-HoldsSome g laws c ss p (suc i) k (get_name info) (encode kind info s) doc
            (omega (arith, e)) h.1 v.1,
      )
  put_nth-HoldsSome (entry info kind c) (slot s ss) p i (suc m) k doc e h v =
      let past : p i ≡ also k p i = ground arith in
      (
        put_nth-other g laws c ss m doc (get_name info) h.1
            ∙ v.0
            ∙ ap (λ b. if b then encode kind info s else none) past,
        put_nth-HoldsSome c ss p (suc i) m k doc (omega (arith, e)) h.2 v.1,
      )
  put_nth-HoldsSome (entry info kind c) Slots.end p i m k doc e h v = tt
  put_nth-HoldsSome Class.end ss p i m k doc e h v = tt

  -- The numbers that pass after all of those of a list
  among : List ℕ → (ℕ → Bool) → ℕ → Bool
  among [] p = p
  among (k ∷ ks) p = among ks (also k p)

  among-has : (ks : List ℕ) (p : ℕ → Bool) (j : ℕ) → among ks p j ≡ (if has j ks then true else p j)
  unfolding among has
  among-has [] p j = refl
  among-has (k ∷ ks) p j = ground (arith, among-has ks (also k p) j)

  put_seqs-HoldsSome :
      (c : Class) (ss : Slots) (ks : List ℕ) (p : ℕ → Bool) (doc : Fields)
      → Storable c
      → HoldsSome g p 0 c ss doc
      → HoldsSome g (among ks p) 0 c ss (put_seqs c ss ks doc)
  unfolding put_seqs among
  put_seqs-HoldsSome c ss [] p doc h v = v
  put_seqs-HoldsSome c ss (k ∷ ks) p doc h v =
      put_seqs-HoldsSome c ss ks (also k p) (put_nth c ss k doc) h
        (put_nth-HoldsSome c ss p 0 k k doc (omega arith) h v)

  HoldsSome-empty : (c : Class) (ss : Slots) (i : ℕ) → HoldsSome g (λ j. false) i c ss Fields.end
  unfolding HoldsSome
  HoldsSome-empty (entry info k c) (slot s ss) i =
      (laws.at_end (get_name info), HoldsSome-empty c ss (suc i))
  HoldsSome-empty (entry info k c) Slots.end i = tt
  HoldsSome-empty Class.end ss i = tt

  -- A struct in which nothing is assigned keeps what a new one has.
  mutual
    unfolding kept kept_slot fresh_slots MarkedSlots Storable TypedSlots has

    unmarked-kept :
        (c : Class) (ss : Slots) (i : ℕ)
        → Storable c
        → TypedSlots c ss
        → MarkedSlots i [] ss
        → kept c ss ≡ fresh_slots c
    unmarked-kept Class.end Slots.end i h t m = refl
    unmarked-kept (entry info k c) (slot s ss) i h t m =
        rw (unmarked-kept_slot k info s i h.0 t.0 m.0, unmarked-kept c ss (suc i) h.2 t.1 m.1) refl
    unmarked-kept Class.end (slot s ss) i h t m = absurd t
    unmarked-kept (entry info k c) Slots.end i h t m = absurd t

    unmarked-kept_slot :
        (k : Kind) (info : MemberInfo) (s : Slot) (i : ℕ)
        → StorableKind k info
        → TypedSlot k info s
        → MarkedSlot i [] s
        → kept_slot k info s ≡ fresh_slot info k
    unmarked-kept_slot plain info (member m) i h t (inl f) =
        ap
          (λ b.
            member
              (record { cond = 0; flag = b; value = if b then m.value else zero_value info.type_ }))
          f
    unmarked-kept_slot plain info (member m) i h t (inr f) = absurd (cc)
    unmarked-kept_slot (Kind.of_struct c) info (Slot.of_struct (node [] ss)) i h t m =
        ap (λ x. Slot.of_struct (node [] x)) (unmarked-kept c ss 0 h t m.1)
    unmarked-kept_slot (Kind.of_struct c) info (Slot.of_struct (node (q ∷ qs) ss)) i h t
          (inl e, m) =
        absurd (cc)
    unmarked-kept_slot (Kind.of_struct c) info (Slot.of_struct (node (q ∷ qs) ss)) i h t
          (inr e, m) =
        absurd (cc)
    unmarked-kept_slot Kind.values info s i h t m = absurd h
    unmarked-kept_slot (Kind.structs c) info s i h t m = absurd h
    unmarked-kept_slot k info s i h t m = absurd t

  slot-Holds :
      (k : Kind) (info : MemberInfo) (s : Slot) (i : ℕ) (ks : List ℕ) (b : Bool) (doc : Fields)
      → has i ks ≡ b
      → StorableKind k info
      → TypedSlot k info s
      → MarkedSlot i ks s
      → g.view_at doc (get_name info) ≡ (if b then encode k info s else none)
      → HoldsSlot g k info s doc
  unfolding HoldsSlot encode MarkedSlots Storable TypedSlots kept fresh_slots
  slot-Holds k info s i ks true doc e h t m v = inl v
  slot-Holds plain info (member x) i ks false doc e h t (inl f) v =
      inl (v ∙ sym (ap (λ b. if b then some (scalar info.type_ x.value) else none) f))
  slot-Holds plain info (member x) i ks false doc e h t (inr f) v = absurd (cc)
  slot-Holds (Kind.of_struct c) info (Slot.of_struct (node qs ss)) i ks false doc e h t (inl f, m)
        v =
      inr (
        v,
        unmarked-kept_slot (Kind.of_struct c) info (Slot.of_struct (node qs ss)) i h t (inl f, m),
      )
  slot-Holds (Kind.of_struct c) info (Slot.of_struct (node qs ss)) i ks false doc e h t (inr f, m)
        v =
      absurd (cc)
  slot-Holds Kind.values info s i ks false doc e h t m v = absurd h
  slot-Holds (Kind.structs c) info s i ks false doc e h t m v = absurd h
  slot-Holds k info s i ks false doc e h t m v = absurd t

  HoldsSome-Holds :
      (c : Class) (ss : Slots) (ks : List ℕ) (p : ℕ → Bool) (i : ℕ) (doc : Fields)
      → ((j : ℕ) → p j ≡ has j ks)
      → Storable c
      → TypedSlots c ss
      → MarkedSlots i ks ss
      → HoldsSome g p i c ss doc
      → Holds g c ss doc
  unfolding Holds HoldsSome MarkedSlots Storable TypedSlots
  HoldsSome-Holds (entry info k c) (slot s ss) ks p i doc same h t m v = (
    slot-Holds k info s i ks (p i) doc (sym (same i)) h.0 t.0 m.0 v.0,
    HoldsSome-Holds c ss ks p (suc i) doc same h.2 t.1 m.1 v.1,
  )
  HoldsSome-Holds (entry info k c) Slots.end ks p i doc same h t m v = tt
  HoldsSome-Holds Class.end ss ks p i doc same h t m v = tt

  pub put_seqs-Holds :
      (c : Class) (ks : List ℕ) (ss : Slots)
      → Storable c
      → TypedSlots c ss
      → MarkedSlots 0 ks ss
      → Holds g c ss (put_seqs c ss ks Fields.end)
  put_seqs-Holds c ks ss h t m =
      HoldsSome-Holds c ss ks (among ks (λ j. false)) 0 (put_seqs c ss ks Fields.end)
        (λ j. among-has ks (λ j. false) j ∙ if_same (has j ks)) h t m
        (put_seqs-HoldsSome c ss ks (λ j. false) Fields.end h (HoldsSome-empty c ss 0))
    where
      if_same : (b : Bool) → (if b then true else false) ≡ b
      if_same true = refl
      if_same false = refl
