-- ===== src/Mongo/RoundTrip/Writing.antt =====
-- The documents that the walk of MakeWriteBson makes (src/mongo/mongo_readref.h).
use yan.Prelude.{
  ℕ, zero, suc, Bool, true, false, List, [], ◌∷◌, ◌≡◌, refl, ap, ok, ◌>>=◌, arith, length, All, ◌<◌,
}
use yan.Prelude.Int.{pos}
use yan.Types.{YanType}
use yan.Ref.Struct.{MemberInfo, get_name}
use yan.Ref.Object.{Member}
use yan.Ref.Nested.{Class, entry, Kind, plain, Node, node, Slots, slot, Slot, member, slots_of}
use yan.Ref.Nested.Typed.{TypedSlots, TypedSlot, Typed}
use yan.RefOps.{is_plain, member_ref}
use yan.Mongo.Document.{Fields}
use yan.Mongo.Write.{
  append_bson, append_document, write_members, write_member, write_nth, write_seqs, make,
}
use yan.Mongo.RoundTrip.{
  storable_type, Storable, StorableKind, names, put, put_nth, put_seqs, encode, encode_slots,
}

pub storable_type-is_plain : (t : YanType) → storable_type t ≡ true → is_plain t ≡ true
unfolding storable_type
storable_type-is_plain YanType.unknown h = cc
storable_type-is_plain YanType.struct h = cc
storable_type-is_plain YanType.list h = cc
storable_type-is_plain _ h = refl

member_ref-encode :
    (info : MemberInfo) (m : Member) (doc : Fields)
    → storable_type info.type_ ≡ true
    → member_ref append_bson m info doc
      ≡ ok (pos 0, put (get_name info) (encode plain info (member m)) doc)
unfolding member_ref append_bson encode
member_ref-encode info m doc h = by_flag m.flag
  where
    by_flag :
        (b : Bool)
        → member_ref append_bson (record m { flag = b }) info doc
          ≡ ok (pos 0, put (get_name info) (encode plain info (member (record m { flag = b }))) doc)
    by_flag true = rw (storable_type-is_plain info.type_ h)
    by_flag false = refl

module _ (size_at : Node → ℕ) where
  mutual
    unfolding write_members Storable encode TypedSlots append_document

    write_members-encode_slots :
        (c : Class) (o : Node) (ss : Slots) (doc : Fields)
        → Storable c
        → TypedSlots c ss
        → write_members size_at c o ss (pos 0) doc ≡ ok (pos 0, encode_slots c ss doc)
    write_members-encode_slots Class.end o Slots.end doc h t = refl
    write_members-encode_slots (entry info k c) o (slot s ss) doc h t =
        rw (write_member-encode k info o s doc h.0 t.0)
          (write_members-encode_slots c o ss _ h.2 t.1)
    write_members-encode_slots Class.end o (slot s ss) doc h t = absurd t
    write_members-encode_slots (entry info k c) o Slots.end doc h t = absurd t

    write_member-encode :
        (k : Kind) (info : MemberInfo) (o : Node) (s : Slot) (doc : Fields)
        → StorableKind k info
        → TypedSlot k info s
        → write_member size_at k info o s doc
          ≡ ok (pos 0, put (get_name info) (encode k info s) doc)
    write_member-encode plain info o (member m) doc h t = member_ref-encode info m doc h
    write_member-encode (Kind.of_struct c) info o (Slot.of_struct (node seqs ss)) doc h t =
        ap (λ r. r >>= λ x. ok (append_document (get_name info) doc x))
          (write_members-encode_slots c (node seqs ss) ss Fields.end h t)
    write_member-encode Kind.values info o s doc h t = absurd h
    write_member-encode (Kind.structs c) info o s doc h t = absurd h
    write_member-encode k info o s doc h t = absurd t

  -- What a walk over some of the members makes
  write_nth-put_nth :
      (c : Class) (o : Node) (ss : Slots) (i : ℕ) (doc : Fields)
      → Storable c
      → TypedSlots c ss
      → i < length (names c)
      → write_nth size_at c o ss i doc ≡ ok (pos 0, put_nth c ss i doc)
  unfolding write_nth put_nth Storable TypedSlots
  write_nth-put_nth (entry info k c) o (slot s ss) zero doc h t l =
      write_member-encode k info o s doc h.0 t.0
  write_nth-put_nth (entry info k c) o (slot s ss) (suc i) doc h t l =
      write_nth-put_nth c o ss i doc h.2 t.1 (omega arith)
  write_nth-put_nth (entry info k c) o Slots.end i doc h t l = absurd t
  write_nth-put_nth Class.end o ss i doc h t l = absurd (omega arith)

  write_seqs-put_seqs :
      (c : Class) (o : Node) (ks : List ℕ) (doc : Fields)
      → Storable c
      → Typed c o
      → All (λ k. k < length (names c)) ks
      → write_seqs size_at c o ks doc ≡ ok (put_seqs c (slots_of o) ks doc)
  unfolding write_seqs put_seqs
  write_seqs-put_seqs c o [] doc h t l = refl
  write_seqs-put_seqs c o (k ∷ ks) doc h t l =
      rw (write_nth-put_nth c o (slots_of o) k doc h t l.0)
        (write_seqs-put_seqs c o ks (put_nth c (slots_of o) k doc) h t l.1)

  pub make-put_seqs :
      (c : Class) (ks : List ℕ) (ss : Slots)
      → Storable c
      → TypedSlots c ss
      → All (λ k. k < length (names c)) ks
      → make size_at c (node ks ss) ≡ ok (put_seqs c ss ks Fields.end)
  unfolding make
  make-put_seqs c ks ss h t l = write_seqs-put_seqs c (node ks ss) ks Fields.end h t l
