-- ===== src/Mongo/RoundTrip.antt =====
-- What a document holds of an object, and what an object keeps of it, for the classes that src/mongo
-- can both write and read: plain members of five types and structs of such members.
pub mod Lookup
pub mod Writing
pub mod Holding
pub mod Seqset
pub mod Reading
pub mod Through
use yan.Prelude.{
  ℕ, zero, suc, ◌⊎◌, Bool, true, false, List, [], ◌∷◌, Option, none, some, ◌≡◌, if◌then◌else◌, ◌==◌,
  All,
}
use yan.Prelude.Text.{Text, text_eq}
use yan.Types.{YanType, int32, double, string, text, blob}
use yan.Ref.Struct.{MemberInfo, get_name}
use yan.Ref.Object.{Member, zero_value}
use yan.Ref.Nested.{Class, entry, Kind, plain, Node, node, Slots, slot, Slot, member, fresh_slot}
use yan.Mongo.Document.{Element, scalar, document, Fields, add_field, Getters}

-- The types that `get_value` reads
unfoldable pub storable_type : YanType → Bool
storable_type string = true
storable_type text = true
storable_type blob = true
storable_type int32 = true
storable_type double = true
storable_type t = false

-- The keys of the members
abbrev pub names : Class → List Text
names Class.end = []
names (entry info k c) = get_name info ∷ names c

-- The members of one object have different keys.
unfoldable mutual
  pub Storable : Class → Type 0
  Storable Class.end = Unit
  Storable (entry info k c) =
      StorableKind k info × All (λ n. text_eq (get_name info) n ≡ false) (names c) × Storable c

  pub StorableKind : Kind → MemberInfo → Type 0
  StorableKind plain info = storable_type info.type_ ≡ true
  StorableKind (Kind.of_struct c) info = Storable c
  StorableKind k info = ⊥

abbrev pub put : Text → Option Element → Fields → Fields
put n none doc = doc
put n (some e) doc = add_field n e doc

-- What a document holds of a member, and of all of them
unfoldable mutual
  pub encode : Kind → MemberInfo → Slot → Option Element
  encode plain info (member m) = if m.flag then some (scalar info.type_ m.value) else none
  encode (Kind.of_struct c) info (Slot.of_struct (node seqs ss)) =
      some (document (encode_slots c ss Fields.end))
  encode k info s = none

  pub encode_slots : Class → Slots → Fields → Fields
  encode_slots (entry info k c) (slot s ss) doc =
      encode_slots c ss (put (get_name info) (encode k info s) doc)
  encode_slots c ss doc = doc

-- What a new object that is filled with it has: the flags, and the values that are flagged.
unfoldable mutual
  unfolding zero_value

  pub kept_slot : Kind → MemberInfo → Slot → Slot
  kept_slot plain info (member m) = member (record {
    cond = 0;
    flag = m.flag;
    value = if m.flag then m.value else zero_value info.type_;
  })
  kept_slot (Kind.of_struct c) info (Slot.of_struct (node seqs ss)) =
      Slot.of_struct (node [] (kept c ss))
  kept_slot k info s = s

  pub kept : Class → Slots → Slots
  kept (entry info k c) (slot s ss) = slot (kept_slot k info s) (kept c ss)
  kept c ss = ss

-- What the members of those numbers add to a document
unfoldable pub put_nth : Class → Slots → ℕ → Fields → Fields
unfolding encode
put_nth (entry info k c) (slot s ss) zero doc = put (get_name info) (encode k info s) doc
put_nth (entry info k c) (slot s ss) (suc i) doc = put_nth c ss i doc
put_nth c ss i doc = doc

unfoldable pub put_seqs : Class → Slots → List ℕ → Fields → Fields
unfolding put_nth
put_seqs c ss [] doc = doc
put_seqs c ss (k ∷ ks) doc = put_seqs c ss ks (put_nth c ss k doc)

-- A document holds a member, or it does not and a new object keeps nothing of it either.
unfoldable pub HoldsSlot : Getters → Kind → MemberInfo → Slot → Fields → Type 0
unfolding encode kept_slot fresh_slot
HoldsSlot g k info s doc =
    (g.view_at doc (get_name info) ≡ encode k info s)
    ⊎ ((g.view_at doc (get_name info) ≡ none) × (kept_slot k info s ≡ fresh_slot info k))

unfoldable pub Holds : Getters → Class → Slots → Fields → Type 0
unfolding HoldsSlot
Holds g (entry info k c) (slot s ss) doc = HoldsSlot g k info s doc × Holds g c ss doc
Holds g c ss doc = Unit

-- A document that holds the members whose numbers pass `p`, of those from number `i` on.
unfoldable pub HoldsSome : Getters → (ℕ → Bool) → ℕ → Class → Slots → Fields → Type 0
unfolding encode
HoldsSome g p i (entry info k c) (slot s ss) doc =
    (g.view_at doc (get_name info) ≡ (if p i then encode k info s else none))
    × HoldsSome g p (suc i) c ss doc
HoldsSome g p i c ss doc = Unit

abbrev pub also : ℕ → (ℕ → Bool) → ℕ → Bool
also k p j = if k == j then true else p j
