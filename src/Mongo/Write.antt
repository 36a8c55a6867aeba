-- ===== src/Mongo/Write.antt =====
-- src/mongo/mongo_readref.h, MakeWriteBson, with the walk of ReadRefOps (src/base/ref_ops.h) that it
-- instantiates: how an object becomes a document. What a handler returns below 0 ends the loops over
-- the members of a nested object, and is dropped by the loop over those of the object itself.
use yan.Prelude.{
  ℕ, zero, suc, List, [], ◌∷◌, ◌==◌, if◌then◌else◌, Result, ok, err, runtime_error, undefined,
  ◌>>=◌,
}
use yan.Prelude.Int.{ℤ, pos, is_neg}
use yan.Prelude.Text.{Text, bytes}
use yan.Types.{YanType, list, struct, unknown}
use yan.Ref.Param.{Value, one, many}
use yan.Ref.Struct.{MemberInfo, get_name}
use yan.Ref.Nested.{
  Class, entry, Kind, plain, Node, node, Slots, slot, Slot, member, slots_of, get_obj,
}
use yan.RefOps.{MemAppend, member_ref}
use yan.Mongo.Document.{scalar, array, document, Items, no_items, Fields, add_field, add_item}

-- `ReadMemRef::append`: the value of a member is never a list.
unfoldable pub append_bson : MemAppend Fields
unfolding add_field
append_bson name c ops t (one v) doc = ok (pos 0, add_field name (scalar t v) doc)
append_bson name c ops t (many vs) doc = err undefined

-- `ReadListMem::append` of values
unfoldable pub append_items : YanType → List Value → Items → Items
unfolding add_item
append_items t [] a = a
append_items t (v ∷ vs) a = append_items t vs (add_item (scalar t v) a)

-- `list_ref` of values, from the `switch` on
unfoldable pub list_items : YanType → List Value → Result (ℤ × Items)
unfolding append_items
list_items list vs = err (runtime_error (bytes "Lists within lists are prohibited"))
list_items struct vs = err undefined
list_items unknown vs = err undefined
list_items t vs = ok (pos 0, append_items t vs no_items)

-- `ReadListMem::append` of an object, by what the walk over its members makes of an empty document
unfoldable pub append_item : ℤ × Fields → Items → ℤ × Items
unfolding add_item
append_item (r, doc) a = if is_neg r then (r, a) else (pos 0, add_item (document doc) a)

-- The array that `ReadListMem` opens, and closes in its destructor
unfoldable pub close_array : Text → Fields → ℤ × Items → ℤ × Fields
unfolding add_field
close_array name doc (r, a) = (r, add_field name (array a) doc)

-- `ReadStructMem::append`
unfoldable pub append_document : Text → Fields → ℤ × Fields → ℤ × Fields
unfolding add_field
append_document name doc (r, inner) =
    if is_neg r then (r, doc) else (pos 0, add_field name (document inner) doc)

-- `list_ref` asks `sizecb_`, which takes the address of the object for that of the list: `size_at` is
-- what it reads at an object.
module _ (size_at : Node → ℕ) where
  unfoldable mutual
    unfolding list_items append_item close_array append_document append_bson

    -- The loop over the members of a nested object, with the number that it returns
    pub write_members : Class → Node → Slots → ℤ → Fields → Result (ℤ × Fields)
    write_members Class.end o Slots.end ret doc = ok (ret, doc)
    write_members (entry info k c) o (slot s ss) ret doc = write_member k info o s doc >>= λ (r, d).
        (let rest = write_members c o ss r d in if is_neg r then ok (r, d) else rest)
    write_members Class.end o (slot s ss) ret doc = err undefined
    write_members (entry info k c) o Slots.end ret doc = err undefined

    -- `handle_info`, with `member_ref`, `list_ref` and `struct_ref`
    pub write_member : Kind → MemberInfo → Node → Slot → Fields → Result (ℤ × Fields)
    write_member plain info o (member m) doc = member_ref append_bson m info doc
    write_member Kind.values info o (Slot.values l) doc =
        if size_at o == 0
        then ok (pos 0, doc)
        else (list_items info.element l.elements >>= λ r. ok (close_array (get_name info) doc r))
    write_member (Kind.structs c) info o (Slot.structs flag ns) doc =
        let items =
          get_obj
            (λ n a. write_members c n (slots_of n) (pos 0) Fields.end >>= λ r. ok (append_item r a))
            ns no_items in
        if size_at o == 0
        then ok (pos 0, doc)
        else (items >>= λ r. ok (close_array (get_name info) doc r))
    write_member (Kind.of_struct c) info o (Slot.of_struct n) doc =
        write_members c n (slots_of n) (pos 0) Fields.end >>= λ r.
        ok (append_document (get_name info) doc r)
    write_member k info o s doc = err undefined

  -- `cys[seq]` with the member of the object
  unfoldable pub write_nth : Class → Node → Slots → ℕ → Fields → Result (ℤ × Fields)
  unfolding write_member
  write_nth (entry info k c) o (slot s ss) zero doc = write_member k info o s doc
  write_nth (entry info k c) o (slot s ss) (suc i) doc = write_nth c o ss i doc
  write_nth c o ss i doc = err undefined

  -- `assign_value`
  unfoldable pub write_seqs : Class → Node → List ℕ → Fields → Result Fields
  unfolding write_nth
  write_seqs c o [] doc = ok doc
  write_seqs c o (i ∷ is) doc = write_nth c o (slots_of o) i doc >>= λ (r, d). write_seqs c o is d

  -- `make`: `assign_value` returns 0.
  unfoldable pub make : Class → Node → Result Fields
  unfolding write_seqs
  make c (node seqs ss) = write_seqs c (node seqs ss) seqs Fields.end
