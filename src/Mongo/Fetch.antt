-- ===== src/Mongo/Fetch.antt =====
-- src/mongo/mongo_writeref.h, FetchMongoResult, with the walk of WriteRefOps (src/base/ref_ops.h) that
-- it instantiates and YanListMember::set (src/base/ref.h): how a document fills an object.
use yan.Prelude.{
  ℕ, List, [], ◌∷◌, ◌++◌, Option, none, some, if◌then◌else◌, Result, ok, err, runtime_error,
  undefined, ◌>>=◌,
}
use yan.Prelude.Int.{ℤ, pos, is_neg}
use yan.Prelude.Text.{bytes}
use yan.Types.{YanType, int32, double, string, text, blob, list, struct, unknown}
use yan.Ref.Param.{Value}
use yan.Ref.Struct.{MemberInfo, get_name}
use yan.Ref.Object.{Member}
use yan.Ref.Nested.{
  Class, entry, Kind, plain, Node, node, Slots, slot, Slot, member, slots_of, set_obj, ListMember,
  fresh_node,
}
use yan.RefOps.{is_plain}
use yan.RefOps.Write.{set_value}
use yan.Mongo.Document.{Element, array, Items, no_items, item, Fields, Getters}

-- The array of `WriteListMem`: that of the field, or an empty one
unfoldable pub array_of : Option Element → Items
array_of (some (array a)) = a
array_of e = no_items

-- `cb(std::move(t))` of a member
unfoldable pub set_given : Member → Option Value → Member
unfolding set_value
set_given m none = m
set_given m (some v) = set_value m v

-- `YanListMember::set`
unfoldable pub set_element : ListMember → Value → ListMember
set_element l v = record l { elements = l.elements ++ v ∷ [] }

-- `struct_ref` keeps the seqset of the struct.
unfoldable pub set_slots : List ℕ → ℤ × Slots → ℤ × Slot
set_slots seqs (r, ss) = (r, Slot.of_struct (node seqs ss))

module _ (g : Getters) where
  -- `WriteMemRef::get_value`, by the C++ type of the member
  unfoldable pub get_value : YanType → Option Element → Result (Option Value)
  get_value string none = ok none
  get_value string (some e) = g.get_utf8 e >>= λ v. ok (some v)
  get_value text none = ok none
  get_value text (some e) = g.get_utf8 e >>= λ v. ok (some v)
  get_value blob none = ok none
  get_value blob (some e) = g.get_utf8 e >>= λ v. ok (some v)
  get_value int32 none = ok none
  get_value int32 (some e) = g.get_int32 e >>= λ v. ok (some v)
  get_value double none = ok none
  get_value double (some e) = g.get_double e >>= λ v. ok (some v)
  get_value t e = err (runtime_error (bytes "mongo does not implement bind value func"))

  -- `member_ref`
  unfoldable pub fetch_plain : MemberInfo → Fields → Member → Result (ℤ × Slot)
  unfolding get_value set_given
  fetch_plain info view m =
      if is_plain info.type_
      then (get_value info.type_ (g.view_at view (get_name info)) >>= λ v.
          ok (pos 0, member (set_given m v)))
      else err undefined

  -- The loops of `WriteListMem::get_value`
  unfoldable pub each_value : (Element → Result Value) → Items → ListMember → Result ListMember
  unfolding set_element
  each_value get no_items l = ok l
  each_value get (item e es) l = get e >>= λ v. each_value get es (set_element l v)

  -- `list_ref` of values, from the `switch` on
  unfoldable pub fetch_values : YanType → Items → ListMember → Result ListMember
  unfolding each_value
  fetch_values string a l = each_value g.get_utf8 a l
  fetch_values text a l = each_value g.get_utf8 a l
  fetch_values blob a l = each_value g.get_utf8 a l
  fetch_values int32 a l = each_value g.get_int32 a l
  fetch_values double a l = each_value g.get_double a l
  fetch_values list a l = err (runtime_error (bytes "Lists within lists are prohibited"))
  fetch_values struct a l = err undefined
  fetch_values unknown a l = err undefined
  fetch_values t a l = err (runtime_error (bytes "mongo does not implement get value func"))

  -- `WriteListMem::get` with the walk over the members of an object, which stands at `ss`
  unfoldable pub get_items :
      (Fields → Slots → Result (ℤ × Slots)) → Items → ℤ → Slots → Result (ℤ × Slots)
  get_items cb no_items ret ss = ok (ret, ss)
  get_items cb (item e es) ret ss = g.get_document e >>= λ view. cb view ss >>= λ (r, s).
      (let rest = get_items cb es r s in if is_neg r then ok (r, s) else rest)

  -- `WriteStructMem::get`, for a struct with that seqset and those members
  unfoldable pub fetch_struct :
      (Fields → Result (ℤ × Slots)) → List ℕ → Slots → Option Element → Result (ℤ × Slot)
  unfolding set_slots
  fetch_struct cb seqs ss none = ok (pos 0, Slot.of_struct (node seqs ss))
  fetch_struct cb seqs ss (some e) =
      g.get_document e >>= λ view. cb view >>= λ r. ok (set_slots seqs r)

  unfoldable mutual
    unfolding fetch_struct get_items fetch_values fetch_plain array_of set_obj fresh_node

    -- The loop over the members of a nested object, with the number that it returns
    pub fetch_members : Class → Fields → ℤ → Slots → Result (ℤ × Slots)
    fetch_members Class.end view ret Slots.end = ok (ret, Slots.end)
    fetch_members (entry info k c) view ret (slot s ss) = fetch_member k info view s >>= λ (r, s').
        (let rest = fetch_members c view r ss in
          if is_neg r then ok (r, slot s' ss) else (rest >>= λ (n, ss'). ok (n, slot s' ss')))
    fetch_members Class.end view ret (slot s ss) = err undefined
    fetch_members (entry info k c) view ret Slots.end = err undefined

    -- `handle_info`, with `member_ref`, `list_ref` and `struct_ref`
    pub fetch_member : Kind → MemberInfo → Fields → Slot → Result (ℤ × Slot)
    fetch_member plain info view (member m) = fetch_plain info view m
    fetch_member Kind.values info view (Slot.values l) =
        fetch_values info.element (array_of (g.view_at view (get_name info))) l >>= λ l'.
        ok (pos 0, Slot.values l')
    fetch_member (Kind.structs c) info view (Slot.structs flag ns) =
        get_items (λ v ss. fetch_members c v (pos 0) ss) (array_of (g.view_at view (get_name info)))
          (pos 0) (slots_of (fresh_node c))
        >>= λ (r, ss). ok (set_obj flag ns (r, node [] ss))
    fetch_member (Kind.of_struct c) info view (Slot.of_struct (node seqs ss)) =
        fetch_struct (λ v. fetch_members c v (pos 0) ss) seqs ss (g.view_at view (get_name info))
    fetch_member k info view s = err undefined

  -- The loop of `set_value`, which drops what a handler returns
  unfoldable pub set_value_loop : Class → Fields → Slots → Result Slots
  unfolding fetch_member
  set_value_loop Class.end view Slots.end = ok Slots.end
  set_value_loop (entry info k c) view (slot s ss) =
      fetch_member k info view s >>= λ (r, s'). set_value_loop c view ss >>= λ ss'. ok (slot s' ss')
  set_value_loop c view ss = err undefined

  -- `fetch`: `set_value` returns 0.
  unfoldable pub fetch_view : Class → Fields → Node → Result Node
  unfolding set_value_loop
  fetch_view c view (node seqs ss) = set_value_loop c view ss >>= λ ss'. ok (node seqs ss')
