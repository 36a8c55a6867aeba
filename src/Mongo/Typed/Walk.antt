-- ===== src/Mongo/Typed/Walk.antt =====
-- The types of what src/mongo/mongo_writeref.h puts into the members of an object, at every level, and
-- of the objects that src/mongo/mongo_event.h puts into the promise of a read.
use yan.Prelude.{Bool, ◌≡◌, subst, All, ok, >>=-eq-ok, ok-injective, stop-eq-ok, inl, inr}
use yan.Prelude.Int.{ℤ, pos, is_neg}
use yan.Ref.Struct.{MemberInfo, get_name}
use yan.Ref.Nested.{
  Class, entry, Kind, plain, Node, node, Slots, slot, Slot, member, fresh_node, slots_of,
}
use yan.Ref.Nested.Typed.{TypedSlots, TypedSlot, Typed, fresh_node-Typed}
use yan.Mongo.Document.{Fields, Getters}
use yan.Mongo.Fetch.{
  array_of, fetch_values, get_items, fetch_members, fetch_member, set_value_loop, fetch_view,
}
use yan.Mongo.Client.{Mongocxx, MongoContext}
use yan.Mongo.Events.{Read, handle_read}
use yan.Mongo.Fetched.{objects, handle_read-All}
use yan.Mongo.{FilterEvent}
use yan.Mongo.Typed.{
  TypedGetters, fetch_plain-Typed, fetch_values-Typed, get_items-Keeps, set_obj-Typed,
  fetch_struct-Typed,
}

module _ (g : Getters) (typed : TypedGetters g) where
  mutual
    unfolding fetch_members TypedSlots

    fetch_members-Typed :
        (c : Class) (view : Fields) (ret r : ℤ) (ss ss' : Slots)
        → TypedSlots c ss
        → fetch_members g c view ret ss ≡ ok (r, ss')
        → TypedSlots c ss'
    fetch_members-Typed Class.end view ret r Slots.end ss' t h =
        subst (λ x. TypedSlots Class.end x.1) (ok-injective h) tt
    fetch_members-Typed (entry info k c) view ret r (slot s ss) ss' t h =
        let ((r1, s1), done, rest) = >>=-eq-ok (fetch_member g k info view s) _ h in
        let t1 = fetch_member-Typed k info view r1 s s1 t.0 done in
        elim (stop-eq-ok (is_neg r1) (r1, slot s1 ss) _ rest) [
          | inl same ↦ subst (λ x. TypedSlots (entry info k c) x.1) same (t1, t.1)
          | inr more ↦
              let ((n, ss1), walked, last) = >>=-eq-ok (fetch_members g c view r1 ss) _ more in
              subst (λ x. TypedSlots (entry info k c) x.1) (ok-injective last)
                (t1, fetch_members-Typed c view r1 n ss ss1 t.1 walked)
        ]
    fetch_members-Typed Class.end view ret r (slot s ss) ss' t h = absurd (cc)
    fetch_members-Typed (entry info k c) view ret r Slots.end ss' t h = absurd (cc)

    fetch_member-Typed :
        (k : Kind) (info : MemberInfo) (view : Fields) (r : ℤ) (s s' : Slot)
        → TypedSlot k info s
        → fetch_member g k info view s ≡ ok (r, s')
        → TypedSlot k info s'
    fetch_member-Typed plain info view r (member m) s' t h =
        fetch_plain-Typed g typed info view m r s' t h
    fetch_member-Typed Kind.values info view r (Slot.values l) s' t h =
        let (l1, done, rest) =
          >>=-eq-ok (fetch_values g info.element (array_of (g.view_at view (get_name info))) l) _
            h in
        subst (λ x. TypedSlot Kind.values info x.1) (ok-injective rest)
          (fetch_values-Typed g typed info.element _ l l1 t done)
    fetch_member-Typed (Kind.structs c) info view r (Slot.structs flag ns) s' t h =
        let ((r1, ss1), done, rest) =
          >>=-eq-ok
            (get_items g (λ v ss. fetch_members g c v (pos 0) ss)
              (array_of (g.view_at view (get_name info))) (pos 0) (slots_of (fresh_node c)))
            _ h in
        subst (λ x. TypedSlot (Kind.structs c) info x.1) (ok-injective rest)
          (set_obj-Typed g typed c info flag ns r1 ss1
            (get_items-Keeps g typed (TypedSlots c) _
              (λ v ss ss' n. fetch_members-Typed c v (pos 0) n ss ss') _ (pos 0) r1 _ ss1
              (fresh_node-Typed c) done)
            t)
    fetch_member-Typed (Kind.of_struct c) info view r (Slot.of_struct (node seqs ss)) s' t h =
        fetch_struct-Typed g typed c info (λ v. fetch_members g c v (pos 0) ss) seqs ss _ r s' t
          (λ v n ss'. fetch_members-Typed c v (pos 0) n ss ss' t) h
    fetch_member-Typed k info view r s s' t h = absurd (cc)

  set_value_loop-Typed :
      (c : Class) (view : Fields) (ss ss' : Slots)
      → TypedSlots c ss
      → set_value_loop g c view ss ≡ ok ss'
      → TypedSlots c ss'
  unfolding set_value_loop TypedSlots
  set_value_loop-Typed Class.end view Slots.end ss' t h =
      subst (TypedSlots Class.end) (ok-injective h) tt
  set_value_loop-Typed (entry info k c) view (slot s ss) ss' t h =
      let ((r, s1), done, rest) = >>=-eq-ok (fetch_member g k info view s) _ h in
      let (ss1, walked, last) = >>=-eq-ok (set_value_loop g c view ss) _ rest in
      subst (TypedSlots (entry info k c)) (ok-injective last) (
        fetch_member-Typed k info view r s s1 t.0 done,
        set_value_loop-Typed c view ss ss1 t.1 walked,
      )
  set_value_loop-Typed c view ss ss' t h = absurd (cc)

  fetch_view-Typed :
      (c : Class) (view : Fields) (o o' : Node)
      → Typed c o
      → fetch_view g c view o ≡ ok o'
      → Typed c o'
  unfolding fetch_view
  fetch_view-Typed c view (node seqs ss) o' t h =
      let (ss1, done, rest) = >>=-eq-ok (set_value_loop g c view ss) _ h in
      subst (Typed c) (ok-injective rest) (set_value_loop-Typed c view ss ss1 t done)

  -- When the getters of bsoncxx give values of their types, the objects of the promise of a read are
  -- of their class, and every value in them, at every level and in every list, is of the C++ type of
  -- its member, whatever documents the cursor gives.
  pub handle_read-Typed :
      (db : Mongocxx) (x : MongoContext) (c : Class) (single : Bool) (e : FilterEvent)
      (w w' : db.World) (r : Read)
      → handle_read db x g c single e w ≡ (ok r, w')
      → All (Typed c) (objects r)
  handle_read-Typed db x c single e w w' r h =
      handle_read-All g c (Typed c) (fresh_node-Typed c) (fetch_view-Typed c) db x single e w w' r h
