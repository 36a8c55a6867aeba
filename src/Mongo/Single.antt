-- ===== src/Mongo/Single.antt =====
-- What the walk of FetchMongoResult (src/mongo/mongo_writeref.h) returns, and what becomes of a list of
-- structs, whose setter is that of src/base/ref.h.
use yan.Prelude.{
  ℕ, Bool, List, [], Option, none, some, ◌≡◌, sym, ap, ◌∙◌, subst, Result, ok, ◌>>=◌, >>=-eq-ok,
  ok-injective, then-eq-ok, if◌then◌else◌,
}
use yan.Prelude.Int.{ℤ, pos, is_neg}
use yan.Ref.Struct.{MemberInfo, get_name}
use yan.Ref.Object.{Member}
use yan.RefOps.{is_plain}
use yan.Ref.Nested.{
  Class, entry, Kind, plain, Node, node, Slots, slot, Slot, member, Nodes, set_obj, emplace_back,
}
use yan.Mongo.Document.{Element, Items, no_items, item, Fields, Getters}
use yan.Mongo.Fetch.{
  array_of, set_slots, get_value, fetch_plain, fetch_values, get_items, fetch_struct, fetch_members,
  fetch_member,
}

-- A loop goes on behind a handler that returns 0.
past_zero :
    {A : Type 0} (n : ℤ) (rest : ℤ → Result A) (a : A) {b : A}
    → n ≡ pos 0
    → (if is_neg n then ok a else rest n) ≡ ok b
    → rest (pos 0) ≡ ok b
past_zero n rest a {b} e h = subst (λ m. (if is_neg m then ok a else rest m) ≡ ok b) e h

module _ (g : Getters) where
  fetch_plain_code :
      (info : MemberInfo) (view : Fields) (m : Member) (r : ℤ) (s' : Slot)
      → fetch_plain g info view m ≡ ok (r, s')
      → r ≡ pos 0
  unfolding fetch_plain
  fetch_plain_code info view m r s' h =
      let (v, got, rest) =
        >>=-eq-ok (get_value g info.type_ (g.view_at view (get_name info))) _
          (then-eq-ok (is_plain info.type_) _ _ h) in
      sym (ap (λ x. x.0) (ok-injective rest))

  get_items_code :
      (cb : Fields → Slots → Result (ℤ × Slots))
      → ((view : Fields) (ss ss' : Slots) (r : ℤ) → cb view ss ≡ ok (r, ss') → r ≡ pos 0)
      → (es : Items) (r : ℤ) (ss ss' : Slots) → get_items g cb es (pos 0) ss ≡ ok (r, ss')
      → r ≡ pos 0
  unfolding get_items
  get_items_code cb done no_items r ss ss' h = sym (ap (λ x. x.0) (ok-injective h))
  get_items_code cb done (item e es) r ss ss' h =
      let (view, got, rest) = >>=-eq-ok (g.get_document e) _ h in
      let ((r1, s1), called, rest') = >>=-eq-ok (cb view ss) _ rest in
      let zero_ : r1 ≡ pos 0 = done view ss s1 r1 called in
      get_items_code cb done es r s1 ss'
        (past_zero r1 (λ n. get_items g cb es n s1) (r1, s1) zero_ rest')

  fetch_struct_code :
      (cb : Fields → Result (ℤ × Slots)) (seqs : List ℕ) (ss : Slots) (e : Option Element) (r : ℤ)
      (s' : Slot)
      → ((view : Fields) (ss' : Slots) (n : ℤ) → cb view ≡ ok (n, ss') → n ≡ pos 0)
      → fetch_struct g cb seqs ss e ≡ ok (r, s')
      → r ≡ pos 0
  unfolding fetch_struct set_slots
  fetch_struct_code cb seqs ss none r s' done h = sym (ap (λ x. x.0) (ok-injective h))
  fetch_struct_code cb seqs ss (some e) r s' done h =
      let (view, got, rest) = >>=-eq-ok (g.get_document e) _ h in
      let ((n, ss1), called, last) = >>=-eq-ok (cb view) _ rest in
      sym (ap (λ x. x.0) (ok-injective last)) ∙ done view ss1 n called

  structs_appended :
      (cb : Fields → Slots → Result (ℤ × Slots))
      → ((view : Fields) (ss ss' : Slots) (r : ℤ) → cb view ss ≡ ok (r, ss') → r ≡ pos 0)
      → (es : Items) (start : Slots) (flag : Bool) (ns : Nodes) (r : ℤ) (s' : Slot)
      → (get_items g cb es (pos 0) start >>= λ (n, ss). ok (set_obj flag ns (n, node [] ss)))
        ≡ ok (r, s')
      → (r ≡ pos 0) × (o : Node) × (s' ≡ Slot.structs flag (emplace_back o ns))
  unfolding set_obj
  structs_appended cb done es start flag ns r s' h =
      let ((r1, ss1), got, rest) = >>=-eq-ok (get_items g cb es (pos 0) start) _ h in
      let zero_ : r1 ≡ pos 0 = get_items_code cb done es r1 start ss1 got in
      let last = sym (ok-injective rest) ∙ ap (λ n. set_obj flag ns (n, node [] ss1)) zero_ in
      (ap (λ x. x.0) last, node [] ss1, ap (λ x. x.1) last)

  mutual
    unfolding fetch_members

    fetch_members_code :
        (c : Class) (view : Fields) (r : ℤ) (ss ss' : Slots)
        → fetch_members g c view (pos 0) ss ≡ ok (r, ss')
        → r ≡ pos 0
    fetch_members_code Class.end view r Slots.end ss' h = sym (ap (λ x. x.0) (ok-injective h))
    fetch_members_code (entry info k c) view r (slot s ss) ss' h =
        let ((r1, s1), done, rest) = >>=-eq-ok (fetch_member g k info view s) _ h in
        let zero_ : r1 ≡ pos 0 = fetch_member_code k info view r1 s s1 done in
        let next =
          past_zero r1 (λ n. fetch_members g c view n ss >>= λ x. ok (x.0, slot s1 x.1))
            (r1, slot s1 ss) zero_ rest in
        let ((n, ss1), walked, last) = >>=-eq-ok (fetch_members g c view (pos 0) ss) _ next in
        sym (ap (λ x. x.0) (ok-injective last)) ∙ fetch_members_code c view n ss ss1 walked
    fetch_members_code Class.end view r (slot s ss) ss' h = absurd (cc)
    fetch_members_code (entry info k c) view r Slots.end ss' h = absurd (cc)

    fetch_member_code :
        (k : Kind) (info : MemberInfo) (view : Fields) (r : ℤ) (s s' : Slot)
        → fetch_member g k info view s ≡ ok (r, s')
        → r ≡ pos 0
    fetch_member_code plain info view r (member m) s' h = fetch_plain_code info view m r s' h
    fetch_member_code Kind.values info view r (Slot.values l) s' h =
        let (l1, done, rest) =
          >>=-eq-ok (fetch_values g info.element (array_of (g.view_at view (get_name info))) l) _
            h in
        sym (ap (λ x. x.0) (ok-injective rest))
    fetch_member_code (Kind.structs c) info view r (Slot.structs flag ns) s' h =
        (structs_appended (λ v ss. fetch_members g c v (pos 0) ss)
          (λ v ss ss' n. fetch_members_code c v n ss ss') _ _ flag ns r s' h).0
    fetch_member_code (Kind.of_struct c) info view r (Slot.of_struct (node seqs ss)) s' h =
        fetch_struct_code (λ v. fetch_members g c v (pos 0) ss) seqs ss _ r s'
          (λ v ss' n. fetch_members_code c v n ss ss') h
    fetch_member_code k info view r s s' h = absurd (cc)

  -- A list of structs that is read gains one element, whatever the field of its name holds: an array of
  -- any length, even none, or no array at all.
  pub fetch_structs-emplace_back :
      (c : Class) (info : MemberInfo) (view : Fields) (r : ℤ) (flag : Bool) (ns : Nodes) (s' : Slot)
      → fetch_member g (Kind.structs c) info view (Slot.structs flag ns) ≡ ok (r, s')
      → (o : Node) × (s' ≡ Slot.structs flag (emplace_back o ns))
  unfolding fetch_member
  fetch_structs-emplace_back c info view r flag ns s' h =
      let (code, o, same) =
        structs_appended (λ v ss. fetch_members g c v (pos 0) ss)
          (λ v ss ss' n. fetch_members_code c v n ss ss') _ _ flag ns r s' h in
      (o, same)
