-- ===== src/Mongo/Typed.antt =====
-- The types of what src/mongo/mongo_writeref.h puts into a member.
pub mod Walk
use yan.Prelude.{
  ℕ, ◌+◌, Bool, true, false, List, [], ◌∷◌, ◌++◌, Option, none, some, ◌≡◌, refl, sym, ap, ◌∙◌,
  subst, All, All-append, if◌then◌else◌, Result, ok, err, ◌>>=◌, >>=-eq-ok, ok-injective,
  then-eq-ok, stop-eq-ok, Bool-cases, ◌⊎◌, inl, inr,
}
use yan.Prelude.Int.{ℤ, pos, negsuc, is_neg}
use yan.Types.{YanType, int32, double, string, text, blob, list, struct, unknown}
use yan.Ref.Param.{Value}
use yan.Ref.Struct.{MemberInfo, get_name}
use yan.Ref.Object.{Member}
use yan.Ref.Nested.{
  Class, entry, Kind, plain, Node, node, Slots, slot, Slot, member, Nodes, obj, ListMember, set_obj,
  fresh_node, slots_of, emplace_back,
}
use yan.Ref.Nested.Typed.{
  is_of, is_integer, is_real, is_chars, AllNodes, TypedSlots, TypedSlot, Typed,
  emplace_back-AllNodes, fresh_node-Typed,
}
use yan.RefOps.{is_plain}
use yan.RefOps.Write.{set_value}
use yan.Mongo.Document.{Element, Items, no_items, item, Fields, Getters}
use yan.Mongo.Fetch.{
  array_of, set_given, set_element, set_slots, get_value, fetch_plain, each_value, fetch_values,
  get_items, fetch_struct, fetch_members, fetch_member, set_value_loop, fetch_view,
}

-- A getter gives values of one C++ type.
abbrev pub Gives : (Value → Bool) → (Element → Result Value) → Type 0
Gives p get = (e : Element) (v : Value) → get e ≡ ok v → p v ≡ true

pub record TypedGetters (g : Getters) : Type 0 where
  pub utf8 : Gives is_chars g.get_utf8
  pub int32_ : Gives (is_integer 31) g.get_int32
  pub double_ : Gives (is_real 64) g.get_double

-- What a getter of the type of a member gives is of that type.
given :
    (t : YanType) (p : Value → Bool) (get : Element → Result Value)
    (same : (v : Value) → p v ≡ is_of t v)
    → Gives p get
    → (e : Element) (v : Option Value) (m : Member) → (get e >>= λ x. ok (some x)) ≡ ok v
    → is_of t (set_given m v).value ≡ true
unfolding set_given set_value
given t p get same gives e v m h =
    let (x, got, rest) = >>=-eq-ok (get e) _ h in
    subst (λ o. is_of t (set_given m o).value ≡ true) (ok-injective rest)
      (sym (same x) ∙ gives e x got)

module _ (g : Getters) (typed : TypedGetters g) where
  get_value-is_of :
      (t : YanType) (e : Option Element) (v : Option Value) (m : Member)
      → is_of t m.value ≡ true
      → get_value g t e ≡ ok v
      → is_of t (set_given m v).value ≡ true
  unfolding get_value set_given is_of
  get_value-is_of string none v m i h =
      subst (λ o. is_of string (set_given m o).value ≡ true) (ok-injective h) i
  get_value-is_of text none v m i h =
      subst (λ o. is_of text (set_given m o).value ≡ true) (ok-injective h) i
  get_value-is_of blob none v m i h =
      subst (λ o. is_of blob (set_given m o).value ≡ true) (ok-injective h) i
  get_value-is_of int32 none v m i h =
      subst (λ o. is_of int32 (set_given m o).value ≡ true) (ok-injective h) i
  get_value-is_of double none v m i h =
      subst (λ o. is_of double (set_given m o).value ≡ true) (ok-injective h) i
  get_value-is_of string (some e) v m i h =
      given string is_chars g.get_utf8 (λ x. refl) typed.utf8 e v m h
  get_value-is_of text (some e) v m i h =
      given text is_chars g.get_utf8 (λ x. refl) typed.utf8 e v m h
  get_value-is_of blob (some e) v m i h =
      given blob is_chars g.get_utf8 (λ x. refl) typed.utf8 e v m h
  get_value-is_of int32 (some e) v m i h =
      given int32 (is_integer 31) g.get_int32 (λ x. refl) typed.int32_ e v m h
  get_value-is_of double (some e) v m i h =
      given double (is_real 64) g.get_double (λ x. refl) typed.double_ e v m h
  get_value-is_of t e v m i h = absurd (cc)

  pub fetch_plain-Typed :
      (info : MemberInfo) (view : Fields) (m : Member) (r : ℤ) (s' : Slot)
      → is_of info.type_ m.value ≡ true
      → fetch_plain g info view m ≡ ok (r, s')
      → TypedSlot plain info s'
  unfolding fetch_plain TypedSlots
  fetch_plain-Typed info view m r s' i h =
      let (v, got, rest) =
        >>=-eq-ok (get_value g info.type_ (g.view_at view (get_name info))) _
          (then-eq-ok (is_plain info.type_) _ _ h) in
      subst (λ x. TypedSlot plain info x.1) (ok-injective rest)
        (get_value-is_of info.type_ (g.view_at view (get_name info)) v m i got)

  each_value-Typed :
      (t : YanType) (get : Element → Result Value)
      → Gives (is_of t) get
      → (es : Items) (l l' : ListMember) → All (λ v. is_of t v ≡ true) l.elements
      → each_value g get es l ≡ ok l'
      → All (λ v. is_of t v ≡ true) l'.elements
  unfolding each_value set_element
  each_value-Typed t get gives no_items l l' a h =
      subst (λ x. All (λ v. is_of t v ≡ true) x.elements) (ok-injective h) a
  each_value-Typed t get gives (item e es) l l' a h =
      let (v, got, rest) = >>=-eq-ok (get e) _ h in
      each_value-Typed t get gives es (set_element l v) l'
        (All-append _ l.elements (v ∷ []) a (gives e v got, tt)) rest

  pub fetch_values-Typed :
      (t : YanType) (es : Items) (l l' : ListMember)
      → All (λ v. is_of t v ≡ true) l.elements
      → fetch_values g t es l ≡ ok l'
      → All (λ v. is_of t v ≡ true) l'.elements
  unfolding fetch_values is_of
  fetch_values-Typed string es l l' a h = each_value-Typed string g.get_utf8 typed.utf8 es l l' a h
  fetch_values-Typed text es l l' a h = each_value-Typed text g.get_utf8 typed.utf8 es l l' a h
  fetch_values-Typed blob es l l' a h = each_value-Typed blob g.get_utf8 typed.utf8 es l l' a h
  fetch_values-Typed int32 es l l' a h = each_value-Typed int32 g.get_int32 typed.int32_ es l l' a h
  fetch_values-Typed double es l l' a h =
      each_value-Typed double g.get_double typed.double_ es l l' a h
  fetch_values-Typed t es l l' a h = absurd (cc)

  pub get_items-Keeps :
      (P : Slots → Type 0) (cb : Fields → Slots → Result (ℤ × Slots))
      → ((view : Fields) (ss ss' : Slots) (r : ℤ) → P ss → cb view ss ≡ ok (r, ss') → P ss')
      → (es : Items) (ret r : ℤ) (ss ss' : Slots) → P ss
      → get_items g cb es ret ss ≡ ok (r, ss')
      → P ss'
  unfolding get_items
  get_items-Keeps P cb keeps no_items ret r ss ss' p h = subst (λ x. P x.1) (ok-injective h) p
  get_items-Keeps P cb keeps (item e es) ret r ss ss' p h =
      let (view, got, rest) = >>=-eq-ok (g.get_document e) _ h in
      let ((r1, s1), done, rest') = >>=-eq-ok (cb view ss) _ rest in
      let p1 : P s1 = keeps view ss s1 r1 p done in
      elim (stop-eq-ok (is_neg r1) (r1, s1) _ rest') [
        | inl same ↦ subst (λ x. P x.1) same p1
        | inr more ↦ get_items-Keeps P cb keeps es r1 r s1 ss' p1 more
      ]

  pub set_obj-Typed :
      (c : Class) (info : MemberInfo) (flag : Bool) (ns : Nodes) (r : ℤ) (ss : Slots)
      → TypedSlots c ss
      → AllNodes (λ n. TypedSlots c (slots_of n)) ns
      → TypedSlot (Kind.structs c) info (set_obj flag ns (r, node [] ss)).1
  unfolding set_obj TypedSlots
  set_obj-Typed c info flag ns (pos n) ss t a =
      emplace_back-AllNodes (λ n. TypedSlots c (slots_of n)) (node [] ss) ns t a
  set_obj-Typed c info flag ns (negsuc n) ss t a = a

  pub fetch_struct-Typed :
      (c : Class) (info : MemberInfo) (cb : Fields → Result (ℤ × Slots)) (seqs : List ℕ)
      (ss : Slots) (e : Option Element) (r : ℤ) (s' : Slot)
      → TypedSlots c ss
      → ((view : Fields) (n : ℤ) (ss' : Slots) → cb view ≡ ok (n, ss') → TypedSlots c ss')
      → fetch_struct g cb seqs ss e ≡ ok (r, s')
      → TypedSlot (Kind.of_struct c) info s'
  unfolding fetch_struct set_slots TypedSlots
  fetch_struct-Typed c info cb seqs ss none r s' t keeps h =
      subst (λ x. TypedSlot (Kind.of_struct c) info x.1) (ok-injective h) t
  fetch_struct-Typed c info cb seqs ss (some e) r s' t keeps h =
      let (view, got, rest) = >>=-eq-ok (g.get_document e) _ h in
      let ((n, ss1), done, last) = >>=-eq-ok (cb view) _ rest in
      subst (λ x. TypedSlot (Kind.of_struct c) info x.1) (ok-injective last) (keeps view n ss1 done)
