-- ===== src/Ref/Nested/Marked.antt =====
-- The sequence numbers that the objects of a nest hold (src/base/ref.h): the flags of the members and
-- the numbers of the structs within, at every level.
use yan.Prelude.{
  ℕ, zero, suc, ◌+◌, Bool, true, false, not, List, [], ◌≡◌, subst, ◌⊎◌, inl, inr, Result, ok,
  >>=-eq-ok, ok-injective, arith,
}
use yan.Prelude.Text.{Text}
use yan.Ref.Param.{Value}
use yan.Ref.Struct.{MemberInfo}
use yan.Ref.Object.{Member}
use yan.Ref.Object.Members.{has, has-insert_seq}
use yan.Ref.Nested.{Class, entry, Kind, Node, node, Slots, slot, Slot, member}
use yan.Ref.Nested.Assign.{
  Touched, Operation, assign_value, assign_values, emplace, emplace_struct, assign_plain,
  assign_list, emplace_value, emplace_object, operate, append_seq, at_slot,
}

-- A set flag has its number in the set; and so has a struct with a number in its own set, whose own
-- members are marked alike. Members are counted from `i`.
unfoldable mutual
  pub MarkedSlots : ℕ → List ℕ → Slots → Type 0
  MarkedSlots i seqs Slots.end = Unit
  MarkedSlots i seqs (slot s ss) = MarkedSlot i seqs s × MarkedSlots (suc i) seqs ss

  pub MarkedSlot : ℕ → List ℕ → Slot → Type 0
  MarkedSlot i seqs (member m) = (m.flag ≡ false) ⊎ (has i seqs ≡ true)
  MarkedSlot i seqs (Slot.values l) = (l.flag ≡ false) ⊎ (has i seqs ≡ true)
  MarkedSlot i seqs (Slot.structs flag ns) = (flag ≡ false) ⊎ (has i seqs ≡ true)
  MarkedSlot i seqs (Slot.of_struct (node ks ss)) =
      ((ks ≡ []) ⊎ (has i seqs ≡ true)) × MarkedSlots 0 ks ss

unfoldable pub Marked : Node → Type 0
unfolding MarkedSlots
Marked (node seqs ss) = MarkedSlots 0 seqs ss

-- A number once in the set stays, and one that is appended is in it.
has-append_seq_other :
    (i j : ℕ) (t : Bool) (ks : List ℕ) → has i ks ≡ true → has i (append_seq j t ks) ≡ true
unfolding append_seq
has-append_seq_other i j true ks h = ground (arith, has-insert_seq j i ks)
has-append_seq_other i j false ks h = h

pub has-append_seq : (i : ℕ) (ks : List ℕ) → has i (append_seq i true ks) ≡ true
unfolding append_seq
has-append_seq i ks = ground (arith, has-insert_seq i i ks)

pub or_later :
    {A : Type 0} (i j : ℕ) (t : Bool) (ks : List ℕ)
    → A ⊎ (has i ks ≡ true)
    → A ⊎ (has i (append_seq j t ks) ≡ true)
or_later i j t ks (inl a) = inl a
or_later i j t ks (inr h) = inr (has-append_seq_other i j t ks h)

MarkedSlot-append_seq :
    (i j : ℕ) (t : Bool) (ks : List ℕ) (s : Slot)
    → MarkedSlot i ks s
    → MarkedSlot i (append_seq j t ks) s
unfolding MarkedSlots
MarkedSlot-append_seq i j t ks (member m) h = or_later i j t ks h
MarkedSlot-append_seq i j t ks (Slot.values l) h = or_later i j t ks h
MarkedSlot-append_seq i j t ks (Slot.structs flag ns) h = or_later i j t ks h
MarkedSlot-append_seq i j t ks (Slot.of_struct (node qs ss)) h = (or_later i j t ks h.0, h.1)

MarkedSlots-append_seq :
    (i j : ℕ) (t : Bool) (ks : List ℕ) (ss : Slots)
    → MarkedSlots i ks ss
    → MarkedSlots i (append_seq j t ks) ss
unfolding MarkedSlots
MarkedSlots-append_seq i j t ks Slots.end h = tt
MarkedSlots-append_seq i j t ks (slot s ss) h =
    (MarkedSlot-append_seq i j t ks s h.0, MarkedSlots-append_seq (suc i) j t ks ss h.1)

abbrev pub MarkedBy : ℕ → List ℕ → Touched → Type 0
MarkedBy i ks (s, t) = MarkedSlot i (append_seq i t ks) s

abbrev MarkedAfter : ℕ → ℕ → List ℕ → Slots × Bool → Type 0
MarkedAfter i j ks (ss, t) = MarkedSlots i (append_seq j t ks) ss

-- What a change of one slot needs: that it marks the slot when it reports it.
abbrev pub Marks : (MemberInfo → Kind → Slot → Result Touched) → Type 0
Marks f =
    (info : MemberInfo) (k : Kind) (i : ℕ) (ks : List ℕ) (s s' : Slot) (t : Bool)
    → f info k s ≡ ok (s', t)
    → MarkedSlot i ks s
    → MarkedSlot i (append_seq i t ks) s'

pub at_slot-Marked :
    (f : MemberInfo → Kind → Slot → Result Touched)
    → Marks f
    → (c : Class) (ss ss' : Slots) (t : Bool) (i n j : ℕ) (ks : List ℕ) → j ≡ i + n
    → at_slot f c ss n ≡ ok (ss', t)
    → MarkedSlots i ks ss
    → MarkedSlots i (append_seq j t ks) ss'
unfolding at_slot MarkedSlots
at_slot-Marked f h (entry info k c) (slot s ss) ss' t i zero j ks p e m =
    let ((s1, t1), done, rest) = >>=-eq-ok (f info k s) _ e in
    let place : i ≡ j = omega (arith, p) in
    subst (λ q. MarkedSlots i (append_seq q t ks) ss') place
      (subst (MarkedAfter i i ks) (ok-injective rest)
        (h info k i ks s s1 t1 done m.0, MarkedSlots-append_seq (suc i) i t1 ks ss m.1))
at_slot-Marked f h (entry info k c) (slot s ss) ss' t i (suc n) j ks p e m =
    let ((ss1, t1), done, rest) = >>=-eq-ok (at_slot f c ss n) _ e in
    subst (MarkedAfter i j ks) (ok-injective rest) (
      MarkedSlot-append_seq i j t1 ks s m.0,
      at_slot-Marked f h c ss ss1 t1 (suc i) n j ks (omega (arith, p)) done m.1,
    )
at_slot-Marked f h Class.end ss ss' t i n j ks p e m = absurd (cc)
at_slot-Marked f h (entry info k c) Slots.end ss' t i n j ks p e m = absurd (cc)

-- An operation that reports the slot as already marked has found its flag set.
marked_by :
    (flag : Bool) (i : ℕ) (ks : List ℕ)
    → (flag ≡ false) ⊎ (has i ks ≡ true)
    → has i (append_seq i (not flag) ks) ≡ true
marked_by true i ks (inl h) = absurd (cc)
marked_by true i ks (inr h) = has-append_seq_other i i false ks h
marked_by false i ks h = has-append_seq i ks

assigned :
    (name : Text) (info : MemberInfo) (v : Value) (m : Member) (s' : Slot) (t : Bool)
    → assign_plain name info v m ≡ ok (s', t)
    → ◌≡◌ {A = Touched} (member (record m { value = v; flag = true }), not m.flag) (s', t)
unfolding assign_plain
assigned name info v m s' t e = ground arith

assign_plain-Marks :
    (name : Text) (v : Value) (info : MemberInfo) (i : ℕ) (ks : List ℕ) (m : Member) (s' : Slot)
    (t : Bool)
    → assign_plain name info v m ≡ ok (s', t)
    → MarkedSlot i ks (member m)
    → MarkedSlot i (append_seq i t ks) s'
unfolding assign_plain MarkedSlots
assign_plain-Marks name v info i ks m s' t e h =
    subst (MarkedBy i ks) (assigned name info v m s' t e) (inr (marked_by m.flag i ks h))

pub operate-Marks : (name : Text) (op : Operation) → Marks (λ info k s. operate name op info s)
unfolding operate MarkedSlots assign_list emplace_value emplace_object
operate-Marks name (assign_value v) info k i ks (member m) s' t e h =
    assign_plain-Marks name v info i ks m s' t e h
operate-Marks name (assign_values vs) info k i ks (Slot.values l) s' t e h =
    subst (MarkedBy i ks) (ok-injective e) (inr (marked_by l.flag i ks h))
operate-Marks name (emplace v) info k i ks (Slot.values l) s' t e h =
    subst (MarkedBy i ks) (ok-injective e) (inr (marked_by l.flag i ks h))
operate-Marks name (emplace_struct o) info k i ks (Slot.structs flag ns) s' t e h =
    subst (MarkedBy i ks) (ok-injective e) (inr (marked_by flag i ks h))
operate-Marks name op info k i ks s s' t e h = absurd (cc)
