-- ===== src/Ref/Nested/Nest.antt =====
-- The marks of the objects of a nest through the operations on their members (src/base/ref.h), as
-- `deepcb_` carries them outwards.
use yan.Prelude.{
  ℕ, suc, Bool, true, false, List, [], ◌∷◌, ◌≡◌, refl, sym, subst, ◌⊎◌, inl, inr, Result, ok, ◌>>=◌,
  >>=-eq-ok, ok-injective, arith,
}
use yan.Prelude.Text.{Text}
use yan.Ref.Struct.{MemberInfo}
use yan.Ref.Object.Members.{has}
use yan.Ref.Nested.{
  Class, entry, Kind, plain, Node, node, Slot, fresh_slots, fresh_slot, fresh_node, seqs_of,
  slots_of,
}
use yan.Ref.Nested.Assign.{Touched, Operation, append_seq, at_slot, descend, appended, operate_at}
use yan.Ref.Nested.Marked.{
  MarkedSlots, MarkedSlot, Marked, has-append_seq, or_later, Marks, MarkedBy, at_slot-Marked,
  operate-Marks,
}

-- What a change of a struct keeps: its marks, and its own set unless it reports a number.
abbrev Keeps : (Class → Node → Result (Node × Bool)) → Type 0
Keeps f =
    (c : Class) (n n' : Node) (t : Bool)
    → f c n ≡ ok (n', t)
    → Marked n
    → Marked n' × ((t ≡ true) ⊎ (seqs_of n' ≡ seqs_of n))

of_struct-MarkedSlot :
    (i : ℕ) (ks : List ℕ) (n n' : Node) (t : Bool)
    → MarkedSlot i ks (Slot.of_struct n)
    → Marked n' × ((t ≡ true) ⊎ (seqs_of n' ≡ seqs_of n))
    → MarkedSlot i (append_seq i t ks) (Slot.of_struct n')
unfolding MarkedSlots Marked
of_struct-MarkedSlot i ks (node qs ss) (node qs' ss') true h k = (inr (has-append_seq i ks), k.0)
of_struct-MarkedSlot i ks (node qs ss) (node qs' ss') false h (m, inl e) = absurd (cc)
of_struct-MarkedSlot i ks (node qs ss) (node qs' ss') false h (m, inr e) =
    (or_later i i false ks (subst (λ q. (q ≡ []) ⊎ (has i ks ≡ true)) (sym e) h.0), m)

descend-Marks :
    (f : Class → Node → Result (Node × Bool)) → Keeps f → Marks (λ info k s. descend f k s)
unfolding descend MarkedSlots Marked
descend-Marks f h info (Kind.of_struct c) i ks (Slot.of_struct (node qs ss)) s' t e m =
    let ((n', t1), done, rest) = >>=-eq-ok (f c (node qs ss)) _ e in
    subst (MarkedBy i ks) (ok-injective rest)
      (of_struct-MarkedSlot i ks (node qs ss) n' t1 m (h c (node qs ss) n' t1 done m.1))
descend-Marks f h info k i ks s s' t e m = absurd (cc)

-- The end of an operation, at the object of that level.
appended-Keeps :
    (f : MemberInfo → Kind → Slot → Result Touched)
    → Marks f
    → (seq : ℕ)
    → Keeps (λ c n. at_slot f c (slots_of n) seq >>= λ r. ok (appended seq (seqs_of n) r))
unfolding Marked MarkedSlots appended append_seq
appended-Keeps f h seq c (node ks ss) n' t e m =
    let ((ss1, t1), done, rest) = >>=-eq-ok (at_slot f c ss seq) _ e in
    subst (λ r. Marked r.0 × ((r.1 ≡ true) ⊎ (seqs_of r.0 ≡ ks))) (ok-injective rest)
      (at_slot-Marked f h c ss ss1 t1 0 seq seq ks (omega arith) done m, by_report t1)
  where
    by_report : (b : Bool) → (b ≡ true) ⊎ (append_seq seq b ks ≡ ks)
    by_report true = inl refl
    by_report false = inr refl

operate_at-Keeps :
    (name : Text) (op : Operation) (seq : ℕ) (path : List ℕ) → Keeps (operate_at name op seq path)
unfolding operate_at
operate_at-Keeps name op seq [] c (node ks ss) n' t e m =
    appended-Keeps _ (operate-Marks name op) seq c (node ks ss) n' t e m
operate_at-Keeps name op seq (i ∷ path) c (node ks ss) n' t e m =
    appended-Keeps _ (descend-Marks _ (operate_at-Keeps name op seq path)) i c (node ks ss) n' t e m

-- A sequence of operations, each on a member at the end of a path.
unfoldable pub operate_all : List (Text × Operation × ℕ × List ℕ) → Class → Node → Result Node
unfolding operate_at
operate_all [] c o = ok o
operate_all ((name, op, seq, path) ∷ calls) c o =
    operate_at name op seq path c o >>= λ (o', t). operate_all calls c o'

mutual
  unfolding fresh_slots MarkedSlots

  fresh_slots-Marked : (c : Class) (i : ℕ) (ks : List ℕ) → MarkedSlots i ks (fresh_slots c)
  fresh_slots-Marked Class.end i ks = tt
  fresh_slots-Marked (entry info k c) i ks =
      (fresh_slot-Marked info k i ks, fresh_slots-Marked c (suc i) ks)

  fresh_slot-Marked :
      (info : MemberInfo) (k : Kind) (i : ℕ) (ks : List ℕ) → MarkedSlot i ks (fresh_slot info k)
  fresh_slot-Marked info plain i ks = inl refl
  fresh_slot-Marked info Kind.values i ks = inl refl
  fresh_slot-Marked info (Kind.structs c) i ks = inl refl
  fresh_slot-Marked info (Kind.of_struct c) i ks = (inl refl, fresh_slots-Marked c 0 [])

operate_all-Keeps :
    (calls : List (Text × Operation × ℕ × List ℕ)) (c : Class) (o o' : Node)
    → operate_all calls c o ≡ ok o'
    → Marked o
    → Marked o'
unfolding operate_all
operate_all-Keeps [] c o o' e m = subst Marked (ok-injective e) m
operate_all-Keeps ((name, op, seq, path) ∷ calls) c o o' e m =
    let ((o1, t), done, rest) = >>=-eq-ok (operate_at name op seq path c o) _ e in
    operate_all-Keeps calls c o1 o' rest (operate_at-Keeps name op seq path c o o1 t done m).0

-- After any operations on a new object and on the structs within it, at whatever depth, the numbers of
-- the assigned members are in the sets of their objects, and the number of a struct in which anything
-- was assigned is in the set of the object around it, at every level.
pub operate_all-Marked :
    (calls : List (Text × Operation × ℕ × List ℕ)) (c : Class) (o : Node)
    → operate_all calls c (fresh_node c) ≡ ok o
    → Marked o
unfolding fresh_node Marked
operate_all-Marked calls c o e =
    operate_all-Keeps calls c (fresh_node c) o e (fresh_slots-Marked c 0 [])
