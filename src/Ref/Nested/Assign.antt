-- ===== src/Ref/Nested/Assign.antt =====
-- src/base/ref.h: the operations of members that are lists, and how an assignment in a nested struct
-- reaches the objects around it through `deepcb_`. The objects between are named by a path: the
-- sequence number of the struct in the object, then that of the next in that struct.
use yan.Prelude.{
  ℕ, zero, suc, Bool, true, List, [], ◌∷◌, ◌++◌, ltb, not, if◌then◌else◌, Result, ok, err,
  runtime_error, undefined, ◌>>=◌,
}
use yan.Ref.Param.{Value}
use yan.Ref.Struct.{MemberInfo}
use yan.Ref.Object.{Member, insert_seq, assign_under_cond, is_auto_increment}
use yan.Ref.Nested.{
  Class, entry, Kind, Node, node, Slots, slot, Slot, member, Nodes, ListMember, emplace_back,
}
use yan.Prelude.Text.{Text, bytes}

-- What an operation does to a slot: the slot, and whether it calls `append(seq)`.
abbrev pub Touched : Type 0
Touched = Slot × Bool

-- `operator=` of a plain member of a struct of that name
unfoldable pub assign_plain : Text → MemberInfo → Value → Member → Result Touched
assign_plain name info v m =
    if ltb 0 m.cond
    then err (runtime_error (assign_under_cond m.cond))
    else if is_auto_increment info.type_
    then err (
        runtime_error (
          bytes "auto increment member cannot be assigned with value ["
          ++ name
          ++ bytes "::"
          ++ info.name
          ++ bytes "]"))
    else ok (member (record m { value = v; flag = true }), not m.flag)

-- `operator=` of a list, from an initializer list
unfoldable pub assign_list : List Value → ListMember → Touched
assign_list vs l = (Slot.values (record l { elements = vs; flag = true }), not l.flag)

-- `emplace_back` of a list of values
unfoldable pub emplace_value : Value → ListMember → Touched
emplace_value v l =
    (Slot.values (record l { elements = l.elements ++ v ∷ []; flag = true }), not l.flag)

-- `emplace_back` of a list of structs
unfoldable pub emplace_object : Node → Bool → Nodes → Touched
unfolding emplace_back
emplace_object o flag ns = (Slot.structs true (emplace_back o ns), not flag)

-- One of those operations
pub data Operation : Type 0 where
  assign_value : Value → Operation
  assign_values : List Value → Operation
  emplace : Value → Operation
  emplace_struct : Node → Operation

unfoldable pub operate : Text → Operation → MemberInfo → Slot → Result Touched
unfolding assign_plain assign_list emplace_value emplace_object
operate name (assign_value v) info (member m) = assign_plain name info v m
operate name (assign_values vs) info (Slot.values l) = ok (assign_list vs l)
operate name (emplace v) info (Slot.values l) = ok (emplace_value v l)
operate name (emplace_struct o) info (Slot.structs flag ns) = ok (emplace_object o flag ns)
operate name op info s = err undefined

-- `append(seq)` of an object: its own part
unfoldable pub append_seq : ℕ → Bool → List ℕ → List ℕ
append_seq seq touched seqs = if touched then insert_seq seq seqs else seqs

-- What `f` does at the slot of that number
unfoldable pub at_slot :
    (MemberInfo → Kind → Slot → Result Touched) → Class → Slots → ℕ → Result (Slots × Bool)
at_slot f (entry info k c) (slot s ss) zero = f info k s >>= λ (s', t). ok (slot s' ss, t)
at_slot f (entry info k c) (slot s ss) (suc i) = at_slot f c ss i >>= λ (ss', t). ok (slot s ss', t)
at_slot f c ss i = err undefined

-- What happens to a struct of the object happens to its slot; `deepcb_` is `append(seq)` of the object.
unfoldable pub descend : (Class → Node → Result (Node × Bool)) → Kind → Slot → Result Touched
descend f (Kind.of_struct c) (Slot.of_struct n) = f c n >>= λ (n', t). ok (Slot.of_struct n', t)
descend f k s = err undefined

unfoldable pub appended : ℕ → List ℕ → Slots × Bool → Node × Bool
unfolding append_seq
appended seq seqs (ss, t) = (node (append_seq seq t seqs) ss, t)

-- An operation on the member `seq`, of a struct of that name, at the end of a path
unfoldable pub operate_at : Text → Operation → ℕ → List ℕ → Class → Node → Result (Node × Bool)
unfolding operate at_slot descend appended
operate_at name op seq [] c (node seqs ss) =
    at_slot (λ info k s. operate name op info s) c ss seq >>= λ r. ok (appended seq seqs r)
operate_at name op seq (i ∷ path) c (node seqs ss) =
    at_slot (λ info k s. descend (λ c' n. operate_at name op seq path c' n) k s) c ss i >>= λ r.
    ok (appended i seqs r)
