-- ===== src/Ref/Nested.antt =====
-- src/base/ref.h, __YAN_LIST_MEMBER__, __YAN_LIST_STRUCT_MEMBER__, __YAN_STRUCT_MEMBER__, the registers
-- for them and YanListMember: classes whose members are lists and structs, and the objects of such a
-- class.
pub mod Register
pub mod Assign
pub mod Conds
pub mod Marked
pub mod Nest
pub mod Typed
use yan.Prelude.{ℕ, Bool, true, false, List, [], if◌then◌else◌, Result, ok, ◌>>=◌}
use yan.Prelude.Int.{ℤ, pos, is_neg}
use yan.Ref.Param.{Value}
use yan.Ref.Struct.{MemberInfo}
use yan.Ref.Object.{Member, zero_value}

-- A YanStruct by `members_`, each with the description that its MemberInfo points to: `member_`,
-- `list_member_` with values of the type `element` or with structs, or `struct_member_`.
mutual
  pub data Class : Type 0 where
    end : Class
    entry : MemberInfo → Kind → Class → Class

  pub data Kind : Type 0 where
    plain values : Kind
    structs of_struct : Class → Kind

-- The `YanList` of values of a member, with its `cond_` and `flag_`
pub record ListMember : Type 0 where
  pub cond : ℕ
  pub flag : Bool
  pub elements : List Value

-- An object of such a class: its `seqset_` and its members. A member that is a list of structs has
-- its `flag_`.
mutual
  pub data Node : Type 0 where
    node : List ℕ → Slots → Node

  pub data Slots : Type 0 where
    end : Slots
    slot : Slot → Slots → Slots

  pub data Slot : Type 0 where
    member : Member → Slot
    values : ListMember → Slot
    structs : Bool → Nodes → Slot
    of_struct : Node → Slot

  pub data Nodes : Type 0 where
    none : Nodes
    obj : Node → Nodes → Nodes

abbrev pub seqs_of : Node → List ℕ
seqs_of (node seqs ss) = seqs

abbrev pub slots_of : Node → Slots
slots_of (node seqs ss) = ss

-- `std::list::emplace_back`
unfoldable pub emplace_back : Node → Nodes → Nodes
emplace_back n Nodes.none = obj n Nodes.none
emplace_back n (obj m ms) = obj m (emplace_back n ms)

-- A new object of the class, as `fresh` makes one of a class of plain members.
unfoldable mutual
  unfolding zero_value

  pub fresh_slots : Class → Slots
  fresh_slots Class.end = Slots.end
  fresh_slots (entry info k c) = slot (fresh_slot info k) (fresh_slots c)

  pub fresh_slot : MemberInfo → Kind → Slot
  fresh_slot info plain = member (record { cond = 0; flag = false; value = zero_value info.type_ })
  fresh_slot info Kind.values = Slot.values (record { cond = 0; flag = false; elements = [] })
  fresh_slot info (Kind.structs c) = Slot.structs false Nodes.none
  fresh_slot info (Kind.of_struct c) = Slot.of_struct (node [] (fresh_slots c))

unfoldable pub fresh_node : Class → Node
unfolding fresh_slots
fresh_node c = node [] (fresh_slots c)

-- `getobjcb_`: `cb` for each object of the list, up to the first that returns a negative number.
unfoldable pub get_obj : {X : Type 0} → (Node → X → Result (ℤ × X)) → Nodes → X → Result (ℤ × X)
get_obj cb Nodes.none x = ok (pos 0, x)
get_obj cb (obj n ns) x =
    cb n x >>= λ (r, x'). (let rest = get_obj cb ns x' in if is_neg r then ok (r, x') else rest)

-- The end of `setobjcb_`, by what `cb` does to the new object.
unfoldable pub set_obj : Bool → Nodes → ℤ × Node → ℤ × Slot
unfolding emplace_back
set_obj flag ns (r, o) =
    if is_neg r then (r, Slot.structs flag ns) else (pos 0, Slot.structs flag (emplace_back o ns))
