-- ===== src/Ref/Nested/Typed.antt =====
-- The C++ types of the members of a nested object (src/base/type.h, src/base/ref.h).
use Prim.Native.Nat.{◌^◌}
use yan.Prelude.{ℕ, Bool, true, false, ◌≡◌, refl, ltb, All}
use yan.Prelude.Int.{ℤ, pos, negsuc}
use yan.Types.{
  YanType, int8, int16, int32, int64, float, double, bool, string, auto_increment, date, timestamp,
  text, blob, list, struct,
}
use yan.Ref.Param.{Value, integer, real, boolean, chars}
use yan.Ref.Struct.{MemberInfo}
use yan.Ref.Object.{zero_value}
use yan.Ref.Nested.{
  Class, entry, Kind, plain, Node, node, Slots, slot, Slot, member, Nodes, obj, emplace_back,
  fresh_slots, fresh_slot, fresh_node, slots_of,
}

-- A signed integer of `w + 1` bits
unfoldable pub in_bits : ℕ → ℤ → Bool
in_bits w (pos n) = ltb n (2 ^ w)
in_bits w (negsuc n) = ltb n (2 ^ w)

unfoldable pub is_integer : ℕ → Value → Bool
unfolding in_bits
is_integer w (integer z) = in_bits w z
is_integer w v = false

unfoldable pub is_real : ℕ → Value → Bool
is_real w (real x) = ltb x (2 ^ w)
is_real w v = false

unfoldable pub is_boolean : Value → Bool
is_boolean (boolean b) = true
is_boolean v = false

unfoldable pub is_chars : Value → Bool
is_chars (chars t) = true
is_chars v = false

-- A value of the C++ type of a member type. A member of the other three types has no value.
unfoldable pub is_of : YanType → Value → Bool
unfolding is_integer is_real is_boolean is_chars
is_of int8 v = is_integer 7 v
is_of int16 v = is_integer 15 v
is_of int32 v = is_integer 31 v
is_of int64 v = is_integer 63 v
is_of auto_increment v = is_integer 63 v
is_of date v = is_integer 63 v
is_of timestamp v = is_integer 63 v
is_of float v = is_real 32 v
is_of double v = is_real 64 v
is_of bool v = is_boolean v
is_of string v = is_chars v
is_of text v = is_chars v
is_of blob v = is_chars v
is_of YanType.unknown v = true
is_of struct v = true
is_of list v = true

abbrev pub AllNodes : (Node → Type 0) → Nodes → Type 0
AllNodes P Nodes.none = Unit
AllNodes P (obj n ns) = P n × AllNodes P ns

-- The members of an object are those of its class, with values of their types, at every level.
unfoldable mutual
  unfolding is_of

  pub TypedSlots : Class → Slots → Type 0
  TypedSlots Class.end Slots.end = Unit
  TypedSlots (entry info k c) (slot s ss) = TypedSlot k info s × TypedSlots c ss
  TypedSlots c ss = ⊥

  pub TypedSlot : Kind → MemberInfo → Slot → Type 0
  TypedSlot plain info (member m) = is_of info.type_ m.value ≡ true
  TypedSlot Kind.values info (Slot.values l) = All (λ v. is_of info.element v ≡ true) l.elements
  TypedSlot (Kind.structs c) info (Slot.structs flag ns) =
      AllNodes (λ n. TypedSlots c (slots_of n)) ns
  TypedSlot (Kind.of_struct c) info (Slot.of_struct (node seqs ss)) = TypedSlots c ss
  TypedSlot k info s = ⊥

abbrev pub Typed : Class → Node → Type 0
Typed c o = TypedSlots c (slots_of o)

pub emplace_back-AllNodes :
    (P : Node → Type 0) (n : Node) (ns : Nodes)
    → P n
    → AllNodes P ns
    → AllNodes P (emplace_back n ns)
unfolding emplace_back
emplace_back-AllNodes P n Nodes.none p h = (p, tt)
emplace_back-AllNodes P n (obj m ns) p h = (h.0, emplace_back-AllNodes P n ns p h.1)

zero_value-is_of : (t : YanType) → is_of t (zero_value t) ≡ true
unfolding is_of zero_value
zero_value-is_of YanType.unknown = refl
zero_value-is_of _ = refl

mutual
  unfolding fresh_slots TypedSlots

  fresh_slots-Typed : (c : Class) → TypedSlots c (fresh_slots c)
  fresh_slots-Typed Class.end = tt
  fresh_slots-Typed (entry info k c) = (fresh_slot-Typed info k, fresh_slots-Typed c)

  fresh_slot-Typed : (info : MemberInfo) (k : Kind) → TypedSlot k info (fresh_slot info k)
  fresh_slot-Typed info plain = zero_value-is_of info.type_
  fresh_slot-Typed info Kind.values = tt
  fresh_slot-Typed info (Kind.structs c) = tt
  fresh_slot-Typed info (Kind.of_struct c) = fresh_slots-Typed c

pub fresh_node-Typed : (c : Class) → Typed c (fresh_node c)
unfolding fresh_node
fresh_node-Typed c = fresh_slots-Typed c
