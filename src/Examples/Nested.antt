-- ===== src/Examples/Nested.antt =====
-- A struct with a struct within (src/base/ref.h), getters of documents, and the invariant of nested
-- objects at an object of it.
use yan.Prelude.{
  Option, none, some, arith, ℕ, Bool, true, false, List, [], ◌∷◌, ◌≡◌, refl, subst, ok-injective,
  then-eq-ok, if◌then◌else◌, Result, ok, err, Error, runtime_error,
}
use yan.Prelude.Int.{pos}
use yan.Prelude.Text.{Text, bytes, text_eq}
use yan.Types.{YanType, int32, string, text, blob, double, struct}
use yan.Ref.Param.{Value, integer, chars}
use yan.Ref.Struct.{plain_info, get_name}
use yan.Ref.Object.{insert_seq}
use yan.Ref.Nested.{Class, entry, Kind, plain, node, Slots, slot, Slot, member, fresh_node}
use yan.Ref.Nested.Assign.{Operation, assign_value}
use yan.Ref.Nested.Marked.{Marked}
use yan.Ref.Nested.Nest.{operate_all, operate_all-Marked}
use yan.Ref.Nested.Typed.{is_integer, is_real, is_chars, is_of, TypedSlots, Typed}
use yan.Prelude.Text.{text_eq_refl}
use yan.Mongo.Document.{
  add_field, field, Element, scalar, document, array, Fields, Getters, GettersLaws,
}
use yan.Mongo.RoundTrip.{storable_type, Storable}
use yan.Mongo.Typed.{TypedGetters, Gives}

abbrev pub address : Class
address =
    entry (plain_info (bytes "city") string []) plain
      (entry (plain_info (bytes "zip") int32 []) plain Class.end)

abbrev pub resident : Class
resident =
    entry (plain_info (bytes "nick") string []) plain
      (entry (plain_info (bytes "home") struct []) (Kind.of_struct address) Class.end)

-- `nick = "bo"` and `home.city = "Rome"`
abbrev moves : List (Text × Operation × ℕ × List ℕ)
moves =
    (bytes "Resident", assign_value (chars (bytes "bo")), 0, [])
    ∷ (bytes "Address", assign_value (chars (bytes "Rome")), 0, 1 ∷ [])
    ∷ []

abbrev pub moved_slots : Slots
moved_slots = slot (member (record { cond = 0; flag = true; value = chars (bytes "bo") })) (
    slot
      (Slot.of_struct (
        node (0 ∷ []) (
          slot (member (record { cond = 0; flag = true; value = chars (bytes "Rome") })) (
            slot (member (record { cond = 0; flag = false; value = integer (pos 0) })) Slots.end))))
      Slots.end)

moved : operate_all moves resident (fresh_node resident) ≡ ok (node (0 ∷ 1 ∷ []) moved_slots)
unfolding operate_all fresh_node plain_info insert_seq
moved = refl

pub moved-Marked : Marked (node (0 ∷ 1 ∷ []) moved_slots)
moved-Marked = operate_all-Marked moves resident (node (0 ∷ 1 ∷ []) moved_slots) moved

operate_all-Marked_example : Marked (node (0 ∷ 1 ∷ []) moved_slots)
operate_all-Marked_example = operate_all-Marked moves resident (node (0 ∷ 1 ∷ []) moved_slots) moved

-- Getters that know the types of what they are asked for.
unfoldable pub get_as : (YanType → Bool) → (Value → Bool) → Element → Result Value
get_as q p (scalar t v) =
    if q t
    then (if p v then ok v else err (runtime_error (bytes "not the type of the element")))
    else err (runtime_error (bytes "not the type of the element"))
get_as q p e = err (runtime_error (bytes "not the type of the element"))

unfoldable pub as_document : Element → Result Fields
as_document (document fs) = ok fs
as_document e = err (runtime_error (bytes "not the type of the element"))

unfoldable pub is_string : YanType → Bool
is_string string = true
is_string text = true
is_string blob = true
is_string t = false

pub is_int32 : YanType → Bool
is_int32 int32 = true
is_int32 t = false

pub is_double : YanType → Bool
is_double double = true
is_double t = false

-- The first field of that name
unfoldable pub find_field : Fields → Text → Option Element
find_field Fields.end n = none
find_field (field k v fs) n = if text_eq k n then some v else find_field fs n

abbrev pub getters : Getters
getters = record {
  view_at = find_field;
  get_utf8 = get_as is_string is_chars;
  get_int32 = get_as is_int32 (is_integer 31);
  get_double = get_as is_double (is_real 64);
  get_document = as_document;
}

guarded :
    (p : Value → Bool) (b : Bool) (v v' : Value) (e : Error)
    → p v ≡ b
    → (if b then ok v else err e) ≡ ok v'
    → p v' ≡ true
guarded p true v v' e h r = subst (λ x. p x ≡ true) (ok-injective r) h
guarded p false v v' e h r = absurd (cc)

pub get_as-Gives : (q : YanType → Bool) (p : Value → Bool) → Gives p (get_as q p)
unfolding get_as
get_as-Gives q p (scalar t v) v' h = guarded p (p v) v v' _ refl (then-eq-ok (q t) _ _ h)
get_as-Gives q p (array a) v' h = absurd (cc)
get_as-Gives q p (document fs) v' h = absurd (cc)

abbrev pub getters-typed : TypedGetters getters
getters-typed = record {
  utf8 = get_as-Gives is_string is_chars;
  int32_ = get_as-Gives is_int32 (is_integer 31);
  double_ = get_as-Gives is_double (is_real 64);
}

find_field-add_field_other :
    (n m : Text) (e : Element) (doc : Fields)
    → text_eq n m ≡ false
    → find_field (add_field n e doc) m ≡ find_field doc m
unfolding find_field add_field
find_field-add_field_other n m e Fields.end h = ground arith
find_field-add_field_other n m e (field k v fs) h =
    ground (arith, find_field-add_field_other n m e fs h)

find_field-add_field_new :
    (n : Text) (e : Element) (doc : Fields)
    → find_field doc n ≡ none
    → find_field (add_field n e doc) n ≡ some e
unfolding find_field add_field
find_field-add_field_new n e Fields.end h = ground (arith, text_eq_refl n)
find_field-add_field_new n e (field k v fs) h = ground (arith, find_field-add_field_new n e fs)

find_field-add_field_again :
    (n : Text) (e first : Element) (doc : Fields)
    → find_field doc n ≡ some first
    → find_field (add_field n e doc) n ≡ some first
unfolding find_field add_field
find_field-add_field_again n e first Fields.end h = absurd (cc)
find_field-add_field_again n e first (field k v fs) h =
    ground (arith, find_field-add_field_again n e first fs)

pub getters-laws : GettersLaws getters
unfolding find_field get_as as_document is_string is_int32 is_double is_chars
getters-laws = record {
  of_string = λ t. refl;
  of_text = λ t. refl;
  of_blob = λ t. refl;
  of_int32 = λ z h. rw h refl;
  of_double = λ x h. rw h refl;
  of_document = λ fs. refl;
  at_end = λ n. refl;
  at_other = find_field-add_field_other;
  at_new = find_field-add_field_new;
  at_again = find_field-add_field_again;
}

pub address-Storable : Storable address
unfolding Storable storable_type plain_info text_eq get_name bytes
address-Storable = (refl, (refl, tt), (refl, tt, tt))

pub resident-Storable : Storable resident
unfolding Storable storable_type plain_info text_eq get_name bytes
resident-Storable = (refl, (refl, tt), (address-Storable, tt, tt))

pub moved-Typed : Typed resident (node (0 ∷ 1 ∷ []) moved_slots)
unfolding TypedSlots is_of plain_info
moved-Typed = (refl, ((refl, (refl, tt)), tt))
