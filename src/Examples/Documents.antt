-- ===== src/Examples/Documents.antt =====
-- The theorems on the documents that src/mongo makes and reads, at objects of a struct with a struct
-- within.
use yan.Prelude.{
  Error, err, ℕ, Bool, true, false, List, [], ◌∷◌, ◌++◌, none, some, ◌≡◌, refl, sym, ◌∙◌, subst,
  map, ok-injective, All, length, ok, arith,
}
use yan.Prelude.Int.{pos}
use yan.Prelude.Text.{bytes, text_eq}
use yan.Types.{int64, string, blob, list, equal}
use yan.Ref.Param.{integer, chars, ParamValue}
use yan.Ref.Struct.{MemberInfo, plain_info, get_name, member_at}
use yan.RefOps.{member_ref}
use yan.Ref.Object.{Object, put_member, member_of, fresh}
use yan.Ref.Nested.{
  Class, entry, plain, Kind, Node, node, Slots, slot, Slot, member, Nodes, obj, emplace_back,
  fresh_node,
}
use yan.Ref.Nested.Typed.{is_chars, Typed}
use yan.Ref.Nested.Conds.{set_nested_cond, dotted, hand_out, nested_param}
use yan.Mongo.Filter.{match_of}
use yan.Mongo.{make_cond, FilterEvent}
use yan.Mongo.Document.{scalar, document, array, item, no_items, Fields, field}
use yan.Mongo.Write.{make}
use yan.Mongo.Fetch.{fetch_view, fetch_member}
use yan.Mongo.Client.{Mongocxx, MongoContext, read, write, fetch_first, fetch_each}
use yan.Mongo.Events.{
  WriteEvent, new_event, Read, sequence, make_docs, prehandle_sequence, handle_write, handle_read,
}
use yan.Mongo.Events.Counts.{Made, handle_write-sequence}
use yan.Mongo.Nested.{set_nested_cond-fields}
use yan.Mongo.Rewritten.{handle_read-rewritten}
use yan.Mongo.RoundTrip.{storable_type}
use yan.Mongo.Unreadable.{kind_at, handle_read-unreadable}
use yan.Mongo.RoundTrip.Through.{Finds, IsSound, kept_node, write_then_read}
use yan.Mongo.Single.{fetch_structs-emplace_back}
use yan.Mongo.Typed.Walk.{handle_read-Typed}
use yan.Examples.Nested.{
  find_field, address, resident, moved_slots, moved-Marked, get_as, as_document, is_string, getters,
  getters-typed, getters-laws, resident-Storable, moved-Typed,
}
use yan.Examples.Objects.{person, nobody, nick_info}

-- A database of one collection, which finds everything in it
abbrev store : Mongocxx
store = record {
  World = List Fields;
  open_pool = λ uri w. (ok true, w);
  insert_many = λ schema table docs w. (ok true, w ++ docs);
  find = λ schema table doc w. (ok (map ok w), w);
  delete_many = λ schema table doc w. (ok (some (length w)), []);
}

abbrev connected : MongoContext
connected = record { pool = true; schema = [] }

abbrev everyone : FilterEvent
everyone = record { coll = bytes "Resident"; doc = [] }

abbrev moved_doc : Fields
moved_doc = field (bytes "nick") (scalar string (chars (bytes "bo"))) (
    field (bytes "home")
      (document (field (bytes "city") (scalar string (chars (bytes "Rome"))) Fields.end))
      Fields.end)

abbrev read_slots : Slots
read_slots = slot (member (record { cond = 0; flag = true; value = chars (bytes "bo") })) (
    slot
      (Slot.of_struct (
        node [] (
          slot (member (record { cond = 0; flag = true; value = chars (bytes "Rome") })) (
            slot (member (record { cond = 0; flag = false; value = integer (pos 0) })) Slots.end))))
      Slots.end)

moved_read :
    handle_read store connected getters resident false everyone (moved_doc ∷ moved_doc ∷ [])
    ≡ (ok (sequence (node [] read_slots ∷ node [] read_slots ∷ [])), moved_doc ∷ moved_doc ∷ [])
unfolding handle_read read fetch_each fetch_view plain_info text_eq bytes get_name get_as is_string
    is_chars as_document find_field
moved_read = refl

handle_read-Typed_example : All (Typed resident) (node [] read_slots ∷ node [] read_slots ∷ [])
handle_read-Typed_example =
    handle_read-Typed getters getters-typed store connected resident false everyone
      (moved_doc ∷ moved_doc ∷ []) (moved_doc ∷ moved_doc ∷ [])
      (sequence (node [] read_slots ∷ node [] read_slots ∷ [])) moved_read

handle_read-rewritten_example :
    All
      (λ o. make (λ n. 1) resident o ≡ ok Fields.end)
      (node [] read_slots ∷ node [] read_slots ∷ [])
handle_read-rewritten_example =
    handle_read-rewritten (λ n. 1) store connected getters resident false everyone
      (moved_doc ∷ moved_doc ∷ []) (moved_doc ∷ moved_doc ∷ [])
      (sequence (node [] read_slots ∷ node [] read_slots ∷ [])) moved_read

nothing_read :
    handle_read store connected getters resident true everyone []
    ≡ (ok (Read.one (fresh_node resident)), [])
unfolding handle_read read fetch_first
nothing_read = refl

-- A counter, which is written but not read
abbrev counter : Class
counter = entry (plain_info (bytes "n") int64 []) plain Class.end

abbrev counted_doc : Fields
counted_doc = field (bytes "n") (scalar int64 (integer (pos 7))) Fields.end

handle_read-unreadable_example :
    (thrown : Error) × (handle_read store connected getters counter true everyone (counted_doc ∷ [])
      ≡ (err thrown, counted_doc ∷ []))
unfolding kind_at plain_info storable_type read
handle_read-unreadable_example =
    handle_read-unreadable getters store connected counter true everyone (counted_doc ∷ [])
      (counted_doc ∷ []) counted_doc [] 0 (plain_info (bytes "n") int64 []) refl refl refl

-- Two addresses in one array
abbrev two_homes : Fields
two_homes =
    field (bytes "homes")
      (array (
        item (document (field (bytes "city") (scalar string (chars (bytes "Rome"))) Fields.end)) (
          item (document (field (bytes "city") (scalar string (chars (bytes "Oslo"))) Fields.end))
            no_items)))
      Fields.end

abbrev homes_info : MemberInfo
homes_info = plain_info (bytes "homes") list []

abbrev oslo : Node
oslo = node [] (
    slot (member (record { cond = 0; flag = true; value = chars (bytes "Oslo") }))
      (slot (member (record { cond = 0; flag = false; value = integer (pos 0) })) Slots.end))

homes_read :
    fetch_member getters (Kind.structs address) homes_info two_homes (Slot.structs false Nodes.none)
    ≡ ok (pos 0, Slot.structs false (obj oslo Nodes.none))
unfolding fetch_member plain_info text_eq bytes get_name get_as is_string is_chars as_document
    find_field emplace_back
homes_read = refl

fetch_structs-emplace_back_example :
    (o : Node) × (Slot.structs false (obj oslo Nodes.none)
      ≡ Slot.structs false (emplace_back o Nodes.none))
fetch_structs-emplace_back_example =
    fetch_structs-emplace_back getters address homes_info two_homes (pos 0) false Nodes.none
      (Slot.structs false (obj oslo Nodes.none)) homes_read

abbrev two_written : WriteEvent
two_written = record { entities = 2; coll = bytes "Resident"; docs = moved_doc ∷ moved_doc ∷ [] }

abbrev two_moved : List Node
two_moved = node (0 ∷ 1 ∷ []) moved_slots ∷ node (0 ∷ 1 ∷ []) moved_slots ∷ []

two_made :
    prehandle_sequence (λ n. 1) (bytes "Resident") resident two_moved new_event ≡ ok two_written
unfolding prehandle_sequence make plain_info get_name member_ref
two_made = refl

two_inserted : handle_write store connected two_written [] ≡ (ok 2, moved_doc ∷ moved_doc ∷ [])
unfolding handle_write write
two_inserted = refl

handle_write-sequence_example :
    (docs : List Fields) × (b : Bool) × Made (λ n. 1) resident two_moved docs
    × (◌≡◌ {A = ℕ} 2 2)
    × (write store connected (bytes "Resident") docs [] ≡ (ok b, moved_doc ∷ moved_doc ∷ []))
handle_write-sequence_example =
    handle_write-sequence (λ n. 1) store connected (bytes "Resident") resident two_moved two_written
      [] (moved_doc ∷ moved_doc ∷ []) 2 two_made two_inserted

abbrev two_docs : List Fields
two_docs = moved_doc ∷ moved_doc ∷ []

two_docs_made : make_docs (λ n. 1) resident two_moved [] ≡ ok two_docs
unfolding make_docs make plain_info get_name member_ref
two_docs_made = refl

-- A database that gives each document an `_id`
abbrev with_id : Fields → Fields
with_id doc = field (bytes "_id") (scalar blob (chars (bytes "66f2"))) doc

abbrev id_store : Mongocxx
id_store = record store { insert_many = λ schema table docs w. (ok true, w ++ map with_id docs) }

abbrev two_found : List Fields
two_found = with_id moved_doc ∷ with_id moved_doc ∷ []

two_docs_stored :
    (docs : List Fields)
    → make_docs (λ n. 1) resident two_moved [] ≡ ok docs
    → write id_store connected (bytes "Resident") docs [] ≡ (ok true, two_found)
unfolding write
two_docs_stored docs made =
    subst (λ d. write id_store connected (bytes "Resident") d [] ≡ (ok true, two_found))
      (ok-injective (sym two_docs_made ∙ made)) refl

two_docs_found :
    (docs : List Fields)
    → make_docs (λ n. 1) resident two_moved [] ≡ ok docs
    → Finds getters resident docs two_found
unfolding find_field text_eq bytes get_name plain_info
two_docs_found docs made =
    subst (λ d. Finds getters resident d two_found) (ok-injective (sym two_docs_made ∙ made))
      ((refl, (refl, tt)), ((refl, (refl, tt)), tt))

two_read :
    read id_store connected (bytes "Resident") [] two_found ≡ (ok (map ok two_found), two_found)
unfolding read
two_read = refl

abbrev moved-IsSound : IsSound resident (node (0 ∷ 1 ∷ []) moved_slots)
moved-IsSound = (moved-Typed, moved-Marked, (omega arith, (omega arith, tt)))

write_then_read_example :
    (e : WriteEvent) × (prehandle_sequence (λ n. 1) (bytes "Resident") resident two_moved new_event
      ≡ ok e)
    × (handle_write id_store connected e [] ≡ (ok 2, two_found))
    × (handle_read id_store connected getters resident false everyone two_found
        ≡ (ok (sequence (map (kept_node resident) two_moved)), two_found))
write_then_read_example =
    write_then_read getters getters-laws (λ n. 1) resident resident-Storable id_store connected
      (bytes "Resident") [] two_moved [] two_found true two_found
      (moved-IsSound, (moved-IsSound, tt)) two_docs_stored two_docs_found two_read

-- `home.nick == "bo"`, where the members of the struct are those of `person`
abbrev asking : Object
asking = record {
  seqset = [];
  conds = none;
  hashv = [];
  members =
      record { cond = 0; flag = false; value = integer (pos 0) }
      ∷ record { cond = 1; flag = false; value = chars [] }
      ∷ [];
}

abbrev asked : Object
asked = put_member asking 1 (record { cond = 0; flag = false; value = chars [] })

abbrev outside : Object
outside =
    hand_out (bytes "home" ∷ [])
      (nested_param nick_info 1 1 equal (ParamValue.one (chars (bytes "bo")))) (fresh nobody)

set_nested_cond-fields_example :
    (make_cond outside
      ≡ ok ((bytes "home.nick", match_of (ParamValue.one (chars (bytes "bo")))) ∷ []))
    × (asked.conds ≡ none)
unfolding bytes fresh member_at set_nested_cond member_of dotted
set_nested_cond-fields_example =
    set_nested_cond-fields person 1 equal (ParamValue.one (chars (bytes "bo"))) (bytes "home" ∷ [])
      asking (fresh nobody) asked outside nick_info refl refl tt refl
