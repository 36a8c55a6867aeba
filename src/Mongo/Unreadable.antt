-- ===== src/Mongo/Unreadable.antt =====
-- The members that FetchMongoResult (src/mongo/mongo_writeref.h) never reads.
use yan.Prelude.{
  Throws, >>=-Throws, >>=-Throws_first, if-Throws, subst, sym, Bool, undefined, ℕ, zero, suc, true,
  false, Option, none, some, List, [], ◌∷◌, ◌≡◌, refl, ap, ◌∙◌, Result, ok, err, Error,
}
use yan.Types.{YanType, int32, double, string, text, blob}
use yan.Ref.Struct.{MemberInfo, get_name}
use yan.Ref.Object.{Member}
use yan.Ref.Nested.{Class, entry, Kind, plain, Node, node, Slots, slot, Slot, member, fresh_node}
use yan.RefOps.{is_plain}
use yan.Mongo.{FilterEvent}
use yan.Mongo.Document.{Element, Fields, Getters}
use yan.Mongo.Fetch.{get_value, fetch_plain, fetch_member, set_value_loop, fetch_view}
use yan.Mongo.Client.{Mongocxx, MongoContext, read, fetch_first, fetch_each}
use yan.Mongo.Events.{fetch_value, fetched, handle_read}
use yan.Mongo.RoundTrip.{storable_type}

get_value-unreadable :
    (g : Getters) (t : YanType) (e : Option Element)
    → storable_type t ≡ false
    → Throws (get_value g t e)
unfolding get_value storable_type
get_value-unreadable g string e h = absurd (cc)
get_value-unreadable g text e h = absurd (cc)
get_value-unreadable g blob e h = absurd (cc)
get_value-unreadable g int32 e h = absurd (cc)
get_value-unreadable g double e h = absurd (cc)
get_value-unreadable g _ e h = (_, refl)

fetch_plain-unreadable :
    (g : Getters) (info : MemberInfo) (view : Fields) (m : Member)
    → storable_type info.type_ ≡ false
    → Throws (fetch_plain g info view m)
unfolding fetch_plain
fetch_plain-unreadable g info view m h = if-Throws (is_plain info.type_) _ undefined (
    >>=-Throws_first (get_value g info.type_ (g.view_at view (get_name info))) _
      (get_value-unreadable g info.type_ (g.view_at view (get_name info)) h))

fetch_member-unreadable :
    (g : Getters) (info : MemberInfo) (view : Fields) (s : Slot)
    → storable_type info.type_ ≡ false
    → Throws (fetch_member g plain info view s)
unfolding fetch_member
fetch_member-unreadable g info view (member m) h = fetch_plain-unreadable g info view m h
fetch_member-unreadable g info view s h = (undefined, refl)

-- The member of that number
unfoldable pub kind_at : Class → ℕ → Option (MemberInfo × Kind)
kind_at Class.end i = none
kind_at (entry info k c) zero = some (info, k)
kind_at (entry info k c) (suc i) = kind_at c i

set_value_loop-unreadable :
    (g : Getters) (c : Class) (view : Fields) (ss : Slots) (i : ℕ) (info : MemberInfo)
    → kind_at c i ≡ some (info, plain)
    → storable_type info.type_ ≡ false
    → Throws (set_value_loop g c view ss)
unfolding set_value_loop kind_at
set_value_loop-unreadable g Class.end view ss i info e h = absurd (cc)
set_value_loop-unreadable g (entry info' k c) view Slots.end i info e h = (undefined, refl)
set_value_loop-unreadable g (entry info' k c) view (slot s ss) zero info e h =
    let same : ◌≡◌ {A = MemberInfo × Kind} (info', k) (info, plain) = cc in
    >>=-Throws_first (fetch_member g k info' view s) _ (
      subst (λ p. Throws (fetch_member g p.1 p.0 view s)) (sym same)
        (fetch_member-unreadable g info view s h))
set_value_loop-unreadable g (entry info' k c) view (slot s ss) (suc i) info e h =
    >>=-Throws (fetch_member g k info' view s) _ (λ r.
      >>=-Throws_first (set_value_loop g c view ss) _
        (set_value_loop-unreadable g c view ss i info e h))

fetch_view-unreadable :
    (g : Getters) (c : Class) (view : Fields) (o : Node) (i : ℕ) (info : MemberInfo)
    → kind_at c i ≡ some (info, plain)
    → storable_type info.type_ ≡ false
    → Throws (fetch_view g c view o)
unfolding fetch_view
fetch_view-unreadable g c view (node ks ss) i info e h =
    >>=-Throws_first (set_value_loop g c view ss) _
      (set_value_loop-unreadable g c view ss i info e h)

-- A read whose condition finds a document throws when the class has a plain member of any but the five
-- types, whatever the document holds.
pub handle_read-unreadable :
    (g : Getters) (db : Mongocxx) (x : MongoContext) (c : Class) (single : Bool) (e : FilterEvent)
    (w w' : db.World) (view : Fields) (cursor : List (Result Fields)) (i : ℕ) (info : MemberInfo)
    → kind_at c i ≡ some (info, plain)
    → storable_type info.type_ ≡ false
    → read db x e.coll e.doc w ≡ (ok (ok view ∷ cursor), w')
    → (thrown : Error) × (handle_read db x g c single e w ≡ (err thrown, w'))
unfolding handle_read fetched fetch_value fetch_first fetch_each
handle_read-unreadable g db x c single e w w' view cursor i info at h found =
    let (thrown, stops) = value_throws single in
    (thrown, ap (fetched db x g c single) found ∙ ap (λ r. (r, w')) stops)
  where
    value_throws : (b : Bool) → Throws (fetch_value g c b (ok view ∷ cursor))
    value_throws true = >>=-Throws_first (fetch_first g c (ok view ∷ cursor) (fresh_node c)) _ (
        >>=-Throws_first (fetch_view g c view (fresh_node c)) _
          (fetch_view-unreadable g c view (fresh_node c) i info at h))
    value_throws false = >>=-Throws_first (fetch_each g c (ok view ∷ cursor) 0 []) _ (
        >>=-Throws_first (fetch_view g c view (fresh_node c)) _
          (fetch_view-unreadable g c view (fresh_node c) i info at h))
