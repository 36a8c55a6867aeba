-- ===== src/Mongo/Document.antt =====
-- The documents of bsoncxx, as src/mongo makes and reads them: a field or an item of an array is a
-- value that was streamed with `<<` from the C++ type of that member type, an array or a document.
use yan.Prelude.{false, ℕ, true, Option, none, some, ◌≡◌, Result, ok}
use yan.Prelude.Int.{ℤ}
use yan.Prelude.Text.{Text, text_eq}
use yan.Types.{YanType, int32, double, string, text, blob}
use yan.Ref.Nested.Typed.{is_integer, is_real}
use yan.Ref.Param.{Value, integer, real, chars}

mutual
  pub data Element : Type 0 where
    scalar : YanType → Value → Element
    array : Items → Element
    document : Fields → Element

  pub data Items : Type 0 where
    no_items : Items
    item : Element → Items → Items

  pub data Fields : Type 0 where
    end : Fields
    field : Text → Element → Fields → Fields

-- `doc << name << value`
unfoldable pub add_field : Text → Element → Fields → Fields
add_field n e Fields.end = field n e Fields.end
add_field n e (field k v fs) = field k v (add_field n e fs)

-- `array << value`
unfoldable pub add_item : Element → Items → Items
add_item e no_items = item e no_items
add_item e (item x xs) = item x (add_item e xs)

-- `view[name]`, and the getters of an element, which throw when its type is another.
pub record Getters : Type 0 where
  pub view_at : Fields → Text → Option Element
  pub get_utf8 : Element → Result Value
  pub get_int32 : Element → Result Value
  pub get_double : Element → Result Value
  pub get_document : Element → Result Fields

-- A key is found that was streamed, with the element of the first time; and a getter gives back what was
-- streamed from its C++ type.
pub record GettersLaws (g : Getters) : Type 0 where
  pub of_string : (t : Text) → g.get_utf8 (scalar string (chars t)) ≡ ok (chars t)
  pub of_text : (t : Text) → g.get_utf8 (scalar text (chars t)) ≡ ok (chars t)
  pub of_blob : (t : Text) → g.get_utf8 (scalar blob (chars t)) ≡ ok (chars t)
  pub of_int32 :
      (z : ℤ)
      → is_integer 31 (integer z) ≡ true
      → g.get_int32 (scalar int32 (integer z)) ≡ ok (integer z)
  pub of_double :
      (x : ℕ) → is_real 64 (real x) ≡ true → g.get_double (scalar double (real x)) ≡ ok (real x)
  pub of_document : (fs : Fields) → g.get_document (document fs) ≡ ok fs
  pub at_end : (n : Text) → g.view_at Fields.end n ≡ none
  pub at_other :
      (n m : Text) (e : Element) (doc : Fields)
      → text_eq n m ≡ false
      → g.view_at (add_field n e doc) m ≡ g.view_at doc m
  pub at_new :
      (n : Text) (e : Element) (doc : Fields)
      → g.view_at doc n ≡ none
      → g.view_at (add_field n e doc) n ≡ some e
  pub at_again :
      (n : Text) (e first : Element) (doc : Fields)
      → g.view_at doc n ≡ some first
      → g.view_at (add_field n e doc) n ≡ some first
