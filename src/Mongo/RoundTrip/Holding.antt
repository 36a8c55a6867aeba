-- ===== src/Mongo/RoundTrip/Holding.antt =====
-- What the documents of src/mongo hold of an object.
use yan.Prelude.{
  ℕ, zero, suc, ◌<◌, Bool, false, List, [], ◌∷◌, Option, none, ◌≡◌, refl, ap, ◌∙◌, inl,
  if◌then◌else◌, All, arith,
}
use yan.Prelude.Text.{Text, text_eq}
use yan.Ref.Struct.{get_name}
use yan.Ref.Nested.{Class, entry, Slots, slot}
use yan.Mongo.Document.{Element, Fields, Getters, GettersLaws}
use yan.Mongo.RoundTrip.{
  names, Storable, put, encode, encode_slots, put_nth, HoldsSlot, Holds, HoldsSome, also,
}
use yan.Mongo.RoundTrip.Lookup.{view_at-put, view_at-put_other, text_eq_comm}

pub later : (i j : ℕ) (p : ℕ → Bool) → j < i → p i ≡ also j p i
later i j p l = ground arith

module _ (g : Getters) (laws : GettersLaws g) where
  put_other-none :
      (n : Text) (e : Option Element) (doc : Fields) (ns : List Text)
      → All (λ m. text_eq n m ≡ false) ns
      → All (λ m. g.view_at doc m ≡ none) ns
      → All (λ m. g.view_at (put n e doc) m ≡ none) ns
  put_other-none n e doc [] h v = tt
  put_other-none n e doc (m ∷ ms) h v =
      (view_at-put_other g laws n m e doc h.0 ∙ v.0, put_other-none n e doc ms h.1 v.1)

  -- A key that no member has is not touched.
  encode_slots-other :
      (c : Class) (ss : Slots) (doc : Fields) (n : Text)
      → All (λ m. text_eq n m ≡ false) (names c)
      → g.view_at (encode_slots c ss doc) n ≡ g.view_at doc n
  unfolding encode_slots
  encode_slots-other (entry info k c) (slot s ss) doc n h =
      encode_slots-other c ss _ n h.1
      ∙ view_at-put_other g laws (get_name info) n (encode k info s) doc
          (text_eq_comm (get_name info) n ∙ h.0)
  encode_slots-other (entry info k c) Slots.end doc n h = refl
  encode_slots-other Class.end ss doc n h = refl

  pub encode_slots-Holds :
      (c : Class) (ss : Slots) (doc : Fields)
      → Storable c
      → All (λ n. g.view_at doc n ≡ none) (names c)
      → Holds g c ss (encode_slots c ss doc)
  unfolding encode_slots Holds Storable HoldsSlot
  encode_slots-Holds (entry info k c) (slot s ss) doc h v = (
    inl (
        encode_slots-other c ss _ (get_name info) h.1
        ∙ view_at-put g laws (get_name info) (encode k info s) doc v.0),
    encode_slots-Holds c ss _ h.2
        (put_other-none (get_name info) (encode k info s) doc (names c) h.1 v.1),
  )
  encode_slots-Holds (entry info k c) Slots.end doc h v = tt
  encode_slots-Holds Class.end ss doc h v = tt

  pub put_nth-other :
      (c : Class) (ss : Slots) (m : ℕ) (doc : Fields) (n : Text)
      → All (λ x. text_eq n x ≡ false) (names c)
      → g.view_at (put_nth c ss m doc) n ≡ g.view_at doc n
  unfolding put_nth
  put_nth-other (entry info k c) (slot s ss) zero doc n h =
      view_at-put_other g laws (get_name info) n (encode k info s) doc
        (text_eq_comm (get_name info) n ∙ h.0)
  put_nth-other (entry info k c) (slot s ss) (suc m) doc n h = put_nth-other c ss m doc n h.1
  put_nth-other (entry info k c) Slots.end m doc n h = refl
  put_nth-other Class.end ss m doc n h = refl

  -- A member before the others adds nothing to what they have.
  pub put-HoldsSome :
      (c : Class) (ss : Slots) (p : ℕ → Bool) (i j : ℕ) (n : Text) (e : Option Element)
      (doc : Fields)
      → j < i
      → All (λ x. text_eq n x ≡ false) (names c)
      → HoldsSome g p i c ss doc
      → HoldsSome g (also j p) i c ss (put n e doc)
  unfolding HoldsSome
  put-HoldsSome (entry info k c) (slot s ss) p i j n e doc l h v = (
    view_at-put_other g laws n (get_name info) e doc h.0
        ∙ v.0
        ∙ ap (λ b. if b then encode k info s else none) (later i j p l),
    put-HoldsSome c ss p (suc i) j n e doc (omega arith) h.1 v.1,
  )
  put-HoldsSome (entry info k c) Slots.end p i j n e doc l h v = tt
  put-HoldsSome Class.end ss p i j n e doc l h v = tt
