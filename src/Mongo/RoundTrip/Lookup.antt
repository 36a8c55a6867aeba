-- ===== src/Mongo/RoundTrip/Lookup.antt =====
-- What is found in the documents of src/mongo.
use yan.Prelude.{false, Option, none, some, [], ◌∷◌, ◌≡◌, refl, arith}
use yan.Prelude.Text.{Text, text_eq}
use yan.Mongo.Document.{Element, Fields, Getters, GettersLaws}
use yan.Mongo.RoundTrip.{put}

pub text_eq_comm : (t u : Text) → text_eq t u ≡ text_eq u t
unfolding text_eq
text_eq_comm [] [] = refl
text_eq_comm [] (y ∷ ys) = refl
text_eq_comm (x ∷ xs) [] = refl
text_eq_comm (x ∷ xs) (y ∷ ys) = ground (arith, text_eq_comm xs ys)

module _ (g : Getters) (laws : GettersLaws g) where
  pub view_at-put_other :
      (n m : Text) (e : Option Element) (doc : Fields)
      → text_eq n m ≡ false
      → g.view_at (put n e doc) m ≡ g.view_at doc m
  view_at-put_other n m none doc h = refl
  view_at-put_other n m (some e) doc h = laws.at_other n m e doc h

  pub view_at-put :
      (n : Text) (e : Option Element) (doc : Fields)
      → g.view_at doc n ≡ none
      → g.view_at (put n e doc) n ≡ e
  view_at-put n none doc h = h
  view_at-put n (some e) doc h = laws.at_new n e doc h

  pub view_at-put_again :
      (n : Text) (e : Option Element) (doc : Fields)
      → g.view_at doc n ≡ e
      → g.view_at (put n e doc) n ≡ e
  view_at-put_again n none doc h = h
  view_at-put_again n (some e) doc h = laws.at_again n e e doc h
