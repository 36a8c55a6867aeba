-- ===== src/Mongo/Filter.antt =====
-- What is in a filter of src/mongo/mongo_readref.h.
use yan.Prelude.{
  ◌≡◌, refl, sym, ap, ◌∙◌, true, none, some, List, [], ◌∷◌, ◌++◌, map, if◌then◌else◌, runtime_error,
  append-nil, append_assoc, All, Result, ok, err, ◌>>=◌,
}
use yan.Prelude.Int.{ℤ, pos, is_neg}
use yan.Prelude.Text.{Text, bytes}
use yan.Types.{YanType, struct, list, unknown}
use yan.Ref.Param.{ParamValue, one, many, Param}
use yan.Ref.Object.{Object}
use yan.RefOps.{is_plain, cond_ref, handle_named, append_named, append_refobj_cond}
use yan.Mongo.{
  Bson, scalar, array_under, Document, append_value, append_cond_bson, check_made, make_cond,
}

-- A value, or one of those in a list.
unfoldable pub match_of : ParamValue → Bson
match_of (one v) = scalar v
match_of (many vs) = array_under (bytes "$eleMatch") vs

-- The field that a filter has for a condition: its operator and its condition type do not appear.
abbrev pub field : Param → Text × Bson
field p = (p.name, match_of p.value)

append_value-field :
    (p : Param) (doc : Document) → append_value p.name p.value doc ≡ doc ++ field p ∷ []
unfolding append_value match_of
append_value-field p doc = by_value p.value
  where
    by_value : (v : ParamValue) → append_value p.name v doc ≡ doc ++ (p.name, match_of v) ∷ []
    by_value (one v) = refl
    by_value (many vs) = refl

handle_named-plain :
    (p : Param) (ret : ℤ) (doc : Document)
    → is_plain p.type_ ≡ true
    → handle_named append_cond_bson p ret doc ≡ ok (pos 0, append_value p.name p.value doc)
unfolding handle_named cond_ref append_cond_bson
handle_named-plain p ret doc h = by_type p.type_ h
  where
    by_type :
        (t : YanType)
        → is_plain t ≡ true
        → handle_named append_cond_bson (record p { type_ = t }) ret doc
          ≡ ok (pos 0, append_value p.name p.value doc)
    by_type struct h = absurd (cc)
    by_type list h = absurd (cc)
    by_type unknown h = absurd (cc)
    by_type _ h = refl

append_named-fields :
    (ps : List Param) (doc : Document)
    → All (λ p. is_plain p.type_ ≡ true) ps
    → append_named append_cond_bson ps (pos 0) doc ≡ ok (pos 0, doc ++ map field ps)
unfolding append_named
append_named-fields [] doc h = ap (λ d. ok (pos 0, d)) (sym (append-nil doc))
append_named-fields (p ∷ ps) doc h =
    ap (λ r. r >>= λ (n, x). (if is_neg n then ok (n, x) else append_named append_cond_bson ps n x))
      (handle_named-plain p (pos 0) doc h.0 ∙ ap (λ d. ok (pos 0, d)) (append_value-field p doc))
    ∙ append_named-fields ps (doc ++ field p ∷ []) h.1
    ∙ ap (λ d. ok (pos 0, d)) (append_assoc doc (field p ∷ []) (map field ps))

pub make_cond-fields :
    (o : Object) (ps : List Param)
    → o.conds ≡ some ps
    → All (λ p. is_plain p.type_ ≡ true) ps
    → make_cond o ≡ ok (map field ps)
unfolding make_cond check_made append_refobj_cond
make_cond-fields o ps e h =
    ap
      (λ c. check_made (elim c as (λ z. Result (ℤ × Document)) [
        | none ↦
            err (
              runtime_error (bytes "did you forget set parameter through functions like AND/OR..."))
        | some qs ↦ append_named append_cond_bson qs (pos 0) []
      ]))
      e
    ∙ ap check_made (append_named-fields ps [] h)
