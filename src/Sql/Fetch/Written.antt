-- ===== src/Sql/Fetch/Written.antt =====
-- What can be written of an object that was read (src/sqlite/sqlite_writeref.h with __YAN_MEMBER__
-- of src/base/ref.h): the walk of a write goes over the set of assigned members, which a read does
-- not touch, and an assignment to a member whose flag is set does not either.
use yan.Prelude.{
  ℕ, ◌<◌, ◌≡◌, ◌≢◌, refl, sym, ap, subst, Bool, true, false, Option, none, some, List, [], ◌∷◌, ltb,
  length, get_elem?-some, get_elem?-lt_length, if◌then◌else◌, All, All-set, All-get, All-of, Result,
  ok, err, runtime_error, ◌>>=◌, >>=-eq-ok, arith,
}
use yan.Prelude.Text.{Text, bytes}
use yan.Types.{YanType, string, text, blob}
use yan.Ref.Param.{Value}
use yan.Ref.Struct.{MemberInfo, YanStruct, member_at}
use yan.Ref.Object.{
  Member, Object, fresh, assign, member_of, put_member, append_seq, is_auto_increment,
  assign_under_cond, assign_auto_increment,
}
use yan.Ref.Object.Invariant.{member_of-eq}
use yan.Ref.Object.Calls.{length-fresh_members}
use yan.RefOps.{append_value, assign_value, each_seq}
use yan.RefOps.Write.{set_value}
use yan.Cond.{copy_refobj, copy_values, copy_seqs, get_obj_name}
use yan.Sql.Bind.{is_bindable}
use yan.Sql.Insert.{make_insert, start as start_insert}
use yan.Sql.Update.{make_update}
use yan.Sql.Fetch.{Row, text_value, get_value, fetch}
use yan.Sql.Fetch.Columns.{given, Column, fetch-columns}

-- One assignment after the other.
unfoldable pub assigns : YanStruct → List (ℕ × Value) → Object → Result Object
assigns s [] o = ok o
assigns s ((i, v) ∷ vs) o = assign s i v o >>= λ p. assigns s vs p

-- No member is in the set of the assigned members, and all have their flags set.
abbrev Sealed : Object → Type 0
Sealed o = (o.seqset ≡ []) × All (λ m. m.flag ≡ true) o.members

sealed_assignment :
    (s : YanStruct) (i : ℕ) (v : Value) (o p : Object) (info : MemberInfo) (m : Member)
    (under auto : Bool)
    → m.flag ≡ true
    → (if under
        then err (runtime_error (assign_under_cond m.cond))
        else if auto
        then err (runtime_error (assign_auto_increment s info))
        else (let o' = put_member o i (record m { value = v; flag = true }) in
            ok (if m.flag then o' else append_seq i o')))
      ≡ ok p
    → put_member o i (record m { value = v; flag = true }) ≡ p
sealed_assignment s i v o p info m true auto f e = absurd (cc)
sealed_assignment s i v o p info m false true f e = absurd (cc)
sealed_assignment s i v o p info m false false f e = ground (arith, f, e)

assign-Sealed :
    (s : YanStruct) (i : ℕ) (v : Value) (o p : Object) → Sealed o → assign s i v o ≡ ok p → Sealed p
unfolding assign put_member
assign-Sealed s i v o p (none_set, flags) e =
    let (info, at, rest) = >>=-eq-ok (member_at s i) _ e in
    let (m, of, last) = >>=-eq-ok (member_of o i) _ rest in
    let f = All-get (λ m. m.flag ≡ true) o.members i m flags (member_of-eq o i m of) in
    subst Sealed
      (sealed_assignment s i v o p info m (ltb 0 m.cond) (is_auto_increment info.type_) f last)
      (none_set, All-set (λ m. m.flag ≡ true) o.members i _ flags refl)

assigns-Sealed :
    (s : YanStruct) (vs : List (ℕ × Value)) (o p : Object)
    → Sealed o
    → assigns s vs o ≡ ok p
    → Sealed p
unfolding assigns
assigns-Sealed s [] o p h e = let same : o ≡ p = cc in subst Sealed same h
assigns-Sealed s ((i, v) ∷ vs) o p h e =
    let (q, first, rest) = >>=-eq-ok (assign s i v o) _ e in
    assigns-Sealed s vs q p (assign-Sealed s i v o q h first) rest

Sealed-insert :
    (float_text : ℕ → Text) (list_size : ℕ → ℕ) (s : YanStruct) (p : Object)
    → p.seqset ≡ []
    → make_insert float_text list_size s p start_insert
      ≡ err (runtime_error (bytes "sqlite has no field set when creating insert sql"))
unfolding make_insert assign_value each_seq
Sealed-insert float_text list_size s p e = rw e

Sealed-update :
    (list_size : ℕ → ℕ) (s : YanStruct) (p : Object)
    → p.seqset ≡ []
    → (copy_refobj s p >>= make_update list_size)
      ≡ err (
          runtime_error
            (bytes "please set the values you want to update when doing update operation"))
unfolding copy_refobj copy_values copy_seqs make_update append_value get_obj_name
Sealed-update list_size s p e = rw e

module _ (row : Row) (no_null : (c : ℕ) → (t : Text) × (row.column_text c ≡ some t)) where
  get_value-given : (t : YanType) (c : ℕ) → get_value row t c ≢ ok none
  unfolding get_value
  get_value-given string c e = absurd (cc (ap text_value (no_null c).1))
  get_value-given text c e = absurd (cc (ap text_value (no_null c).1))
  get_value-given blob c e = absurd (cc (ap text_value (no_null c).1))
  get_value-given _ c e = absurd (cc)

  given-flag :
      (t : YanType) (c : ℕ) (v : Option Value) (m : Member)
      → Column row t c v
      → (given v m).flag ≡ true
  unfolding given set_value
  given-flag t c none m e = absurd (get_value-given t c e)
  given-flag t c (some v) m e = refl

  fetch-Sealed :
      (s : YanStruct) (o : Object)
      → All (λ info. is_bindable info.type_ ≡ true) s.members
      → fetch row s (fresh s) ≡ ok o
      → Sealed o
  unfolding fresh
  fetch-Sealed s o b e =
      let (o', run, len, seqs, filled) =
        fetch-columns row s (fresh s) b (sym (length-fresh_members s.members)) in
      let same : o' ≡ o = cc in
      subst Sealed same (
        seqs,
        All-of (λ m. m.flag ≡ true) o'.members
            (λ i n at.
              let short : i < length o'.members = get_elem?-lt_length o'.members i n at in
              let (info, there) =
                get_elem?-some s.members i
                  (omega (arith, short, len, length-fresh_members s.members)) in
              let (m, here) = get_elem?-some (fresh s).members i (omega (arith, short, len)) in
              let (v, col, place) = filled i info m there here in
              let eq : given v m ≡ n = cc in
              subst (λ z. z.flag ≡ true) eq (given-flag info.type_ i v m col)),
      )

  -- An object that was read from the database cannot be written back. When a row without a NULL text
  -- was read into a new object, and any assignments to its members follow, `write` refuses the
  -- object because no field were set, and so does `update`, whatever was assigned.
  pub fetched_never_written :
      (s : YanStruct) (vs : List (ℕ × Value)) (o p : Object)
      → All (λ info. is_bindable info.type_ ≡ true) s.members
      → fetch row s (fresh s) ≡ ok o
      → assigns s vs o ≡ ok p
      → (float_text : ℕ → Text) (list_size : ℕ → ℕ)
      → (make_insert float_text list_size s p start_insert
          ≡ err (runtime_error (bytes "sqlite has no field set when creating insert sql")))
        × ((copy_refobj s p >>= make_update list_size)
            ≡ err (
                runtime_error
                  (bytes "please set the values you want to update when doing update operation")))
  fetched_never_written s vs o p b e a float_text list_size =
      let empty : p.seqset ≡ [] = (assigns-Sealed s vs o p (fetch-Sealed s o b e) a).0 in
      (Sealed-insert float_text list_size s p empty, Sealed-update list_size s p empty)
