-- ===== src/Sql/Fetch/Columns.antt =====
-- Which member of an object gets which column of a row (src/sqlite/sqlite_writeref.h).
use yan.Prelude.{
  ℕ, zero, suc, ◌+◌, ◌<◌, ◌≤◌, ◌≡◌, refl, sym, ap, subst, ◌∙◌, true, Option, none, some, List, [],
  ◌∷◌, length, length-set, get_elem?, get_elem?-set_eq, get_elem?-set_ne, get_elem?-some, set, ok,
  ◌>>=◌, All, arith,
}
use yan.Prelude.Int.{pos}
use yan.Types.{YanType, int8, int16, float, double, bool, struct, list}
use yan.Ref.Param.{Value}
use yan.Ref.Struct.{MemberInfo, YanStruct}
use yan.Ref.Object.{Member, Object, member_of, put_member}
use yan.RefOps.Write.{set_value, set_if_given, member_ref, handle_info, set_members, get_object}
use yan.Sql.Bind.{is_bindable}
use yan.Sql.Fetch.{FetchContext, Row, get_value, get_column, fetch, check_fetched}

-- A member behind the callback, if it was called.
unfoldable pub given : Option Value → Member → Member
unfolding set_value
given none m = m
given (some v) m = set_value m v

set-same {ℓ} :
    {A : Type ℓ} (xs : List A) (i : ℕ) (x : A) → get_elem? xs i ≡ some x → set xs i x ≡ xs
set-same [] i x e = refl
set-same (y ∷ xs) zero x e = let same : y ≡ x = cc in ap (λ z. z ∷ xs) (sym same)
set-same (y ∷ xs) (suc i) x e = ap (λ z. y ∷ z) (set-same xs i x e)

set_if_given-given :
    (i : ℕ) (v : Option Value) (o : Object) (m : Member)
    → get_elem? o.members i ≡ some m
    → set_if_given i v o ≡ ok (put_member o i (given v m))
unfolding set_if_given given put_member member_of
set_if_given-given i none o m e =
    ap (λ ms. ok (record o { members = ms })) (sym (set-same o.members i m e))
set_if_given-given i (some v) o m e = rw (e, member_of)

module _ (row : Row) where
  abbrev pub Column : YanType → ℕ → Option Value → Type 0
  Column t i v = get_value row t i ≡ ok v

  handle_info-bindable :
      (i : ℕ) (info : MemberInfo) (o : Object) (m : Member)
      → is_bindable info.type_ ≡ true
      → get_elem? o.members i ≡ some m
      → (v : Option Value) × Column info.type_ i v
        × (handle_info (get_column row) i info (o, record { col = i })
            ≡ ok (pos 0, (put_member o i (given v m), record { col = i + 1 })))
  unfolding handle_info member_ref get_column get_value
  handle_info-bindable i info o m b at = typed info.type_ b
    where
      typed :
          (t : YanType)
          → is_bindable t ≡ true
          → (v : Option Value) × Column t i v
            × (handle_info (get_column row) i (record info { type_ = t }) (o, record { col = i })
                ≡ ok (pos 0, (put_member o i (given v m), record { col = i + 1 })))
      typed YanType.unknown b = absurd (cc)
      typed int8 b = absurd (cc)
      typed int16 b = absurd (cc)
      typed float b = absurd (cc)
      typed double b = absurd (cc)
      typed bool b = absurd (cc)
      typed struct b = absurd (cc)
      typed list b = absurd (cc)
      typed _ b = (
        _,
        refl,
        ap (λ r. r >>= λ o'. ok (pos 0, (o', record { col = i + 1 })))
            (set_if_given-given i _ o m at),
      )

  -- What a row makes of a member, which is at that place of the struct and of the object.
  abbrev pub Filled : ℕ → MemberInfo → Member → Object → Type 0
  Filled i info m o =
      (v : Option Value) × Column info.type_ i v × (get_elem? o.members i ≡ some (given v m))

  -- The loop from the place `i` on.
  set_members-columns :
      (infos : List MemberInfo) (i : ℕ) (o : Object)
      → All (λ info. is_bindable info.type_ ≡ true) infos
      → i + length infos ≤ length o.members
      → (o' : Object) × (x : FetchContext) × (set_members
            (get_column row)
            infos
            i
            (o, record { col = i })
          ≡ ok (o', x))
        × (length o'.members ≡ length o.members)
        × (o'.seqset ≡ o.seqset)
        × ((j : ℕ) → j < i → get_elem? o'.members j ≡ get_elem? o.members j)
        × ((j k : ℕ) (info : MemberInfo) (m : Member)
            → j ≡ i + k
            → get_elem? infos k ≡ some info
            → get_elem? o.members j ≡ some m
            → Filled j info m o')
  unfolding set_members put_member
  set_members-columns [] i o b h =
      (o, _, refl, refl, refl, (λ j l. refl), (λ j k info m e f g. absurd (cc)))
  set_members-columns (info ∷ infos) i o b h =
      let (m, at) = get_elem?-some o.members i (omega arith) in
      let (v, col, step) = handle_info-bindable i info o m b.0 at in
      let o1 : Object = put_member o i (given v m) in
      let len : length o1.members ≡ length o.members = length-set o.members i (given v m) in
      let (o', x, run, len', seqs, below, above) =
        set_members-columns infos (i + 1) o1 b.1 (omega (arith, len)) in
      (
        o',
        x,
        ap (λ r. r >>= λ (n, y). set_members (get_column row) infos (i + 1) y) step ∙ run,
        len' ∙ len,
        seqs,
        (λ j l.
            below j (omega arith)
            ∙ get_elem?-set_ne o.members i j (given v m) (λ e. absurd (omega (arith, e)))),
        above_from o' v m at col below above,
      )
    where
      above_from :
          (o' : Object) (v : Option Value) (m : Member)
          → get_elem? o.members i ≡ some m
          → Column info.type_ i v
          → ((j : ℕ)
              → j < i + 1
              → get_elem? o'.members j ≡ get_elem? (set o.members i (given v m)) j)
          → ((j k : ℕ) (other : MemberInfo) (n : Member)
              → j ≡ (i + 1) + k
              → get_elem? infos k ≡ some other
              → get_elem? (set o.members i (given v m)) j ≡ some n
              → Filled j other n o')
          → (j k : ℕ) (other : MemberInfo) (n : Member) → j ≡ i + k
          → get_elem? (info ∷ infos) k ≡ some other
          → get_elem? o.members j ≡ some n
          → Filled j other n o'
      above_from o' v m at col below above j zero other n e f g =
          let place : i ≡ j = omega (arith, e) in
          let member : m ≡ n = cc in
          let same : info ≡ other = cc in
          subst (λ k. Filled k other n o') place
            (subst (λ z. Filled i z n o') same
              (subst (λ z. Filled i info z o') member
                (v, col, below i (omega arith) ∙ get_elem?-set_eq o.members i (given v m) m at)))
      above_from o' v m at col below above j (suc k) other n e f g =
          above j k other n (omega (arith, e)) f
            (get_elem?-set_ne o.members i j (given v m) (λ d. absurd (omega (arith, d, e))) ∙ g)

  pub fetch-columns :
      (s : YanStruct) (o : Object)
      → All (λ info. is_bindable info.type_ ≡ true) s.members
      → length s.members ≡ length o.members
      → (o' : Object) × (fetch row s o ≡ ok o')
        × (length o'.members ≡ length o.members)
        × (o'.seqset ≡ o.seqset)
        × ((j : ℕ) (info : MemberInfo) (m : Member)
            → get_elem? s.members j ≡ some info
            → get_elem? o.members j ≡ some m
            → Filled j info m o')
  unfolding fetch check_fetched get_object
  fetch-columns s o b h =
      let (o', x, run, len, seqs, below, above) =
        set_members-columns s.members 0 o b (omega (arith, h)) in
      (
        o',
        ap (λ r. check_fetched (r >>= λ y. ok (pos 0, y))) run,
        len,
        seqs,
        λ j info m e f. above j j info m (omega arith) e f,
      )

  -- When the library can read values of the types of all members of a struct, `fetch` returns, and
  -- gives every member the column that has its place: its value and flag are set, unless the column
  -- is a NULL text. The set of assigned members stays what it was.
  pub fetch-column :
      (s : YanStruct) (o : Object)
      → All (λ info. is_bindable info.type_ ≡ true) s.members
      → length s.members ≡ length o.members
      → (j : ℕ) (info : MemberInfo) (m : Member) → get_elem? s.members j ≡ some info
      → get_elem? o.members j ≡ some m
      → (o' : Object) × (v : Option Value) × (fetch row s o ≡ ok o')
        × (o'.seqset ≡ o.seqset)
        × (get_value row info.type_ j ≡ ok v)
        × (get_elem? o'.members j ≡ some (given v m))
  fetch-column s o b h j info m e f =
      let (o', run, len, seqs, filled) = fetch-columns s o b h in
      let (v, col, place) = filled j info m e f in (o', v, run, seqs, col, place)
