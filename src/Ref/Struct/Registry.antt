-- ===== src/Ref/Struct/Registry.antt =====
-- The two containers of a YanStruct (src/base/ref.h) stay in step: the vector that sequence numbers
-- index and the map that names are looked up in.
use Prim.Native.Nat.{◌^◌, ◌%◌}
use yan.Prelude.{
  ℕ, zero, suc, ◌≡◌, ◌⊎◌, inl, inr, Bool-cases, Option-cases, none, some, List, [], ◌∷◌, ◌++◌,
  length, get_elem?, get_elem?-append_length, Error, runtime_error, ok, err, arith,
}
use yan.Prelude.Text.{Text, bytes, text_eq, text_eq_iff, text_eq_refl}
use yan.Ref.Struct.{MemberInfo, YanStruct, find, add, member_at, get_member}

-- A list of members in which every name that is looked up has its position, and every member its
-- name.
pub record IsRegistry (members : List MemberInfo) (ms : List (Text × MemberInfo)) : Type 0 where
  pub indexed : (i : ℕ) (m : MemberInfo) → get_elem? members i ≡ some m → find m.name ms ≡ some m
  pub known :
      (n : Text) (m : MemberInfo)
      → find n ms ≡ some m
      → (i : ℕ) × (get_elem? members i ≡ some m) × (m.name ≡ n)

get_elem?-snoc :
    (xs : List MemberInfo) (x : MemberInfo) (i : ℕ) (y : MemberInfo)
    → get_elem? (xs ++ x ∷ []) i ≡ some y
    → (get_elem? xs i ≡ some y) ⊎ (y ≡ x)
get_elem?-snoc [] x zero y e = ground arith
get_elem?-snoc [] x (suc i) y e = cc
get_elem?-snoc (z ∷ xs) x zero y e = inl e
get_elem?-snoc (z ∷ xs) x (suc i) y e = get_elem?-snoc xs x i y e

get_elem?-append_left :
    (xs ys : List MemberInfo) (i : ℕ) (y : MemberInfo)
    → get_elem? xs i ≡ some y
    → get_elem? (xs ++ ys) i ≡ some y
get_elem?-append_left [] ys i y e = cc
get_elem?-append_left (x ∷ xs) ys zero y e = e
get_elem?-append_left (x ∷ xs) ys (suc i) y e = get_elem?-append_left xs ys i y e

module _ (members : List MemberInfo) (ms : List (Text × MemberInfo)) (m : MemberInfo)
    (r : IsRegistry members ms) (fresh : find m.name ms ≡ none) where
  snoc-indexed :
      (i : ℕ) (y : MemberInfo)
      → get_elem? (members ++ m ∷ []) i ≡ some y
      → find y.name ((m.name, m) ∷ ms) ≡ some y
  unfolding find
  snoc-indexed i y e = elim (get_elem?-snoc members m i y e) [
    | inl old ↦ ground (arith, r.indexed i y old, text_eq_iff m.name y.name)
    | inr new ↦ rw new (ground (arith, text_eq_iff m.name m.name))
  ]

  snoc-known :
      (n : Text) (y : MemberInfo)
      → find n ((m.name, m) ∷ ms) ≡ some y
      → (i : ℕ) × (get_elem? (members ++ m ∷ []) i ≡ some y) × (y.name ≡ n)
  unfolding find
  snoc-known n y e = elim (Bool-cases (text_eq m.name n)) [
    | inl same ↦
        let y-is-m : m ≡ y = ground (arith, same) in
        (
          length members,
          rw (← y-is-m) (get_elem?-append_length members m []),
          rw (← y-is-m) ((text_eq_iff m.name n).0 same),
        )
    | inr other ↦
        let old : find n ms ≡ some y = ground (arith, other) in
        let (i, at, name) = r.known n y old in
        (i, get_elem?-append_left members (m ∷ []) i y at, name)
  ]

  snoc-IsRegistry : IsRegistry (members ++ m ∷ []) ((m.name, m) ∷ ms)
  snoc-IsRegistry = record { indexed = snoc-indexed; known = snoc-known }

abbrev pub IsStruct : YanStruct → Type 0
IsStruct s = IsRegistry s.members s.ms

find_self :
    (n : Text) (m : MemberInfo) (ms : List (Text × MemberInfo)) → find n ((n, m) ∷ ms) ≡ some m
unfolding find
find_self n m ms = ground (arith, text_eq_refl n)

member_at-eq :
    (s : YanStruct) (i : ℕ) (m : MemberInfo) → get_elem? s.members i ≡ some m → member_at s i ≡ ok m
unfolding member_at
member_at-eq s i m e = ground (arith, e)

elem-of-member_at :
    (s : YanStruct) (i : ℕ) (m : MemberInfo) → member_at s i ≡ ok m → get_elem? s.members i ≡ some m
unfolding member_at
elem-of-member_at s i m e = ground (arith, e)

get_member-eq :
    (s : YanStruct) (n : Text) (m : MemberInfo) → find n s.ms ≡ some m → get_member s n ≡ ok m
unfolding get_member
get_member-eq s n m e = ground (arith, e)

find-of-get_member :
    (s : YanStruct) (n : Text) (m : MemberInfo) → get_member s n ≡ ok m → find n s.ms ≡ some m
unfolding get_member
find-of-get_member s n m e = ground (arith, e)

abbrev pub taken : MemberInfo → Error
taken m = runtime_error (bytes "you have defined same member in struct" ++ m.name)

-- Registering a member fails exactly when its name is taken, and then throws. Otherwise the member
-- gets the next sequence number, is found again by that number and by its name, and the vector and
-- the map still describe the same members.
pub add-IsStruct :
    (s : YanStruct) (m : MemberInfo)
    → IsStruct s
    → ((old : MemberInfo) × (find m.name s.ms ≡ some old) × (add s m ≡ err (taken m)))
      ⊎ ((s' : YanStruct) × (find m.name s.ms ≡ none)
          × (add s m ≡ ok (s', length s.members % 2 ^ 16))
          × IsStruct s'
          × (member_at s' (length s.members) ≡ ok m)
          × (get_member s' m.name ≡ ok m))
unfolding add
add-IsStruct s m r = elim (Option-cases (find m.name s.ms)) [
  | inl fresh ↦
      let next = record s { members = s.members ++ m ∷ []; ms = (m.name, m) ∷ s.ms } in
      inr (
        next,
        fresh,
        rw (fresh, add),
        snoc-IsRegistry s.members s.ms m r fresh,
        member_at-eq next (length s.members) m (get_elem?-append_length s.members m []),
        get_member-eq next m.name m (find_self m.name m s.ms),
      )
  | inr (old, e) ↦ inl (old, e, rw (e, add))
]

-- A name leads to a member exactly when a member of that name was registered, and to a member that
-- stands at its sequence number.
get_member_exact :
    (s : YanStruct) (n : Text)
    → IsStruct s
    → ((i : ℕ) (m : MemberInfo) → member_at s i ≡ ok m → m.name ≡ n → get_member s n ≡ ok m)
      × ((m : MemberInfo) → get_member s n ≡ ok m → (i : ℕ) × (member_at s i ≡ ok m) × (m.name ≡ n))
get_member_exact s n r = (
  λ i m at name. get_member-eq s n m (rw (← name) (r.indexed i m (elem-of-member_at s i m at))),
  λ m e.
      let (i, at, name) = r.known n m (find-of-get_member s n m e) in
      (i, member_at-eq s i m at, name),
)
