-- ===== src/Ref/Object/Members.antt =====
-- The two containers that an object of src/base/ref.h marks its assigned members in: the set of
-- sequence numbers and the flags of the members.
use yan.Prelude.{
  ℕ, zero, suc, ◌≤◌, ◌≡◌, refl, Bool, true, false, some, List, [], ◌∷◌, ◌==◌, if◌then◌else◌,
  get_elem?, set, arith,
}
use yan.Ref.Object.{Member, insert_seq}

-- Strictly ascending from a lower bound on.
abbrev pub Ascending : ℕ → List ℕ → Type 0
Ascending lo [] = Unit {0}
Ascending lo (k ∷ ks) = (lo ≤ k) × Ascending (suc k) ks

unfoldable pub has : ℕ → List ℕ → Bool
has j [] = false
has j (k ∷ ks) = if k == j then true else has j ks

pub insert_seq-Ascending :
    (n lo : ℕ) (ks : List ℕ) → lo ≤ n → Ascending lo ks → Ascending lo (insert_seq n ks)
unfolding insert_seq
insert_seq-Ascending n lo [] h a = (h, tt)
insert_seq-Ascending n lo (k ∷ ks) h a = ground (arith, insert_seq-Ascending n (suc k) ks)

pub has-insert_seq :
    (n j : ℕ) (ks : List ℕ) → has j (insert_seq n ks) ≡ (if n == j then true else has j ks)
unfolding has insert_seq
has-insert_seq n j [] = refl
has-insert_seq n j (k ∷ ks) = ground (arith, has-insert_seq n j ks)

unfoldable pub flag_at : List Member → ℕ → Bool
flag_at [] j = false
flag_at (m ∷ ms) zero = m.flag
flag_at (m ∷ ms) (suc j) = flag_at ms j

pub flag_at-set :
    (ms : List Member) (i j : ℕ) (old new : Member)
    → get_elem? ms i ≡ some old
    → flag_at (set ms i new) j ≡ (if i == j then new.flag else flag_at ms j)
unfolding flag_at
flag_at-set [] i j old new e = cc
flag_at-set (m ∷ ms) zero zero old new e = refl
flag_at-set (m ∷ ms) zero (suc j) old new e = ground arith
flag_at-set (m ∷ ms) (suc i) zero old new e = ground arith
flag_at-set (m ∷ ms) (suc i) (suc j) old new e = ground (arith, flag_at-set ms i j old new e)

pub flag_at-eq :
    (ms : List Member) (i : ℕ) (m : Member) → get_elem? ms i ≡ some m → flag_at ms i ≡ m.flag
unfolding flag_at
flag_at-eq [] i m e = cc
flag_at-eq (x ∷ ms) zero m e = cc
flag_at-eq (x ∷ ms) (suc i) m e = flag_at-eq ms i m e
