-- ===== src/Prelude/Results.antt =====
-- What a C++ function may do: return, throw `std::runtime_error` with a message, or leave the
-- language (an `assert` that fails, an index out of range, a null pointer).
use Prim.Native.Nat.{ℕ}
use mathlib.Core.Path.{◌≡◌, refl}
use mathlib.Core.Logic.{◌⊎◌, inl, inr}
use mathlib.Core.List.{List}
use mathlib.Core.Bool.{Bool, true, false}
use yan.Prelude.Tests.{if◌then◌else◌}

pub data Error : Type 0 where
  runtime_error : List ℕ → Error
  undefined : Error

pub data Result {ℓ} (A : Type ℓ) : Type ℓ where
  ok : A → Result A
  err : Error → Result A

infixl 5 ◌>>=◌
abbrev pub ◌>>=◌ {ℓ κ} : {A : Type ℓ} {B : Type κ} → Result A → (A → Result B) → Result B
ok a >>= k = k a
err thrown >>= k = err thrown

-- A chain that returns has returned at its first link, and then at the rest.
pub >>=-eq-ok {ℓ κ} :
    {A : Type ℓ} {B : Type κ} (first : Result A) (rest : A → Result B) {b : B}
    → (first >>= rest) ≡ ok b
    → (a : A) × (first ≡ ok a) × (rest a ≡ ok b)
>>=-eq-ok (err thrown) rest returned = cc
>>=-eq-ok (ok a) rest returned = (a, refl, returned)

pub ok-injective {ℓ} : {A : Type ℓ} {a b : A} → ok a ≡ ok b → a ≡ b
ok-injective e = cc

-- What a function returns behind a guard that throws.
pub then-eq-ok {ℓ} :
    {A : Type ℓ} (b : Bool) (r : Result A) (e : Error) {a : A}
    → (if b then r else err e) ≡ ok a
    → r ≡ ok a
then-eq-ok true r e h = h
then-eq-ok false r e h = absurd (cc)

pub else-eq-ok {ℓ} :
    {A : Type ℓ} (b : Bool) (e : Error) (r : Result A) {a : A}
    → (if b then err e else r) ≡ ok a
    → r ≡ ok a
else-eq-ok true e r h = absurd (cc)
else-eq-ok false e r h = h

-- What a loop returns that a result may end.
pub stop-eq-ok {ℓ} :
    {A : Type ℓ} (b : Bool) (a : A) (r : Result A) {a' : A}
    → (if b then ok a else r) ≡ ok a'
    → (a ≡ a') ⊎ (r ≡ ok a')
stop-eq-ok true a r h = inl (ok-injective h)
stop-eq-ok false a r h = inr h

abbrev pub Throws {ℓ} : {A : Type ℓ} → Result A → Type ℓ
Throws {A = A} r = (e : Error) × (r ≡ err e)

-- A chain throws when its first link does, or its rest does wherever that leads.
pub >>=-Throws {ℓ κ} :
    {A : Type ℓ} {B : Type κ} (r : Result A) (f : A → Result B)
    → ((a : A) → Throws (f a))
    → Throws (r >>= f)
>>=-Throws (err e) f h = (e, refl)
>>=-Throws (ok a) f h = h a

pub >>=-Throws_first {ℓ κ} :
    {A : Type ℓ} {B : Type κ} (r : Result A) (f : A → Result B) → Throws r → Throws (r >>= f)
>>=-Throws_first (err e) f h = (e, refl)
>>=-Throws_first (ok a) f h = absurd (cc)

pub if-Throws {ℓ} :
    {A : Type ℓ} (b : Bool) (r : Result A) (e : Error) → Throws r → Throws (if b then r else err e)
if-Throws true r e h = h
if-Throws false r e h = (e, refl)

-- The value of an expression, or what it throws, and the state that it leaves.
abbrev pub Outcome : Type 0 → Type 0 → Type 0
Outcome S A = Result A × S
