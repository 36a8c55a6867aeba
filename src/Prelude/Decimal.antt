-- ===== src/Prelude/Decimal.antt =====
-- `std::to_string` of an integer: its decimal digits, with a minus sign in front of a negative one.
use Prim.Native.Nat.{ℕ, zero, suc, ◌+◌, ◌*◌, ◌-◌, ◌/◌, ◌%◌, ◌≤◌, ◌<◌}
use mathlib.Core.Path.{◌≡◌, refl, sym, ap, ◌∙◌}
use mathlib.Core.List.{[], ◌∷◌, ◌++◌}
use native.Mathlib.Omega.{arith}
use yan.Prelude.Tests.{ltb, if◌then◌else◌, Bool-cases}
use yan.Prelude.Lists.{All, All-append}
use yan.Prelude.Int.{ℤ, pos, negsuc}
use yan.Prelude.Text.{Text, count}
use mathlib.Core.Logic.{inl, inr}

-- The fuel is above the number, and each round divides it by ten.
digits : ℕ → ℕ → Text
digits zero n = []
digits (suc fuel) n =
    let rest = digits fuel (n / 10) in
    if ltb n 10 then (48 + n) ∷ [] else rest ++ (48 + n % 10) ∷ []

unfoldable pub decimal : ℕ → Text
unfolding digits
decimal n = digits (suc n) n

unfoldable pub to_string : ℤ → Text
unfolding decimal
to_string (pos n) = decimal n
to_string (negsuc n) = 45 ∷ decimal (suc n)

abbrev pub value_from : ℕ → Text → ℕ
value_from acc [] = acc
value_from acc (c ∷ s) = value_from (acc * 10 + (c - 48)) s

value_from-append :
    (acc c : ℕ) (s : Text) → value_from acc (s ++ c ∷ []) ≡ value_from acc s * 10 + (c - 48)
value_from-append acc c [] = refl
value_from-append acc c (d ∷ s) = value_from-append (acc * 10 + (d - 48)) c s

digits-value : (fuel n : ℕ) → n < fuel → value_from 0 (digits fuel n) ≡ n
unfolding digits
digits-value zero n h = absurd (omega arith)
digits-value (suc fuel) n h = elim (Bool-cases (ltb n 10)) [
  | inl small ↦ rw small (ground arith)
  | inr large ↦ rw large (
      rw (value_from-append 0 (48 + n % 10) (digits fuel (n / 10)))
        (ground (arith, digits-value fuel (n / 10))))
]

-- Reading the digits back gives the number.
pub decimal_value : (n : ℕ) → value_from 0 (decimal n) ≡ n
unfolding decimal
decimal_value n = digits-value (suc n) n (omega arith)

pub decimal_injective : (m n : ℕ) → decimal m ≡ decimal n → m ≡ n
decimal_injective m n e = sym (decimal_value m) ∙ ap (value_from 0) e ∙ decimal_value n

abbrev pub IsDigit : ℕ → Type 0
IsDigit c = (48 ≤ c) × (c ≤ 57)

digits-IsDigit : (fuel n : ℕ) → All IsDigit (digits fuel n)
unfolding digits
digits-IsDigit zero n = tt
digits-IsDigit (suc fuel) n = elim (Bool-cases (ltb n 10)) [
  | inl small ↦ rw small (ground arith)
  | inr large ↦
      rw large
        (All-append IsDigit (digits fuel (n / 10)) _ (digits-IsDigit fuel (n / 10)) (omega arith))
]

pub decimal-IsDigit : (n : ℕ) → All IsDigit (decimal n)
unfolding decimal
decimal-IsDigit n = digits-IsDigit (suc n) n

-- A byte that is no digit does not stand in a decimal.
count-digits : (b : ℕ) (s : Text) → ¬ IsDigit b → All IsDigit s → count b s ≡ 0
unfolding count
count-digits b [] h d = refl
count-digits b (c ∷ s) h d = ground (arith, count-digits b s h d.1)

pub count-decimal : (b n : ℕ) → ¬ IsDigit b → count b (decimal n) ≡ 0
count-decimal b n h = count-digits b (decimal n) h (decimal-IsDigit n)
