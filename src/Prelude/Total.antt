-- ===== src/Prelude/Total.antt =====
-- What the entries of a list have of a quantity together.
use Prim.Native.Nat.{ℕ, zero, suc, ◌+◌, ◌≤◌, ◌<◌}
use mathlib.Core.Path.{◌≡◌, refl, ap}
use mathlib.Core.Option.{some}
use mathlib.Core.List.{List, [], ◌∷◌}
use native.Mathlib.Omega.{arith}
use yan.Prelude.Lists.{get_elem?, set, All}

module _ {ℓ} {A : Type ℓ} (f : A → ℕ) where
  unfoldable pub total : List A → ℕ
  total [] = 0
  total (t ∷ ts) = f t + total ts

  pub total-set :
      (ts : List A) (i : ℕ) (t u : A)
      → get_elem? ts i ≡ some u
      → total (set ts i t) + f u ≡ total ts + f t
  unfolding total
  total-set [] i t u e = absurd (cc)
  total-set (v ∷ ts) zero t u e = let same : v ≡ u = cc in omega (arith, ap f same)
  total-set (v ∷ ts) (suc i) t u e = omega (arith, total-set ts i t u e)

  pub total-ge : (ts : List A) (i : ℕ) (u : A) → get_elem? ts i ≡ some u → f u ≤ total ts
  unfolding total
  total-ge [] i u e = absurd (cc)
  total-ge (v ∷ ts) zero u e = let same : v ≡ u = cc in omega (arith, ap f same)
  total-ge (v ∷ ts) (suc i) u e = omega (arith, total-ge ts i u e)

  pub total-zero : (ts : List A) → All (λ t. f t ≡ 0) ts → total ts ≡ 0
  unfolding total
  total-zero [] h = refl
  total-zero (t ∷ ts) (e, h) = omega (arith, e, total-zero ts h)

  pub total-some :
      (ts : List A) → 0 < total ts → (i : ℕ) × (t : A) × (get_elem? ts i ≡ some t) × (0 < f t)
  unfolding total
  total-some [] h = absurd (omega (arith, h))
  total-some (t ∷ ts) h = at (f t) refl (λ pos. total-some ts pos)
    where
      at :
          (n : ℕ)
          → f t ≡ n
          → (0 < total ts → (i : ℕ) × (u : A) × (get_elem? ts i ≡ some u) × (0 < f u))
          → (i : ℕ) × (u : A) × (get_elem? (t ∷ ts) i ≡ some u) × (0 < f u)
      at (suc n) e later = (0, t, refl, omega (arith, e))
      at zero e later = let (i, u, same, pos) = later (omega (arith, h, e)) in (suc i, u, same, pos)
