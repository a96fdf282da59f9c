-- ===== src/Common/Totals.antt =====
-- What the elements of a list add up to, and lists in which one element is replaced.
use Prim.Native.Nat.{ℕ, zero, suc, ◌+◌, ◌≤◌}
use mathlib.Core.List.{List, [], ◌∷◌}
use mathlib.Core.Logic.{◌≢◌}
use mathlib.Core.Option.{some}
use mathlib.Core.Path.{◌≡◌, refl}
use native.Mathlib.Omega.{arith}
use plcsim_connector.Common.Lists.{get_elem?, set}

module _ {ℓ} {A : Type ℓ} (f : A → ℕ) where
  abbrev pub total : List A → ℕ
  total [] = 0
  total (x ∷ xs) = f x + total xs

  pub total-set :
      (xs : List A) (i : ℕ) (x y : A)
      → get_elem? xs i ≡ some x
      → total (set xs i y) + f x ≡ total xs + f y
  total-set [] i x y e = absurd (ground arith)
  total-set (z ∷ xs) zero x y e = ground arith
  total-set (z ∷ xs) (suc i) x y e = omega (arith, total-set xs i x y e)

  pub le-total : (xs : List A) (i : ℕ) (x : A) → get_elem? xs i ≡ some x → f x ≤ total xs
  le-total [] i x e = absurd (ground arith)
  le-total (z ∷ xs) zero x e = ground arith
  le-total (z ∷ xs) (suc i) x e = omega (arith, le-total xs i x e)

  pub add-le-total :
      (xs : List A) (i j : ℕ) (x y : A)
      → get_elem? xs i ≡ some x
      → get_elem? xs j ≡ some y
      → i ≢ j
      → f x + f y ≤ total xs
  add-le-total [] i j x y e e' ne = absurd (ground arith)
  add-le-total (z ∷ xs) zero zero x y e e' ne = absurd (ne refl)
  add-le-total (z ∷ xs) zero (suc j) x y e e' ne = ground (arith, le-total xs j y e')
  add-le-total (z ∷ xs) (suc i) zero x y e e' ne = ground (arith, le-total xs i x e)
  add-le-total (z ∷ xs) (suc i) (suc j) x y e e' ne =
      omega (arith, add-le-total xs i j x y e e' (λ same. ne (ground arith)))

module _ {ℓ} {A : Type ℓ} where
  pub get_elem?-set_self :
      (xs : List A) (i : ℕ) (x y : A) → get_elem? xs i ≡ some x → get_elem? (set xs i y) i ≡ some y
  get_elem?-set_self [] i x y e = absurd (ground arith)
  get_elem?-set_self (z ∷ xs) zero x y e = refl
  get_elem?-set_self (z ∷ xs) (suc i) x y e = get_elem?-set_self xs i x y e

  pub get_elem?-set_ne :
      (xs : List A) (i j : ℕ) (y : A) → j ≢ i → get_elem? (set xs i y) j ≡ get_elem? xs j
  get_elem?-set_ne [] i j y ne = refl
  get_elem?-set_ne (z ∷ xs) zero zero y ne = absurd (ne refl)
  get_elem?-set_ne (z ∷ xs) zero (suc j) y ne = refl
  get_elem?-set_ne (z ∷ xs) (suc i) zero y ne = refl
  get_elem?-set_ne (z ∷ xs) (suc i) (suc j) y ne =
      get_elem?-set_ne xs i j y (λ e. ne (ground arith))

  pub set-set : (xs : List A) (i : ℕ) (x y : A) → set (set xs i x) i y ≡ set xs i y
  set-set [] i x y = refl
  set-set (z ∷ xs) zero x y = refl
  set-set (z ∷ xs) (suc i) x y = ground (arith, set-set xs i x y)
