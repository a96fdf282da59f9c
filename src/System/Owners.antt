-- ===== src/System/Owners.antt =====
-- The objects of a process that own the API of src/SdkBridge.cpp, and how many there are.
use plcsim_connector.Common.{
  ℕ, zero, suc, ◌<◌, ◌≢◌, refl, ◌∙◌, length, ◌+◌, ◌≤◌, ◌≡◌, true, Option, none, some, List, [], ◌∷◌,
  arith, All,
}
use mathlib.Core.Path.{subst}
use plcsim_connector.Common.Totals.{total}
use plcsim_connector.ApiHandle.{World, ApiHandle}
use plcsim_connector.RuntimeManager.Queries.{Owning}
use plcsim_connector.Common.{set}
use plcsim_connector.ApiHandle.Refcount.{share, Holds}
use plcsim_connector.Instance.{Impl}
use plcsim_connector.System.{System, at_place}

module _ {A : Type 0} where
  pub at_place-lt : (xs : List (Option A)) (i : ℕ) (x : A) → at_place xs i ≡ some x → i < length xs
  at_place-lt [] i x e = absurd (ground arith)
  at_place-lt (z ∷ xs) zero x e = omega arith
  at_place-lt (z ∷ xs) (suc i) x e = omega (arith, at_place-lt xs i x e)

  pub at_place-set_ne :
      (xs : List (Option A)) (i j : ℕ) (y : Option A)
      → i ≢ j
      → at_place (set xs i y) j ≡ at_place xs j
  at_place-set_ne [] i j y ne = refl
  at_place-set_ne (z ∷ xs) zero zero y ne = absurd (ne refl)
  at_place-set_ne (z ∷ xs) zero (suc j) y ne = refl
  at_place-set_ne (z ∷ xs) (suc i) zero y ne = refl
  at_place-set_ne (z ∷ xs) (suc i) (suc j) y ne = at_place-set_ne xs i j y (λ e. ne (ground arith))

module _ {A : Type 0} (f : Option A → ℕ) where
  -- A replacement past the end of the list is none.
  pub total-set_in :
      (xs : List (Option A)) (i : ℕ) (y : Option A)
      → i < length xs
      → total f (set xs i y) + f (at_place xs i) ≡ total f xs + f y
  total-set_in [] i y lt = absurd (omega arith)
  total-set_in (z ∷ xs) zero y lt = omega arith
  total-set_in (z ∷ xs) (suc i) y lt = omega (arith, total-set_in xs i y (omega arith))

  pub total-set :
      (xs : List (Option A)) (i : ℕ) (x : A) (y : Option A)
      → at_place xs i ≡ some x
      → total f (set xs i y) + f (some x) ≡ total f xs + f y
  total-set xs i x y e =
      subst (λ o. total f (set xs i y) + f o ≡ total f xs + f y) e
        (total-set_in xs i y (at_place-lt xs i x e))

  pub le-total :
      (xs : List (Option A)) (i : ℕ) (x : A) → at_place xs i ≡ some x → f (some x) ≤ total f xs
  le-total [] i x e = absurd (ground arith)
  le-total (z ∷ xs) zero x e = rw e (omega arith)
  le-total (z ∷ xs) (suc i) x e = omega (arith, le-total xs i x e)

-- What is left of `total` behind a move from the place `j` to the place `i`, whose object is destroyed.
pub total-moved :
    {A : Type 0} (f : Option A → ℕ) (xs : List (Option A)) (i j : ℕ) (x : A)
    → at_place xs j ≡ some x
    → i < length xs
    → i ≢ j
    → f none ≡ 0
    → total f (set (set xs i (some x)) j none) + f (at_place xs i) ≡ total f xs
total-moved f xs i j x e lt ne zero_share = omega (
  arith,
  zero_share,
  total-set_in f xs i (some x) lt,
  total-set f (set xs i (some x)) j x none (at_place-set_ne xs i j (some x) ne ∙ e),
)

abbrev pub manager_share : Option ApiHandle → ℕ
manager_share none = 0
manager_share (some api) = share api

abbrev pub instance_share : Option Impl → ℕ
instance_share none = 0
instance_share (some impl) = share impl.api

-- How many objects own the API.
abbrev pub owners_of : {S : Type 0} → System S → ℕ
owners_of y = total manager_share y.managers + total instance_share y.instances

abbrev pub OwnsIfThere : Option ApiHandle → Type 0
OwnsIfThere none = Unit {0}
OwnsIfThere (some api) = api.owns ≡ true

-- The count is the number of owners, there is a manager exactly if there is an owner, and every
-- RuntimeManager owns the API.
pub record IsSound {S : Type 0} (y : System S) : Type 0 where
  pub counted : Holds (owners_of y) y.world
  pub managed : All OwnsIfThere y.managers

pub owns-at :
    (ms : List (Option ApiHandle)) (i : ℕ) (api : ApiHandle)
    → All OwnsIfThere ms
    → at_place ms i ≡ some api
    → api.owns ≡ true
owns-at [] i api all e = absurd (ground arith)
owns-at (m ∷ ms) zero api all e = subst OwnsIfThere e all.0
owns-at (m ∷ ms) (suc i) api all e = owns-at ms i api all.1 e

pub All-set :
    (ms : List (Option ApiHandle)) (i : ℕ) (m : Option ApiHandle)
    → All OwnsIfThere ms
    → OwnsIfThere m
    → All OwnsIfThere (set ms i m)
All-set [] i m all owns = all
All-set (x ∷ ms) zero m all owns = (owns, all.1)
All-set (x ∷ ms) (suc i) m all owns = (all.0, All-set ms i m all.1 owns)

module _ {S : Type 0} where
  pub recounted : {n m : ℕ} (w : World S) → n ≡ m → Holds n w → Holds m w
  recounted w e v = subst (λ k. Holds k w) e v

  pub some_owner :
      (y : System S) (i : ℕ) (api : ApiHandle)
      → IsSound y
      → at_place y.managers i ≡ some api
      → Owning (owners_of y) api y.world × (owners_of y ≢ 0)
  some_owner y i api v e =
      let owns = owns-at y.managers i api v.managed e in
      ((owns, v.counted), λ zero. ground (arith, le-total manager_share y.managers i api e, zero))
