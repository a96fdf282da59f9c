-- ===== src/RuntimeManager/Ends.antt =====
-- How a program on the shared state of src/SdkBridge.cpp ends: it returns with a condition on the result,
-- or it throws and the globals still count the same owners. It has no undefined behaviour.
use plcsim_connector.Common.{ℕ, ◌≡◌, ◌≢◌, refl, true, false, String, arith, Bool-cases, inl, inr}
use plcsim_connector.Common.Int.{ℤ}
use plcsim_connector.ApiHandle.{World, is_null}
use plcsim_connector.ApiHandle.Refcount.{Holds}
use plcsim_connector.Bridge.{check, throw_error, succeeded}
use plcsim_connector.Error.{Error, Outcome, returned, thrown, undefined}
use plcsim_connector.Prog.{Prog, continue}
use plcsim_connector.Sdk.{Sdk}

pub data Ends {S A : Type 0} (n : ℕ) (P : A → World S → Type 0) : Outcome A × World S → Type 0 where
  ended : {a : A} {w : World S} → P a w → Ends n P (returned a, w)
  failed : {e : Error} {w : World S} → Holds n w → Ends n P (thrown e, w)

-- The globals are as they were; the result says nothing.
abbrev pub Counts : {S A : Type 0} → ℕ → A → World S → Type 0
Counts n a w = Holds n w

module _ {S : Type 0} (n : ℕ) where
  pub Ends-bind :
      {A B : Type 0} (P : A → World S → Type 0) (Q : B → World S → Type 0) (r : Outcome A × World S)
      (f : A → Prog (World S) B)
      → Ends n P r
      → ((a : A) (w : World S) → P a w → Ends n Q (f a w))
      → Ends n Q (continue r f)
  Ends-bind P Q (returned a, w) f (ended h) g = g a w h
  Ends-bind P Q (thrown e, w) f (failed h) g = failed h
  Ends-bind P Q (undefined, w) f h g = elim h [ ]

  pub Ends-Holds :
      {A : Type 0} (r : Outcome A × World S) → Ends n (Counts {A = A} n) r → Holds n r.1
  Ends-Holds (returned a, w) (ended v) = v
  Ends-Holds (thrown e, w) (failed v) = v
  Ends-Holds (undefined, w) h = elim h [ ]

  pub asked : (w : World S) (s : S) → Holds n w → Holds n (record w { external = s })
  asked w s v = record { counted = v.counted; shared = v.shared }

  pub has_manager : (w : World S) → Holds n w → n ≢ 0 → is_null w.manager ≡ false
  has_manager w v more = ground (arith, v.shared)

  pub check-Ends :
      (sdk : Sdk S) (code : ℤ) (context : String) (w : World S)
      → Holds n w
      → Ends n (λ a v. Holds n v × (succeeded code ≡ true)) (check sdk code context w)
  unfolding check throw_error
  check-Ends sdk code context w v = elim (Bool-cases (succeeded code)) [
    | inl ok ↦ rw ok (ended (v, refl))
    | inr bad ↦ rw bad (failed v)
  ]
