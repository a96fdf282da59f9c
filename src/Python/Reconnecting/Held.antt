-- ===== src/Python/Reconnecting/Held.antt =====
-- What a ReconnectingInstance of bindings/python/plcsim_connector/__init__.py holds of the API, and how its
-- functions end.
use plcsim_connector.Common.{ℕ, ◌+◌, ◌≡◌, ◌≢◌, Option, none, some}
use plcsim_connector.ApiHandle.Refcount.{Holds}
use plcsim_connector.Instance.{Impl, Held}
use plcsim_connector.Instance.Evolution.{KeepsCount}
use plcsim_connector.Instance.Lifetime.{of_held}
use plcsim_connector.Instance.Methods.{Client}
use plcsim_connector.Python.{Exception, Result, done, raised, crashed, Py, and_then}
use plcsim_connector.Python.Reconnecting.{Session}
use plcsim_connector.System.Owners.{manager_share, instance_share, OwnsIfThere}

-- The globals count `n` other owners and what the session holds, and its RuntimeManager owns the API.
pub record IsHeld {S : Type 0} (n : ℕ) (s : Session S) : Type 0 where
  pub counted : Holds (n + (instance_share s.instance + manager_share s.runtime)) s.world
  pub owned : OwnsIfThere s.runtime

-- A function returns with a condition on its result or raises, and the session is as it should be. The
-- native code does not crash.
pub data SessionEnds {S A : Type 0} (n : ℕ) (P : A → Session S → Type 0)
    : Result A × Session S → Type 0 where
  returns : {a : A} {s : Session S} → P a s → IsHeld n s → SessionEnds n P (done a, s)
  raises : {e : Exception} {s : Session S} → IsHeld n s → SessionEnds n P (raised e, s)

abbrev pub HasInstance : {S : Type 0} → Session S → Type 0
HasInstance s = (impl : Impl) × (s.instance ≡ some impl)

-- The hook returns or raises, and leaves its instance in place with the count right.
pub record IsHook {S : Type 0} (hook : Py (Client S) (Unit {0})) : Type 0 where
  pub after : Held S → Held S
  pub same : (h : Held S) → (hook (of_held h)).1 ≡ of_held (after h)
  pub keeps : (h : Held S) → KeepsCount h (after h)
  pub safe : (h : Held S) → (hook (of_held h)).0 ≢ crashed

abbrev pub IsHookIfThere : {S : Type 0} → Option (Py (Client S) (Unit {0})) → Type 0
IsHookIfThere none = Unit {0}
IsHookIfThere (some hook) = IsHook hook

module _ {S : Type 0} (n : ℕ) where
  pub SessionEnds-and_then :
      {A B : Type 0} (P : A → Session S → Type 0) (Q : B → Session S → Type 0)
      (r : Result A × Session S) (f : A → Py (Session S) B)
      → SessionEnds n P r
      → ((a : A) (s : Session S) → P a s → IsHeld n s → SessionEnds n Q (f a s))
      → SessionEnds n Q (and_then r f)
  SessionEnds-and_then P Q (done a, s) f (returns p v) g = g a s p v
  SessionEnds-and_then P Q (raised e, s) f (raises v) g = raises v
  SessionEnds-and_then P Q (crashed, s) f h g = elim h [ ]
