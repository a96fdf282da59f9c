-- ===== src/Instance/Evolution.antt =====
-- What a method of `Instance::Impl` in src/SdkBridge.cpp can change, however it ends.
use mathlib.Core.Path.{subst}
use plcsim_connector.Common.{
  ℕ, ◌+◌, sym, ◌≡◌, ◌≢◌, ◌∙◌, refl, Bool, true, false, some, if◌then◌else◌,
}
use plcsim_connector.ApiHandle.Refcount.{share, Holds}
use plcsim_connector.Error.{Error, Outcome, returned, thrown, undefined}
use plcsim_connector.Prog.{Prog, pure, throw, continue, ◌>>=◌}
use plcsim_connector.Types.{Area}
use plcsim_connector.Instance.{size_at, Impl, Held, call}

-- No area is cached with the size 0, which is the SDK's failure signal.
abbrev pub HasSizes : Impl → Type 0
HasSizes i = (area : Area) → size_at i.area_sizes area ≢ some 0

-- The object after a method, against the object before it: who it is and what it holds stay, a dropped
-- interface stays dropped, and a cached size is never changed and never becomes 0.
pub record Evolves {S : Type 0} (h k : Held S) : Type 0 where
  pub same_api : k.impl.api ≡ h.impl.api
  pub same_raw : k.impl.raw ≡ h.impl.raw
  pub same_id : k.impl.id ≡ h.impl.id
  pub same_name : k.impl.name ≡ h.impl.name
  pub same_refcount : k.world.refcount ≡ h.world.refcount
  pub same_manager : k.world.manager ≡ h.world.manager
  pub sticky : h.impl.interface_removed ≡ true → k.impl.interface_removed ≡ true
  pub cached :
      (area : Area) (n : ℕ)
      → size_at h.impl.area_sizes area ≡ some n
      → size_at k.impl.area_sizes area ≡ some n
  pub sizes : HasSizes h.impl → HasSizes k.impl

module _ {S : Type 0} where
  pub Evolves-refl : (h : Held S) → Evolves h h
  Evolves-refl h = record {
    same_api = refl;
    same_raw = refl;
    same_id = refl;
    same_name = refl;
    same_refcount = refl;
    same_manager = refl;
    sticky = λ e. e;
    cached = λ area n e. e;
    sizes = λ z. z;
  }

  pub Evolves-trans : (h k l : Held S) → Evolves h k → Evolves k l → Evolves h l
  Evolves-trans h k l p q = record {
    same_api = q.same_api ∙ p.same_api;
    same_raw = q.same_raw ∙ p.same_raw;
    same_id = q.same_id ∙ p.same_id;
    same_name = q.same_name ∙ p.same_name;
    same_refcount = q.same_refcount ∙ p.same_refcount;
    same_manager = q.same_manager ∙ p.same_manager;
    sticky = λ e. q.sticky (p.sticky e);
    cached = λ area n e. q.cached area n (p.cached area n e);
    sizes = λ z. q.sizes (p.sizes z);
  }

  pub Evolves-Holds : (n : ℕ) (h k : Held S) → Evolves h k → Holds n h.world → Holds n k.world
  Evolves-Holds n h k e v = record {
    counted = e.same_refcount ∙ v.counted;
    shared = rw e.same_manager v.shared;
  }

  -- The program changes the object in no other way, and it never runs into undefined behaviour.
  abbrev pub Tame : {A : Type 0} → Prog (Held S) A → Type 0
  Tame m = (h : Held S) → Evolves h (m h).1 × ((m h).0 ≢ undefined)

  Tame-continue :
      {A B : Type 0} (h : Held S) (r : Outcome A × Held S) (f : A → Prog (Held S) B)
      → Evolves h r.1 × (r.0 ≢ undefined)
      → ((a : A) → Tame (f a))
      → Evolves h (continue r f).1 × ((continue r f).0 ≢ undefined)
  Tame-continue h (returned a, k) f (e, d) t = (Evolves-trans h k (f a k).1 e (t a k).0, (t a k).1)
  Tame-continue h (thrown x, k) f (e, d) t = (e, λ x. cc)
  Tame-continue h (undefined, k) f (e, d) t = (e, λ x. d refl)

  pub Tame-bind :
      {A B : Type 0} (m : Prog (Held S) A) (f : A → Prog (Held S) B)
      → Tame m
      → ((a : A) → Tame (f a))
      → Tame (m >>= f)
  Tame-bind m f t u h = Tame-continue h (m h) f (t h) u

  pub pure-Tame : {A : Type 0} (a : A) → Tame (pure a)
  pure-Tame a h = (Evolves-refl h, λ x. cc)

  pub throw-Tame : {A : Type 0} (e : Error) → Tame (throw {St = Held S} {A = A} e)
  throw-Tame e h = (Evolves-refl h, λ x. cc)

  pub Tame-if :
      {A : Type 0} (b : Bool) (m n : Prog (Held S) A) → Tame m → Tame n → Tame (if b then m else n)
  Tame-if true m n t u = t
  Tame-if false m n t u = u

  pub call-Tame : {A : Type 0} (f : S → A × S) → Tame (call f)
  call-Tame f h = (
    record {
      same_api = refl;
      same_raw = refl;
      same_id = refl;
      same_name = refl;
      same_refcount = refl;
      same_manager = refl;
      sticky = λ e. e;
      cached = λ area n e. e;
      sizes = λ z. z;
    },
    λ x. cc,
  )

-- However many others own the API, the handle has kept the count right.
abbrev pub KeepsCount : {S : Type 0} → Held S → Held S → Type 0
KeepsCount h k =
    (m : ℕ) → Holds (m + share h.impl.api) h.world → Holds (m + share k.impl.api) k.world

pub Evolves-KeepsCount : {S : Type 0} (h k : Held S) → Evolves h k → KeepsCount h k
Evolves-KeepsCount h k e m v =
    subst (λ api. Holds (m + share api) k.world) (sym e.same_api)
      (Evolves-Holds (m + share h.impl.api) h k e v)
