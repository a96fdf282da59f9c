-- ===== src/RuntimeManager/Unreachable.antt =====
-- The constructor of RuntimeManager (src/SdkBridge.cpp) while no Runtime Manager runs.
use plcsim_connector.Common.{
  ℕ, suc, ◌≡◌, refl, Bool, true, false, Option, none, some, Bytes, arith, inl, inr,
}
use plcsim_connector.ApiHandle.{World, ApiHandle, is_null}
use plcsim_connector.ApiHandle.Refcount.{Holds, acquire_cases, assign-unowned, manager_of-owner}
use plcsim_connector.Error.{Error, thrown}
use plcsim_connector.RuntimeManager.{construct, require_available, keep_available}
use plcsim_connector.RuntimeManager.Ends.{Ends, failed, has_manager}
use plcsim_connector.RuntimeManager.Ownership.{construct-Ends}
use plcsim_connector.RuntimeManager.Queries.{Owning}
use plcsim_connector.Sdk.{Sdk}
use mathlib.Core.Path.{subst}

-- The SDK answers in every state that no Runtime Manager is available.
abbrev pub HasNoManager : {S : Type 0} → Sdk S → Type 0
HasNoManager {S} sdk = (m : ℕ) (s : S) → (sdk.is_runtime_manager_available m s).0 ≡ false

module _ {S : Type 0} (sdk : Sdk S) (down : HasNoManager sdk) where
  not_kept :
      (name_max : ℕ) (api : ApiHandle) (r : Bool × World S)
      → r.0 ≡ false
      → (e : Error) × (w' : World S) × (keep_available sdk name_max api r ≡ (thrown e, w'))
  unfolding keep_available
  not_kept name_max api (true, w) no_ = absurd (ground arith)
  not_kept name_max api (false, w) no_ = (_, _, refl)

  keeps_none :
      (name_max : ℕ) (api : ApiHandle) (raw : Option ℕ) (w : World S)
      → is_null raw ≡ false
      → (e : Error) × (w' : World S) × (require_available sdk name_max api raw w ≡ (thrown e, w'))
  unfolding require_available
  keeps_none name_max api none w there = absurd (ground arith)
  keeps_none name_max api (some m) w there = not_kept name_max api _ (down m w.external)

  throws :
      (name_max n : ℕ) (dll_dir : Option Bytes) (w : World S)
      → Holds n w
      → (e : Error) × (w' : World S) × (construct sdk name_max dll_dir w ≡ (thrown e, w'))
  unfolding construct
  throws name_max n dll_dir w v = elim (acquire_cases sdk n dll_dir w v) [
    | inl (w1, e, v1) ↦
        rw
          (
            e,
            assign-unowned sdk (record { owns = true }) w1,
            manager_of-owner (record { owns = true }) w1 refl,
          )
          (keeps_none name_max (record { owns = true }) w1.manager w1
            (has_manager (suc n) w1 v1 (omega arith)))
    | inr (x, w1, e, v1, _) ↦ rw e (x, w1, refl)
  ]

  still_held : {n : ℕ} {e : Error} {w : World S} → Ends n (Owning (suc n)) (thrown e, w) → Holds n w
  still_held (failed v) = v

  -- The constructor of RuntimeManager throws, also where the API is loaded.
  pub construct_throws :
      (name_max n : ℕ) (dll_dir : Option Bytes) (w : World S)
      → Holds n w
      → (e : Error) × (w' : World S) × (construct sdk name_max dll_dir w ≡ (thrown e, w'))
        × Holds n w'
  construct_throws name_max n dll_dir w v =
      let (e, w', fails) = throws name_max n dll_dir w v in
      (
        e,
        w',
        fails,
        still_held
            (subst (Ends n (Owning (suc n))) fails (construct-Ends sdk name_max n dll_dir w v)),
      )
