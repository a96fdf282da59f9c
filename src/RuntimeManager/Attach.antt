-- ===== src/RuntimeManager/Attach.antt =====
-- `tryAttach` of src/SdkBridge.cpp, and the instance that `attach` returns after its RuntimeManager is gone.
use plcsim_connector.Common.{
  ℕ, ◌≡◌, ◌≢◌, refl, ap, ◌∙◌, false, Option, none, some, List, ◌++◌, Bytes, codes, arith,
  Bool-cases, Option-cases, inl, inr,
}
use plcsim_connector.Common.Int.{==ℤ_refl}
use mathlib.Core.Path.{subst}
use plcsim_connector.ApiHandle
use plcsim_connector.ApiHandle.{World, ApiHandle, manager_of}
use plcsim_connector.ApiHandle.Refcount.{Holds, release-Holds, manager_of-owner}
use plcsim_connector.Error.{Error, Outcome, returned, thrown, undefined, retryable}
use plcsim_connector.Instance.{Impl}
use plcsim_connector.Sdk.{Sdk}
use plcsim_connector.Text.{to_wide}
use plcsim_connector.Types.{InstanceInfo}
use plcsim_connector.RuntimeManager.{
  destruct, manager, not_null, registered_instances, not_found, not_found_error, attach, caught,
  try_attach,
}
use plcsim_connector.RuntimeManager.Ends.{Ends, ended, failed, has_manager}
use plcsim_connector.RuntimeManager.Queries.{Owning}
use plcsim_connector.RuntimeManager.Ownership.{Attached, attach-Ends}

-- How `tryAttach` ends for a manager that owns one of `n` shares.
pub data TryEnds {S : Type 0} (n : ℕ) : Outcome (Option Impl) × World S → Type 0 where
  attached : {impl : Impl} {w : World S} → Attached n impl w → TryEnds n (returned (some impl), w)
  not_yet : {w : World S} → Holds n w → TryEnds n (returned none, w)
  refused : {e : Error} {w : World S} → retryable e ≡ false → Holds n w → TryEnds n (thrown e, w)

module _ {S : Type 0} (sdk : Sdk S) (name_max : ℕ) (n : ℕ) where
  caught_thrown :
      (e : Error) (w : World S) → Holds n w → TryEnds n (caught sdk name_max (thrown e, w))
  unfolding caught
  caught_thrown e w v = elim (Bool-cases (retryable e)) [
    | inl again ↦ rw again (not_yet v)
    | inr final ↦ rw final (refused final v)
  ]

  caught-TryEnds :
      (r : Outcome Impl × World S) → Ends n (Attached n) r → TryEnds n (caught sdk name_max r)
  unfolding caught
  caught-TryEnds (returned impl, w) (ended h) = attached h
  caught-TryEnds (thrown e, w) (failed v) = caught_thrown e w v
  caught-TryEnds (undefined, w) h = elim h [ ]

  -- `tryAttach` by a manager that owns one of the `n` shares of the API either returns an instance that
  -- has an interface, is not marked as removed, has no cached size and owns one more share, or returns
  -- nothing or throws with the `n` shares as they were. An error that it throws is not retryable.
  pub try_attach-TryEnds :
      (text : Bytes) (api : ApiHandle) (w : World S)
      → Owning n api w
      → n ≢ 0
      → TryEnds n (try_attach sdk name_max text (some api) w)
  unfolding try_attach
  try_attach-TryEnds text api w own more =
      caught-TryEnds (attach sdk name_max text (some api) w)
        (attach-Ends sdk name_max n text api w own more)

  returned_ends :
      {A : Type 0} (P : A → World S → Type 0) (a : A) (w : World S)
      → Ends n P (returned a, w)
      → P a w
  returned_ends P a w (ended h) = h

  -- An instance that was attached by a RuntimeManager with one of the `n` shares of the API
  -- outlives it: when the RuntimeManager is destroyed, the instance still finds a manager, and `n`
  -- shares are counted.
  pub attached_outlives :
      (text : Bytes) (api : ApiHandle) (w w' : World S) (impl : Impl)
      → Owning n api w
      → n ≢ 0
      → attach sdk name_max text (some api) w ≡ (returned impl, w')
      → let left = destruct sdk name_max (some api) w' in
        ((m : ℕ) × (manager_of impl.api left ≡ some m)) × Holds n left
  unfolding destruct
  attached_outlives text api w w' impl (owns, v) more done =
      let (there, (owner, v')) =
        returned_ends (Attached n) impl w' (
          subst (Ends n (Attached n)) done
            (attach-Ends sdk name_max n text api w (owns, v) more)) in
      let left =
        release-Holds sdk n api w' (record { counted = ground arith; shared = ground arith }) in
      let found = has_manager n _ left more in
      (
        elim (Option-cases (ApiHandle.release sdk api w').1.manager) [
          | inl gone ↦ absurd (ground (arith, gone))
          | inr (m, e) ↦ (m, manager_of-owner impl.api _ owner ∙ e)
        ],
        left,
      )

module _ {S : Type 0} (sdk : Sdk S) (name_max : ℕ) where
  -- A name that the SDK does not know makes `attach` throw InstanceNotFound with the list of the
  -- registered instances, where the API is loaded and that list can be read, and makes `tryAttach`
  -- return nothing: it does not throw for a name that is spelled wrong.
  pub attach_unknown :
      (text : Bytes) (api : ApiHandle) (w w' : World S) (m : ℕ) (infos : List InstanceInfo)
      → manager_of api w ≡ some m
      → (sdk.create_interface_by_name m (to_wide sdk text) w.external).0.0
        ≡ sdk.codes.does_not_exist
      → registered_instances sdk name_max
          (some api)
          (record w { external = (sdk.create_interface_by_name m (to_wide sdk text) w.external).1 })
        ≡ (returned infos, w')
      → (attach sdk name_max text (some api) w ≡ (
        thrown (
            not_found_error sdk name_max
              (codes "no simulated PLC instance named \"" ++ (text ++ codes "\" is registered; "))
              infos),
        w',
      ))
        × (try_attach sdk name_max text (some api) w ≡ (returned none, w'))
  unfolding attach try_attach caught manager not_null not_found not_found_error retryable
  attach_unknown text api w w' m infos found missing listed =
      let known : attach sdk name_max text (some api) w ≡ _ =
        rw (found, missing, ==ℤ_refl sdk.codes.does_not_exist, listed) refl in
      (known, ap (caught sdk name_max) known)
