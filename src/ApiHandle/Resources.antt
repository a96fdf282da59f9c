-- ===== src/ApiHandle/Resources.antt =====
-- What `ApiHandle::acquire` of src/SdkBridge.cpp and its diagnostics take from Windows and give back.
use plcsim_connector.Common.{ℕ, ◌≡◌, refl, ap, ◌∙◌, Option, Bytes, Bool-cases, inl, inr, not, ◌||◌}
use plcsim_connector.Common.Int.{ℤ, pos, ◌==ℤ◌}
use plcsim_connector.ApiHandle.{
  World, is_null, wide_path, initialization_failed, initialize, acquire, add_ref,
}
use plcsim_connector.Bridge.{succeeded, throw_error}
use plcsim_connector.Diagnostics.Balance.{
  IsLedger, error_message-balanced, probe-balanced, elevated-balanced,
}
use plcsim_connector.Error.{Outcome, returned, thrown, undefined}
use plcsim_connector.Prog.{continue}
use plcsim_connector.Sdk.{Sdk}

module _ {S : Type 0} (sdk : Sdk S) (in_use : S → ℕ) where
  failed-balanced :
      (dll_dir : Option Bytes) (result : ℤ) (w : World S)
      → IsLedger sdk in_use
      → in_use (initialization_failed sdk dll_dir result w).1.external ≡ in_use w.external
  unfolding initialization_failed throw_error
  failed-balanced dll_dir result w l =
      elevated-balanced sdk in_use _ l
      ∙ (probe-balanced sdk in_use dll_dir _ l ∙ error_message-balanced sdk in_use _ _ l)

  initialize-balanced :
      (dll_dir : Option Bytes) (w : World S)
      → IsLedger sdk in_use
      → in_use (initialize sdk dll_dir w).1.external ≡ in_use w.external
  unfolding initialize
  initialize-balanced dll_dir w l =
      let r = sdk.initialize_api (wide_path sdk dll_dir) (sdk.set_last_error 0 w.external) in
      let start =
        l.initializing (wide_path sdk dll_dir) (sdk.set_last_error 0 w.external)
        ∙ l.resetting 0 w.external in
      elim (Bool-cases (not (succeeded r.0.0) || is_null r.0.1)) [
        | inl bad ↦ rw bad (failed-balanced dll_dir r.0.0 (record w { external = r.1 }) l ∙ start)
        | inr good ↦ rw good start
      ]

  counted-external :
      (r : Outcome (Unit {0}) × World S) → (continue r (λ _. add_ref)).1.external ≡ r.1.external
  unfolding add_ref
  counted-external (returned u, w) = refl
  counted-external (thrown e, w) = refl
  counted-external (undefined, w) = refl

  -- However an acquisition ends, it has given back every message buffer, library handle and process token
  -- that it took from Windows on the way, its diagnostics included.
  pub acquire-balanced :
      (dll_dir : Option Bytes) (w : World S)
      → IsLedger sdk in_use
      → in_use (acquire sdk dll_dir w).1.external ≡ in_use w.external
  unfolding acquire add_ref
  acquire-balanced dll_dir w l = elim (Bool-cases (w.refcount ==ℤ pos 0)) [
    | inl first ↦
        rw first (
          ap in_use (counted-external (initialize sdk dll_dir w)) ∙ initialize-balanced dll_dir w l)
    | inr held ↦ rw held refl
  ]
