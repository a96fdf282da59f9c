-- ===== src/RuntimeManager/Queries.antt =====
-- `RuntimeManager::Impl::manager`, the listing and the error for an instance that is not there, in
-- src/SdkBridge.cpp: none of them changes who owns the API.
use plcsim_connector.Common.{
  ℕ, zero, suc, ◌≡◌, ◌≢◌, true, false, Option, none, some, String, Bytes, arith, Bool-cases, inl,
  inr,
}
use plcsim_connector.Common.Int.{◌==ℤ◌}
use plcsim_connector.ApiHandle.{World, ApiHandle, is_null, manager_of}
use plcsim_connector.ApiHandle.Refcount.{Holds, manager_of-owner}
use plcsim_connector.Bridge.{check, succeeded}
use plcsim_connector.Instance.{Impl}
use plcsim_connector.Sdk.{Sdk}
use plcsim_connector.RuntimeManager.{
  manager, not_null, collect, version, registered_instances, not_found, ask_available,
  is_runtime_manager_available,
}
use plcsim_connector.RuntimeManager.Ends.{
  Ends, ended, failed, Counts, Ends-bind, asked, has_manager, check-Ends,
}

-- A handle that owns one of `k` shares.
abbrev pub Owning : {S : Type 0} → ℕ → ApiHandle → World S → Type 0
Owning k h w = (h.owns ≡ true) × Holds k w

module _ {S : Type 0} (sdk : Sdk S) (name_max : ℕ) (n : ℕ) where
  not_null-Ends :
      (raw : Option ℕ) (operation : String) (w : World S)
      → Holds n w
      → is_null raw ≡ false
      → Ends n (Counts n) (not_null sdk name_max raw operation w)
  unfolding not_null
  not_null-Ends none operation w v there = absurd (ground arith)
  not_null-Ends (some m) operation w v there = ended v

  pub manager-Ends :
      (api : ApiHandle) (operation : String) (w : World S)
      → Owning n api w
      → n ≢ 0
      → Ends n (Counts n) (manager sdk name_max (some api) operation w)
  unfolding manager
  manager-Ends api operation w (owns, v) more =
      rw (manager_of-owner api w owns)
        (not_null-Ends w.manager operation w v (has_manager n w v more))

  collect-Ends :
      (m rounds index : ℕ) (w : World S)
      → Holds n w
      → Ends n (Counts n) (collect sdk name_max m rounds index w)
  unfolding collect
  collect-Ends m zero index w v = ended v
  collect-Ends m (suc rounds) index w v =
      let r = sdk.get_registered_instance_info_at m index w.external in
      let w1 = record w { external = r.1 } in
      elim (Bool-cases (r.0.0 ==ℤ sdk.codes.index_out_of_range)) [
        | inl stale ↦ rw stale (ended (asked n w r.1 v))
        | inr known ↦ rw known (
            Ends-bind n (λ a u. Holds n u × (succeeded r.0.0 ≡ true)) (Counts n)
              (check sdk r.0.0 "GetRegisteredInstanceInfoAt" w1) _
              (check-Ends n sdk r.0.0 "GetRegisteredInstanceInfoAt" w1 (asked n w r.1 v))
              (λ a w2 ok.
                Ends-bind n (Counts n) (Counts n) (collect sdk name_max m rounds (suc index) w2) _
                  (collect-Ends m rounds (suc index) w2 ok.0) (λ rest w3 done. ended done)))
      ]

  pub listing-Ends :
      (api : ApiHandle) (w : World S)
      → Owning n api w
      → n ≢ 0
      → Ends n (Counts n) (registered_instances sdk name_max (some api) w)
  unfolding registered_instances
  listing-Ends api w own more =
      Ends-bind n (Counts n) (Counts n) (manager sdk name_max (some api) _ w) _
        (manager-Ends api _ w own more) (λ m w1 v. collect-Ends m _ 0 _ (asked n w1 _ v))

  pub version-Ends :
      (api : ApiHandle) (w : World S)
      → Owning n api w
      → n ≢ 0
      → Ends n (Counts n) (version sdk name_max (some api) w)
  unfolding version
  version-Ends api w own more =
      Ends-bind n (Counts n) (Counts n) (manager sdk name_max (some api) _ w) _
        (manager-Ends api _ w own more) (λ m w1 v. ended (asked n w1 _ v))

  asked_available :
      (m : Option ℕ) (w : World S) → Holds n w → Holds n (ask_available sdk name_max m w).1
  unfolding ask_available
  asked_available none w v = v
  asked_available (some m) w v = asked n w _ v

  pub available-Holds :
      (api : ApiHandle) (w : World S)
      → Holds n w
      → Holds n (is_runtime_manager_available sdk name_max (some api) w).1
  unfolding is_runtime_manager_available
  available-Holds api w v = asked_available (manager_of api w) w v

  pub not_found-Ends :
      (P : Impl → World S → Type 0) (api : ApiHandle) (message : Bytes) (w : World S)
      → Owning n api w
      → n ≢ 0
      → Ends n P (not_found sdk name_max (some api) message w)
  unfolding not_found
  not_found-Ends P api message w own more =
      Ends-bind n (Counts n) P (registered_instances sdk name_max (some api) w) _
        (listing-Ends api w own more) (λ infos w1 v. failed v)
