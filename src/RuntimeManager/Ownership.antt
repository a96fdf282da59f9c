-- ===== src/RuntimeManager/Ownership.antt =====
-- The share of the API that a RuntimeManager and the instances it attaches hold: the constructor and both
-- overloads of `attach` of src/SdkBridge.cpp.
use plcsim_connector.Common.{
  ℕ, suc, ◌≡◌, ◌≢◌, refl, ap, Bool, true, false, ◌&&◌, ◌||◌, Option, none, some, Bytes,
  if◌then◌else◌, arith, Bool-cases, inl, inr,
}
use plcsim_connector.Common.Int.{ℤ, increment, ◌==ℤ◌}
use plcsim_connector.ApiHandle.{World, ApiHandle, is_null, manager_of}
use plcsim_connector.ApiHandle.Refcount.{
  Holds, acquire_cases, release-Holds, assign-unowned, copy-owner, manager_of-owner,
}
use plcsim_connector.Bridge.{check, succeeded}
use plcsim_connector.Instance.{Impl, no_sizes}
use plcsim_connector.Prog.{Prog, ◌>>◌}
use plcsim_connector.Sdk.{Sdk}
use plcsim_connector.RuntimeManager.{
  manager, keep_available, require_available, construct, not_found, new_impl, attach_name, attach,
  attach_number, attach_by_id,
}
use plcsim_connector.RuntimeManager.Queries.{Owning, manager-Ends, not_found-Ends}
use plcsim_connector.RuntimeManager.Ends.{
  Ends, ended, failed, Counts, Ends-bind, asked, has_manager, check-Ends,
}

-- A handle as it is made: it has an interface, which is not marked as removed, and no size is cached.
pub record IsOpen (impl : Impl) : Type 0 where
  pub has_raw : is_null impl.raw ≡ false
  pub not_removed : impl.interface_removed ≡ false
  pub unsized : impl.area_sizes ≡ no_sizes

-- The result of `attach` by a manager that owns one of `n` shares: an open handle with a share of its own.
abbrev pub Attached : {S : Type 0} → ℕ → Impl → World S → Type 0
Attached n impl w = IsOpen impl × Owning (suc n) impl.api w

-- It stays so under another id and name.
renamed :
    (impl : Impl) {id : ℤ} {name : Bytes}
    → IsOpen impl
    → IsOpen (record impl { id = id; name = name })
renamed impl o = record { has_raw = o.has_raw; not_removed = o.not_removed; unsized = o.unsized }

module _ {S : Type 0} (sdk : Sdk S) (name_max : ℕ) (n : ℕ) where
  new_impl-Ends :
      (api : ApiHandle) (raw : ℕ) (w : World S)
      → Owning n api w
      → n ≢ 0
      → Ends n (Attached n) (new_impl sdk name_max api raw w)
  unfolding new_impl increment
  new_impl-Ends api raw w (owns, v) more =
      rw
        (
          copy-owner api w owns,
          assign-unowned sdk api (record w { refcount = increment w.refcount }),
        )
        (ended (
          record { has_raw = refl; not_removed = refl; unsized = refl },
          (
            owns,
            record {
              counted = ap increment v.counted;
              shared = ground (arith, has_manager n w v more);
            },
          ),
        ))

  attach_name-Ends :
      (text : Bytes) (api : ApiHandle) (raw : Option ℕ) (w : World S)
      → Owning n api w
      → n ≢ 0
      → is_null raw ≡ false
      → Ends n (Attached n) (attach_name sdk name_max text (some api) raw w)
  unfolding attach_name
  attach_name-Ends text api none w own more there = absurd (ground arith)
  attach_name-Ends text api (some raw) w own more there =
      Ends-bind n (Attached n) (Attached n) (new_impl sdk name_max api raw w) _
        (new_impl-Ends api raw w own more)
        (λ impl w1 (open_, (owns, v)). ended (renamed impl open_, (owns, asked (suc n) w1 _ v)))

  attach_number-Ends :
      (id : ℤ) (api : ApiHandle) (raw : Option ℕ) (w : World S)
      → Owning n api w
      → n ≢ 0
      → is_null raw ≡ false
      → Ends n (Attached n) (attach_number sdk name_max id (some api) raw w)
  unfolding attach_number
  attach_number-Ends id api none w own more there = absurd (ground arith)
  attach_number-Ends id api (some raw) w own more there =
      Ends-bind n (Attached n) (Attached n) (new_impl sdk name_max api raw w) _
        (new_impl-Ends api raw w own more)
        (λ impl w1 (open_, (owns, v)). ended (renamed impl open_, (owns, asked (suc n) w1 _ v)))

  -- What both overloads do with the answer of CreateInterface.
  created-Ends :
      (api : ApiHandle) (message : Bytes) (code : ℤ) (raw : Option ℕ) (w : World S)
      (rest : Prog (World S) Impl)
      → Owning n api w
      → n ≢ 0
      → ((u : World S)
          → Owning n api u
          → n ≢ 0
          → is_null raw ≡ false
          → Ends n (Attached n) (rest u))
      → Ends n (Attached n) (
          (if code ==ℤ sdk.codes.does_not_exist || (succeeded code && is_null raw)
              then not_found sdk name_max (some api) message
              else (check sdk code "CreateInterface" >> rest))
            w)
  created-Ends api message code raw w rest (owns, v) more go =
      elim (Bool-cases (code ==ℤ sdk.codes.does_not_exist || (succeeded code && is_null raw))) [
        | inl missing ↦
            rw missing (not_found-Ends sdk name_max n (Attached n) api message w (owns, v) more)
        | inr there ↦ rw there (
            Ends-bind n (λ a u. Holds n u × (succeeded code ≡ true)) (Attached n)
              (check sdk code "CreateInterface" w) _ (check-Ends n sdk code "CreateInterface" w v)
              (λ a u (v', ok). go u (owns, v') more (ground arith)))
      ]

  -- `attach` by name, by a manager that owns one of the `n` shares of the API, either returns an instance
  -- that has an interface, is not marked as removed, has no cached size and owns one more share, or throws
  -- with the `n` shares as they were. It has no undefined behaviour.
  pub attach-Ends :
      (text : Bytes) (api : ApiHandle) (w : World S)
      → Owning n api w
      → n ≢ 0
      → Ends n (Attached n) (attach sdk name_max text (some api) w)
  unfolding attach
  attach-Ends text api w (owns, v) more =
      Ends-bind n (Counts n) (Attached n) (manager sdk name_max (some api) _ w) _
        (manager-Ends sdk name_max n api _ w (owns, v) more)
        (λ m w1 v1.
          created-Ends api _ _ _ _ (attach_name sdk name_max text (some api) _)
            (owns, asked n w1 _ v1) more (attach_name-Ends text api _))

  -- `attach` by number, by a manager that owns one of the `n` shares of the API, either returns an
  -- instance that has an interface, is not marked as removed, has no cached size and owns one more
  -- share, or throws with the `n` shares as they were. It has no undefined behaviour.
  pub attach_by_id-Ends :
      (id : ℤ) (api : ApiHandle) (w : World S)
      → Owning n api w
      → n ≢ 0
      → Ends n (Attached n) (attach_by_id sdk name_max id (some api) w)
  unfolding attach_by_id
  attach_by_id-Ends id api w (owns, v) more =
      Ends-bind n (Counts n) (Attached n) (manager sdk name_max (some api) _ w) _
        (manager-Ends sdk name_max n api _ w (owns, v) more)
        (λ m w1 v1.
          created-Ends api _ _ _ _ (attach_number sdk name_max id (some api) _)
            (owns, asked n w1 _ v1) more (attach_number-Ends id api _))

  keep-Ends :
      (api : ApiHandle) (b : Bool) (w : World S)
      → Owning (suc n) api w
      → Ends n (Owning (suc n)) (keep_available sdk name_max api (b, w))
  unfolding keep_available
  keep-Ends api true w own = ended own
  keep-Ends api false w (owns, v) =
      failed (release-Holds sdk n api w (record { counted = ground arith; shared = ground arith }))

  manager_available :
      (api : ApiHandle) (raw : Option ℕ) (w : World S)
      → Owning (suc n) api w
      → is_null raw ≡ false
      → Ends n (Owning (suc n)) (require_available sdk name_max api raw w)
  unfolding require_available
  manager_available api none w own there = absurd (ground arith)
  manager_available api (some m) w (owns, v) there = keep-Ends api _ _ (owns, asked (suc n) w _ v)

  require-Ends :
      (api : ApiHandle) (w : World S)
      → Owning (suc n) api w
      → Ends n (Owning (suc n)) (require_available sdk name_max api (manager_of api w) w)
  unfolding require_available
  require-Ends api w (owns, v) =
      rw (manager_of-owner api w owns)
        (manager_available api w.manager w (owns, v) (has_manager (suc n) w v (omega arith)))

  -- Where the globals count `n` owners, the constructor of RuntimeManager either returns with one
  -- share more, or throws with the `n` shares as they were, also when it acquired the API and then
  -- finds no Runtime Manager. It never calls through a null manager.
  pub construct-Ends :
      (dll_dir : Option Bytes) (w : World S)
      → Holds n w
      → Ends n (Owning (suc n)) (construct sdk name_max dll_dir w)
  unfolding construct
  construct-Ends dll_dir w v = elim (acquire_cases sdk n dll_dir w v) [
    | inl (w', e, v') ↦
        rw (e, assign-unowned sdk (record { owns = true }) w')
          (require-Ends (record { owns = true }) w' (refl, v'))
    | inr (x, w', e, v', _) ↦ rw e (failed v')
  ]
