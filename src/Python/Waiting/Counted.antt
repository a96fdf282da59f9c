-- ===== src/Python/Waiting/Counted.antt =====
-- However the loop of wait_for_instance (bindings/python/plcsim_connector/__init__.py) ends, the native
-- count is right.
use plcsim_connector.Common.{
  ℕ, suc, ◌+◌, ◌≡◌, ◌≢◌, true, false, Option, none, some, arith, Bool-cases, inl, inr, Bytes,
}
use plcsim_connector.ApiHandle.{World, ApiHandle, is_null}
use plcsim_connector.ApiHandle.Refcount.{Holds}
use plcsim_connector.Error.{Error, Outcome, returned, thrown, undefined}
use plcsim_connector.Instance.{Impl}
use plcsim_connector.Python.{Exception, native, is_caught, Result, done, raised, crashed, discard}
use plcsim_connector.Python.Discarding.{moved, discard-Holds}
use plcsim_connector.Python.Waiting.{
  Wait, Environment, handle, try_with, renewed, try_body, attempt, leave,
}
use plcsim_connector.RuntimeManager
use plcsim_connector.RuntimeManager.{construct, try_attach}
use plcsim_connector.RuntimeManager.Attach.{TryEnds, attached, not_yet, refused, try_attach-TryEnds}
use plcsim_connector.RuntimeManager.Ends
use plcsim_connector.RuntimeManager.Ends.{ended, failed}
use plcsim_connector.RuntimeManager.Ownership.{construct-Ends}
use plcsim_connector.RuntimeManager.Queries.{Owning}
use plcsim_connector.Sdk.{Sdk}
use plcsim_connector.System.Owners.{manager_share, OwnsIfThere}

-- The globals count `n` owners and the manager that the loop has made.
pub record IsWaiting {S : Type 0} (n : ℕ) (l : Wait S) : Type 0 where
  pub counted : Holds (n + manager_share l.rt) l.world
  pub owned : OwnsIfThere l.rt

-- How an attempt ends: with a connected instance, which owns one share more, with nothing yet, or with an
-- error that is not retryable.
pub data AttemptEnds {S : Type 0} (n : ℕ) : Result (Option Impl) × Wait S → Type 0 where
  got :
      {impl : Impl} {l : Wait S}
      → is_null impl.raw ≡ false
      → impl.api.owns ≡ true
      → IsWaiting (suc n) l
      → AttemptEnds n (done (some impl), l)
  nothing : {l : Wait S} → IsWaiting n l → AttemptEnds n (done none, l)
  broke :
      {e : Exception} {l : Wait S}
      → is_caught e ≡ false
      → IsWaiting n l
      → AttemptEnds n (raised e, l)

-- The same before `except RetryableError`.
pub data TriedEnds {S : Type 0} (n : ℕ) : Outcome (Option Impl) × Wait S → Type 0 where
  found :
      {impl : Impl} {l : Wait S}
      → is_null impl.raw ≡ false
      → impl.api.owns ≡ true
      → IsWaiting (suc n) l
      → TriedEnds n (returned (some impl), l)
  absent : {l : Wait S} → IsWaiting n l → TriedEnds n (returned none, l)
  threw : {e : Error} {l : Wait S} → IsWaiting n l → TriedEnds n (thrown e, l)

-- A manager that was given owns one of the `n` shares.
abbrev pub GivenOwns : ℕ → Option ApiHandle → Type 0
GivenOwns n none = Unit {0}
GivenOwns n (some api) = (api.owns ≡ true) × (n ≢ 0)

module _ {S : Type 0} (sdk : Sdk S) (env : Environment S) (name : Bytes) (timeout : Option ℕ)
    (poll_interval : ℕ) (n : ℕ) where
  tried_with :
      (l : Wait S) (r : Outcome (Option Impl) × World S)
      → OwnsIfThere l.rt
      → TryEnds (n + manager_share l.rt) r
      → TriedEnds n (r.0, record l { world = r.1 })
  tried_with l (returned (some impl), w) owned (attached (there, (owns, v))) =
      found there.has_raw owns (record { counted = moved w (omega arith) v; owned = owned })
  tried_with l (returned none, w) owned (not_yet v) = absent (record { counted = v; owned = owned })
  tried_with l (thrown e, w) owned (refused final v) = threw (record { counted = v; owned = owned })
  tried_with l (undefined, w) owned h = elim h [ ]

  try_with-TriedEnds :
      (api : ApiHandle) (l : Wait S)
      → api.owns ≡ true
      → n + manager_share l.rt ≢ 0
      → IsWaiting n l
      → TriedEnds n (try_with sdk env name timeout poll_interval api l)
  unfolding try_with
  try_with-TriedEnds api l owns more v =
      tried_with l (try_attach sdk env.name_max name (some api) l.world) v.owned (
        try_attach-TryEnds sdk env.name_max (n + manager_share l.rt) name api l.world
          (owns, v.counted) more)

  renewed-TriedEnds :
      (l : Wait S) (r : Outcome ApiHandle × World S)
      → IsWaiting n l
      → RuntimeManager.Ends.Ends (n + manager_share l.rt) (Owning (suc (n + manager_share l.rt))) r
      → TriedEnds n (renewed sdk env name timeout poll_interval l r)
  unfolding renewed
  renewed-TriedEnds l (returned api, w) v (ended (owns, c)) =
      let w' = discard sdk env.name_max l.rt w in
      let c' : Holds (suc n) w' =
        discard-Holds sdk env.name_max (suc n) l.rt w (moved w (omega arith) c) in
      try_with-TriedEnds api (record l { rt = some api; world = w' }) owns (rw owns (omega arith))
        (record { counted = moved w' (rw owns (omega arith)) c'; owned = owns })
  renewed-TriedEnds l (thrown e, w) v (failed c) = threw (record { counted = c; owned = v.owned })
  renewed-TriedEnds l (undefined, w) v h = elim h [ ]

  try_body-TriedEnds :
      (runtime : Option ApiHandle) (api_dll_dir : Option Bytes) (l : Wait S)
      → GivenOwns n runtime
      → IsWaiting n l
      → TriedEnds n (try_body sdk env name timeout poll_interval runtime api_dll_dir l)
  unfolding try_body
  try_body-TriedEnds (some api) api_dll_dir l (owns, more) v =
      try_with-TriedEnds api l owns (omega arith) v
  try_body-TriedEnds none api_dll_dir l tt_ v =
      renewed-TriedEnds l _ v
        (construct-Ends sdk env.name_max (n + manager_share l.rt) _ l.world v.counted)

  handle-AttemptEnds :
      (r : Outcome (Option Impl) × Wait S)
      → TriedEnds n r
      → AttemptEnds n (handle sdk env name timeout poll_interval r)
  unfolding handle
  handle-AttemptEnds (returned (some impl), l) (found there owns v) = got there owns v
  handle-AttemptEnds (returned none, l) (absent v) = nothing v
  handle-AttemptEnds (thrown e, l) (threw v) = elim (Bool-cases (is_caught (native e))) [
    | inl again ↦ rw again (nothing (record { counted = v.counted; owned = v.owned }))
    | inr final ↦ rw final (broke final v)
  ]
  handle-AttemptEnds (undefined, l) h = elim h [ ]

  timed-AttemptEnds :
      (r : Result (Option Impl) × Wait S) (t : ℕ)
      → AttemptEnds n r
      → AttemptEnds n (r.0, record r.1 { time = t })
  timed-AttemptEnds (done (some impl), l) t (got there owns v) =
      got there owns (record { counted = v.counted; owned = v.owned })
  timed-AttemptEnds (done none, l) t (nothing v) =
      nothing (record { counted = v.counted; owned = v.owned })
  timed-AttemptEnds (raised e, l) t (broke final v) =
      broke final (record { counted = v.counted; owned = v.owned })
  timed-AttemptEnds (crashed, l) t h = elim h [ ]

  pub attempt-AttemptEnds :
      (runtime : Option ApiHandle) (api_dll_dir : Option Bytes) (l : Wait S)
      → GivenOwns n runtime
      → IsWaiting n l
      → AttemptEnds n (attempt sdk env name timeout poll_interval runtime api_dll_dir l)
  unfolding attempt
  attempt-AttemptEnds runtime api_dll_dir l given v =
      timed-AttemptEnds _ _
        (handle-AttemptEnds _ (try_body-TriedEnds runtime api_dll_dir l given v))

  pub leave-Holds :
      (k : ℕ) (l : Wait S)
      → IsWaiting k l
      → Holds k (leave sdk env name timeout poll_interval l).world
  unfolding leave
  leave-Holds k l v = discard-Holds sdk env.name_max k l.rt l.world v.counted
