-- ===== src/Python/Waiting/Terminates.antt =====
-- With a timeout, wait_for_instance of bindings/python/plcsim_connector/__init__.py ends.
use plcsim_connector.Common.{
  ℕ, zero, suc, ◌+◌, ◌*◌, ◌/◌, ◌≤◌, ◌<◌, ◌≡◌, ◌≢◌, refl, Bool, true, false, Option, none, some,
  arith, leb, Bytes,
}
use native.Mathlib.Nat.{lt-div-mul-add}
use plcsim_connector.ApiHandle.{World, ApiHandle}
use plcsim_connector.Instance.{Impl}
use plcsim_connector.Error.{Outcome, returned, thrown, undefined}
use plcsim_connector.Python.{Result, done, raised, crashed}
use plcsim_connector.Python.Waiting.{
  Wait, Environment, attempt, expired, give_up_or, settle, slept, poll, handle, try_with, renewed,
  try_body, wait_for_instance,
}
use plcsim_connector.Sdk.{Sdk}

abbrev pub HasEnded : {A B : Type 0} → Option A × B → Type 0
HasEnded (none, b) = ⊥
HasEnded (some a, b) = Unit {0}

module _ {S : Type 0} (sdk : Sdk S) (env : Environment S) (name : Bytes) (timeout : Option ℕ)
    (poll_interval : ℕ) where
  give_up_or-HasEnded :
      (b : Bool) (l : Wait S) (more : Wait S → Option (Result Impl) × Wait S)
      → (b ≡ false → HasEnded (more (slept sdk env name timeout poll_interval l)))
      → HasEnded (give_up_or sdk env name timeout poll_interval b l more)
  unfolding give_up_or
  give_up_or-HasEnded true l more go = tt
  give_up_or-HasEnded false l more go = go refl

  settle-HasEnded :
      (deadline : ℕ) (r : Result (Option Impl) × Wait S)
      (more : Wait S → Option (Result Impl) × Wait S)
      → (r.1.time < deadline → HasEnded (more (slept sdk env name timeout poll_interval r.1)))
      → HasEnded (settle sdk env name timeout poll_interval (some deadline) r more)
  unfolding settle expired
  settle-HasEnded deadline (done (some impl), l) more go = tt
  settle-HasEnded deadline (done none, l) more go =
      give_up_or-HasEnded (leb deadline l.time) l more (λ e. go (ground (arith, e)))
  settle-HasEnded deadline (raised e, l) more go = tt
  settle-HasEnded deadline (crashed, l) more go = tt

  handle-time :
      (r : Outcome (Option Impl) × Wait S)
      → (handle sdk env name timeout poll_interval r).1.time ≡ r.1.time
  unfolding handle
  handle-time (returned instance, l) = refl
  handle-time (thrown e, l) = ground arith
  handle-time (undefined, l) = refl

  renewed-time :
      (l : Wait S) (r : Outcome ApiHandle × World S)
      → (renewed sdk env name timeout poll_interval l r).1.time ≡ l.time
  unfolding renewed try_with
  renewed-time l (returned api, w) = refl
  renewed-time l (thrown e, w) = refl
  renewed-time l (undefined, w) = refl

  try_body-time :
      (runtime : Option ApiHandle) (api_dll_dir : Option Bytes) (l : Wait S)
      → (try_body sdk env name timeout poll_interval runtime api_dll_dir l).1.time ≡ l.time
  unfolding try_body try_with
  try_body-time (some api) api_dll_dir l = refl
  try_body-time none api_dll_dir l = renewed-time l _

  attempt-time :
      (runtime : Option ApiHandle) (api_dll_dir : Option Bytes) (l : Wait S)
      → l.time ≤ (attempt sdk env name timeout poll_interval runtime api_dll_dir l).1.time
  unfolding attempt
  attempt-time runtime api_dll_dir l = omega (
    arith,
    handle-time (try_body sdk env name timeout poll_interval runtime api_dll_dir l),
    try_body-time runtime api_dll_dir l,
  )

  -- So many rounds are enough that their sleeps alone pass the deadline.
  poll-HasEnded :
      (runtime : Option ApiHandle) (api_dll_dir : Option Bytes) (deadline rounds : ℕ) (l : Wait S)
      → deadline ≤ l.time + rounds * poll_interval
      → HasEnded (
          poll sdk env name timeout poll_interval runtime api_dll_dir
            (some deadline)
            (suc rounds)
            l)
  unfolding poll slept
  poll-HasEnded runtime api_dll_dir deadline zero l h =
      settle-HasEnded deadline _ _
        (λ early. absurd (omega (arith, attempt-time runtime api_dll_dir l)))
  poll-HasEnded runtime api_dll_dir deadline (suc rounds) l h =
      settle-HasEnded deadline _ _ (λ early.
        poll-HasEnded runtime api_dll_dir deadline rounds _
          (omega (arith, attempt-time runtime api_dll_dir l)))

module _ {S : Type 0} (sdk : Sdk S) (env : Environment S) (name : Bytes) where
  -- With a timeout and a poll interval that is not 0, wait_for_instance ends within timeout /
  -- poll_interval + 2 rounds, whatever the SDK answers and however long the calls take.
  pub wait-HasEnded :
      (timeout poll_interval : ℕ) (runtime : Option ApiHandle) (api_dll_dir : Option Bytes)
      (time : ℕ) (w : World S)
      → poll_interval ≢ 0
      → HasEnded (
          wait_for_instance sdk env name
            (some timeout)
            poll_interval
            runtime
            api_dll_dir
            (suc (suc (timeout / poll_interval)))
            time
            w)
  unfolding wait_for_instance
  wait-HasEnded timeout poll_interval runtime api_dll_dir time w more =
      let enough : timeout < timeout / poll_interval * poll_interval + poll_interval =
        lt-div-mul-add (omega arith) in
      poll-HasEnded sdk env name (some timeout) poll_interval runtime api_dll_dir (time + timeout)
        (suc (timeout / poll_interval)) _ (omega (arith, enough))
