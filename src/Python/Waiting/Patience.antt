-- ===== src/Python/Waiting/Patience.antt =====
-- wait_for_instance of bindings/python/plcsim_connector/__init__.py does not give up before its timeout.
use plcsim_connector.Common.{
  ℕ, zero, suc, ◌≤◌, ◌≡◌, refl, Bool, true, false, Option, none, some, arith, Bool-cases, inl, inr,
  Bytes,
}
use plcsim_connector.ApiHandle.{World, ApiHandle}
use plcsim_connector.Error.{Outcome, returned, thrown, undefined}
use plcsim_connector.Instance.{Impl}
use plcsim_connector.Python.{
  native, not_connected, timed_out, is_caught, Result, done, raised, crashed,
}
use plcsim_connector.Python.Waiting.{
  Wait, Environment, attempt, expired, leave, give_up_or, settle, poll, handle, try_body,
  deadline_from, wait_for_instance,
}
use plcsim_connector.Sdk.{Sdk}

-- There is a deadline, and it has been reached.
abbrev pub IsPast : Option ℕ → ℕ → Type 0
IsPast none time = ⊥
IsPast (some deadline) time = deadline ≤ time

-- If it has given up, the deadline is past.
abbrev pub IsPatient : {S : Type 0} → Option ℕ → Option (Result Impl) × Wait S → Type 0
IsPatient deadline (none, l) = Unit {0}
IsPatient deadline (some (done impl), l) = Unit {0}
IsPatient deadline (some crashed, l) = Unit {0}
IsPatient deadline (some (raised (native e)), l) = Unit {0}
IsPatient deadline (some (raised (not_connected name)), l) = Unit {0}
IsPatient deadline (some (raised (timed_out name timeout last)), l) = IsPast deadline l.time

-- Only native errors are raised inside the loop.
abbrev IsNative : Result (Option Impl) → Type 0
IsNative (done instance) = Unit {0}
IsNative (raised (native e)) = Unit {0}
IsNative (raised (not_connected name)) = ⊥
IsNative (raised (timed_out name timeout last)) = ⊥
IsNative crashed = Unit {0}

module _ {S : Type 0} (sdk : Sdk S) (env : Environment S) (name : Bytes) (timeout : Option ℕ)
    (poll_interval : ℕ) where
  handle-IsNative :
      (r : Outcome (Option Impl) × Wait S)
      → IsNative (handle sdk env name timeout poll_interval r).0
  unfolding handle
  handle-IsNative (returned instance, l) = tt
  handle-IsNative (thrown e, l) = elim (Bool-cases (is_caught (native e))) [
    | inl again ↦ rw again tt
    | inr final ↦ rw final tt
  ]
  handle-IsNative (undefined, l) = tt

  attempt-IsNative :
      (runtime : Option ApiHandle) (api_dll_dir : Option Bytes) (l : Wait S)
      → IsNative (attempt sdk env name timeout poll_interval runtime api_dll_dir l).0
  unfolding attempt
  attempt-IsNative runtime api_dll_dir l =
      handle-IsNative (try_body sdk env name timeout poll_interval runtime api_dll_dir l)

  expired-IsPast :
      (deadline : Option ℕ) (time : ℕ)
      → expired sdk env name timeout poll_interval deadline time ≡ true
      → IsPast deadline time
  unfolding expired
  expired-IsPast none time e = absurd (ground arith)
  expired-IsPast (some deadline) time e = ground (arith, e)

  give_up_or-IsPatient :
      (deadline : Option ℕ) (b : Bool) (l : Wait S) (more : Wait S → Option (Result Impl) × Wait S)
      → (b ≡ true → IsPast deadline l.time)
      → ((k : Wait S) → IsPatient deadline (more k))
      → IsPatient deadline (give_up_or sdk env name timeout poll_interval b l more)
  unfolding give_up_or leave
  give_up_or-IsPatient deadline true l more past go = past refl
  give_up_or-IsPatient deadline false l more past go = go _

  settle-IsPatient :
      (deadline : Option ℕ) (r : Result (Option Impl) × Wait S)
      (more : Wait S → Option (Result Impl) × Wait S)
      → IsNative r.0
      → ((k : Wait S) → IsPatient deadline (more k))
      → IsPatient deadline (settle sdk env name timeout poll_interval deadline r more)
  unfolding settle
  settle-IsPatient deadline (done (some instance), l) more h go = tt
  settle-IsPatient deadline (done none, l) more h go =
      give_up_or-IsPatient deadline _ l more (expired-IsPast deadline l.time) go
  settle-IsPatient deadline (raised (native e), l) more h go = tt
  settle-IsPatient deadline (raised (not_connected other), l) more h go = elim h [ ]
  settle-IsPatient deadline (raised (timed_out other t last), l) more h go = elim h [ ]
  settle-IsPatient deadline (crashed, l) more h go = tt

  poll-IsPatient :
      (runtime : Option ApiHandle) (api_dll_dir : Option Bytes) (deadline : Option ℕ) (rounds : ℕ)
      (l : Wait S)
      → IsPatient deadline
          (poll sdk env name timeout poll_interval runtime api_dll_dir deadline rounds l)
  unfolding poll
  poll-IsPatient runtime api_dll_dir deadline zero l = tt
  poll-IsPatient runtime api_dll_dir deadline (suc rounds) l =
      settle-IsPatient deadline _ _ (attempt-IsNative runtime api_dll_dir l)
        (λ k. poll-IsPatient runtime api_dll_dir deadline rounds k)

  -- wait_for_instance gives up, with its InstanceNotFoundError, only if there is a timeout and at least
  -- so much time has passed since it was called.
  pub wait-IsPatient :
      (runtime : Option ApiHandle) (api_dll_dir : Option Bytes) (rounds time : ℕ) (w : World S)
      → IsPatient
          (deadline_from sdk env name timeout poll_interval timeout time)
          (wait_for_instance sdk env name timeout poll_interval runtime api_dll_dir rounds time w)
  unfolding wait_for_instance
  wait-IsPatient runtime api_dll_dir rounds time w = poll-IsPatient runtime api_dll_dir _ rounds _
