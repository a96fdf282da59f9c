-- ===== src/Python/Waiting/Ends.antt =====
-- How wait_for_instance of bindings/python/plcsim_connector/__init__.py ends.
use plcsim_connector.Common.{Bool, ℕ, zero, suc, ◌≡◌, true, false, Option, none, some, arith, Bytes}
use mathlib.Core.Path.{subst}
use plcsim_connector.ApiHandle.{World, ApiHandle, is_null}
use plcsim_connector.ApiHandle.Refcount.{Holds}
use plcsim_connector.Error.{Error}
use plcsim_connector.Instance.{Impl}
use plcsim_connector.Python.{Exception, timed_out, is_caught, Result, done, raised, crashed}
use plcsim_connector.Python.Waiting.{
  Wait, Environment, slept, poll, give_up_or, settle, wait_for_instance,
}
use plcsim_connector.Sdk.{Sdk}
use plcsim_connector.Python.Waiting.Counted.{
  IsWaiting, AttemptEnds, got, nothing, broke, GivenOwns, attempt-AttemptEnds, leave-Holds,
}

-- How the wait ends, or that it goes on. An error that it raises is its own, or is not retryable.
pub data WaitEnds {S : Type 0} (n : ℕ) (name : Bytes) (timeout : Option ℕ)
    : Option (Result Impl) × Wait S → Type 0 where
  arrived :
      {impl : Impl} {l : Wait S}
      → is_null impl.raw ≡ false
      → impl.api.owns ≡ true
      → Holds (suc n) l.world
      → WaitEnds n name timeout (some (done impl), l)
  gave_up :
      {last : Option Error} {l : Wait S}
      → Holds n l.world
      → WaitEnds n name timeout (some (raised (timed_out name timeout last)), l)
  stopped :
      {e : Exception} {l : Wait S}
      → is_caught e ≡ false
      → Holds n l.world
      → WaitEnds n name timeout (some (raised e), l)
  still : {l : Wait S} → IsWaiting n l → WaitEnds n name timeout (none, l)

module _ {S : Type 0} (sdk : Sdk S) (env : Environment S) (name : Bytes) (timeout : Option ℕ)
    (poll_interval : ℕ) (n : ℕ) where
  give_up_or-WaitEnds :
      (b : Bool) (l : Wait S) (more : Wait S → Option (Result Impl) × Wait S)
      → IsWaiting n l
      → ((k : Wait S) → IsWaiting n k → WaitEnds n name timeout (more k))
      → WaitEnds n name timeout (give_up_or sdk env name timeout poll_interval b l more)
  unfolding give_up_or slept
  give_up_or-WaitEnds true l more v go =
      gave_up (leave-Holds sdk env name timeout poll_interval n n l v)
  give_up_or-WaitEnds false l more v go = go _ (record { counted = v.counted; owned = v.owned })

  settle-WaitEnds :
      (deadline : Option ℕ) (r : Result (Option Impl) × Wait S)
      (more : Wait S → Option (Result Impl) × Wait S)
      → AttemptEnds n r
      → ((k : Wait S) → IsWaiting n k → WaitEnds n name timeout (more k))
      → WaitEnds n name timeout (settle sdk env name timeout poll_interval deadline r more)
  unfolding settle
  settle-WaitEnds deadline (done (some impl), l) more (got there owns v) go =
      arrived there owns (leave-Holds sdk env name timeout poll_interval n (suc n) l v)
  settle-WaitEnds deadline (done none, l) more (nothing v) go = give_up_or-WaitEnds _ l more v go
  settle-WaitEnds deadline (raised e, l) more (broke final v) go =
      stopped final (leave-Holds sdk env name timeout poll_interval n n l v)
  settle-WaitEnds deadline (crashed, l) more h go = elim h [ ]

  poll-WaitEnds :
      (runtime : Option ApiHandle) (api_dll_dir : Option Bytes) (deadline : Option ℕ) (rounds : ℕ)
      (l : Wait S)
      → GivenOwns n runtime
      → IsWaiting n l
      → WaitEnds n name timeout
          (poll sdk env name timeout poll_interval runtime api_dll_dir deadline rounds l)
  unfolding poll
  poll-WaitEnds runtime api_dll_dir deadline zero l given v = still v
  poll-WaitEnds runtime api_dll_dir deadline (suc rounds) l given v =
      settle-WaitEnds deadline _ _
        (attempt-AttemptEnds sdk env name timeout poll_interval n runtime api_dll_dir l given v)
        (λ k u. poll-WaitEnds runtime api_dll_dir deadline rounds k given u)

  -- Where the globals count `n` owners, one of them the manager if it is given, wait_for_instance, as far
  -- as it has run, still waits with the count right, or has returned a connected instance that owns one
  -- share more, or has raised with the `n` shares as they were: the error of its timeout, or an error that
  -- is not retryable. The managers that it made are gone when it ends, and it does not crash.
  pub wait-WaitEnds :
      (runtime : Option ApiHandle) (api_dll_dir : Option Bytes) (rounds time : ℕ) (w : World S)
      → GivenOwns n runtime
      → Holds n w
      → WaitEnds n name timeout
          (wait_for_instance sdk env name timeout poll_interval runtime api_dll_dir rounds time w)
  unfolding wait_for_instance
  wait-WaitEnds runtime api_dll_dir rounds time w given v =
      poll-WaitEnds runtime api_dll_dir _ rounds _ given
        (record { counted = subst (λ k. Holds k w) (omega arith) v; owned = tt })
