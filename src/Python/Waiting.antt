-- ===== src/Python/Waiting.antt =====
-- `wait_for_instance` of bindings/python/plcsim_connector/__init__.py. Time is in ticks of
-- time.monotonic(), which does not go back: an attempt takes `took` ticks, and time.sleep() takes what it
-- was asked for and `overslept` ticks more. The local `rt` is let go of where the function ends; in CPython
-- an exception that was caught or raised can hold the frame longer.
pub mod Counted
pub mod Ends
pub mod Terminates
pub mod Patience
use plcsim_connector.Common.{
  ℕ, zero, suc, ◌+◌, Bool, true, false, Option, none, some, if◌then◌else◌, leb, Bytes,
}
use plcsim_connector.ApiHandle.{World, ApiHandle}
use plcsim_connector.Error.{Error, Outcome, returned, thrown, undefined}
use plcsim_connector.Instance.{Impl}
use plcsim_connector.Python.{
  Exception, native, timed_out, is_caught, Result, done, raised, crashed, effective_dir, discard,
}
use plcsim_connector.RuntimeManager.{construct, try_attach}
use plcsim_connector.Sdk.{Sdk}

-- The local variables `rt`, where it was made here, and `last_error`, the clock and the shared state.
pub record Wait (S : Type 0) : Type 0 where
  pub rt : Option ApiHandle
  pub last_error : Option Error
  pub time : ℕ
  pub world : World S

-- What the machine has to do with it: DINSTANCE_NAME_MAX_LENGTH of the SDK, the answer of
-- `_autodetect_api_dll_dir`, and how long things take.
pub record Environment (S : Type 0) : Type 0 where
  pub name_max : ℕ
  pub detected : Option Bytes
  pub took : World S → ℕ
  pub overslept : World S → ℕ

module _ {S : Type 0} (sdk : Sdk S) (env : Environment S) (name : Bytes) (timeout : Option ℕ)
    (poll_interval : ℕ) where
  -- The handler `except RetryableError as exc`.
  pub handle : Outcome (Option Impl) × Wait S → Result (Option Impl) × Wait S
  handle (returned instance, l) = (done instance, l)
  handle (thrown e, l) =
      if is_caught (native e)
      then (done none, record l { last_error = some e })
      else (raised (native e), l)
  handle (undefined, l) = (crashed, l)

  -- `instance = rt.try_attach(name)`
  pub try_with : ApiHandle → Wait S → Outcome (Option Impl) × Wait S
  try_with api l =
      let (r, w) = try_attach sdk env.name_max name (some api) l.world in
      (r, record l { world = w })

  -- `rt = RuntimeManager(api_dll_dir)`; the manager of the round before is destroyed after it.
  pub renewed : Wait S → Outcome ApiHandle × World S → Outcome (Option Impl) × Wait S
  renewed l (returned api, w) =
      try_with api (record l { rt = some api; world = discard sdk env.name_max l.rt w })
  renewed l (thrown e, w) = (thrown e, record l { world = w })
  renewed l (undefined, w) = (undefined, record l { world = w })

  -- The body of `try`, for a manager that was given or one that is made.
  pub try_body : Option ApiHandle → Option Bytes → Wait S → Outcome (Option Impl) × Wait S
  try_body (some runtime) api_dll_dir l = try_with runtime l
  try_body none api_dll_dir l =
      renewed l (construct sdk env.name_max (effective_dir env.detected api_dll_dir) l.world)

  -- One attempt, with the time that it takes.
  pub attempt : Option ApiHandle → Option Bytes → Wait S → Result (Option Impl) × Wait S
  attempt runtime api_dll_dir l =
      let (r, l') = handle (try_body runtime api_dll_dir l) in
      (r, record l' { time = l'.time + env.took l'.world })

  -- `deadline is not None and time.monotonic() >= deadline`
  pub expired : Option ℕ → ℕ → Bool
  expired none time = false
  expired (some deadline) time = leb deadline time

  -- The local `rt` goes out of scope.
  pub leave : Wait S → Wait S
  leave l = record l { rt = none; world = discard sdk env.name_max l.rt l.world }

  -- `time.sleep(poll_interval)`
  pub slept : Wait S → Wait S
  slept l = record l { time = l.time + (poll_interval + env.overslept l.world) }

  -- The end of a round without an instance: the deadline has passed, or it goes on behind a sleep.
  pub give_up_or :
      Bool → Wait S → (Wait S → Option (Result Impl) × Wait S) → Option (Result Impl) × Wait S
  give_up_or true l more = (some (raised (timed_out name timeout l.last_error)), leave l)
  give_up_or false l more = more (slept l)

  -- What is made of an attempt.
  pub settle :
      Option ℕ
      → Result (Option Impl) × Wait S
      → (Wait S → Option (Result Impl) × Wait S)
      → Option (Result Impl) × Wait S
  settle deadline (done (some instance), l) more = (some (done instance), leave l)
  settle deadline (done none, l) more = give_up_or (expired deadline l.time) l more
  settle deadline (raised e, l) more = (some (raised e), leave l)
  settle deadline (crashed, l) more = (some crashed, l)

  -- The loop, in at most so many rounds; `none` if it still runs then.
  pub poll : Option ApiHandle → Option Bytes → Option ℕ → ℕ → Wait S → Option (Result Impl) × Wait S
  poll runtime api_dll_dir deadline zero l = (none, l)
  poll runtime api_dll_dir deadline (suc rounds) l =
      settle deadline (attempt runtime api_dll_dir l) (poll runtime api_dll_dir deadline rounds)

  abbrev pub deadline_from : Option ℕ → ℕ → Option ℕ
  deadline_from none time = none
  deadline_from (some timeout) time = some (time + timeout)

  -- wait_for_instance, in at most so many rounds
  pub wait_for_instance :
      Option ApiHandle → Option Bytes → ℕ → ℕ → World S → Option (Result Impl) × Wait S
  wait_for_instance runtime api_dll_dir rounds time w =
      poll runtime api_dll_dir (deadline_from timeout time) rounds
        (record { rt = none; last_error = none; time = time; world = w })
