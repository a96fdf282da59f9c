-- ===== src/Python/Reconnecting.antt =====
-- The class `ReconnectingInstance` of bindings/python/plcsim_connector/__init__.py. Nothing else refers to
-- its Instance or its RuntimeManager, so they are destroyed where it lets go of them.
pub mod Tests
pub mod Surface
pub mod Held
pub mod Dropped
pub mod Parts
pub mod Sound
pub mod Connect
pub mod Unreachable
pub mod Recovery
pub mod Missed
pub mod Behaviour
use plcsim_connector.Common.{ℕ, ◌+◌, Bool, true, false, Option, none, some, if◌then◌else◌, Bytes}
use plcsim_connector.ApiHandle.{World, ApiHandle}
use plcsim_connector.Error.{Outcome, returned, thrown, undefined}
use plcsim_connector.Instance.{Impl}
use plcsim_connector.Instance.Methods
use plcsim_connector.Instance.Methods.{Client, close, destruct}
use plcsim_connector.Prog.{Prog}
use plcsim_connector.Python.{
  Exception, native, not_connected, is_caught, Result, done, raised, crashed, Py, result_of,
  and_then, effective_dir, discard,
}
use plcsim_connector.Python.Waiting.{Wait, Environment, wait_for_instance}
use plcsim_connector.RuntimeManager.{construct, try_attach}
use plcsim_connector.Sdk.{Sdk}

-- `_instance`, `_runtime`, the clock and the shared state.
pub record Session (S : Type 0) : Type 0 where
  pub instance : Option Impl
  pub runtime : Option ApiHandle
  pub time : ℕ
  pub world : World S

-- What __init__ is given and keeps. The hook is called with the instance that was attached.
pub record Settings (S : Type 0) : Type 0 where
  pub name : Bytes
  pub connect_timeout : Option ℕ
  pub poll_interval : ℕ
  pub on_reconnect : Option (Py (Client S) (Unit {0}))
  pub api_dll_dir : Option Bytes

-- `self._instance` as the object of its methods.
abbrev pub client_of : {S : Type 0} → Session S → Client S
client_of s = record { impl = s.instance; world = s.world }

abbrev pub with_client : {S : Type 0} → Session S → Client S → Session S
with_client s c = record s { instance = c.impl; world = c.world }

-- ReconnectingInstance(name, …)
abbrev pub new_session : {S : Type 0} → ℕ → World S → Session S
new_session time w = record { instance = none; runtime = none; time = time; world = w }

module _ {S : Type 0} (sdk : Sdk S) (env : Environment S) (settings : Settings S) where
  -- A call of a method of `self._instance`.
  pub on_instance : {A : Type 0} → Prog (Client S) A → Py (Session S) A
  on_instance m s = let (r, c) = m (client_of s) in (result_of r, with_client s c)

  pub connected_if : Option Impl → Session S → Bool × Session S
  connected_if none s = (false, s)
  connected_if (some impl) s =
      let (b, c) = Methods.is_connected sdk (record { impl = some impl; world = s.world }) in
      (b, with_client s c)

  -- is_connected
  pub is_connected : Session S → Bool × Session S
  is_connected s = connected_if s.instance s

  -- `if self._instance is not None: self._instance.close()` and `self._instance = None`
  pub drop_instance : Option Impl → Session S → Session S
  drop_instance none s = s
  drop_instance (some impl) s =
      let c : Client S = close sdk (record { impl = some impl; world = s.world }) in
      record s { instance = none; world = destruct sdk c }

  -- _drop
  pub drop : Session S → Session S
  drop s =
      let s' = drop_instance s.instance s in
      record s' { runtime = none; world = discard sdk env.name_max s'.runtime s'.world }

  -- _attached
  pub call_hook : Option (Py (Client S) (Unit {0})) → Py (Session S) (Unit {0})
  call_hook none s = (done tt, s)
  call_hook (some hook) s = let (r, c) = hook (client_of s) in (r, with_client s c)

  pub attached : Impl → Py (Session S) (Unit {0})
  attached instance s = call_hook settings.on_reconnect (record s { instance = some instance })

  -- `if self._runtime is None: self._runtime = RuntimeManager(self._api_dll_dir)`
  pub made : Session S → Outcome ApiHandle × World S → Result ApiHandle × Session S
  made s (returned api, w) = (done api, record s { runtime = some api; world = w })
  made s (thrown e, w) = (raised (native e), record s { world = w })
  made s (undefined, w) = (crashed, record s { world = w })

  pub need_runtime : Option ApiHandle → Py (Session S) ApiHandle
  need_runtime (some api) s = (done api, s)
  need_runtime none s =
      made s (construct sdk env.name_max (effective_dir env.detected settings.api_dll_dir) s.world)

  -- `instance = self._runtime.try_attach(self._name)` and what follows it
  pub keep_attached : Option Impl → Py (Session S) Bool
  keep_attached none s = (done false, s)
  keep_attached (some instance) s = and_then (attached instance s) (λ _ s'. (done true, s'))

  pub attach_once : ApiHandle → Py (Session S) Bool
  attach_once api s =
      let (r, w) = try_attach sdk env.name_max settings.name (some api) s.world in
      and_then (result_of r, record s { world = w }) keep_attached

  -- poll_connect, from `self._drop()` on
  pub reconnect : Py (Session S) Bool
  reconnect s = let s' = drop s in and_then (need_runtime s'.runtime s') attach_once

  -- poll_connect
  pub poll_connect : Py (Session S) Bool
  poll_connect s = let (b, s') = is_connected s in if b then (done true, s') else reconnect s'

  pub connected_or : Bool → Py (Session S) (Unit {0})
  connected_or true s = (done tt, s)
  connected_or false s = (raised (not_connected settings.name), s)

  -- _require_connected
  pub require_connected : Py (Session S) (Unit {0})
  require_connected s = and_then (poll_connect s) connected_or

  -- The handler of _call: one reconnection, one more call.
  pub retry : {A : Type 0} → Prog (Client S) A → Result A × Session S → Result A × Session S
  retry m (done a, s) = (done a, s)
  retry m (crashed, s) = (crashed, s)
  retry m (raised e, s) =
      if is_caught e
      then and_then (require_connected (drop s)) (λ _. on_instance m)
      else (raised e, s)

  -- _call, for the method `m`
  pub call : {A : Type 0} → Prog (Client S) A → Py (Session S) A
  call m s = and_then (require_connected s) (λ _ s'. retry m (on_instance m s'))

  -- What `connect` does with the answer of wait_for_instance.
  pub waited : Session S → Option (Result Impl) × Wait S → Option (Result (Unit {0})) × Session S
  waited s (none, l) = (none, record s { time = l.time; world = l.world })
  waited s (some r, l) =
      let (r', s') = and_then (r, record s { time = l.time; world = l.world }) attached in
      (some r', s')

  -- connect, from `self._drop()` on, in at most so many rounds
  pub connect_with : ℕ → Result ApiHandle × Session S → Option (Result (Unit {0})) × Session S
  connect_with rounds (done api, s) = waited s (
      wait_for_instance sdk env settings.name settings.connect_timeout settings.poll_interval
        (some api) none rounds s.time s.world)
  connect_with rounds (raised e, s) = (some (raised e), s)
  connect_with rounds (crashed, s) = (some crashed, s)

  -- connect
  pub connect : ℕ → Session S → Option (Result (Unit {0})) × Session S
  connect rounds s =
      let (b, s') = is_connected s in
      if b then (some (done tt), s') else connect_with rounds (need_runtime none (drop s'))
