-- ===== src/Python/Reconnecting/Behaviour.antt =====
-- Calls and polls of ReconnectingInstance (bindings/python/plcsim_connector/__init__.py): a bad address, a
-- second attempt, and a connection that is lost or never came about.
use plcsim_connector.Common.{◌∙◌, Option, none, ℕ, ◌≡◌, refl, Bool, true, false, some, Bytes}
use plcsim_connector.Address.{parse_bit_address}
use plcsim_connector.Address.Rejects.{parse-thrown-IsAbout}
use plcsim_connector.ApiHandle.{World, ApiHandle}
use plcsim_connector.Bindings.{for_kind, is_below_retryable}
use plcsim_connector.Error.{Error, returned, thrown}
use plcsim_connector.Instance.{Impl}
use plcsim_connector.Instance.Methods.{Client, set_address_bit, get_address_bit}
use plcsim_connector.Python.Reconnecting.Surface
use plcsim_connector.Prog.{Prog}
use plcsim_connector.Python.{Exception, native, is_caught, done, raised, and_then, effective_dir}
use plcsim_connector.Python.Reconnecting.{
  Session, Settings, client_of, new_session, connected_if, drop_instance, on_instance, is_connected,
  drop, call_hook, attached, made, need_runtime, keep_attached, attach_once, reconnect,
  poll_connect, connected_or, require_connected, retry, call,
}
use plcsim_connector.Python.Waiting.{Environment}
use plcsim_connector.RuntimeManager.{construct, try_attach}
use plcsim_connector.Sdk.{Sdk}

module _ {S : Type 0} (sdk : Sdk S) (env : Environment S) (settings : Settings S) where
  pub connected_at_once :
      (s s' : Session S)
      → is_connected sdk env settings s ≡ (true, s')
      → poll_connect sdk env settings s ≡ (done true, s')
  unfolding poll_connect
  connected_at_once s s' e = rw e refl

  final_call :
      {A : Type 0} (m : Prog (Client S) A) (s s' : Session S) (e : Error)
      → is_connected sdk env settings s ≡ (true, s')
      → m (client_of s') ≡ (thrown e, client_of s')
      → is_caught (native e) ≡ false
      → call sdk env settings m s ≡ (raised (native e), s')
  unfolding call require_connected connected_or on_instance retry
  final_call m s s' e there fails final = rw (connected_at_once s s' there, fails, final) refl

  -- On a connected session, set_address_bit and get_address_bit with an address that does not parse raise
  -- the parser's error from the first call: the session is not dropped and nothing is attached again.
  pub call_bad_address :
      (s s' : Session S) (address : Bytes) (value : Bool) (e : Error)
      → is_connected sdk env settings s ≡ (true, s')
      → parse_bit_address address ≡ thrown e
      → (Surface.set_address_bit sdk env settings address value s ≡ (raised (native e), s'))
        × (Surface.get_address_bit sdk env settings address s ≡ (raised (native e), s'))
  unfolding Surface.set_address_bit Surface.get_address_bit set_address_bit get_address_bit
      is_caught is_below_retryable for_kind
  call_bad_address s s' address value e there bad =
      let kind = (parse-thrown-IsAbout address e bad).kind in
      (
        final_call (set_address_bit sdk address value) s s' e there (rw bad refl) (rw kind refl),
        final_call (get_address_bit sdk address) s s' e there (rw bad refl) (rw kind refl),
      )

  -- A call that fails with an error that is caught, on a connected session, is made once more behind one
  -- reconnection, and what comes of that is what the call gives, an error included.
  pub call_retried :
      {A : Type 0} (m : Prog (Client S) A) (s s1 s2 s3 : Session S) (e : Exception)
      → is_connected sdk env settings s ≡ (true, s1)
      → on_instance sdk env settings m s1 ≡ (raised e, s2)
      → is_caught e ≡ true
      → poll_connect sdk env settings (drop sdk env settings s2) ≡ (done true, s3)
      → call sdk env settings m s ≡ on_instance sdk env settings m s3
  unfolding call require_connected connected_or retry
  call_retried m s s1 s2 s3 e there failed again back =
      rw (connected_at_once s s1 there, failed, again, back) refl

  drop_instance-time :
      (s : Session S) (o : Option Impl) → (drop_instance sdk env settings o s).time ≡ s.time
  unfolding drop_instance
  drop_instance-time s none = refl
  drop_instance-time s (some impl) = refl

  -- A poll without a connection always constructs a RuntimeManager, since the one that the session has
  -- kept is dropped first.
  pub poll_connect_constructs :
      (s s' : Session S)
      → is_connected sdk env settings s ≡ (false, s')
      → let t = drop sdk env settings s' in
        poll_connect sdk env settings s
        ≡ and_then
            (made sdk env settings t (
              construct sdk env.name_max (effective_dir env.detected settings.api_dll_dir) t.world))
            (attach_once sdk env settings)
  unfolding poll_connect reconnect need_runtime drop
  poll_connect_constructs s s' gone = rw gone refl

  -- A session without a hook that has lost its connection has it back behind one poll, as soon as a
  -- RuntimeManager can be made and the instance can be attached; the new instance and its manager are in the
  -- place of the old ones, which were dropped.
  pub poll_connect_recovers :
      (s s' : Session S) (api : ApiHandle) (impl : Impl) (w w' : World S)
      → settings.on_reconnect ≡ none
      → is_connected sdk env settings s ≡ (false, s')
      → construct sdk env.name_max
          (effective_dir env.detected settings.api_dll_dir)
          (drop sdk env settings s').world
        ≡ (returned api, w)
      → try_attach sdk env.name_max settings.name (some api) w ≡ (returned (some impl), w')
      → poll_connect sdk env settings s
        ≡ (done true, record s' { instance = some impl; runtime = some api; world = w' })
  unfolding made attach_once keep_attached attached call_hook drop
  poll_connect_recovers s s' api impl w w' plain gone up found =
      poll_connect_constructs s s' gone
      ∙ rw (up, found, drop_instance-time s' s'.instance, plain) refl

  -- The first poll of a new session raises what the constructor throws.
  pub poll_connect_unavailable :
      (time : ℕ) (w w' : World S) (e : Error)
      → construct sdk env.name_max (effective_dir env.detected settings.api_dll_dir) w
        ≡ (thrown e, w')
      → poll_connect sdk env settings (new_session time w)
        ≡ (raised (native e), record (new_session time w) { world = w' })
  unfolding poll_connect is_connected connected_if reconnect need_runtime drop drop_instance made
  poll_connect_unavailable time w w' e down = rw down refl
