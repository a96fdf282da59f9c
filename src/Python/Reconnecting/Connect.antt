-- ===== src/Python/Reconnecting/Connect.antt =====
-- How `ReconnectingInstance.connect` of bindings/python/plcsim_connector/__init__.py ends.
use plcsim_connector.Common.{
  ◌⊎◌, ℕ, suc, ◌≡◌, refl, Bool, true, false, Option, none, some, arith, inl, inr, if◌then◌else◌,
}
use mathlib.Core.Path.{subst}
use plcsim_connector.ApiHandle.{ApiHandle}
use plcsim_connector.Instance.{Impl}
use plcsim_connector.Python.{Result, done, raised, crashed}
use plcsim_connector.Python.Discarding.{moved}
use plcsim_connector.Python.Reconnecting.{
  Session, Settings, connected_if, is_connected, drop, attached, need_runtime,
}
use plcsim_connector.Python.Reconnecting.Dropped.{drop-IsHeld}
use plcsim_connector.Python.Reconnecting.Held.{
  IsHeld, SessionEnds, returns, raises, HasInstance, IsHookIfThere,
}
use plcsim_connector.Python.Waiting.{Environment}
use plcsim_connector.Sdk.{Sdk}
use plcsim_connector.System.Owners.{OwnsIfThere}
use plcsim_connector.Python.Reconnecting.Parts.{connected-IsHeld, hook-Ends, runtime-Ends}
use plcsim_connector.Python.Waiting.{Wait}
use plcsim_connector.Python.Waiting.Ends.{WaitEnds, arrived, gave_up, stopped, still, wait-WaitEnds}
use plcsim_connector.Python.Reconnecting.{waited, connect_with, connect}

-- `connect` still waits, or it has ended as a function of the session does.
pub data ConnectEnds {S : Type 0} (n : ℕ) : Option (Result (Unit {0})) × Session S → Type 0 where
  waits : {s : Session S} → ConnectEnds n (none, s)
  over :
      {r : Result (Unit {0})} {s : Session S}
      → SessionEnds n (λ a s'. HasInstance s') (r, s)
      → ConnectEnds n (some r, s)

module _ {S : Type 0} (sdk : Sdk S) (env : Environment S) (settings : Settings S) (n : ℕ) where
  over-ends :
      (r : Result (Unit {0}) × Session S)
      → SessionEnds n (λ a s'. HasInstance s') r
      → ConnectEnds n (some r.0, r.1)
  over-ends (r, s) h = over h

  waited-ConnectEnds :
      (s : Session S) (api : ApiHandle) (r : Option (Result Impl) × Wait S)
      → IsHookIfThere settings.on_reconnect
      → s.runtime ≡ some api
      → s.instance ≡ none
      → api.owns ≡ true
      → WaitEnds (suc n) settings.name settings.connect_timeout r
      → ConnectEnds n (waited sdk env settings s r)
  unfolding waited attached
  waited-ConnectEnds s api (some (done impl), l) hook held gone owns (arrived there owner v) =
      over-ends _ (
        hook-Ends sdk env settings n settings.on_reconnect
          (record s { instance = some impl; time = l.time; world = l.world }) hook
          (record {
            counted = moved l.world (rw (held, owns, owner) (omega arith)) v;
            owned = rw held owns;
          })
          (impl, refl))
  waited-ConnectEnds s api (some (raised e), l) hook held gone owns (gave_up v) = over (
      raises (record {
        counted = moved l.world (rw (held, gone, owns) (omega arith)) v;
        owned = rw held owns;
      }))
  waited-ConnectEnds s api (some (raised e), l) hook held gone owns (stopped final v) = over (
      raises (record {
        counted = moved l.world (rw (held, gone, owns) (omega arith)) v;
        owned = rw held owns;
      }))
  waited-ConnectEnds s api (some crashed, l) hook held gone owns h = elim h [ ]
  waited-ConnectEnds s api (none, l) hook held gone owns (still v) = waits

  connect_with-ConnectEnds :
      (rounds : ℕ) (r : Result ApiHandle × Session S)
      → IsHookIfThere settings.on_reconnect
      → SessionEnds n (λ api s'. (s'.runtime ≡ some api) × (s'.instance ≡ none)) r
      → ConnectEnds n (connect_with sdk env settings rounds r)
  unfolding connect_with
  connect_with-ConnectEnds rounds (done api, s) hook (returns (held, gone) v) =
      let owns : api.owns ≡ true = subst OwnsIfThere held v.owned in
      waited-ConnectEnds s api _ hook held gone owns (
        wait-WaitEnds sdk env settings.name settings.connect_timeout settings.poll_interval (suc n)
          (some api) none rounds s.time s.world (owns, omega arith)
          (moved s.world (rw (held, gone, owns) (omega arith)) v.counted))
  connect_with-ConnectEnds rounds (raised e, s) hook (raises v) = over (raises v)
  connect_with-ConnectEnds rounds (crashed, s) hook h = elim h [ ]

  -- `connect`, as far as it has run, still waits, or it has returned with an instance, or it has raised;
  -- when it has ended the count of the owners of the API is right, and it does not crash.
  pub connect-ConnectEnds :
      (rounds : ℕ) (s : Session S)
      → IsHookIfThere settings.on_reconnect
      → IsHeld n s
      → ConnectEnds n (connect sdk env settings rounds s)
  unfolding connect is_connected
  connect-ConnectEnds rounds s hook v =
      go (connected_if sdk env settings s.instance s)
        (connected-IsHeld sdk env settings n s s.instance refl v)
    where
      go :
          (r : Bool × Session S)
          → IsHeld n r.1 × ((r.0 ≡ false) ⊎ HasInstance r.1)
          → ConnectEnds n (
              if r.0
              then (some (done tt), r.1)
              else connect_with sdk env settings rounds
                  (need_runtime sdk env settings none (drop sdk env settings r.1)))
      go (true, s') (v', inl no_) = absurd (ground arith)
      go (true, s') (v', inr there) = over (returns there v')
      go (false, s') (v', h) =
          let (v'', gone, free) = drop-IsHeld sdk env settings n s' v' in
          connect_with-ConnectEnds rounds _ hook (runtime-Ends sdk env settings n _ v'' gone free)
