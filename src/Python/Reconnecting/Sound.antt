-- ===== src/Python/Reconnecting/Sound.antt =====
-- However a ReconnectingInstance of bindings/python/plcsim_connector/__init__.py is used, the native count
-- is right, and no method of the native classes is called on an object that is not there.
use plcsim_connector.Common.{
  ◌⊎◌, ℕ, suc, ◌≡◌, refl, sym, Bool, true, false, Option, none, some, arith, Bool-cases, inl, inr,
  if◌then◌else◌,
}
use mathlib.Core.Path.{subst}
use plcsim_connector.ApiHandle.{World, ApiHandle}
use plcsim_connector.Error.{Outcome, returned, thrown, undefined}
use plcsim_connector.Instance.{Impl}
use plcsim_connector.Instance.Lifetime.{IsMethod}
use plcsim_connector.Instance.Methods.{Client}
use plcsim_connector.Prog.{Prog}
use plcsim_connector.Python.{is_caught, Result, done, raised, crashed, result_of, and_then}
use plcsim_connector.Python.Discarding.{moved}
use plcsim_connector.Python.Reconnecting.{
  Session, Settings, on_instance, connected_if, is_connected, drop, attached, need_runtime,
  keep_attached, attach_once, reconnect, poll_connect, connected_or, require_connected, retry, call,
}
use plcsim_connector.Python.Reconnecting.Dropped.{drop-IsHeld}
use plcsim_connector.Python.Reconnecting.Held.{
  IsHeld, SessionEnds, returns, raises, HasInstance, IsHookIfThere, SessionEnds-and_then,
}
use plcsim_connector.Python.Waiting.{Environment}
use plcsim_connector.RuntimeManager.{try_attach}
use plcsim_connector.RuntimeManager.Attach.{
  TryEnds, attached as connected, not_yet, refused, try_attach-TryEnds,
}
use plcsim_connector.Sdk.{Sdk}
use plcsim_connector.System.Owners.{OwnsIfThere}
use plcsim_connector.Python.Reconnecting.Parts.{
  on_instance-Ends, connected-IsHeld, hook-Ends, runtime-Ends,
}

module _ {S : Type 0} (sdk : Sdk S) (env : Environment S) (settings : Settings S) (n : ℕ) where
  -- A session is connected if it says so.
  abbrev pub IsAttachedIf : Bool → Session S → Type 0
  IsAttachedIf true s = HasInstance s
  IsAttachedIf false s = Unit {0}

  keep_attached-Ends :
      (o : Option Impl) (s : Session S)
      → IsHookIfThere settings.on_reconnect
      → IsHeld n (record s { instance = o })
      → s.instance ≡ none
      → SessionEnds n IsAttachedIf (keep_attached sdk env settings o s)
  unfolding keep_attached attached
  keep_attached-Ends none s hook v gone =
      returns tt (record { counted = moved s.world (rw gone refl) v.counted; owned = v.owned })
  keep_attached-Ends (some impl) s hook v gone =
      SessionEnds-and_then n (λ a s'. HasInstance s') IsAttachedIf _ _
        (hook-Ends sdk env settings n settings.on_reconnect (record s { instance = some impl }) hook
          v (impl, refl))
        (λ a s' there v'. returns there v')

  tried-Ends :
      (r : Outcome (Option Impl) × World S) (s : Session S) (api : ApiHandle)
      → IsHookIfThere settings.on_reconnect
      → s.runtime ≡ some api
      → s.instance ≡ none
      → api.owns ≡ true
      → TryEnds (suc n) r
      → SessionEnds n IsAttachedIf
          (and_then (result_of r.0, record s { world = r.1 }) (keep_attached sdk env settings))
  tried-Ends (returned (some impl), w) s api hook held gone owns (connected (there, (owner, v))) =
      keep_attached-Ends (some impl) (record s { world = w }) hook
        (record {
          counted = moved w (rw (held, owns, owner) (omega arith)) v;
          owned = rw held owns;
        })
        gone
  tried-Ends (returned none, w) s api hook held gone owns (not_yet v) =
      keep_attached-Ends none (record s { world = w }) hook
        (record { counted = moved w (rw (held, owns) (omega arith)) v; owned = rw held owns }) gone
  tried-Ends (thrown e, w) s api hook held gone owns (refused final v) =
      raises
        (record { counted = moved w (rw (held, gone, owns) (omega arith)) v; owned = rw held owns })
  tried-Ends (undefined, w) s api hook held gone owns h = elim h [ ]

  attach_once-Ends :
      (api : ApiHandle) (s : Session S)
      → IsHookIfThere settings.on_reconnect
      → IsHeld n s
      → (s.runtime ≡ some api) × (s.instance ≡ none)
      → SessionEnds n IsAttachedIf (attach_once sdk env settings api s)
  unfolding attach_once
  attach_once-Ends api s hook v (held, gone) =
      let owns : api.owns ≡ true = subst OwnsIfThere held v.owned in
      tried-Ends (try_attach sdk env.name_max settings.name (some api) s.world) s api hook held gone
        owns
        (try_attach-TryEnds sdk env.name_max (suc n) settings.name api s.world
          (owns, moved s.world (rw (held, gone, owns) (omega arith)) v.counted) (omega arith))

  reconnect-Ends :
      (s : Session S)
      → IsHookIfThere settings.on_reconnect
      → IsHeld n s
      → SessionEnds n IsAttachedIf (reconnect sdk env settings s)
  unfolding reconnect
  reconnect-Ends s hook v =
      let s' = drop sdk env settings s in
      let (v', gone, free) = drop-IsHeld sdk env settings n s v in
      subst
        (λ o.
          SessionEnds n IsAttachedIf
            (and_then (need_runtime sdk env settings o s') (attach_once sdk env settings)))
        (sym free)
        (SessionEnds-and_then n (λ api s''. (s''.runtime ≡ some api) × (s''.instance ≡ none))
          IsAttachedIf _ _ (runtime-Ends sdk env settings n s' v' gone free)
          (λ api s'' held v''. attach_once-Ends api s'' hook v'' held))

  -- poll_connect returns or raises with the count right, without a crash, and after it has returned True
  -- the session has an instance.
  pub poll_connect-Ends :
      (s : Session S)
      → IsHookIfThere settings.on_reconnect
      → IsHeld n s
      → SessionEnds n IsAttachedIf (poll_connect sdk env settings s)
  unfolding poll_connect is_connected
  poll_connect-Ends s hook v =
      go (connected_if sdk env settings s.instance s)
        (connected-IsHeld sdk env settings n s s.instance refl v)
    where
      go :
          (r : Bool × Session S)
          → IsHeld n r.1 × ((r.0 ≡ false) ⊎ HasInstance r.1)
          → SessionEnds n IsAttachedIf
              (if r.0 then (done true, r.1) else reconnect sdk env settings r.1)
      go (true, s') (v', inl no_) = absurd (ground arith)
      go (true, s') (v', inr there) = returns there v'
      go (false, s') (v', h) = reconnect-Ends s' hook v'

  require_connected-Ends :
      (s : Session S)
      → IsHookIfThere settings.on_reconnect
      → IsHeld n s
      → SessionEnds n (λ a s'. HasInstance s') (require_connected sdk env settings s)
  unfolding require_connected connected_or
  require_connected-Ends s hook v =
      SessionEnds-and_then n IsAttachedIf (λ a s'. HasInstance s') _ _ (poll_connect-Ends s hook v)
        go
    where
      go :
          (b : Bool) (s' : Session S)
          → IsAttachedIf b s'
          → IsHeld n s'
          → SessionEnds n (λ a s''. HasInstance s'') (connected_or sdk env settings b s')
      go true s' there v' = returns there v'
      go false s' there v' = raises v'

  -- A call without another attempt.
  pub call_again-Ends :
      {A : Type 0} (m : Prog (Client S) A) (s : Session S)
      → IsHookIfThere settings.on_reconnect
      → IsMethod m
      → IsHeld n s
      → SessionEnds n
          (λ (a : A) s'. HasInstance s')
          (and_then (require_connected sdk env settings s) (λ _. on_instance sdk env settings m))
  call_again-Ends m s hook t v =
      SessionEnds-and_then n (λ a s'. HasInstance s') (λ a s'. HasInstance s') _ _
        (require_connected-Ends s hook v)
        (λ a s' there v'. on_instance-Ends sdk env settings n m s' t v' there)

  retry-Ends :
      {A : Type 0} (m : Prog (Client S) A) (r : Result A × Session S)
      → IsHookIfThere settings.on_reconnect
      → IsMethod m
      → SessionEnds n (λ a s'. HasInstance s') r
      → SessionEnds n (λ a s'. HasInstance s') (retry sdk env settings m r)
  unfolding retry
  retry-Ends m (done a, s) hook t h = h
  retry-Ends m (crashed, s) hook t h = h
  retry-Ends m (raised e, s) hook t (raises v) = elim (Bool-cases (is_caught e)) [
    | inl again ↦
        rw again (
          call_again-Ends m (drop sdk env settings s) hook t (drop-IsHeld sdk env settings n s v).0)
    | inr final ↦ rw final (raises v)
  ]

  -- A call through a ReconnectingInstance, of any method of the native Instance, returns or raises, with
  -- the count of the owners of the API right and without a crash, whatever the session held before and
  -- however the reconnection in between went. After it has returned the session has an instance.
  pub call-Ends :
      {A : Type 0} (m : Prog (Client S) A) (s : Session S)
      → IsHookIfThere settings.on_reconnect
      → IsMethod m
      → IsHeld n s
      → SessionEnds n (λ a s'. HasInstance s') (call sdk env settings m s)
  unfolding call
  call-Ends m s hook t v =
      SessionEnds-and_then n (λ a s'. HasInstance s') (λ a s'. HasInstance s') _ _
        (require_connected-Ends s hook v)
        (λ a s' there v'.
          retry-Ends m _ hook t (on_instance-Ends sdk env settings n m s' t v' there))
