-- ===== src/Python/Reconnecting/Parts.antt =====
-- The steps of a ReconnectingInstance of bindings/python/plcsim_connector/__init__.py: calling a
-- method, the hook, and making a RuntimeManager.
use plcsim_connector.Common.{
  ◌⊎◌, ℕ, suc, ◌+◌, ◌≡◌, ◌≢◌, refl, sym, ap, false, Option, none, some, arith, inl, inr,
}
use mathlib.Core.Path.{subst}
use plcsim_connector.ApiHandle.{World, ApiHandle}
use plcsim_connector.ApiHandle.Refcount.{share}
use plcsim_connector.Error.{Outcome, returned, thrown, undefined}
use plcsim_connector.Instance.{Impl, Held}
use plcsim_connector.Instance.Evolution.{KeepsCount, Evolves-KeepsCount}
use plcsim_connector.Instance.Lifetime.{of_held, IsMethod, asks, perform, perform-Ends}
use plcsim_connector.Instance.Methods
use plcsim_connector.Instance.Methods.{Client, close, destruct}
use plcsim_connector.Prog.{Prog}
use plcsim_connector.Python.{Result, done, raised, crashed, Py, result_of}
use plcsim_connector.Python.Discarding.{moved}
use plcsim_connector.Python.Reconnecting.{
  Session, Settings, client_of, with_client, on_instance, connected_if, call_hook, made,
  need_runtime,
}
use plcsim_connector.Python.Reconnecting.Held.{
  IsHeld, SessionEnds, returns, raises, HasInstance, IsHookIfThere,
}
use plcsim_connector.Python.Waiting.{Environment}
use plcsim_connector.RuntimeManager
use plcsim_connector.RuntimeManager.{construct, try_attach}
use plcsim_connector.RuntimeManager.Ends
use plcsim_connector.RuntimeManager.Ends.{ended, failed}
use plcsim_connector.RuntimeManager.Ownership.{construct-Ends}
use plcsim_connector.RuntimeManager.Queries.{Owning}
use plcsim_connector.Sdk.{Sdk}
use plcsim_connector.System.Owners.{manager_share, instance_share}

module _ {S : Type 0} (sdk : Sdk S) (env : Environment S) (settings : Settings S) where
  kept-IsHeld :
      (n : ℕ) (s : Session S) (impl : Impl) (k : Held S)
      → s.instance ≡ some impl
      → IsHeld n s
      → KeepsCount (record { impl = impl; world = s.world }) k
      → IsHeld n (with_client s (of_held k))
  kept-IsHeld n s impl k there v keep =
      let rest = manager_share s.runtime in
      let split : n + (instance_share s.instance + rest) ≡ n + rest + share impl.api =
        rw there (omega arith) in
      record {
        counted = moved k.world (omega arith) (keep (n + rest) (moved s.world split v.counted));
        owned = v.owned;
      }

  -- A call that has put the handle `k` in the place of the session's.
  answered-Ends :
      {A : Type 0} (n : ℕ) (r : Result A) (s : Session S) (k : Held S)
      → r ≢ crashed
      → IsHeld n (with_client s (of_held k))
      → SessionEnds n (λ a s'. HasInstance s') (r, with_client s (of_held k))
  answered-Ends n (done a) s k safe v = returns (k.impl, refl) v
  answered-Ends n (raised e) s k safe v = raises v
  answered-Ends n crashed s k safe v = absurd (safe refl)

  pub result_of-crashed : {A : Type 0} (r : Outcome A) → r ≢ undefined → result_of r ≢ crashed
  result_of-crashed (returned a) safe e = cc e
  result_of-crashed (thrown x) safe e = cc e
  result_of-crashed undefined safe e = safe refl

  pub client_of-held :
      (s : Session S) (impl : Impl)
      → s.instance ≡ some impl
      → client_of s ≡ of_held (record { impl = impl; world = s.world })
  client_of-held s impl there = ap (λ o. record { impl = o; world = s.world }) there

  pub on_instance-Ends :
      {A : Type 0} (n : ℕ) (m : Prog (Client S) A) (s : Session S)
      → IsMethod m
      → IsHeld n s
      → HasInstance s
      → SessionEnds n (λ a s'. HasInstance s') (on_instance sdk env settings m s)
  unfolding on_instance
  on_instance-Ends n m s t v (impl, there) =
      let h : Held S = record { impl = impl; world = s.world } in
      let e = t.ends h in
      subst
        (λ (c : Client S).
          SessionEnds n (λ a s'. HasInstance s') (result_of (m c).0, with_client s (m c).1))
        (sym (client_of-held s impl there))
        (subst
          (λ (c : Client S).
            SessionEnds n (λ a s'. HasInstance s') (result_of (m (of_held h)).0, with_client s c))
          (sym e.same)
          (answered-Ends n _ s e.after (result_of-crashed _ e.defined)
            (kept-IsHeld n s impl e.after there v (Evolves-KeepsCount h e.after e.evolves))))

  pub connected-IsHeld :
      (n : ℕ) (s : Session S) (o : Option Impl)
      → s.instance ≡ o
      → IsHeld n s
      → let (b, s') = connected_if sdk env settings o s in
        IsHeld n s' × ((b ≡ false) ⊎ HasInstance s')
  unfolding connected_if perform
  connected-IsHeld n s none e v = (v, inl refl)
  connected-IsHeld n s (some impl) there v =
      let h : Held S = record { impl = impl; world = s.world } in
      let e = perform-Ends sdk asks h in
      subst
        (λ (c : Client S).
          IsHeld n (with_client s c)
          × (((Methods.is_connected sdk (of_held h)).0 ≡ false) ⊎ HasInstance (with_client s c)))
        (sym e.same)
        (
          kept-IsHeld n s impl e.after there v (Evolves-KeepsCount h e.after e.evolves),
          inr (e.after.impl, refl),
        )

  pub hook-Ends :
      (n : ℕ) (o : Option (Py (Client S) (Unit {0}))) (s : Session S)
      → IsHookIfThere o
      → IsHeld n s
      → HasInstance s
      → SessionEnds n (λ a s'. HasInstance s') (call_hook sdk env settings o s)
  unfolding call_hook
  hook-Ends n none s t v there = returns there v
  hook-Ends n (some hook) s t v (impl, there) =
      let h : Held S = record { impl = impl; world = s.world } in
      subst
        (λ (c : Client S).
          SessionEnds n (λ a s'. HasInstance s') ((hook c).0, with_client s (hook c).1))
        (sym (client_of-held s impl there))
        (subst
          (λ (c : Client S).
            SessionEnds n (λ a s'. HasInstance s') ((hook (of_held h)).0, with_client s c))
          (sym (t.same h))
          (answered-Ends n _ s (t.after h) (t.safe h)
            (kept-IsHeld n s impl (t.after h) there v (t.keeps h))))

  made-Ends :
      (n : ℕ) (s : Session S) (r : Outcome ApiHandle × World S)
      → s.instance ≡ none
      → s.runtime ≡ none
      → RuntimeManager.Ends.Ends n (Owning (suc n)) r
      → SessionEnds n
          (λ api s'. (s'.runtime ≡ some api) × (s'.instance ≡ none))
          (made sdk env settings s r)
  unfolding made
  made-Ends n s (returned api, w) gone free (ended (owns, v)) =
      returns (refl, gone)
        (record { counted = moved w (rw (gone, owns) (omega arith)) v; owned = owns })
  made-Ends n s (thrown e, w) gone free (failed v) =
      raises (record { counted = moved w (rw (gone, free) (omega arith)) v; owned = rw free tt })
  made-Ends n s (undefined, w) gone free h = elim h [ ]

  -- A session that holds nothing makes a RuntimeManager.
  pub runtime-Ends :
      (n : ℕ) (s : Session S)
      → IsHeld n s
      → s.instance ≡ none
      → s.runtime ≡ none
      → SessionEnds n
          (λ api s'. (s'.runtime ≡ some api) × (s'.instance ≡ none))
          (need_runtime sdk env settings none s)
  unfolding need_runtime
  runtime-Ends n s v gone free = made-Ends n s _ gone free (
      construct-Ends sdk env.name_max n _ s.world
        (moved s.world (rw (gone, free) (omega arith)) v.counted))
