-- ===== src/Python/Reconnecting/Dropped.antt =====
-- `_drop` of ReconnectingInstance (bindings/python/plcsim_connector/__init__.py): letting go of everything
-- gives everything back.
use plcsim_connector.Common.{ℕ, ◌+◌, ◌≡◌, refl, sym, Option, none, some, arith}
use mathlib.Core.Path.{subst}
use plcsim_connector.ApiHandle.Refcount.{Holds}
use plcsim_connector.Instance.{Impl}
use plcsim_connector.Instance.Close.{destruct-close-Holds}
use plcsim_connector.Python.Discarding.{moved, discard-Holds}
use plcsim_connector.Python.Reconnecting.{Session, Settings, drop_instance, drop}
use plcsim_connector.Python.Reconnecting.Held.{IsHeld}
use plcsim_connector.Python.Waiting.{Environment}
use plcsim_connector.Sdk.{Sdk}
use plcsim_connector.System.Owners.{manager_share, instance_share}

module _ {S : Type 0} (sdk : Sdk S) (env : Environment S) (settings : Settings S) where
  drop_instance-Holds :
      (m : ℕ) (s : Session S) (o : Option Impl)
      → Holds (m + instance_share o) s.world
      → Holds m (drop_instance sdk env settings o s).world
  unfolding drop_instance
  drop_instance-Holds m s none v = moved s.world (omega arith) v
  drop_instance-Holds m s (some impl) v =
      destruct-close-Holds sdk m (record { impl = impl; world = s.world }) v

  drop_instance-runtime :
      (s : Session S) (o : Option Impl) → (drop_instance sdk env settings o s).runtime ≡ s.runtime
  unfolding drop_instance
  drop_instance-runtime s none = refl
  drop_instance-runtime s (some impl) = refl

  -- Letting go of everything gives everything back.
  pub drop-Holds : (n : ℕ) (s : Session S) → IsHeld n s → Holds n (drop sdk env settings s).world
  unfolding drop
  drop-Holds n s v =
      let s' = drop_instance sdk env settings s.instance s in
      discard-Holds sdk env.name_max n s'.runtime s'.world (
        subst (λ o. Holds (n + manager_share o) s'.world) (sym (drop_instance-runtime s s.instance))
          (drop_instance-Holds (n + manager_share s.runtime) s s.instance
            (moved s.world (omega arith) v.counted)))

  dropped_instance :
      (s : Session S) (o : Option Impl)
      → s.instance ≡ o
      → (drop_instance sdk env settings o s).instance ≡ none
  unfolding drop_instance
  dropped_instance s none e = e
  dropped_instance s (some impl) e = refl

  pub drop-IsHeld :
      (n : ℕ) (s : Session S)
      → IsHeld n s
      → IsHeld n (drop sdk env settings s)
        × ((drop sdk env settings s).instance ≡ none)
        × ((drop sdk env settings s).runtime ≡ none)
  drop-IsHeld n s v =
      let gone : (drop sdk env settings s).instance ≡ none =
        unfold drop in dropped_instance s s.instance refl in
      let free : (drop sdk env settings s).runtime ≡ none = unfold drop in refl in
      (
        record {
          counted = moved _ (rw (gone, free) (omega arith)) (drop-Holds n s v);
          owned = rw free tt;
        },
        gone,
        free,
      )
