-- ===== src/Webots/Startup.antt =====
-- The controller of examples/webots/di_do_controller.py before its first connection.
use plcsim_connector.Common.{ℕ, suc, ◌≡◌, refl, Bool, false, none, some, List, [], ◌∷◌}
use plcsim_connector.ApiHandle.{World}
use plcsim_connector.Error.{Error, thrown}
use plcsim_connector.Python.{native, raised, effective_dir}
use plcsim_connector.Python.Reconnecting.{new_session}
use plcsim_connector.Python.Reconnecting.Behaviour.{poll_connect_unavailable}
use plcsim_connector.Python.Waiting.{Environment}
use plcsim_connector.RuntimeManager.{construct}
use plcsim_connector.Sdk.{Sdk}
use plcsim_connector.Webots.{settings, started, start, main}

module _ {S : Type 0} (sdk : Sdk S) (env : Environment S) where
  -- Where the constructor of RuntimeManager throws at first, as it does while no Runtime Manager runs, the
  -- controller ends with that error before its first step, retryable or not.
  pub main_unavailable :
      (rounds : ℕ) (readings : List Bool) (time : ℕ) (w w' : World S) (e : Error)
      → construct sdk env.name_max (effective_dir env.detected none) w ≡ (thrown e, w')
      → main sdk env (suc rounds) readings time w ≡ (
        some (raised (native e)),
        record { plc = record (new_session time w) { world = w' }; velocities = false ∷ [] },
      )
  unfolding main start started settings
  main_unavailable rounds readings time w w' e down =
      rw (poll_connect_unavailable sdk env (settings sdk) time w w' e down) refl
