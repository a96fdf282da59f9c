-- ===== src/Webots/Tests.antt =====
-- The controller of examples/webots/di_do_controller.py over the simulated SDK.
use plcsim_connector.Common.{◌≡◌, true, false, none, some, [], ◌∷◌}
use plcsim_connector.Common.Int.{pos}
use plcsim_connector.ApiHandle.{World}
use plcsim_connector.Python.{native, raised, effective_dir}
use plcsim_connector.Python.Reconnecting.{new_session}
use plcsim_connector.Python.Waiting.{Environment}
use plcsim_connector.RuntimeManager.{unavailable_error}
use plcsim_connector.RuntimeManager.Tests.{deserted, construct-deserted}
use plcsim_connector.Simulator.{sample, State, idle}
use plcsim_connector.Webots.{main}
use plcsim_connector.Webots.Startup.{main_unavailable}

abbrev machine : Environment State
machine = record { name_max = 300; detected = none; took = λ w. 1; overslept = λ w. 0 }

abbrev fresh : World State
fresh = record { refcount = pos 0; manager = none; external = idle }

main_unavailable_example : main sample machine 3 (true ∷ []) 0 deserted ≡ (
  some (raised (native (unavailable_error sample 300))),
  record { plc = new_session 0 deserted; velocities = false ∷ [] },
)
unfolding effective_dir
main_unavailable_example =
    main_unavailable sample machine 2 (true ∷ []) 0 deserted deserted _ construct-deserted
