-- ===== src/Python/Tests.antt =====
-- The Python layer of bindings/python/plcsim_connector/__init__.py over the simulated SDK.
use plcsim_connector.Common.{[], ◌∷◌, refl, none, some, ◌++◌, codes, arith, Bytes}
use plcsim_connector.Common.Int.{pos}
use plcsim_connector.ApiHandle.{World}
use plcsim_connector.Python.Command.{main}
use plcsim_connector.Python.Command.Ends.{CommandEnds, main-CommandEnds}
use plcsim_connector.Python.Waiting.{Environment, wait_for_instance}
use plcsim_connector.Python.Waiting.Patience.{IsPatient, wait-IsPatient}
use plcsim_connector.Python.Waiting.Terminates.{HasEnded, wait-HasEnded}
use plcsim_connector.Simulator.{sample, State, idle}

abbrev machine : Environment State
machine = record { name_max = 300; detected = none; took = λ w. 1; overslept = λ w. 0 }

abbrev fresh : World State
fresh = record { refcount = pos 0; manager = none; external = idle }

wait-IsPatient_example :
    IsPatient
      (some 12)
      (wait_for_instance sample machine (codes "C") (some 5) 2 none none 4 7 fresh)
wait-IsPatient_example = wait-IsPatient sample machine (codes "C") (some 5) 2 none none 4 7 fresh

wait-HasEnded_example :
    HasEnded (wait_for_instance sample machine (codes "C") (some 5) 2 none none 4 0 fresh)
wait-HasEnded_example = wait-HasEnded sample machine (codes "C") 5 2 none none 0 fresh (omega arith)

abbrev joined : Bytes → Bytes → Bytes
joined dir name = dir ++ (b'\\' ∷ name)

main-CommandEnds_example :
    CommandEnds sample 300 none fresh 0
      (codes "report" ∷ [])
      (main sample 300 (codes "report" ∷ []) none fresh)
main-CommandEnds_example =
    main-CommandEnds sample 300 0 (codes "report" ∷ []) none fresh
      (record { counted = refl; shared = refl })
