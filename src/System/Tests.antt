-- ===== src/System/Tests.antt =====
-- A client of src/SdkBridge.cpp over the simulated SDK: it attaches an instance, drops the RuntimeManager
-- and goes on using the instance.
use plcsim_connector.Common.{refl, true, none, List, [], ◌∷◌, codes}
use plcsim_connector.Common.Int.{pos}
use plcsim_connector.Instance.Lifetime.{sets}
use plcsim_connector.System.{
  System, Action, constructs, attaches, tries, lists, moves, assigns, destroys, calls, closes,
  moves_instance, destroys_instance, run,
}
use plcsim_connector.System.Owners.{IsSound}
use plcsim_connector.System.Sound.{run-IsSound}
use plcsim_connector.Simulator.{sample, State, idle}

abbrev start : System State
start = record {
  managers = [];
  instances = [];
  world = record { refcount = pos 0; manager = none; external = idle };
}

start-IsSound : IsSound start
start-IsSound = record { counted = record { counted = refl; shared = refl }; managed = tt }

abbrev history : List Action
history =
    constructs none
    ∷ constructs none
    ∷ moves 1
    ∷ tries 0 (codes "C")
    ∷ attaches 0 (codes "A")
    ∷ lists 0
    ∷ assigns 1 0
    ∷ destroys 1
    ∷ moves_instance 0
    ∷ calls 0 (sets (codes "%Q4.1") true)
    ∷ closes 0
    ∷ destroys_instance 0
    ∷ []

run-IsSound_example : IsSound (run sample 300 start history)
run-IsSound_example = run-IsSound sample 300 start history start-IsSound
