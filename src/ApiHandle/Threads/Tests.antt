-- ===== src/ApiHandle/Threads/Tests.antt =====
-- Two threads of src/SdkBridge.cpp over the simulated SDK: both acquire the API at once, and then one
-- gives its handle back.
use plcsim_connector.Common.{
  ℕ, ◌≡◌, refl, none, some, false, List, [], ◌∷◌, arith, get_elem?, ◌++◌, ◌==◌,
}
use plcsim_connector.Common.Int.{pos, increment, decrement, ◌==ℤ◌}
use plcsim_connector.Common.Totals.{total}
use plcsim_connector.ApiHandle.{is_null, manager_of, initialize}
use plcsim_connector.Bridge.{succeeded}
use plcsim_connector.ApiHandle.Threads.Atomic.{
  is_critical, share, owning, view, effects, perform_all,
}
use plcsim_connector.ApiHandle.Threads.Exclusion.{run-exclusive}
use plcsim_connector.ApiHandle.Threads.Refines.{run-perform_all}
use plcsim_connector.ApiHandle.Threads.Safety.{run-counted, reads_manager}
use plcsim_connector.ApiHandle.Threads.Progress.{run-FreesMutex, FreesMutex}
use plcsim_connector.ApiHandle.Threads.{
  State, Choice, rests, acquires, releases, start, step, run, acquire_tests, acquire_waits, idle,
  thread_moves, moves, begins, locks, unlocks, goes_on, inside, put, initialized,
}
use plcsim_connector.Simulator

-- Both threads start to acquire; the first one gets the mutex, the second one waits at it.
abbrev racing : List (ℕ × Choice Simulator.State)
racing = (0, acquires none) ∷ (1, acquires none) ∷ (0, rests) ∷ (1, rests) ∷ []

abbrev now : List (ℕ × Choice Simulator.State) → State Simulator.State
now turns = run Simulator.sample (start 2 Simulator.idle) turns

first_inside :
    get_elem? (now racing).threads 0 ≡ some (record { owned = 0; pc = acquire_tests none })
unfolding run step thread_moves moves begins locks put
first_inside = refl

second_outside :
    get_elem? (now racing).threads 1 ≡ some (record { owned = 0; pc = acquire_waits none })
unfolding run step thread_moves moves begins locks put
second_outside = refl

first_holds : (now racing).mutex ≡ some 0
unfolding run step thread_moves moves begins locks put
first_holds = refl

second_waits : now racing ≡ record {
  threads =
      record { owned = 0; pc = acquire_tests none }
      ∷ record { owned = 0; pc = acquire_waits none }
      ∷ [];
  mutex = some 0;
  world = record { refcount = pos 0; manager = none; external = Simulator.idle };
}
unfolding run step thread_moves moves begins locks put
second_waits = refl

run-exclusive_example : is_critical (acquire_waits none) ≡ false
run-exclusive_example =
    run-exclusive Simulator.sample 2 Simulator.idle racing 0 1
      (record { owned = 0; pc = acquire_tests none })
      (record { owned = 0; pc = acquire_waits none }) first_inside second_outside (omega arith) refl

-- The first one acquires, and then the second one.
abbrev acquired_twice : List (ℕ × Choice Simulator.State)
acquired_twice =
    racing
    ++ (0, rests)
      ∷ (0, rests)
      ∷ (0, rests)
      ∷ (1, rests)
      ∷ (0, rests)
      ∷ (0, rests)
      ∷ (1, rests)
      ∷ (1, rests)
      ∷ (1, rests)
      ∷ (1, rests)
      ∷ (1, rests)
      ∷ []

-- Then the first one gives its handle back, and the second one goes on.
abbrev released_once : List (ℕ × Choice Simulator.State)
released_once =
    acquired_twice
    ++ (0, releases) ∷ (0, rests) ∷ (0, rests) ∷ (0, rests) ∷ (0, rests) ∷ (0, rests) ∷ []

twice_free : (now acquired_twice).mutex ≡ none
unfolding step thread_moves moves begins locks unlocks put inside goes_on initialized initialize
    increment ◌==ℤ◌ run succeeded
twice_free = refl

second_owns : get_elem? (now released_once).threads 1 ≡ some (record { owned = 1; pc = idle })
unfolding step thread_moves moves begins locks unlocks put inside goes_on initialized initialize
    increment decrement ◌==ℤ◌ run succeeded
second_owns = refl

run-counted_example :
    let p = now acquired_twice in
    (p.world.refcount ≡ pos (total share p.threads))
    × (is_null p.world.manager ≡ (total share p.threads == 0))
run-counted_example = run-counted Simulator.sample 2 Simulator.idle acquired_twice twice_free

run-perform_all_example :
    let p = now acquired_twice in
    let in_turn =
      perform_all Simulator.sample
        (effects Simulator.sample (start 2 Simulator.idle) acquired_twice)
        (view (start 2 Simulator.idle)) in
    (p.world ≡ in_turn.world) × (total share p.threads ≡ in_turn.owners)
run-perform_all_example =
    run-perform_all Simulator.sample 2 Simulator.idle acquired_twice twice_free

reads_manager_example :
    (m : ℕ) × (manager_of owning (now released_once).world ≡ some m)
    × ((turn : ℕ × Choice Simulator.State)
        → (step Simulator.sample (now released_once) turn).world.manager ≡ some m)
reads_manager_example =
    reads_manager Simulator.sample 2 Simulator.idle released_once 1
      (record { owned = 1; pc = idle }) second_owns (omega arith)

-- The second thread makes a step before each of the first one's.
abbrev alternating : List (ℕ × Choice Simulator.State)
alternating =
    (1, rests)
    ∷ (0, rests)
    ∷ (1, rests)
    ∷ (0, rests)
    ∷ (1, rests)
    ∷ (0, rests)
    ∷ (1, rests)
    ∷ (0, rests)
    ∷ (1, rests)
    ∷ (0, rests)
    ∷ []

run-FreesMutex_example : FreesMutex Simulator.sample (now racing) alternating
run-FreesMutex_example =
    run-FreesMutex Simulator.sample 2 Simulator.idle racing alternating 0 first_holds (omega arith)
