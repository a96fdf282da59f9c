-- ===== src/ApiHandle/Tests.antt =====
-- Processes with handles of src/SdkBridge.cpp, over the simulated SDK.
use plcsim_connector.Common.{codes, ℕ, ◌≡◌, refl, true, none, some, [], ◌∷◌, arith}
use plcsim_connector.Common.Int.{negsuc, pos, ◌==ℤ◌}
use plcsim_connector.Bridge.{succeeded}
use plcsim_connector.ApiHandle.{manager_of, acquire, initialize, add_ref, release, copy}
use plcsim_connector.ApiHandle.Refcount.{owners}
use plcsim_connector.ApiHandle.Process.{
  Process, acquires, copies, releases, handle_at, constructed, step, run,
}
use plcsim_connector.ApiHandle.Process.Shared.{IsCounted, fresh, owner_has_manager}
use plcsim_connector.ApiHandle.Resources.{acquire-balanced}
use plcsim_connector.Diagnostics.Balance.{IsLedger}
use plcsim_connector.Sdk.{Sdk}
use plcsim_connector.Simulator.{sample, State, idle}

-- Two handles, of which the second was copied from the first.
abbrev shared : Process State
shared = record {
  handles = record { owns = true } ∷ record { owns = true } ∷ [];
  world = record { refcount = pos 2; manager = some 1; external = idle };
}

shared-IsCounted : IsCounted shared
shared-IsCounted = record { counted = refl; shared = refl }

owner_has_manager_example :
    let p = run sample (fresh sample idle) (acquires none ∷ copies 0 ∷ releases 1 ∷ []) in
    ((m : ℕ) × (manager_of (handle_at p.handles 0) p.world ≡ some m))
    × (p.world.refcount ≡ pos (owners p.handles))
unfolding run step constructed acquire initialize add_ref copy release ◌==ℤ◌ succeeded
owner_has_manager_example =
    owner_has_manager sample idle (acquires none ∷ copies 0 ∷ releases 1 ∷ []) 0 refl

-- A machine on which InitializeApi fails.
abbrev failing : Sdk State
failing = record sample { initialize_api = λ path s. ((negsuc 11, none), s) }

sample-IsLedger : IsLedger failing (λ s. s.resources)
sample-IsLedger = record {
  formatting = λ code s. omega arith;
  freeing = λ buffer s n e. omega (arith, e);
  loading = λ path s. omega arith;
  unloading = λ handle s n e. omega (arith, e);
  opening = λ s. omega arith;
  querying = λ token s. refl;
  closing = λ token s n e. omega (arith, e);
  resetting = λ code s. refl;
  initializing = λ path s. refl;
}

acquire-balanced_example :
    (acquire failing (some (codes "C:\\Siemens")) (fresh failing idle).world).1.external.resources
    ≡ 0
acquire-balanced_example =
    acquire-balanced failing (λ s. s.resources) (some (codes "C:\\Siemens"))
      (fresh failing idle).world sample-IsLedger
