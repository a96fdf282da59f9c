-- ===== src/RuntimeManager/Tests.antt =====
-- The Runtime Manager of src/SdkBridge.cpp over the simulated SDK, which has the instances A and B.
use plcsim_connector.Common.{
  ℕ, zero, suc, List, ap, get_elem?, ◌≡◌, refl, true, false, none, some, [], ◌∷◌, codes, arith,
}
use plcsim_connector.Common.Int.{ℤ, pos, increment, decrement, ◌==ℤ◌}
use plcsim_connector.ApiHandle
use plcsim_connector.ApiHandle.{World, ApiHandle, unowned, manager_of, copy, assign}
use plcsim_connector.Bridge.{check, succeeded}
use plcsim_connector.Error.{Error, returned, thrown}
use plcsim_connector.Instance.{Impl, no_sizes}
use plcsim_connector.Sdk.{Wide}
use plcsim_connector.Text.{to_wide}
use plcsim_connector.Std.Decimal
use plcsim_connector.Simulator.{sample, State, idle, worn, registered, entry}
use plcsim_connector.RuntimeManager.{
  manager, not_null, construct, require_available, keep_available, unavailable_error,
  registered_instances, new_impl, attach_name, attach, try_attach, caught, version_text,
}
use plcsim_connector.RuntimeManager.Ends.{Ends}
use plcsim_connector.RuntimeManager.Queries.{Owning}
use plcsim_connector.RuntimeManager.Ownership.{Attached, construct-Ends, attach-Ends}
use plcsim_connector.RuntimeManager.Attach.{TryEnds, try_attach-TryEnds}
use plcsim_connector.RuntimeManager.Unknown.{ListsAll, attach-ListsAll}
use plcsim_connector.RuntimeManager.Listing.{
  reply, IsTable, infos_of, take, registered_instances-take,
}

abbrev fresh : World State
fresh = record { refcount = pos 0; manager = none; external = idle }

abbrev loaded : World State
loaded = record { refcount = pos 1; manager = some 1; external = idle }

abbrev twice : World State
twice = record loaded { refcount = pos 2 }

abbrev owner : ApiHandle
owner = record { owns = true }

abbrev first : Impl
first = record {
  api = owner;
  raw = some 7;
  id = pos 1;
  name = codes "A";
  interface_removed = false;
  area_sizes = no_sizes;
}

loaded-Owning : Owning 1 owner loaded
loaded-Owning = (refl, record { counted = refl; shared = refl })

version_8 : version_text 524288 ≡ codes "8.0"
unfolding version_text Decimal.to_string
version_8 = refl

-- No Runtime Manager runs.
abbrev pub deserted : World State
deserted = record fresh { external = record idle { available = false } }

pub construct-deserted :
    construct sample 300 none deserted ≡ (thrown (unavailable_error sample 300), deserted)
unfolding construct ApiHandle.acquire ApiHandle.initialize ApiHandle.add_ref require_available
    keep_available manager_of assign ApiHandle.release ApiHandle.drop_ref ApiHandle.shut_down check
    succeeded ◌==ℤ◌ increment decrement
construct-deserted = refl

-- A manager and an instance that are made after the interfaces were dropped.
construct-worn :
    construct sample 300 none (record fresh { external = worn })
    ≡ (returned owner, record loaded { external = worn })
unfolding construct ApiHandle.acquire ApiHandle.initialize ApiHandle.add_ref require_available
    keep_available manager_of assign ApiHandle.release check succeeded ◌==ℤ◌ increment
construct-worn = refl

try_attach-worn :
    try_attach sample 300 (codes "A") (some owner) (record loaded { external = worn })
    ≡ (returned (some first), record twice { external = worn })
unfolding try_attach caught attach manager not_null attach_name new_impl manager_of copy assign
    ApiHandle.release to_wide check succeeded ◌==ℤ◌ increment
try_attach-worn = refl

construct-Ends_example : Ends 0 (Owning 1) (construct sample 300 none fresh)
construct-Ends_example =
    construct-Ends sample 300 0 none fresh (record { counted = refl; shared = refl })

attach-Ends_example : Ends 1 (Attached 1) (attach sample 300 (codes "A") (some owner) loaded)
attach-Ends_example = attach-Ends sample 300 1 (codes "A") owner loaded loaded-Owning (omega arith)

try_attach-TryEnds_example : TryEnds 1 (try_attach sample 300 (codes "C") (some owner) loaded)
try_attach-TryEnds_example =
    try_attach-TryEnds sample 300 1 (codes "C") owner loaded loaded-Owning (omega arith)

entry_lem : (rows : List (ℤ × Wide)) (i : ℕ) → entry rows i ≡ reply sample (get_elem? rows i)
entry_lem [] i = refl
entry_lem (row ∷ rows) zero = refl
entry_lem (row ∷ rows) (suc i) = entry_lem rows i

sample-IsTable : IsTable sample 1 registered
unfolding ◌==ℤ◌
sample-IsTable = record {
  answers = λ i s. ap (λ r. (r, s)) (entry_lem registered i);
  is_an_error = refl;
}

registered_instances-take_example :
    registered_instances sample 300 (some owner) loaded
    ≡ (returned (infos_of sample (take 3 registered)), loaded)
unfolding manager_of
registered_instances-take_example =
    registered_instances-take sample 300 1 registered owner loaded 3 idle refl refl sample-IsTable

attach-ListsAll_example :
    (e : Error) × ListsAll (infos_of sample registered) e
    × (attach sample 300 (codes "C") (some owner) loaded ≡ (thrown e, loaded))
    × (try_attach sample 300 (codes "C") (some owner) loaded ≡ (returned none, loaded))
unfolding manager_of to_wide
attach-ListsAll_example =
    attach-ListsAll sample 300 (codes "C") owner loaded 1 none registered 3 idle refl refl refl
      (omega arith) sample-IsTable
