-- ===== src/Python/Discarding.antt =====
-- `rt = None` in bindings/python/plcsim_connector/__init__.py, and the count of the owners of the API.
use plcsim_connector.Common.{ℕ, ◌+◌, ◌≡◌, Option, none, some, arith}
use mathlib.Core.Path.{subst}
use plcsim_connector.ApiHandle.{World, ApiHandle}
use plcsim_connector.ApiHandle.Refcount.{Holds, release-Holds}
use plcsim_connector.Python.{discard}
use plcsim_connector.RuntimeManager
use plcsim_connector.Sdk.{Sdk}
use plcsim_connector.System.Owners.{manager_share}

pub moved : {S : Type 0} {n m : ℕ} (w : World S) → n ≡ m → Holds n w → Holds m w
moved w e v = subst (λ k. Holds k w) e v

-- The manager that is let go of gives its share back.
pub discard-Holds :
    {S : Type 0} (sdk : Sdk S) (name_max n : ℕ) (o : Option ApiHandle) (w : World S)
    → Holds (n + manager_share o) w
    → Holds n (discard sdk name_max o w)
unfolding RuntimeManager.destruct
discard-Holds sdk name_max n none w v = moved w (omega arith) v
discard-Holds sdk name_max n (some api) w v = release-Holds sdk n api w v
