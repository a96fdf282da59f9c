-- ===== src/System/Queries.antt =====
-- The queries of src/SdkBridge.cpp on a RuntimeManager, and `tryAttach`, as a client of a process makes them.
use plcsim_connector.Common.{ℕ, ◌≡◌, Option, none, some, arith, Bytes}
use plcsim_connector.ApiHandle.{World, ApiHandle}
use plcsim_connector.Error.{Outcome, returned, thrown, undefined}
use plcsim_connector.Instance.{Impl}
use plcsim_connector.Sdk.{Sdk}
use plcsim_connector.System.Owners.{owners_of, IsSound, recounted, some_owner}
use plcsim_connector.System.{System, at_place}
use plcsim_connector.RuntimeManager.Attach.{TryEnds, not_yet, refused, try_attach-TryEnds}
use plcsim_connector.RuntimeManager.Ends.{Ends-Holds}
use plcsim_connector.RuntimeManager.Queries.{listing-Ends, version-Ends, available-Holds}
use plcsim_connector.System.{tried, try_by, list_by, version_by, available_by}

module _ {S : Type 0} (sdk : Sdk S) (name_max : ℕ) where
  tried-IsSound :
      (y : System S) (r : Outcome (Option Impl) × World S)
      → IsSound y
      → TryEnds (owners_of y) r
      → IsSound (tried sdk name_max y r)
  unfolding tried
  tried-IsSound y (returned (some impl), w) v (TryEnds.attached (there, (owns, h))) = record {
    counted = recounted w (ground arith) h;
    managed = v.managed;
  }
  tried-IsSound y (returned none, w) v (not_yet h) = record { counted = h; managed = v.managed }
  tried-IsSound y (thrown e, w) v (refused final h) = record { counted = h; managed = v.managed }
  tried-IsSound y (undefined, w) v h = elim h [ ]

  pub try_by-IsSound :
      (y : System S) (i : ℕ) (m : Option ApiHandle) (text : Bytes)
      → IsSound y
      → at_place y.managers i ≡ m
      → IsSound (try_by sdk name_max y m text)
  unfolding try_by
  try_by-IsSound y i none text v e = v
  try_by-IsSound y i (some api) text v e =
      let (own, more) = some_owner y i api v e in
      tried-IsSound y _ v (try_attach-TryEnds sdk name_max (owners_of y) text api y.world own more)

  pub list_by-IsSound :
      (y : System S) (i : ℕ) (m : Option ApiHandle)
      → IsSound y
      → at_place y.managers i ≡ m
      → IsSound (list_by sdk name_max y m)
  unfolding list_by
  list_by-IsSound y i none v e = v
  list_by-IsSound y i (some api) v e =
      let (own, more) = some_owner y i api v e in
      record {
        counted =
            Ends-Holds (owners_of y) _
              (listing-Ends sdk name_max (owners_of y) api y.world own more);
        managed = v.managed;
      }

  pub version_by-IsSound :
      (y : System S) (i : ℕ) (m : Option ApiHandle)
      → IsSound y
      → at_place y.managers i ≡ m
      → IsSound (version_by sdk name_max y m)
  unfolding version_by
  version_by-IsSound y i none v e = v
  version_by-IsSound y i (some api) v e =
      let (own, more) = some_owner y i api v e in
      record {
        counted =
            Ends-Holds (owners_of y) _
              (version-Ends sdk name_max (owners_of y) api y.world own more);
        managed = v.managed;
      }

  pub available_by-IsSound :
      (y : System S) (m : Option ApiHandle) → IsSound y → IsSound (available_by sdk name_max y m)
  unfolding available_by
  available_by-IsSound y none v = v
  available_by-IsSound y (some api) v = record {
    counted = available-Holds sdk name_max (owners_of y) api y.world v.counted;
    managed = v.managed;
  }
