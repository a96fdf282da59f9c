-- ===== src/System/Sound.antt =====
-- The count of src/SdkBridge.cpp is right and its manager in place whatever the clients of a process do
-- with their RuntimeManagers and Instances.
use plcsim_connector.Common.{
  ℕ, suc, ◌+◌, ◌≡◌, refl, sym, ap, Option, none, some, List, [], ◌∷◌, arith, Bytes,
}
use plcsim_connector.Common.Int.{ℤ}
use mathlib.Core.Path.{subst}
use plcsim_connector.ApiHandle.{World, ApiHandle}
use plcsim_connector.Common.{set}
use plcsim_connector.ApiHandle.Refcount.{share, release-Holds}
use plcsim_connector.Error.{Outcome, returned, thrown, undefined}
use plcsim_connector.Instance.{Impl, Held, destroy}
use plcsim_connector.Instance.Evolution.{Evolves-Holds}
use plcsim_connector.Instance.Methods.{Client, close}
use plcsim_connector.Instance.Lifetime.{Call, perform-Ends}
use plcsim_connector.Instance.Close.{close-Holds, destroy-Destroyed}
use plcsim_connector.RuntimeManager.{destruct}
use plcsim_connector.RuntimeManager.Ends
use plcsim_connector.RuntimeManager.Ends.{ended, failed}
use plcsim_connector.RuntimeManager.Queries.{Owning}
use plcsim_connector.RuntimeManager.Ownership.{
  Attached, construct-Ends, attach-Ends, attach_by_id-Ends,
}
use plcsim_connector.Sdk.{Sdk}
use plcsim_connector.System.Owners.{
  total-set, manager_share, instance_share, owners_of, IsSound, recounted, some_owner, All-set,
}
use plcsim_connector.System.{
  System, Action, constructs, attaches, attaches_id, destroys, calls, closes, tries, lists,
  asks_version, asks_available, moves, assigns, moves_instance, assigns_instance, destroys_instance,
  at_place, constructed, attached, attach_by, attach_id_by, replaced, call_at, close_at, destroy_at,
  step, run,
}
use plcsim_connector.System.Queries.{
  try_by-IsSound, list_by-IsSound, version_by-IsSound, available_by-IsSound,
}
use plcsim_connector.System.Moves.{
  move_from-IsSound, assign_from-IsSound, move_instance_from-IsSound, assign_instance_from-IsSound,
  destroy_instance_at-IsSound,
}

module _ {S : Type 0} (sdk : Sdk S) (name_max : ℕ) where
  constructed-IsSound :
      (y : System S) (r : Outcome ApiHandle × World S)
      → IsSound y
      → Ends.Ends (owners_of y) (Owning (suc (owners_of y))) r
      → IsSound (constructed sdk name_max y r)
  unfolding constructed
  constructed-IsSound y (returned api, w) v (ended (owns, h)) = record {
    counted = recounted w (ground arith) h;
    managed = (owns, v.managed);
  }
  constructed-IsSound y (thrown e, w) v (failed h) = record { counted = h; managed = v.managed }
  constructed-IsSound y (undefined, w) v h = elim h [ ]

  attached-IsSound :
      (y : System S) (r : Outcome Impl × World S)
      → IsSound y
      → Ends.Ends (owners_of y) (Attached (owners_of y)) r
      → IsSound (attached sdk name_max y r)
  unfolding attached
  attached-IsSound y (returned impl, w) v (ended (there, (owns, h))) = record {
    counted = recounted w (ground arith) h;
    managed = v.managed;
  }
  attached-IsSound y (thrown e, w) v (failed h) = record { counted = h; managed = v.managed }
  attached-IsSound y (undefined, w) v h = elim h [ ]

  attach_by-IsSound :
      (y : System S) (i : ℕ) (m : Option ApiHandle) (text : Bytes)
      → IsSound y
      → at_place y.managers i ≡ m
      → IsSound (attach_by sdk name_max y m text)
  unfolding attach_by
  attach_by-IsSound y i none text v e = v
  attach_by-IsSound y i (some api) text v e =
      let (own, more) = some_owner y i api v e in
      attached-IsSound y _ v (attach-Ends sdk name_max (owners_of y) text api y.world own more)

  attach_id_by-IsSound :
      (y : System S) (i : ℕ) (m : Option ApiHandle) (id : ℤ)
      → IsSound y
      → at_place y.managers i ≡ m
      → IsSound (attach_id_by sdk name_max y m id)
  unfolding attach_id_by
  attach_id_by-IsSound y i none id v e = v
  attach_id_by-IsSound y i (some api) id v e =
      let (own, more) = some_owner y i api v e in
      attached-IsSound y _ v (attach_by_id-Ends sdk name_max (owners_of y) id api y.world own more)

  destroy_at-IsSound :
      (y : System S) (i : ℕ) (m : Option ApiHandle)
      → IsSound y
      → at_place y.managers i ≡ m
      → IsSound (destroy_at sdk name_max y i m)
  unfolding destroy_at destruct
  destroy_at-IsSound y i none v e = v
  destroy_at-IsSound y i (some api) v e =
      let left = owners_of (record y { managers = set y.managers i none }) in
      let split : owners_of y ≡ left + share api =
        omega (arith, total-set manager_share y.managers i api none e) in
      record {
        counted = release-Holds sdk left api y.world (recounted y.world split v.counted);
        managed = All-set y.managers i none v.managed tt;
      }

  call_at-IsSound :
      (y : System S) (i : ℕ) (o : Option Impl) (c : Call)
      → IsSound y
      → at_place y.instances i ≡ o
      → IsSound (call_at sdk name_max y i o c)
  unfolding call_at replaced
  call_at-IsSound y i none c v e = v
  call_at-IsSound y i (some impl) c v e =
      let h : Held S = record { impl = impl; world = y.world } in
      let p = perform-Ends sdk c h in
      let same : share p.after.impl.api ≡ share impl.api = ap share p.evolves.same_api in
      subst (λ (u : Client S). IsSound (replaced sdk name_max y i u)) (sym p.same)
        (record {
          counted =
              recounted p.after.world
                (omega
                  (arith, same, total-set instance_share y.instances i impl (some p.after.impl) e))
                (Evolves-Holds (owners_of y) h p.after p.evolves v.counted);
          managed = v.managed;
        })

  close_at-IsSound :
      (y : System S) (i : ℕ) (o : Option Impl)
      → IsSound y
      → at_place y.instances i ≡ o
      → IsSound (close_at sdk name_max y i o)
  unfolding close_at replaced close
  close_at-IsSound y i none v e = v
  close_at-IsSound y i (some impl) v e =
      let h : Held S = record { impl = impl; world = y.world } in
      let k = destroy sdk h in
      let left = owners_of (record y { instances = set y.instances i none }) in
      let split : owners_of y ≡ left + share impl.api =
        omega (arith, total-set instance_share y.instances i impl none e) in
      let gone : share k.impl.api ≡ 0 = ap share (destroy-Destroyed sdk h).no_api in
      record {
        counted =
            recounted k.world
              (omega
                (arith, gone, split, total-set instance_share y.instances i impl (some k.impl) e))
              (close-Holds sdk left h (recounted y.world split v.counted));
        managed = v.managed;
      }

  step-IsSound : (y : System S) (a : Action) → IsSound y → IsSound (step sdk name_max y a)
  unfolding step
  step-IsSound y (constructs dll_dir) v =
      constructed-IsSound y _ v
        (construct-Ends sdk name_max (owners_of y) dll_dir y.world v.counted)
  step-IsSound y (attaches i text) v = attach_by-IsSound y i _ text v refl
  step-IsSound y (attaches_id i id) v = attach_id_by-IsSound y i _ id v refl
  step-IsSound y (tries i text) v = try_by-IsSound sdk name_max y i _ text v refl
  step-IsSound y (lists i) v = list_by-IsSound sdk name_max y i _ v refl
  step-IsSound y (asks_version i) v = version_by-IsSound sdk name_max y i _ v refl
  step-IsSound y (asks_available i) v = available_by-IsSound sdk name_max y _ v
  step-IsSound y (moves i) v = move_from-IsSound sdk name_max y i _ v refl
  step-IsSound y (assigns i j) v = assign_from-IsSound sdk name_max y i j _ v refl
  step-IsSound y (destroys i) v = destroy_at-IsSound y i _ v refl
  step-IsSound y (calls i c) v = call_at-IsSound y i _ c v refl
  step-IsSound y (closes i) v = close_at-IsSound y i _ v refl
  step-IsSound y (moves_instance i) v = move_instance_from-IsSound sdk name_max y i _ v refl
  step-IsSound y (assigns_instance i j) v = assign_instance_from-IsSound sdk name_max y i j _ v refl
  step-IsSound y (destroys_instance i) v = destroy_instance_at-IsSound sdk name_max y i _ v refl

  -- In a process whose count is right, whatever its clients do with their RuntimeManagers and
  -- Instances, and in whatever order, the count stays the number of those that own the API, there is
  -- a manager exactly if that is not 0, and every RuntimeManager that is not destroyed owns the API.
  pub run-IsSound :
      (y : System S) (acts : List Action) → IsSound y → IsSound (run sdk name_max y acts)
  unfolding run
  run-IsSound y [] v = v
  run-IsSound y (a ∷ rest) v = run-IsSound (step sdk name_max y a) rest (step-IsSound y a v)
