-- ===== src/System.antt =====
-- All objects that the clients of a process hold: the RuntimeManagers and the Instances of
-- src/SdkBridge.cpp with the state they share, and what a client can do with them, in any order.
pub mod Owners
pub mod Queries
pub mod Moves
pub mod Sound
pub mod Tests
use plcsim_connector.Common.{
  ℕ, zero, suc, Option, none, some, not, ◌&&◌, ◌==◌, ltb, length, if◌then◌else◌, List, [], ◌∷◌,
  Bytes,
}
use plcsim_connector.Common.Int.{ℤ}
use plcsim_connector.ApiHandle.{World, ApiHandle}
use plcsim_connector.Common.{set}
use plcsim_connector.Error.{Outcome, returned, thrown, undefined}
use plcsim_connector.Instance.{Impl}
use plcsim_connector.Instance.Methods.{Client, close}
use plcsim_connector.Instance.Lifetime.{Call, perform}
use plcsim_connector.RuntimeManager
use plcsim_connector.RuntimeManager.{
  construct, destruct, attach, attach_by_id, try_attach, registered_instances, version,
  is_runtime_manager_available,
}
use plcsim_connector.Instance.Methods
use plcsim_connector.Sdk.{Sdk}

-- An object by the pointer `impl_`; `none` is one that was destroyed or moved from.
pub record System (S : Type 0) : Type 0 where
  pub managers : List (Option ApiHandle)
  pub instances : List (Option Impl)
  pub world : World S

-- Objects are named by their place in the lists. A move constructs a new object from the one that is
-- named, and an assignment moves the second one to the first.
pub data Action : Type 0 where
  constructs : Option Bytes → Action
  attaches : ℕ → Bytes → Action
  attaches_id : ℕ → ℤ → Action
  tries : ℕ → Bytes → Action
  lists : ℕ → Action
  asks_version : ℕ → Action
  asks_available : ℕ → Action
  moves : ℕ → Action
  assigns : ℕ → ℕ → Action
  destroys : ℕ → Action
  calls : ℕ → Call → Action
  closes : ℕ → Action
  moves_instance : ℕ → Action
  assigns_instance : ℕ → ℕ → Action
  destroys_instance : ℕ → Action

-- The object at a place; none is there past the end.
abbrev pub at_place : {A : Type 0} → List (Option A) → ℕ → Option A
at_place [] i = none
at_place (x ∷ xs) zero = x
at_place (x ∷ xs) (suc i) = at_place xs i

module _ {S : Type 0} (sdk : Sdk S) (name_max : ℕ) where
  pub constructed : System S → Outcome ApiHandle × World S → System S
  constructed y (returned api, w) = record y { managers = some api ∷ y.managers; world = w }
  constructed y (thrown e, w) = record y { world = w }
  constructed y (undefined, w) = record y { world = w }

  pub attached : System S → Outcome Impl × World S → System S
  attached y (returned impl, w) = record y { instances = some impl ∷ y.instances; world = w }
  attached y (thrown e, w) = record y { world = w }
  attached y (undefined, w) = record y { world = w }

  -- An object that is not there is not used.
  pub attach_by : System S → Option ApiHandle → Bytes → System S
  attach_by y none text = y
  attach_by y (some api) text = attached y (attach sdk name_max text (some api) y.world)

  pub attach_id_by : System S → Option ApiHandle → ℤ → System S
  attach_id_by y none id = y
  attach_id_by y (some api) id = attached y (attach_by_id sdk name_max id (some api) y.world)

  pub replaced : System S → ℕ → Client S → System S
  replaced y i c = record y { instances = set y.instances i c.impl; world = c.world }

  pub call_at : System S → ℕ → Option Impl → Call → System S
  call_at y i none c = y
  call_at y i (some impl) c =
      replaced y i (perform sdk c (record { impl = some impl; world = y.world })).1

  pub close_at : System S → ℕ → Option Impl → System S
  close_at y i none = y
  close_at y i (some impl) = replaced y i (close sdk (record { impl = some impl; world = y.world }))

  pub destroy_at : System S → ℕ → Option ApiHandle → System S
  destroy_at y i none = y
  destroy_at y i (some api) = record y {
    managers = set y.managers i none;
    world = destruct sdk name_max (some api) y.world;
  }

  pub tried : System S → Outcome (Option Impl) × World S → System S
  tried y (returned (some impl), w) = record y { instances = some impl ∷ y.instances; world = w }
  tried y (returned none, w) = record y { world = w }
  tried y (thrown e, w) = record y { world = w }
  tried y (undefined, w) = record y { world = w }

  pub try_by : System S → Option ApiHandle → Bytes → System S
  try_by y none text = y
  try_by y (some api) text = tried y (try_attach sdk name_max text (some api) y.world)

  -- The queries change only what is behind the SDK.
  pub list_by : System S → Option ApiHandle → System S
  list_by y none = y
  list_by y (some api) = record y {
    world = (registered_instances sdk name_max (some api) y.world).1;
  }

  pub version_by : System S → Option ApiHandle → System S
  version_by y none = y
  version_by y (some api) = record y { world = (version sdk name_max (some api) y.world).1 }

  pub available_by : System S → Option ApiHandle → System S
  available_by y none = y
  available_by y (some api) = record y {
    world = (is_runtime_manager_available sdk name_max (some api) y.world).1;
  }

  pub move_from : System S → ℕ → Option ApiHandle → System S
  move_from y i none = y
  move_from y i (some api) =
      let (new, old) = RuntimeManager.move (some api) in
      record y { managers = new ∷ set y.managers i old }

  -- `std::unique_ptr` keeps its pointer where it is assigned to itself.
  pub assign_from : System S → ℕ → ℕ → Option ApiHandle → System S
  assign_from y i j none = y
  assign_from y i j (some api) =
      let ((this, other), w) =
        RuntimeManager.move_assign sdk name_max (at_place y.managers i) (some api) y.world in
      if ltb i (length y.managers) && not (i == j)
      then record y { managers = set (set y.managers i this) j other; world = w }
      else y

  pub move_instance_from : System S → ℕ → Option Impl → System S
  move_instance_from y i none = y
  move_instance_from y i (some impl) =
      let (new, old) = Methods.move (some impl) in
      record y { instances = new ∷ set y.instances i old }

  pub assign_instance_from : System S → ℕ → ℕ → Option Impl → System S
  assign_instance_from y i j none = y
  assign_instance_from y i j (some impl) =
      let ((this, other), w) =
        Methods.move_assign sdk (at_place y.instances i) (some impl) y.world in
      if ltb i (length y.instances) && not (i == j)
      then record y { instances = set (set y.instances i this) j other; world = w }
      else y

  pub destroy_instance_at : System S → ℕ → Option Impl → System S
  destroy_instance_at y i none = y
  destroy_instance_at y i (some impl) = record y {
    instances = set y.instances i none;
    world = Methods.destruct sdk (record { impl = some impl; world = y.world });
  }

  pub step : System S → Action → System S
  step y (constructs dll_dir) = constructed y (construct sdk name_max dll_dir y.world)
  step y (attaches i text) = attach_by y (at_place y.managers i) text
  step y (attaches_id i id) = attach_id_by y (at_place y.managers i) id
  step y (tries i text) = try_by y (at_place y.managers i) text
  step y (lists i) = list_by y (at_place y.managers i)
  step y (asks_version i) = version_by y (at_place y.managers i)
  step y (asks_available i) = available_by y (at_place y.managers i)
  step y (moves i) = move_from y i (at_place y.managers i)
  step y (assigns i j) = assign_from y i j (at_place y.managers j)
  step y (destroys i) = destroy_at y i (at_place y.managers i)
  step y (calls i c) = call_at y i (at_place y.instances i) c
  step y (closes i) = close_at y i (at_place y.instances i)
  step y (moves_instance i) = move_instance_from y i (at_place y.instances i)
  step y (assigns_instance i j) = assign_instance_from y i j (at_place y.instances j)
  step y (destroys_instance i) = destroy_instance_at y i (at_place y.instances i)

  pub run : System S → List Action → System S
  run y [] = y
  run y (a ∷ rest) = run (step y a) rest
