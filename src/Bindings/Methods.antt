-- ===== src/Bindings/Methods.antt =====
-- bindings/python/module.cpp, the enumerations and the classes Instance and RuntimeManager: the names that
-- Python sees, what they are bound to, and which of them release the GIL for the time of the call.
pub mod Gil
use plcsim_connector.Common.{ℕ, Bool, true, false, Option, List, [], ◌∷◌, Bytes, codes}
use plcsim_connector.Common.Int.{ℤ}
use plcsim_connector.ApiHandle.{World, ApiHandle}
use plcsim_connector.Error.{Outcome, returned, thrown, undefined}
use plcsim_connector.Instance.{write_bit, read_bit}
use plcsim_connector.Instance.Methods
use plcsim_connector.Instance.Methods.{
  Client, on_impl, set_address_bit, get_address_bit, instance_area_size, operating_state,
  is_connected, close,
}
use plcsim_connector.Prog.{Prog, pure, ◌>>=◌}
use plcsim_connector.RuntimeManager.{
  registered_instances, attach, attach_by_id, try_attach, version, is_runtime_manager_available,
}
use plcsim_connector.Sdk.{Sdk}
use plcsim_connector.Types.{Area, OperatingState, state_to_string}

-- The members of the Python enumerations.
pub area_member : Area → Bytes
area_member Area.input = codes "Input"
area_member Area.marker = codes "Marker"
area_member Area.output = codes "Output"

pub state_member : OperatingState → Bytes
state_member OperatingState.invalid = codes "Invalid"
state_member OperatingState.off = codes "Off"
state_member OperatingState.booting = codes "Booting"
state_member OperatingState.stop = codes "Stop"
state_member OperatingState.startup = codes "Startup"
state_member OperatingState.run = codes "Run"
state_member OperatingState.freeze = codes "Freeze"
state_member OperatingState.shutting_down = codes "ShuttingDown"
state_member OperatingState.hold = codes "Hold"

-- What a name of the class Instance is bound to.
pub data InstanceOperation : Type 0 where
  sets_address_bit gets_address_bit writes_bit reads_bit sizes_area runs stops : InstanceOperation
  gets_operating_state gets_name gets_id asks_connected closes enters exits shows :
      InstanceOperation

-- The same for the class RuntimeManager, but for its constructor.
pub data RuntimeOperation : Type 0 where
  asks_available lists attaches attaches_by_id tries_to_attach gets_version enters exits :
      RuntimeOperation

pub record Method (O : Type 0) : Type 0 where
  pub name : Bytes
  pub operation : O
  pub releases_gil : Bool

-- With and without `py::call_guard<py::gil_scoped_release>()`.
abbrev guarded : {O : Type 0} → Bytes → O → Method O
guarded name operation = record { name = name; operation = operation; releases_gil = true }

abbrev unguarded : {O : Type 0} → Bytes → O → Method O
unguarded name operation = record { name = name; operation = operation; releases_gil = false }

pub instance_methods : List (Method InstanceOperation)
instance_methods =
    guarded (codes "setAddressBit") sets_address_bit
    ∷ guarded (codes "getAddressBit") gets_address_bit
    ∷ guarded (codes "set_address_bit") sets_address_bit
    ∷ guarded (codes "get_address_bit") gets_address_bit
    ∷ guarded (codes "write_bit") writes_bit
    ∷ guarded (codes "read_bit") reads_bit
    ∷ guarded (codes "area_size") sizes_area
    ∷ guarded (codes "run") runs
    ∷ guarded (codes "stop") stops
    ∷ unguarded (codes "operating_state") gets_operating_state
    ∷ unguarded (codes "name") gets_name
    ∷ unguarded (codes "id") gets_id
    ∷ unguarded (codes "is_connected") asks_connected
    ∷ unguarded (codes "close") closes
    ∷ unguarded (codes "__enter__") InstanceOperation.enters
    ∷ unguarded (codes "__exit__") InstanceOperation.exits
    ∷ unguarded (codes "__repr__") shows
    ∷ []

pub runtime_methods : List (Method RuntimeOperation)
runtime_methods =
    unguarded (codes "is_runtime_manager_available") asks_available
    ∷ guarded (codes "registered_instances") lists
    ∷ guarded (codes "attach") attaches
    ∷ guarded (codes "attach_by_id") attaches_by_id
    ∷ guarded (codes "try_attach") tries_to_attach
    ∷ unguarded (codes "version") gets_version
    ∷ unguarded (codes "__enter__") RuntimeOperation.enters
    ∷ unguarded (codes "__exit__") RuntimeOperation.exits
    ∷ []

-- The arguments that the methods take between them.
pub record Arguments : Type 0 where
  pub address : Bytes
  pub area : Area
  pub byte : ℕ
  pub bit : ℕ
  pub value : Bool
  pub name : Bytes
  pub id : ℤ

module _ {S : Type 0} (sdk : Sdk S) (args : Arguments) where
  -- The native code behind a method of Instance, with its result left out.
  pub instance_code : InstanceOperation → Prog (Client S) (Unit {0})
  instance_code sets_address_bit = set_address_bit sdk args.address args.value
  instance_code gets_address_bit = get_address_bit sdk args.address >>= λ _. pure tt
  instance_code writes_bit = on_impl (write_bit sdk args.area args.byte args.bit args.value)
  instance_code reads_bit = on_impl (read_bit sdk args.area args.byte args.bit) >>= λ _. pure tt
  instance_code sizes_area = instance_area_size sdk args.area >>= λ _. pure tt
  instance_code runs = Methods.run sdk
  instance_code stops = Methods.stop sdk
  instance_code gets_operating_state = operating_state sdk >>= λ _. pure tt
  instance_code gets_name = Methods.name sdk >>= λ _. pure tt
  instance_code gets_id = Methods.id sdk >>= λ _. pure tt
  instance_code asks_connected = λ c. (returned tt, (is_connected sdk c).1)
  instance_code closes = λ c. (returned tt, close sdk c)
  instance_code InstanceOperation.enters = pure tt
  instance_code InstanceOperation.exits = λ c. (returned tt, close sdk c)
  instance_code shows = Methods.name sdk >>= λ _. Methods.id sdk >>= λ _. pure tt

  -- The same for RuntimeManager.
  pub runtime_code : ℕ → RuntimeOperation → Option ApiHandle → Prog (World S) (Unit {0})
  runtime_code name_max asks_available api =
      λ w. (returned tt, (is_runtime_manager_available sdk name_max api w).1)
  runtime_code name_max lists api = registered_instances sdk name_max api >>= λ _. pure tt
  runtime_code name_max attaches api = attach sdk name_max args.name api >>= λ _. pure tt
  runtime_code name_max attaches_by_id api = attach_by_id sdk name_max args.id api >>= λ _. pure tt
  runtime_code name_max tries_to_attach api = try_attach sdk name_max args.name api >>= λ _. pure tt
  runtime_code name_max gets_version api = version sdk name_max api >>= λ _. pure tt
  runtime_code name_max RuntimeOperation.enters api = pure tt
  runtime_code name_max RuntimeOperation.exits api = pure tt
