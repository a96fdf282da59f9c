-- ===== src/RuntimeManager.antt =====
-- src/SdkBridge.cpp, "RuntimeManager" (declared in include/plcsim/RuntimeManager.hpp): the client of the
-- SDK's Runtime Manager. A constant method is a program on the shared state that is given the handle
-- `impl_->api`; `none` stands for the null `impl_` of an object that was moved from.

pub mod Ends
pub mod Queries
pub mod Ownership
pub mod Attach
pub mod Listing
pub mod Unknown
pub mod Unreachable
pub mod Working
pub mod Version
pub mod Tests
use plcsim_connector.Common.{
  ℕ, zero, suc, ◌+◌, ◌/◌, ◌%◌, Bool, true, false, not, ◌&&◌, ◌||◌, Option, none, some, List, [],
  ◌∷◌, ◌++◌, String, if◌then◌else◌, Bytes, codes,
}
use plcsim_connector.Common.Int.{ℤ, ◌==ℤ◌}
use plcsim_connector.ApiHandle
use plcsim_connector.ApiHandle.{
  World, ApiHandle, unowned, is_null, manager_of, copy, acquire, assign,
}
use plcsim_connector.Bridge.{succeeded, check, code_name_of}
use plcsim_connector.Error.{Error, ErrorKind, Outcome, returned, thrown, undefined, retryable}
use plcsim_connector.Instance.{Impl, no_sizes}
use plcsim_connector.Prog.{Prog, pure, throw, undefined_behaviour, ◌>>=◌, ◌>>◌}
use plcsim_connector.Sdk.{Sdk, Wide}
use plcsim_connector.Std.Decimal
use plcsim_connector.Text.{to_utf8, to_wide}
use plcsim_connector.Types.{InstanceInfo}

-- A call of the SDK.
abbrev pub ask : {S A : Type 0} → (S → A × S) → Prog (World S) A
ask f w = (returned (f w.external).0, record w { external = (f w.external).1 })

-- `"<name>" (id <id>)`, one entry of describe_registered.
describe_info : InstanceInfo → Bytes
describe_info info =
    codes "\"" ++ (info.name ++ (codes "\" (id " ++ (Decimal.int_to_string info.id ++ codes ")")))

describe_more : List InstanceInfo → Bytes
describe_more [] = []
describe_more (info ∷ infos) = codes ", " ++ (describe_info info ++ describe_more infos)

unfoldable pub describe_registered : List InstanceInfo → Bytes
unfolding describe_info describe_more
describe_registered [] = codes "no instances are registered in the Runtime Manager"
describe_registered (info ∷ infos) =
    codes "registered instances: " ++ (describe_info info ++ describe_more infos)

-- `std::to_string(packed >> 16) + "." + std::to_string(packed & 0xFFFFu)`
unfoldable pub version_text : ℕ → Bytes
version_text packed =
    Decimal.to_string (packed / 65536) ++ b'.' ∷ Decimal.to_string (packed % 65536)

-- The move constructor: the new object's pointer, and what it leaves of the other one's.
unfoldable pub move : Option ApiHandle → Option ApiHandle × Option ApiHandle
move other = (other, none)

-- `name_max` is DINSTANCE_NAME_MAX_LENGTH of the SDK.
module _ {S : Type 0} (sdk : Sdk S) (name_max : ℕ) where
  uninitialized_error : String → Error
  uninitialized_error operation = record {
    kind = ErrorKind.api_not_initialized;
    code = sdk.codes.api_not_initialized;
    code_name = code_name_of sdk sdk.codes.api_not_initialized;
    message = codes operation ++ codes " failed: the API is not initialized";
  }

  not_null : Option ℕ → String → Prog (World S) ℕ
  not_null none operation = throw (uninitialized_error operation)
  not_null (some m) operation = pure m

  -- `impl_->manager(operation)`
  pub manager : Option ApiHandle → String → Prog (World S) ℕ
  manager none operation w = (undefined, w)
  manager (some api) operation w = not_null (manager_of api w) operation w

  pub unavailable_error : Error
  unavailable_error = record {
    kind = ErrorKind.runtime_manager_unavailable;
    code = sdk.codes.runtime_not_available;
    code_name = code_name_of sdk sdk.codes.runtime_not_available;
    message =
        codes
          "no S7-PLCSIM Advanced Runtime Manager is running in this Windows session; start the PLCSIM Advanced Control Panel";
  }

  -- A constructor that throws destroys `impl_`.
  pub keep_available : ApiHandle → Bool × World S → Outcome ApiHandle × World S
  keep_available api (true, w) = (returned api, w)
  keep_available api (false, w) = (thrown unavailable_error, (ApiHandle.release sdk api w).1)

  pub require_available : ApiHandle → Option ℕ → Prog (World S) ApiHandle
  require_available api none w = (undefined, w)
  require_available api (some m) w =
      let (available, s) = sdk.is_runtime_manager_available m w.external in
      keep_available api (available, record w { external = s })

  -- The constructor of RuntimeManager: the handle that its `impl_` holds.
  pub construct : Option Bytes → Prog (World S) ApiHandle
  construct dll_dir = do
    acquired ← acquire sdk dll_dir
    λ w.
        let (api, w') = assign sdk unowned acquired w in
        require_available api (manager_of api w') w'

  -- The destructor, and the move assignment, which destroys what `impl_` pointed to.
  unfoldable pub destruct : Option ApiHandle → World S → World S
  destruct none w = w
  destruct (some api) w = (ApiHandle.release sdk api w).1

  unfoldable pub move_assign :
      Option ApiHandle
      → Option ApiHandle
      → World S
      → (Option ApiHandle × Option ApiHandle) × World S
  move_assign this other w = ((other, none), destruct this w)

  -- RuntimeManager::isRuntimeManagerAvailable
  ask_available : Option ℕ → World S → Bool × World S
  ask_available none w = (false, w)
  ask_available (some m) w =
      let (b, s) = sdk.is_runtime_manager_available m w.external in (b, record w { external = s })

  pub is_runtime_manager_available : Option ApiHandle → World S → Bool × World S
  is_runtime_manager_available none w = (false, w)
  is_runtime_manager_available (some api) w = ask_available (manager_of api w) w

  -- The loop of registeredInstances from `index` on, with the rounds that `count` leaves. The result of
  -- a round stands in front of those of the next ones.
  pub collect : ℕ → ℕ → ℕ → Prog (World S) (List InstanceInfo)
  collect m zero index = pure []
  collect m (suc rounds) index = do
    answer ← ask (sdk.get_registered_instance_info_at m index)
    if answer.0 ==ℤ sdk.codes.index_out_of_range
        then pure []
        else (check sdk answer.0 "GetRegisteredInstanceInfoAt" >> do
          rest ← collect m rounds (suc index)
          pure (record { id = answer.1.0; name = to_utf8 sdk (some answer.1.1) } ∷ rest))

  -- RuntimeManager::registeredInstances
  pub registered_instances : Option ApiHandle → Prog (World S) (List InstanceInfo)
  registered_instances api = do
    m ← manager api "GetRegisteredInstancesCount"
    count ← ask (sdk.get_registered_instances_count m)
    collect m count 0

  pub not_found_error : Bytes → List InstanceInfo → Error
  not_found_error message infos = record {
    kind = ErrorKind.instance_not_found;
    code = sdk.codes.does_not_exist;
    code_name = code_name_of sdk sdk.codes.does_not_exist;
    message = message ++ describe_registered infos;
  }

  -- The throw of `attach` for an instance that is not there.
  pub not_found : Option ApiHandle → Bytes → Prog (World S) Impl
  not_found api message = do infos ← registered_instances api; throw (not_found_error message infos)

  -- `auto impl = std::make_unique<Instance::Impl>(); impl->api = impl_->api; impl->raw = raw;`
  pub new_impl : ApiHandle → ℕ → Prog (World S) Impl
  new_impl api raw w =
      let (other, w1) = copy api w in
      let (own, w2) = assign sdk unowned other w1 in
      (
        returned (record {
          api = own;
          raw = some raw;
          id = ℤ.pos 0;
          name = [];
          interface_removed = false;
          area_sizes = no_sizes;
        }),
        w2,
      )

  -- Behind the checks of `attach(name)`. Both overloads go through the null pointers first.
  pub attach_name : Bytes → Option ApiHandle → Option ℕ → Prog (World S) Impl
  attach_name text none raw = undefined_behaviour
  attach_name text (some api) none = undefined_behaviour
  attach_name text (some api) (some raw) = do
    impl ← new_impl api raw
    id ← ask (sdk.get_id raw)
    pure (record impl { id = id; name = text })

  -- RuntimeManager::attach(std::string_view)
  pub attach : Bytes → Option ApiHandle → Prog (World S) Impl
  attach text api = do
    m ← manager api "CreateInterface"
    answer ← ask (sdk.create_interface_by_name m (to_wide sdk text))
    if answer.0 ==ℤ sdk.codes.does_not_exist || (succeeded answer.0 && is_null answer.1)
        then not_found api
            (codes "no simulated PLC instance named \"" ++ (text ++ codes "\" is registered; "))
        else (check sdk answer.0 "CreateInterface" >> attach_name text api answer.1)

  -- Behind the checks of `attach(id)`.
  pub attach_number : ℤ → Option ApiHandle → Option ℕ → Prog (World S) Impl
  attach_number id none raw = undefined_behaviour
  attach_number id (some api) none = undefined_behaviour
  attach_number id (some api) (some raw) = do
    impl ← new_impl api raw
    answer ← ask (sdk.get_name raw name_max)
    pure (record impl {
      id = id;
      name = if succeeded answer.0 then to_utf8 sdk (some answer.1) else [];
    })

  -- RuntimeManager::attach(std::int32_t)
  pub attach_by_id : ℤ → Option ApiHandle → Prog (World S) Impl
  attach_by_id id api = do
    m ← manager api "CreateInterface"
    answer ← ask (sdk.create_interface_by_id m id)
    if answer.0 ==ℤ sdk.codes.does_not_exist || (succeeded answer.0 && is_null answer.1)
        then not_found api (
            codes "no simulated PLC instance with id "
            ++ (Decimal.int_to_string id ++ codes " is registered; "))
        else (check sdk answer.0 "CreateInterface" >> attach_number id api answer.1)

  -- The handler of tryAttach.
  pub caught : Outcome Impl × World S → Outcome (Option Impl) × World S
  caught (returned impl, w) = (returned (some impl), w)
  caught (thrown e, w) = if retryable e then (returned none, w) else (thrown e, w)
  caught (undefined, w) = (undefined, w)

  -- RuntimeManager::tryAttach
  pub try_attach : Bytes → Option ApiHandle → Prog (World S) (Option Impl)
  try_attach text api w = caught (attach text api w)

  -- RuntimeManager::version
  pub version : Option ApiHandle → Prog (World S) Bytes
  version api = do
    m ← manager api "GetVersion"
    packed ← ask (sdk.get_version m)
    pure (version_text packed)
