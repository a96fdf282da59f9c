-- ===== src/Instance.antt =====
-- src/SdkBridge.cpp, "Instance" (declared in include/plcsim/Instance.hpp): the handle of one simulated
-- PLC. A method of `Instance::Impl` is a program on the object and the shared state; a method of
-- `Instance` goes through the pointer `impl_`, which is null in an object that was moved from.
pub mod Methods
pub mod Evolution
pub mod Tame
pub mod Lifetime
pub mod Closed
pub mod Removed
pub mod Bounds
pub mod Accepted
pub mod Memory
pub mod Close
pub mod Tests
use plcsim_connector.Common.{
  ℕ, ◌+◌, ◌%◌, ◌^◌, Bool, true, false, not, ◌||◌, Option, none, some, [], ◌∷◌, ◌++◌, String, ltb,
  ◌==◌, if◌then◌else◌, Bytes, codes,
}
use plcsim_connector.Common.Int.{ℤ, pos, ◌==ℤ◌}
use plcsim_connector.Address.{max_u32, BitAddress, parse_bit_address}
use plcsim_connector.ApiHandle
use plcsim_connector.ApiHandle.{World, ApiHandle, unowned, is_null, manager_of}
use plcsim_connector.Bridge.{check, code_name_of, to_sdk, from_sdk}
use plcsim_connector.Error.{Error, ErrorKind, Outcome, returned, thrown, undefined}
use plcsim_connector.Prog.{Prog, pure, throw, undefined_behaviour, get, ◌>>=◌, ◌>>◌}
use plcsim_connector.Sdk.{Sdk}
use plcsim_connector.Std.Decimal
use plcsim_connector.Types.{Area, OperatingState, area_to_string}

-- `std::array<std::optional<std::uint32_t>, 3>`, indexed by Area.
pub record AreaSizes : Type 0 where
  pub input_size : Option ℕ
  pub marker_size : Option ℕ
  pub output_size : Option ℕ

abbrev pub no_sizes : AreaSizes
no_sizes = record { input_size = none; marker_size = none; output_size = none }

unfoldable pub size_at : AreaSizes → Area → Option ℕ
size_at z Area.input = z.input_size
size_at z Area.marker = z.marker_size
size_at z Area.output = z.output_size

unfoldable pub set_size : AreaSizes → Area → ℕ → AreaSizes
set_size z Area.input n = record z { input_size = some n }
set_size z Area.marker n = record z { marker_size = some n }
set_size z Area.output n = record z { output_size = some n }

-- Instance::Impl
pub record Impl : Type 0 where
  pub api : ApiHandle
  pub raw : Option ℕ
  pub id : ℤ
  pub name : Bytes
  pub interface_removed : Bool
  pub area_sizes : AreaSizes

-- The object a method of `Impl` runs on, and the state it shares with all others.
pub record Held (S : Type 0) : Type 0 where
  pub impl : Impl
  pub world : World S

-- A call of the SDK: it changes nothing but what is behind the SDK.
abbrev pub call : {S A : Type 0} → (S → A × S) → Prog (Held S) A
call f h = (
  returned (f h.world.external).0,
  record h { world = record h.world { external = (f h.world.external).1 } },
)

-- Impl::area_sizes[area] = size
abbrev pub remember_size : {S : Type 0} → Area → ℕ → Prog (Held S) (Unit {0})
remember_size area size h = (
  returned tt,
  record h { impl = record h.impl { area_sizes = set_size h.impl.area_sizes area size } },
)

module _ {S : Type 0} (sdk : Sdk S) where
  -- The error of an operation on a handle that is closed.
  unfoldable pub closed_error : String → Error
  closed_error operation = record {
    kind = ErrorKind.connection_lost;
    code = sdk.codes.interface_removed;
    code_name = code_name_of sdk sdk.codes.interface_removed;
    message = codes operation ++ codes " failed: the instance handle is closed";
  }

  live_pointer : Option ℕ → String → Prog (Held S) ℕ
  live_pointer none operation = throw (closed_error operation)
  live_pointer (some raw) operation = pure raw

  -- Impl::live
  unfoldable pub live : String → Prog (Held S) ℕ
  unfolding live_pointer
  live operation h = live_pointer h.impl.raw operation h

  -- Impl::verify
  unfoldable pub verify : ℤ → String → Prog (Held S) (Unit {0})
  verify code context h = check sdk code context (
      if code ==ℤ sdk.codes.interface_removed
      then record h { impl = record h.impl { interface_removed = true } }
      else h)

  unfoldable pub no_size_error : Area → Error
  no_size_error area = record {
    kind = ErrorKind.instance_not_running;
    code = pos 0;
    code_name = [];
    message =
        codes "GetAreaSize failed for area %"
        ++ (area_to_string area
            ++ codes ": the instance is not running, or no configuration is loaded");
  }

  -- The SDK signals a failure by the size 0; any other size is cached.
  unfoldable pub keep_size : Area → ℕ → Prog (Held S) ℕ
  keep_size area size =
      if size == 0 then throw (no_size_error area) else (remember_size area size >> pure size)

  -- The query of `area_size` where nothing is cached.
  unfoldable pub query_size : Area → Prog (Held S) ℕ
  query_size area = do
    raw ← live "GetAreaSize"
    size ← call (sdk.get_area_size raw (to_sdk sdk.enums area))
    keep_size area size

  cached_or_query : Area → Option ℕ → Prog (Held S) ℕ
  cached_or_query area (some size) = pure size
  cached_or_query area none = query_size area

  -- Impl::area_size
  unfoldable pub area_size : Area → Prog (Held S) ℕ
  unfolding cached_or_query
  area_size area h = cached_or_query area (size_at h.impl.area_sizes area) h

  unfoldable pub out_of_range_error : BitAddress → String → ℕ → Error
  out_of_range_error address operation size = record {
    kind = ErrorKind.index_out_of_range;
    code = sdk.codes.index_out_of_range;
    code_name = code_name_of sdk sdk.codes.index_out_of_range;
    message =
        codes operation
        ++ (codes " failed: byte offset "
            ++ (Decimal.to_string address.byte
                ++ (codes " is outside area %"
                    ++ (area_to_string address.area
                        ++ (codes ", which is "
                            ++ (Decimal.to_string size
                                ++ (codes " bytes (valid offsets 0.."
                                    ++ (Decimal.to_string ((size + max_u32) % 2 ^ 32)
                                        ++ codes ")"))))))));
  }

  -- Impl::check_bounds
  unfoldable pub check_bounds : BitAddress → String → Prog (Held S) (Unit {0})
  check_bounds address operation = do
    size ← area_size address.area
    if not (ltb address.byte size)
        then throw (out_of_range_error address operation size)
        else pure tt

  -- Impl::destroy, which the destructor calls too.
  unfoldable pub destroy_pointer : Option ℕ → Held S → Held S
  destroy_pointer none h = h
  destroy_pointer (some raw) h = record h {
    impl = record h.impl { raw = none };
    world = record h.world { external = sdk.destroy_interface raw h.world.external };
  }

  -- `api.release();`
  unfoldable pub release_api : Held S → Held S
  release_api h =
      let (api, w) = ApiHandle.release sdk h.impl.api h.world in
      record { impl = record h.impl { api = api }; world = w }

  unfoldable pub destroy : Held S → Held S
  unfolding destroy_pointer release_api
  destroy h = release_api (destroy_pointer h.impl.raw h)

  -- The body of Instance::writeBit.
  unfoldable pub write_bit : Area → ℕ → ℕ → Bool → Prog (Held S) (Unit {0})
  write_bit area byte bit value = do
    raw ← live "WriteBit"
    result ← call (sdk.write_bit raw (to_sdk sdk.enums area) byte bit value)
    verify result "WriteBit"

  -- The body of Instance::readBit.
  unfoldable pub read_bit : Area → ℕ → ℕ → Prog (Held S) Bool
  read_bit area byte bit = do
    raw ← live "ReadBit"
    answer ← call (sdk.read_bit raw (to_sdk sdk.enums area) byte bit)
    verify answer.0 "ReadBit"
    pure answer.1
