-- ===== src/Bindings.antt =====
-- bindings/python/module.cpp: the exception classes of the Python module, the translation of `Error` into
-- them, and the texts that `repr` shows. A class is named by its member of `ExceptionTypes`.
pub mod Methods
pub mod Classes
pub mod Values
pub mod Tests
use plcsim_connector.Common.{Bool, true, false, Option, none, some, ◌++◌, Bytes, codes}
use plcsim_connector.Common.Int.{ℤ}
use plcsim_connector.Address
use plcsim_connector.Address.{BitAddress}
use plcsim_connector.Error
use plcsim_connector.Error.{Error, ErrorKind, kind_to_string}
use plcsim_connector.Std.{c_str}
use plcsim_connector.Std.Decimal.{int_to_string}
use plcsim_connector.Types.{InstanceInfo}

pub data ExceptionType : Type 0 where
  base : ExceptionType
  retryable : ExceptionType
  invalid_address : ExceptionType
  index_out_of_range : ExceptionType
  api_not_initialized : ExceptionType
  runtime_manager_unavailable : ExceptionType
  instance_not_found : ExceptionType
  connection_lost : ExceptionType
  timeout : ExceptionType
  instance_not_running : ExceptionType

-- The class that each one is registered below; `base` is below Python's own `Exception`.
pub parent : ExceptionType → Option ExceptionType
parent ExceptionType.base = none
parent ExceptionType.retryable = some ExceptionType.base
parent ExceptionType.invalid_address = some ExceptionType.base
parent ExceptionType.index_out_of_range = some ExceptionType.base
parent ExceptionType.api_not_initialized = some ExceptionType.base
parent ExceptionType.runtime_manager_unavailable = some ExceptionType.retryable
parent ExceptionType.instance_not_found = some ExceptionType.retryable
parent ExceptionType.connection_lost = some ExceptionType.retryable
parent ExceptionType.timeout = some ExceptionType.retryable
parent ExceptionType.instance_not_running = some ExceptionType.retryable

-- Whether a class is RetryableError or registered below it.
unfoldable pub is_below_retryable : ExceptionType → Bool
is_below_retryable ExceptionType.base = false
is_below_retryable ExceptionType.retryable = true
is_below_retryable ExceptionType.invalid_address = false
is_below_retryable ExceptionType.index_out_of_range = false
is_below_retryable ExceptionType.api_not_initialized = false
is_below_retryable ExceptionType.runtime_manager_unavailable = true
is_below_retryable ExceptionType.instance_not_found = true
is_below_retryable ExceptionType.connection_lost = true
is_below_retryable ExceptionType.timeout = true
is_below_retryable ExceptionType.instance_not_running = true

-- ExceptionTypes::for_kind
unfoldable pub for_kind : ErrorKind → ExceptionType
for_kind ErrorKind.invalid_address = ExceptionType.invalid_address
for_kind ErrorKind.index_out_of_range = ExceptionType.index_out_of_range
for_kind ErrorKind.api_not_initialized = ExceptionType.api_not_initialized
for_kind ErrorKind.runtime_manager_unavailable = ExceptionType.runtime_manager_unavailable
for_kind ErrorKind.instance_not_found = ExceptionType.instance_not_found
for_kind ErrorKind.connection_lost = ExceptionType.connection_lost
for_kind ErrorKind.timeout = ExceptionType.timeout
for_kind ErrorKind.instance_not_running = ExceptionType.instance_not_running
for_kind ErrorKind.wrong_argument = ExceptionType.base
for_kind ErrorKind.limit_reached = ExceptionType.base
for_kind ErrorKind.other = ExceptionType.base

-- A Python exception with the attributes that it is given. `what()` is a C string.
pub record Raised : Type 0 where
  pub type : ExceptionType
  pub what : Bytes
  pub code : ℤ
  pub code_name : Bytes
  pub kind : Bytes
  pub can_retry : Bool

pub raise_as_python : Error → Raised
raise_as_python e = record {
  type = for_kind e.kind;
  what = c_str e.message;
  code = e.code;
  code_name = e.code_name;
  kind = kind_to_string e.kind;
  can_retry = Error.retryable e;
}

-- `__repr__` of InstanceInfo, of BitAddress and of Instance.
pub repr_info : InstanceInfo → Bytes
repr_info info =
    codes "InstanceInfo(id="
    ++ (int_to_string info.id ++ (codes ", name='" ++ (info.name ++ codes "')")))

pub repr_address : BitAddress → Bytes
repr_address a = codes "BitAddress('" ++ (Address.to_string a ++ codes "')")

pub repr_instance : Bytes → ℤ → Bytes
repr_instance name id =
    codes "<Instance name='" ++ (name ++ (codes "' id=" ++ (int_to_string id ++ codes ">")))
