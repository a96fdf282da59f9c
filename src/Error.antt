-- ===== src/Error.antt =====
-- include/plcsim/Error.hpp and src/Error.cpp: the classification of failures, and the exception.
use plcsim_connector.Common.{Bool, true, false, Bytes, codes}
use plcsim_connector.Common.Int.{ℤ}

pub data ErrorKind : Type 0 where
  invalid_address : ErrorKind
  api_not_initialized : ErrorKind
  runtime_manager_unavailable : ErrorKind
  instance_not_found : ErrorKind
  connection_lost : ErrorKind
  timeout : ErrorKind
  instance_not_running : ErrorKind
  index_out_of_range : ErrorKind
  wrong_argument : ErrorKind
  limit_reached : ErrorKind
  other : ErrorKind

-- to_string(ErrorKind)
unfoldable pub kind_to_string : ErrorKind → Bytes
kind_to_string ErrorKind.invalid_address = codes "InvalidAddress"
kind_to_string ErrorKind.api_not_initialized = codes "ApiNotInitialized"
kind_to_string ErrorKind.runtime_manager_unavailable = codes "RuntimeManagerUnavailable"
kind_to_string ErrorKind.instance_not_found = codes "InstanceNotFound"
kind_to_string ErrorKind.connection_lost = codes "ConnectionLost"
kind_to_string ErrorKind.timeout = codes "Timeout"
kind_to_string ErrorKind.instance_not_running = codes "InstanceNotRunning"
kind_to_string ErrorKind.index_out_of_range = codes "IndexOutOfRange"
kind_to_string ErrorKind.wrong_argument = codes "WrongArgument"
kind_to_string ErrorKind.limit_reached = codes "LimitReached"
kind_to_string ErrorKind.other = codes "Other"

unfoldable pub is_retryable : ErrorKind → Bool
is_retryable ErrorKind.runtime_manager_unavailable = true
is_retryable ErrorKind.instance_not_found = true
is_retryable ErrorKind.connection_lost = true
is_retryable ErrorKind.timeout = true
is_retryable ErrorKind.instance_not_running = true
is_retryable ErrorKind.invalid_address = false
is_retryable ErrorKind.index_out_of_range = false
is_retryable ErrorKind.wrong_argument = false
is_retryable ErrorKind.limit_reached = false
is_retryable ErrorKind.api_not_initialized = false
is_retryable ErrorKind.other = false

-- `message` is what `what()` returns.
pub record Error : Type 0 where
  pub kind : ErrorKind
  pub code : ℤ
  pub code_name : Bytes
  pub message : Bytes

unfoldable pub retryable : Error → Bool
unfolding is_retryable
retryable e = is_retryable e.kind

-- How a call ends: it returns, it throws, or it runs into undefined behaviour (a call through a
-- null pointer).
pub data Outcome {ℓ} (A : Type ℓ) : Type ℓ where
  returned : A → Outcome A
  thrown : Error → Outcome A
  undefined : Outcome A
