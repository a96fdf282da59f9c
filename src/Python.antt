-- ===== src/Python.antt =====
-- bindings/python/plcsim_connector/__init__.py: the Python layer on top of the native classes. A function
-- is a program that ends by returning, by raising an exception, or in a crash of the native code.
pub mod Tests
pub mod Discarding
pub mod Search
pub mod Waiting
pub mod Reconnecting
pub mod Command
use plcsim_connector.Common.{ℕ, Bool, true, false, Option, none, some, Bytes}
use plcsim_connector.ApiHandle.{World, ApiHandle}
use plcsim_connector.Bindings.{for_kind, is_below_retryable}
use plcsim_connector.Error.{Error, Outcome, returned, thrown, undefined}
use plcsim_connector.Prog.{Prog}
use plcsim_connector.RuntimeManager.{construct, destruct}
use plcsim_connector.Sdk.{Sdk}

-- What is raised: an error of the native classes, the NotConnectedError of a ReconnectingInstance with its
-- name, or the InstanceNotFoundError of wait_for_instance with the name, the timeout and the last error
-- of its message.
pub data Exception : Type 0 where
  native : Error → Exception
  not_connected : Bytes → Exception
  timed_out : Bytes → Option ℕ → Option Error → Exception

-- `except RetryableError` catches it.
unfoldable pub is_caught : Exception → Bool
unfolding is_below_retryable
is_caught (native e) = is_below_retryable (for_kind e.kind)
is_caught (not_connected name) = true
is_caught (timed_out name timeout last_error) = true

pub data Result {ℓ} (A : Type ℓ) : Type ℓ where
  done : A → Result A
  raised : Exception → Result A
  crashed : Result A

abbrev pub Py : Type 0 → Type 0 → Type 0
Py St A = St → Result A × St

-- The translation of the exceptions by pybind11.
abbrev pub result_of : {A : Type 0} → Outcome A → Result A
result_of (returned a) = done a
result_of (thrown e) = raised (native e)
result_of undefined = crashed

-- `f` runs behind a call that returned.
abbrev pub and_then : {St A B : Type 0} → Result A × St → (A → Py St B) → Result B × St
and_then (done a, s) f = f a s
and_then (raised e, s) f = (raised e, s)
and_then (crashed, s) f = (crashed, s)

-- RuntimeManager.__init__ of the Python class, where `detected` is the answer of
-- `_autodetect_api_dll_dir`, which is cached.
unfoldable pub effective_dir : Option Bytes → Option Bytes → Option Bytes
effective_dir detected none = detected
effective_dir detected (some dll_dir) = some dll_dir

-- `rt = None`, or another manager in its place: the old one is destroyed, since nothing else refers to it.
abbrev pub discard : {S : Type 0} → Sdk S → ℕ → Option ApiHandle → World S → World S
discard sdk name_max none w = w
discard sdk name_max (some api) w = destruct sdk name_max (some api) w
