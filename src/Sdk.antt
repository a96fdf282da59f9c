-- ===== src/Sdk.antt =====
-- What src/SdkBridge.cpp calls and this repository does not hold: SimulationRuntimeApi.h of the
-- Siemens SDK and a few functions of Win32. It is a parameter of the model: a value of `Sdk S`, where
-- `S` is the state behind those calls. A pointer is a number or, where it can be null, an `Option`.
use plcsim_connector.Common.{ℕ, Bool, Option, List, Bytes}
use plcsim_connector.Common.Int.{ℤ}

-- UTF-16 units up to the terminating zero.
abbrev pub Wide : Type 0
Wide = List ℕ

-- The enumerators of ERuntimeErrorCode that the bridge names.
pub record Codes : Type 0 where
  pub does_not_exist : ℤ
  pub interface_removed : ℤ
  pub timeout : ℤ
  pub instance_not_running : ℤ
  pub not_running : ℤ
  pub index_out_of_range : ℤ
  pub wrong_argument : ℤ
  pub limit_reached : ℤ
  pub runtime_not_available : ℤ
  pub connection_error : ℤ
  pub api_not_initialized : ℤ
  pub error_loading_dll : ℤ
  pub wrong_version : ℤ

-- Those of EArea and of EOperatingState.
pub record Enums : Type 0 where
  pub sra_input : ℤ
  pub sra_marker : ℤ
  pub sra_output : ℤ
  pub sros_off : ℤ
  pub sros_booting : ℤ
  pub sros_stop : ℤ
  pub sros_startup : ℤ
  pub sros_run : ℤ
  pub sros_freeze : ℤ
  pub sros_shutting_down : ℤ
  pub sros_hold : ℤ

pub record Sdk (S : Type 0) : Type 0 where
  pub codes : Codes
  pub enums : Enums
  -- GetNameOfErrorCode; `none` is a null pointer.
  pub get_name_of_error_code : ℤ → Option Wide
  -- The conversions at the code page UTF-8. The number is the size of the buffer, 0 for none; they
  -- return a size and what they have written.
  pub wide_char_to_multi_byte : Wide → ℕ → ℤ × Bytes
  pub multi_byte_to_wide_char : Bytes → ℕ → ℤ × Wide
  -- SetLastError, GetLastError, FormatMessageW and LocalFree.
  pub set_last_error : ℕ → S → S
  pub get_last_error : S → ℕ
  pub format_message : ℕ → S → (ℕ × Option Wide) × S
  pub local_free : Wide → S → S
  -- LoadLibraryW and FreeLibrary.
  pub load_library : Bytes → S → Option ℕ × S
  pub free_library : ℕ → S → S
  -- OpenProcessToken, GetTokenInformation with TokenElevation, and CloseHandle. The first two say
  -- whether they worked, and the handle or the field TokenIsElevated.
  pub open_process_token : S → (Bool × ℕ) × S
  pub get_token_elevation : ℕ → S → (Bool × ℕ) × S
  pub close_handle : ℕ → S → S
  -- InitializeApi, with or without a path: a code, and the manager that it wrote, if any.
  pub initialize_api : Option Wide → S → (ℤ × Option ℕ) × S
  pub shutdown_and_free_api : ℕ → S → S
  -- The methods of ISimulationRuntimeManager.
  pub is_runtime_manager_available : ℕ → S → Bool × S
  pub get_registered_instances_count : ℕ → S → ℕ × S
  pub get_registered_instance_info_at : ℕ → ℕ → S → (ℤ × (ℤ × Wide)) × S
  pub create_interface_by_name : ℕ → Wide → S → (ℤ × Option ℕ) × S
  pub create_interface_by_id : ℕ → ℤ → S → (ℤ × Option ℕ) × S
  pub get_version : ℕ → S → ℕ × S
  -- DestroyInterface and the methods of IInstance. GetName takes the size of the buffer.
  pub destroy_interface : ℕ → S → S
  pub get_id : ℕ → S → ℤ × S
  pub get_name : ℕ → ℕ → S → (ℤ × Wide) × S
  pub get_area_size : ℕ → ℤ → S → ℕ × S
  pub write_bit : ℕ → ℤ → ℕ → ℕ → Bool → S → ℤ × S
  pub read_bit : ℕ → ℤ → ℕ → ℕ → S → (ℤ × Bool) × S
  pub run : ℕ → S → ℤ × S
  pub stop : ℕ → S → ℤ × S
  pub get_operating_state : ℕ → S → ℤ × S
