-- ===== src/Bridge.antt =====
-- src/SdkBridge.cpp: error codes and enumerators of the SDK, and the errors that are thrown for them.
pub mod Retry
pub mod Tables
pub mod Tests
use plcsim_connector.Common.{
  ℕ, Bool, true, false, not, ◌||◌, Option, none, some, [], ◌∷◌, ◌++◌, String, if◌then◌else◌,
  is_empty, Bytes, codes,
}
use plcsim_connector.Common.Int.{ℤ, ◌==ℤ◌, is_negative}
use plcsim_connector.Error.{Error, ErrorKind, Outcome, returned, thrown}
use plcsim_connector.Prog.{Prog, pure, throw}
use plcsim_connector.Sdk.{Sdk, Codes, Enums}
use plcsim_connector.Std.Decimal.{int_to_string}
use plcsim_connector.Text.{to_utf8}
use plcsim_connector.Types.{Area, OperatingState}

-- The switch of `classify`.
pub classify : Codes → ℤ → ErrorKind
classify c code =
    if code ==ℤ c.does_not_exist
    then ErrorKind.instance_not_found
    else if code ==ℤ c.interface_removed
    then ErrorKind.connection_lost
    else if code ==ℤ c.timeout
    then ErrorKind.timeout
    else if code ==ℤ c.instance_not_running || code ==ℤ c.not_running
    then ErrorKind.instance_not_running
    else if code ==ℤ c.index_out_of_range
    then ErrorKind.index_out_of_range
    else if code ==ℤ c.wrong_argument
    then ErrorKind.wrong_argument
    else if code ==ℤ c.limit_reached
    then ErrorKind.limit_reached
    else if code ==ℤ c.runtime_not_available || code ==ℤ c.connection_error
    then ErrorKind.runtime_manager_unavailable
    else if code ==ℤ c.api_not_initialized
        || (code ==ℤ c.error_loading_dll || code ==ℤ c.wrong_version)
    then ErrorKind.api_not_initialized
    else ErrorKind.other

-- 0 is success, a positive code is a warning, a negative one an error.
unfoldable pub succeeded : ℤ → Bool
succeeded code = not (is_negative code)

-- to_sdk; every value of `Area` is one of its enumerators.
unfoldable pub to_sdk : Enums → Area → ℤ
to_sdk e Area.input = e.sra_input
to_sdk e Area.marker = e.sra_marker
to_sdk e Area.output = e.sra_output

-- The switch of `from_sdk`.
unfoldable pub from_sdk : Enums → ℤ → OperatingState
from_sdk e state =
    if state ==ℤ e.sros_off
    then OperatingState.off
    else if state ==ℤ e.sros_booting
    then OperatingState.booting
    else if state ==ℤ e.sros_stop
    then OperatingState.stop
    else if state ==ℤ e.sros_startup
    then OperatingState.startup
    else if state ==ℤ e.sros_run
    then OperatingState.run
    else if state ==ℤ e.sros_freeze
    then OperatingState.freeze
    else if state ==ℤ e.sros_shutting_down
    then OperatingState.shutting_down
    else if state ==ℤ e.sros_hold
    then OperatingState.hold
    else OperatingState.invalid

module _ {S : Type 0} (sdk : Sdk S) where
  unfoldable pub code_name_of : ℤ → Bytes
  code_name_of code = to_utf8 sdk (sdk.get_name_of_error_code code)

  -- The error that `throw_error` throws.
  unfoldable pub error_of : ℤ → Bytes → Bytes → Error
  unfolding code_name_of
  error_of code context extra =
      let name = code_name_of code in
      record {
        kind = classify sdk.codes code;
        code = code;
        code_name = name;
        message =
            context
            ++ (codes " failed: "
                ++ ((if is_empty name then codes "unknown error" else name)
                    ++ (codes " ("
                        ++ (int_to_string code
                            ++ (codes ")"
                                ++ (if is_empty extra
                                    then []
                                    else codes " [" ++ (extra ++ codes "]")))))));
      }

  unfoldable pub throw_error : {St A : Type 0} → ℤ → Bytes → Bytes → Prog St A
  throw_error code context extra = throw (error_of code context extra)

  unfoldable pub check : {St : Type 0} → ℤ → String → Prog St (Unit {0})
  unfolding throw_error succeeded
  check code context = if not (succeeded code) then throw_error code (codes context) [] else pure tt
