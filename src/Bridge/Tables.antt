-- ===== src/Bridge/Tables.antt =====
-- The operating states of the SDK and of the connector: `from_sdk` of src/SdkBridge.cpp and
-- `exchanges_io` of include/plcsim/Types.hpp.
use plcsim_connector.Common.{◌≢◌, ◌≡◌, ◌↔◌, true, List, [], ◌∷◌, Option, none, some, arith}
use plcsim_connector.Common.Int.{ℤ, ==ℤ_iff}
use plcsim_connector.Sdk.{Enums}
use plcsim_connector.Types.{OperatingState, exchanges_io}
use plcsim_connector.Bridge.{from_sdk}
use plcsim_connector.Bridge.Retry.{AreDifferent}

abbrev pub states : Enums → List ℤ
states e =
    e.sros_off ∷ e.sros_booting ∷ e.sros_stop ∷ e.sros_startup ∷ e.sros_run ∷ e.sros_freeze
    ∷ e.sros_shutting_down ∷ e.sros_hold ∷ []

-- The SDK's enumerator of a state; the invalid state has none.
abbrev pub enumerator : Enums → OperatingState → Option ℤ
enumerator e OperatingState.invalid = none
enumerator e OperatingState.off = some e.sros_off
enumerator e OperatingState.booting = some e.sros_booting
enumerator e OperatingState.stop = some e.sros_stop
enumerator e OperatingState.startup = some e.sros_startup
enumerator e OperatingState.run = some e.sros_run
enumerator e OperatingState.freeze = some e.sros_freeze
enumerator e OperatingState.shutting_down = some e.sros_shutting_down
enumerator e OperatingState.hold = some e.sros_hold

-- Where the SDK's operating states have different values, a value is read as a valid state exactly if
-- it is the enumerator of that name; every other value is read as invalid.
pub from_sdk-enumerator :
    (e : Enums) (state : OperatingState) (code : ℤ)
    → AreDifferent (states e)
    → state ≢ OperatingState.invalid
    → (from_sdk e code ≡ state) ↔ (enumerator e state ≡ some code)
unfolding from_sdk
from_sdk-enumerator e state code d valid = ground (
  arith,
  ==ℤ_iff code e.sros_off,
  ==ℤ_iff code e.sros_booting,
  ==ℤ_iff code e.sros_stop,
  ==ℤ_iff code e.sros_startup,
  ==ℤ_iff code e.sros_run,
  ==ℤ_iff code e.sros_freeze,
  ==ℤ_iff code e.sros_shutting_down,
  ==ℤ_iff code e.sros_hold,
)

-- Where the SDK's operating states have different values, I/O is exchanged in the SDK's state RUN and in no other.
pub exchanges_io-from_sdk :
    (e : Enums) (code : ℤ)
    → AreDifferent (states e)
    → (exchanges_io (from_sdk e code) ≡ true) ↔ (code ≡ e.sros_run)
unfolding from_sdk exchanges_io
exchanges_io-from_sdk e code d = ground (
  arith,
  ==ℤ_iff code e.sros_off,
  ==ℤ_iff code e.sros_booting,
  ==ℤ_iff code e.sros_stop,
  ==ℤ_iff code e.sros_startup,
  ==ℤ_iff code e.sros_run,
)
