-- ===== src/Types.antt =====
-- include/plcsim/Types.hpp and src/Types.cpp: memory areas, operating states, instance identities.
use plcsim_connector.Common.{ℕ, Bool, true, false, Bytes, codes}
use plcsim_connector.Common.Int.{ℤ}

pub data Area : Type 0 where
  input marker output : Area

pub data OperatingState : Type 0 where
  invalid off booting stop startup run freeze shutting_down hold : OperatingState

pub record InstanceInfo : Type 0 where
  pub id : ℤ
  pub name : Bytes

-- The value of an enumerator.
abbrev pub area_value : Area → ℕ
area_value Area.input = 0
area_value Area.marker = 1
area_value Area.output = 2

-- to_string(Area)
unfoldable pub area_to_string : Area → Bytes
area_to_string Area.input = codes "I"
area_to_string Area.marker = codes "M"
area_to_string Area.output = codes "Q"

-- to_string(OperatingState)
unfoldable pub state_to_string : OperatingState → Bytes
state_to_string OperatingState.invalid = codes "Invalid"
state_to_string OperatingState.off = codes "Off"
state_to_string OperatingState.booting = codes "Booting"
state_to_string OperatingState.stop = codes "Stop"
state_to_string OperatingState.startup = codes "Startup"
state_to_string OperatingState.run = codes "Run"
state_to_string OperatingState.freeze = codes "Freeze"
state_to_string OperatingState.shutting_down = codes "ShuttingDown"
state_to_string OperatingState.hold = codes "Hold"

-- The comparison of two enumerators in `exchanges_io`.
unfoldable pub exchanges_io : OperatingState → Bool
exchanges_io OperatingState.run = true
exchanges_io _ = false
