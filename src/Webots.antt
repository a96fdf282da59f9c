-- ===== src/Webots.antt =====
-- examples/webots/di_do_controller.py: a robot whose sensor is an input of the PLC and whose motor is an
-- output. Webots is a parameter: the readings of `sensor.getValue() > SENSOR_THRESHOLD`, one for each
-- time that `robot.step(timestep)` does not answer -1. A velocity is whether the motor turns.
pub mod Stepping
pub mod Safe
pub mod Startup
pub mod Tests
use plcsim_connector.Common.{
  ℕ, zero, suc, Bool, true, false, Option, none, some, List, [], ◌∷◌, ◌++◌, if◌then◌else◌, Bytes,
  codes,
}
use plcsim_connector.ApiHandle.{World}
use plcsim_connector.Instance.Methods
use plcsim_connector.Instance.Methods.{Client, operating_state}
use plcsim_connector.Prog.{Prog, ◌>>=◌}
use plcsim_connector.Python.{Result, done, raised, crashed, Py, is_caught, result_of, and_then}
use plcsim_connector.Python.Reconnecting.{Session, Settings, new_session, poll_connect}
use plcsim_connector.Python.Reconnecting.Surface.{set_address_bit, get_address_bit, close}
use plcsim_connector.Python.Waiting.{Environment}
use plcsim_connector.Sdk.{Sdk}

abbrev pub instance_name : Bytes
instance_name = codes "Webots"

abbrev pub sensor_input_bit : Bytes
sensor_input_bit = codes "%I10.2"

abbrev pub motor_output_bit : Bytes
motor_output_bit = codes "%Q4.1"

-- `plc`, and the velocities that the motor was given.
pub record Robot (S : Type 0) : Type 0 where
  pub plc : Session S
  pub velocities : List Bool

abbrev pub set_velocity : {S : Type 0} → Bool → Session S → Robot S → Robot S
set_velocity turning s r = record { plc = s; velocities = r.velocities ++ (turning ∷ []) }

module _ {S : Type 0} (sdk : Sdk S) where
  -- on_reconnect: the printed text asks for the name and the state.
  pub reassert : Prog (Client S) (Unit {0})
  reassert = Methods.name sdk >>= λ name.
      operating_state sdk >>= λ state. Methods.set_address_bit sdk sensor_input_bit false

  pub on_reconnect : Py (Client S) (Unit {0})
  on_reconnect c = let (r, c') = reassert c in (result_of r, c')

  -- `plcsim.ReconnectingInstance(INSTANCE_NAME, on_reconnect=on_reconnect)`, with the defaults of the others
  -- in milliseconds.
  pub settings : Settings S
  settings = record {
    name = instance_name;
    connect_timeout = some 30000;
    poll_interval = 500;
    on_reconnect = some on_reconnect;
    api_dll_dir = none;
  }

module _ {S : Type 0} (sdk : Sdk S) (env : Environment S) where
  -- The body of `try`: it gives the velocity.
  pub exchange : Bool → Py (Session S) Bool
  exchange seen s =
      and_then (set_address_bit sdk env (settings sdk) sensor_input_bit seen s)
        λ _. get_address_bit sdk env (settings sdk) motor_output_bit

  -- The two handlers; the second one raises again.
  pub handled : Robot S → Result Bool × Session S → Result (Unit {0}) × Robot S
  handled r (done turning, s) = (done tt, set_velocity turning s r)
  handled r (raised e, s) =
      if is_caught e then (done tt, set_velocity false s r) else (raised e, record r { plc = s })
  handled r (crashed, s) = (crashed, record r { plc = s })

  -- The loop over the steps, and `plc.close()`.
  pub steps : List Bool → Py (Robot S) (Unit {0})
  steps [] r = (done tt, record r { plc = close sdk env (settings sdk) r.plc })
  steps (seen ∷ rest) r = and_then (handled r (exchange seen r.plc)) λ _. steps rest

  -- What is made of a poll: the steps, one more round, or the end by an exception.
  pub started :
      List Bool
      → Robot S
      → Result Bool × Session S
      → (Robot S → Option (Result (Unit {0})) × Robot S)
      → Option (Result (Unit {0})) × Robot S
  started readings r (done true, s) more =
      let (x, r') = steps readings (record r { plc = s }) in (some x, r')
  started readings r (done false, s) more = more (record r { plc = s })
  started readings r (raised e, s) more = (some (raised e), record r { plc = s })
  started readings r (crashed, s) more = (some crashed, record r { plc = s })

  -- `while not plc.poll_connect()`, in at most so many rounds; `none` if it still waits then.
  pub start : ℕ → List Bool → Robot S → Option (Result (Unit {0})) × Robot S
  start zero readings r = (none, r)
  start (suc rounds) readings r =
      started readings r (poll_connect sdk env (settings sdk) r.plc) (start rounds readings)

  -- main
  pub main : ℕ → List Bool → ℕ → World S → Option (Result (Unit {0})) × Robot S
  main rounds readings time w =
      start rounds readings (record { plc = new_session time w; velocities = false ∷ [] })
