-- ===== src/Python/Reconnecting/Tests.antt =====
-- A ReconnectingInstance of bindings/python/plcsim_connector/__init__.py over the simulated SDK.
use plcsim_connector.Common.{◌≡◌, refl, true, false, none, some, List, [], ◌∷◌, codes}
use plcsim_connector.Common.Int.{pos, ◌==ℤ◌}
use plcsim_connector.Address.Tests.{bad_bit}
use plcsim_connector.ApiHandle.{World, manager_of}
use plcsim_connector.Address.{invalid_error}
use plcsim_connector.Instance.{Impl, no_sizes}
use plcsim_connector.Instance.Methods
use plcsim_connector.Instance.Methods.{Client, set_address_bit, connection_of, ask_manager}
use plcsim_connector.Instance.Lifetime.{writes, perform}
use plcsim_connector.Python.{native, raised}
use plcsim_connector.Python.Reconnecting.{
  Session, Settings, new_session, is_connected, connected_if,
}
use plcsim_connector.Webots.{on_reconnect}
use plcsim_connector.Webots.Stepping.{on_reconnect-IsHook}
use plcsim_connector.Python.Reconnecting.Surface
use plcsim_connector.Python.Reconnecting.Surface.{
  Use, sets, gets, states, polls, closes, connects, use_all,
}
use plcsim_connector.Python.Reconnecting.Surface.Sequences.{GivesBack, use_all-GivesBack}
use plcsim_connector.Python.Reconnecting.Behaviour.{call_bad_address}
use plcsim_connector.Python.{Py, not_connected}
use plcsim_connector.Python.Reconnecting.Missed
use plcsim_connector.Python.Reconnecting.Recovery.{attached_session}
use plcsim_connector.Error.{Error, returned}
use plcsim_connector.Instance.{write_bit, live, verify}
use plcsim_connector.Instance.Methods.{on_impl}
use plcsim_connector.Bridge.{check, succeeded}
use plcsim_connector.Python.Reconnecting.{client_of}
use plcsim_connector.Sdk.{Sdk}
use plcsim_connector.Python.Waiting.{Environment}
use plcsim_connector.Simulator.{sample, State, idle}
use plcsim_connector.Types.{Area}

abbrev machine : Environment State
machine = record { name_max = 300; detected = none; took = λ w. 1; overslept = λ w. 0 }

abbrev fresh : World State
fresh = record { refcount = pos 0; manager = none; external = idle }

abbrev plain : Settings State
plain = record {
  name = codes "A";
  connect_timeout = some 5;
  poll_interval = 2;
  on_reconnect = none;
  api_dll_dir = none;
}

abbrev impl : Impl
impl = record {
  api = record { owns = true };
  raw = some 7;
  id = pos 1;
  name = codes "A";
  interface_removed = false;
  area_sizes = no_sizes;
}

-- A session that is connected, with the API owned twice.
abbrev live_session : Session State
live_session = record {
  instance = some impl;
  runtime = some (record { owns = true });
  time = 0;
  world = record { refcount = pos 2; manager = some 1; external = idle };
}

-- The hook of examples/webots/di_do_controller.py, which clears an input.
abbrev clearing : Settings State
clearing = record plain { on_reconnect = some (on_reconnect sample) }

abbrev uses : List Use
uses = polls ∷ sets (codes "%Q4.1") true ∷ closes ∷ connects 4 ∷ gets (codes "%Q4.1") ∷ states ∷ []

use_all-GivesBack_example :
    GivesBack sample machine clearing 0 (use_all sample machine clearing uses (new_session 0 fresh))
use_all-GivesBack_example =
    use_all-GivesBack sample machine clearing 0 uses (new_session 0 fresh)
      (on_reconnect-IsHook sample machine 0)
      (record { counted = record { counted = refl; shared = refl }; owned = tt })

still_connected : is_connected sample machine plain live_session ≡ (true, live_session)
unfolding is_connected connected_if Methods.is_connected connection_of ask_manager manager_of
still_connected = refl

call_bad_address_example :
    let e = native (invalid_error (codes "%I10.8") "bit index must be between 0 and 7") in
    (Surface.set_address_bit sample machine plain (codes "%I10.8") true live_session
      ≡ (raised e, live_session))
    × (Surface.get_address_bit sample machine plain (codes "%I10.8") live_session
        ≡ (raised e, live_session))
call_bad_address_example =
    call_bad_address sample machine plain live_session live_session (codes "%I10.8") true _
      still_connected bad_bit

-- The Runtime Manager has stopped for good.
abbrev stopped : Sdk State
stopped = record sample { is_runtime_manager_available = λ m s. (false, s) }

-- An SDK that has the interface again, once the old one is destroyed.
abbrev healing : Sdk State
healing = record sample { destroy_interface = λ raw s. record s { removed = false } }

abbrev healed : State
healed = record idle { bit = true }

-- The write gets through.
written_anew :
    perform healing
      (writes Area.output 4 1 true)
      (client_of (attached_session healing machine plain 1 7 (pos 1) 0 healed))
    ≡ (returned tt, client_of (attached_session healing machine plain 1 7 (pos 1) 0 healed))
unfolding perform on_impl write_bit live verify check succeeded ◌==ℤ◌
written_anew = refl

abbrev failing_hook : Py (Client State) (Unit {0})
failing_hook c = (raised (not_connected (codes "other")), c)

abbrev hooked : Settings State
hooked = record plain { on_reconnect = some failing_hook }
