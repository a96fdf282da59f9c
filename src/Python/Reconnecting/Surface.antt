-- ===== src/Python/Reconnecting/Surface.antt =====
-- The methods of ReconnectingInstance (bindings/python/plcsim_connector/__init__.py) that its clients call,
-- and any sequence of them.
pub mod Sequences
use plcsim_connector.Common.{
  ℕ, Bool, true, false, Option, none, some, List, [], ◌∷◌, ◌++◌, if◌then◌else◌, Bytes, codes,
}
use plcsim_connector.Instance.Methods
use plcsim_connector.Instance.Methods.{instance_area_size}
use plcsim_connector.Python.{Result, done, raised, crashed, Py, and_then}
use plcsim_connector.Python.Reconnecting.{
  Session, Settings, on_instance, is_connected, drop, poll_connect, require_connected, call,
  connect,
}
use plcsim_connector.Python.Waiting.{Environment}
use plcsim_connector.Sdk.{Sdk}
use plcsim_connector.Types.{Area, OperatingState}

module _ {S : Type 0} (sdk : Sdk S) (env : Environment S) (settings : Settings S) where
  unfoldable pub set_address_bit : Bytes → Bool → Py (Session S) (Unit {0})
  set_address_bit address value = call sdk env settings (Methods.set_address_bit sdk address value)

  unfoldable pub get_address_bit : Bytes → Py (Session S) Bool
  get_address_bit address = call sdk env settings (Methods.get_address_bit sdk address)

  pub area_size : Area → Py (Session S) ℕ
  area_size area = call sdk env settings (instance_area_size sdk area)

  pub run : Py (Session S) (Unit {0})
  run = call sdk env settings (Methods.run sdk)

  pub stop : Py (Session S) (Unit {0})
  stop = call sdk env settings (Methods.stop sdk)

  -- This one goes by `_require_connected` and is not tried again.
  pub operating_state : Py (Session S) OperatingState
  operating_state s =
      and_then (require_connected sdk env settings s)
        λ _. on_instance sdk env settings (Methods.operating_state sdk)

  unfoldable pub close : Session S → Session S
  close s = drop sdk env settings s

  -- __repr__, where `quoted` is `repr` of the name
  pub repr : Bytes → Session S → Bytes × Session S
  repr quoted s =
      let (b, s') = is_connected sdk env settings s in
      (
        codes "<ReconnectingInstance "
            ++ (quoted
                ++ (codes " "
                    ++ ((if b then codes "connected" else codes "disconnected") ++ codes ">"))),
        s',
      )

-- What a client does; `connects` waits for so many rounds at most.
pub data Use : Type 0 where
  sets : Bytes → Bool → Use
  gets : Bytes → Use
  sizes : Area → Use
  runs stops states asks polls closes : Use
  connects : ℕ → Use

-- Where a sequence of uses gets to: its end, a `connect` that waits, or a crash.
pub data Reached (S : Type 0) : Type 0 where
  reached : Session S → Reached S
  waiting broken : Reached S

-- What comes back, with the value left out.
abbrev pub outcome : {A St : Type 0} → Result A × St → Option (Result (Unit {0})) × St
outcome (done a, s) = (some (done tt), s)
outcome (raised e, s) = (some (raised e), s)
outcome (crashed, s) = (some crashed, s)

module _ {S : Type 0} (sdk : Sdk S) (env : Environment S) (settings : Settings S) where
  pub use_once : Use → Session S → Option (Result (Unit {0})) × Session S
  use_once (sets address value) s = outcome (set_address_bit sdk env settings address value s)
  use_once (gets address) s = outcome (get_address_bit sdk env settings address s)
  use_once (sizes area) s = outcome (area_size sdk env settings area s)
  use_once runs s = outcome (run sdk env settings s)
  use_once stops s = outcome (stop sdk env settings s)
  use_once states s = outcome (operating_state sdk env settings s)
  use_once asks s = (some (done tt), (is_connected sdk env settings s).1)
  use_once polls s = outcome (poll_connect sdk env settings s)
  use_once closes s = (some (done tt), close sdk env settings s)
  use_once (connects rounds) s = connect sdk env settings rounds s

  -- The client goes on whatever was raised.
  pub goes_on : Option (Result (Unit {0})) × Session S → (Session S → Reached S) → Reached S
  goes_on (some (done t), s) more = more s
  goes_on (some (raised e), s) more = more s
  goes_on (some crashed, s) more = broken
  goes_on (none, s) more = waiting

  pub use_all : List Use → Session S → Reached S
  use_all [] s = reached s
  use_all (u ∷ us) s = goes_on (use_once u s) (use_all us)
