-- ===== src/Python/Reconnecting/Surface/Sequences.antt =====
-- A ReconnectingInstance of bindings/python/plcsim_connector/__init__.py under any sequence of uses.
use plcsim_connector.Common.{ℕ, refl, Option, none, some, List, [], ◌∷◌}
use plcsim_connector.ApiHandle.Refcount.{Holds}
use plcsim_connector.Instance.Lifetime.{
  area_size-IsMethod, run-IsMethod, stop-IsMethod, set_address_bit-IsMethod,
  get_address_bit-IsMethod, operating_state-IsMethod,
}
use plcsim_connector.Python.{Exception, Result, done, raised, crashed}
use plcsim_connector.Python.Reconnecting.{Session, Settings, is_connected}
use plcsim_connector.Python.Reconnecting.Connect.{ConnectEnds, over, connect-ConnectEnds}
use plcsim_connector.Python.Reconnecting.Dropped.{drop-Holds, drop-IsHeld}
use plcsim_connector.Python.Reconnecting.Held.{IsHeld, SessionEnds, returns, raises, IsHookIfThere}
use plcsim_connector.Python.Reconnecting.Parts.{connected-IsHeld}
use plcsim_connector.Python.Reconnecting.Sound.{call-Ends, poll_connect-Ends, call_again-Ends}
use plcsim_connector.Python.Reconnecting.Surface.{
  Use, sets, gets, sizes, runs, stops, states, asks, polls, closes, connects, Reached, reached,
  waiting, outcome, use_once, goes_on, use_all, set_address_bit, get_address_bit, area_size, run,
  stop, operating_state, close,
}
use plcsim_connector.Python.Waiting.{Environment}
use plcsim_connector.Sdk.{Sdk}

-- What a use leaves.
pub data UseEnds {S : Type 0} (n : ℕ) : Option (Result (Unit {0})) × Session S → Type 0 where
  paused : {s : Session S} → UseEnds n (none, s)
  came_back : {s : Session S} → IsHeld n s → UseEnds n (some (done tt), s)
  threw : {e : Exception} {s : Session S} → IsHeld n s → UseEnds n (some (raised e), s)

module _ {S : Type 0} (sdk : Sdk S) (env : Environment S) (settings : Settings S) (n : ℕ) where
  outcome-UseEnds :
      {A : Type 0} (P : A → Session S → Type 0) (r : Result A × Session S)
      → SessionEnds n P r
      → UseEnds n (outcome r)
  outcome-UseEnds P (done a, s) (returns p v) = came_back v
  outcome-UseEnds P (raised e, s) (raises v) = threw v
  outcome-UseEnds P (crashed, s) h = elim h [ ]

  connected-UseEnds : (r : Option (Result (Unit {0})) × Session S) → ConnectEnds n r → UseEnds n r
  connected-UseEnds (none, s) h = paused
  connected-UseEnds (some (done t), s) (over (returns there v)) = came_back v
  connected-UseEnds (some (raised e), s) (over (raises v)) = threw v
  connected-UseEnds (some crashed, s) (over h) = elim h [ ]

  use_once-UseEnds :
      (u : Use) (s : Session S)
      → IsHookIfThere settings.on_reconnect
      → IsHeld n s
      → UseEnds n (use_once sdk env settings u s)
  unfolding use_once set_address_bit get_address_bit area_size run stop operating_state close
      is_connected
  use_once-UseEnds (sets address value) s hook v =
      outcome-UseEnds _ _
        (call-Ends sdk env settings n _ s hook (set_address_bit-IsMethod sdk address value) v)
  use_once-UseEnds (gets address) s hook v =
      outcome-UseEnds _ _
        (call-Ends sdk env settings n _ s hook (get_address_bit-IsMethod sdk address) v)
  use_once-UseEnds (sizes area) s hook v =
      outcome-UseEnds _ _ (call-Ends sdk env settings n _ s hook (area_size-IsMethod sdk area) v)
  use_once-UseEnds runs s hook v =
      outcome-UseEnds _ _ (call-Ends sdk env settings n _ s hook (run-IsMethod sdk) v)
  use_once-UseEnds stops s hook v =
      outcome-UseEnds _ _ (call-Ends sdk env settings n _ s hook (stop-IsMethod sdk) v)
  use_once-UseEnds states s hook v =
      outcome-UseEnds _ _
        (call_again-Ends sdk env settings n _ s hook (operating_state-IsMethod sdk) v)
  use_once-UseEnds asks s hook v =
      came_back (connected-IsHeld sdk env settings n s s.instance refl v).0
  use_once-UseEnds polls s hook v =
      outcome-UseEnds _ _ (poll_connect-Ends sdk env settings n s hook v)
  use_once-UseEnds closes s hook v = came_back (drop-IsHeld sdk env settings n s v).0
  use_once-UseEnds (connects rounds) s hook v =
      connected-UseEnds _ (connect-ConnectEnds sdk env settings n rounds s hook v)

  -- The end of a sequence is a session that holds what is counted, and gives it back when it is closed.
  pub data GivesBack : Reached S → Type 0 where
    at_end :
        {s : Session S}
        → IsHeld n s
        → Holds n (close sdk env settings s).world
        → GivesBack (reached s)
    in_connect : GivesBack waiting

  goes_on-GivesBack :
      (r : Option (Result (Unit {0})) × Session S) (more : Session S → Reached S)
      → UseEnds n r
      → ((s : Session S) → IsHeld n s → GivesBack (more s))
      → GivesBack (goes_on sdk env settings r more)
  unfolding goes_on
  goes_on-GivesBack (none, s) more h go = in_connect
  goes_on-GivesBack (some (done t), s) more (came_back v) go = go s v
  goes_on-GivesBack (some (raised e), s) more (threw v) go = go s v
  goes_on-GivesBack (some crashed, s) more h go = elim h [ ]

  -- Where the hook on_reconnect, if there is one, does not crash, leaves its instance in place and keeps
  -- the count of the owners right (it may raise), any sequence of uses of a ReconnectingInstance that holds
  -- what is counted, whatever each of them raises, comes to its end or waits in a `connect`, and does not
  -- crash. At the end the globals count the `n` other owners of the API and what the session holds, and
  -- `close` gives that back.
  pub use_all-GivesBack :
      (us : List Use) (s : Session S)
      → IsHookIfThere settings.on_reconnect
      → IsHeld n s
      → GivesBack (use_all sdk env settings us s)
  unfolding use_all close
  use_all-GivesBack [] s hook v = at_end v (drop-Holds sdk env settings n s v)
  use_all-GivesBack (u ∷ us) s hook v =
      goes_on-GivesBack _ _ (use_once-UseEnds u s hook v) (λ s' v'. use_all-GivesBack us s' hook v')
