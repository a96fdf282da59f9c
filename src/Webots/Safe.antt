-- ===== src/Webots/Safe.antt =====
-- How the controller of examples/webots/di_do_controller.py ends.
use plcsim_connector.Common.{
  ℕ, suc, ◌≡◌, Bool, true, false, Option, none, some, List, [], ◌∷◌, length,
}
use plcsim_connector.Python.{Exception, Result, done, raised}
use plcsim_connector.Python.Reconnecting.{Session, poll_connect}
use plcsim_connector.Python.Reconnecting.Held.{IsHeld}
use plcsim_connector.Python.Waiting.{Environment}
use plcsim_connector.Sdk.{Sdk}
use plcsim_connector.Webots.{Robot, settings}
use plcsim_connector.Webots.Stepping.{StepsEnd, Steps}

module _ {S : Type 0} (sdk : Sdk S) (env : Environment S) where
  -- So many polls of the session have answered False, one behind the other.
  pub data Waited : ℕ → Session S → Session S → Type 0 where
    not_yet : {s : Session S} → Waited 0 s s
    again :
        {count : ℕ} {s s1 s2 : Session S}
        → poll_connect sdk env (settings sdk) s ≡ (done false, s1)
        → Waited count s1 s2
        → Waited (suc count) s s2

  -- All polls have answered False and the controller waits; the first other answer was an error, with which
  -- the controller ends, the motor as it was; or the first other answer was True, and the steps followed from
  -- there.
  pub data ControllerEnds (n : ℕ) (readings : List Bool) (rounds : ℕ) (s : Session S)
      : Option (Result (Unit {0})) × Robot S → Type 0 where
    still_starting :
        {r : Robot S} → Waited rounds s r.plc → ControllerEnds n readings rounds s (none, r)
    failed_start :
        {polls : ℕ} {s1 : Session S} {e : Exception} {r : Robot S}
        → Waited polls s s1
        → poll_connect sdk env (settings sdk) s1 ≡ (raised e, r.plc)
        → r.velocities ≡ false ∷ []
        → IsHeld n r.plc
        → ControllerEnds n readings rounds s (some (raised e), r)
    stepped :
        {polls : ℕ} {s1 s2 : Session S} {x : Result (Unit {0})} {r : Robot S}
        → Waited polls s s1
        → poll_connect sdk env (settings sdk) s1 ≡ (done true, s2)
        → Steps sdk env readings (record { plc = s2; velocities = false ∷ [] }) (x, r)
        → StepsEnd n (suc (length readings)) (x, r)
        → ControllerEnds n readings rounds s (some x, r)
