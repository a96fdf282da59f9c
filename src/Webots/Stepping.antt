-- ===== src/Webots/Stepping.antt =====
-- The steps of the controller of examples/webots/di_do_controller.py, and its hook.
use plcsim_connector.Common.{
  ℕ, ◌+◌, ◌≡◌, refl, Bool, true, false, List, [], ◌∷◌, ◌++◌, length, length-append, arith,
  Bool-cases, inl, inr,
}
use plcsim_connector.ApiHandle.Refcount.{Holds}
use plcsim_connector.Instance.Evolution.{Evolves-KeepsCount}
use plcsim_connector.Instance.Lifetime.{
  IsMethod, bind-IsMethod, name-IsMethod, operating_state-IsMethod, set_address_bit-IsMethod,
  get_address_bit-IsMethod,
}
use plcsim_connector.Python.{Exception, Result, done, raised, crashed, is_caught, and_then}
use plcsim_connector.Python.Reconnecting.{Session}
use plcsim_connector.Python.Reconnecting.Dropped.{drop-Holds}
use plcsim_connector.Python.Reconnecting.Held.{
  IsHeld, SessionEnds, returns, raises, HasInstance, IsHook, SessionEnds-and_then,
}
use plcsim_connector.Python.Reconnecting.Parts.{result_of-crashed}
use plcsim_connector.Python.Reconnecting.Sound.{call-Ends}
use plcsim_connector.Python.Reconnecting.Surface.{set_address_bit, get_address_bit, close}
use plcsim_connector.Python.Waiting.{Environment}
use plcsim_connector.Sdk.{Sdk}
use plcsim_connector.Webots.{
  Robot, set_velocity, sensor_input_bit, motor_output_bit, reassert, on_reconnect, settings,
  exchange, handled, steps,
}

-- The loop over the steps ends behind all of them, with a velocity for each and nothing held, or with an
-- error that is not retryable.
pub data StepsEnd {S : Type 0} (n count : ℕ) : Result (Unit {0}) × Robot S → Type 0 where
  went_through :
      {r : Robot S}
      → length r.velocities ≡ count
      → Holds n r.plc.world
      → StepsEnd n count (done tt, r)
  fatal :
      {e : Exception} {r : Robot S}
      → is_caught e ≡ false
      → IsHeld n r.plc
      → StepsEnd n count (raised e, r)

module _ {S : Type 0} (sdk : Sdk S) (env : Environment S) where
  -- The steps of a robot, one for each reading: the motor is given what was read, or it is stopped behind an
  -- error that is caught; another error ends the steps. The session is closed behind the last one.
  pub data Steps : List Bool → Robot S → Result (Unit {0}) × Robot S → Type 0 where
    last :
        {r : Robot S} → Steps [] r (done tt, record r { plc = close sdk env (settings sdk) r.plc })
    turned :
        {seen turning : Bool} {rest : List Bool} {r : Robot S} {s : Session S}
        {x : Result (Unit {0}) × Robot S}
        → exchange sdk env seen r.plc ≡ (done turning, s)
        → Steps rest (record { plc = s; velocities = r.velocities ++ (turning ∷ []) }) x
        → Steps (seen ∷ rest) r x
    coasted :
        {seen : Bool} {rest : List Bool} {r : Robot S} {e : Exception} {s : Session S}
        {x : Result (Unit {0}) × Robot S}
        → exchange sdk env seen r.plc ≡ (raised e, s)
        → is_caught e ≡ true
        → Steps rest (record { plc = s; velocities = r.velocities ++ (false ∷ []) }) x
        → Steps (seen ∷ rest) r x
    gave_up :
        {seen : Bool} {rest : List Bool} {r : Robot S} {e : Exception} {s : Session S}
        → exchange sdk env seen r.plc ≡ (raised e, s)
        → is_caught e ≡ false
        → Steps (seen ∷ rest) r (raised e, record r { plc = s })

module _ {S : Type 0} (sdk : Sdk S) (env : Environment S) (n : ℕ) where
  reassert-IsMethod : IsMethod (reassert sdk)
  unfolding reassert
  reassert-IsMethod = bind-IsMethod _ _ (name-IsMethod sdk) λ name.
      bind-IsMethod _ _ (operating_state-IsMethod sdk)
        λ state. set_address_bit-IsMethod sdk sensor_input_bit false

  pub on_reconnect-IsHook : IsHook (on_reconnect sdk)
  unfolding on_reconnect
  on_reconnect-IsHook = record {
    after = λ h. (reassert-IsMethod.ends h).after;
    same = λ h. (reassert-IsMethod.ends h).same;
    keeps = λ h. let e = reassert-IsMethod.ends h in Evolves-KeepsCount h e.after e.evolves;
    safe = λ h. result_of-crashed sdk env (settings sdk) _ (reassert-IsMethod.ends h).defined;
  }

  exchange-Ends :
      (seen : Bool) (s : Session S)
      → IsHeld n s
      → SessionEnds n (λ a s'. HasInstance s') (exchange sdk env seen s)
  unfolding exchange settings set_address_bit get_address_bit
  exchange-Ends seen s v =
      SessionEnds-and_then n (λ a s'. HasInstance s') (λ a s'. HasInstance s') _ _
        (call-Ends sdk env (settings sdk) n _ s on_reconnect-IsHook
          (set_address_bit-IsMethod sdk sensor_input_bit seen) v)
        (λ a s' there v'.
          call-Ends sdk env (settings sdk) n _ s' on_reconnect-IsHook
            (get_address_bit-IsMethod sdk motor_output_bit) v')

  -- Behind a step: one velocity more, or the end.
  step-StepsEnd :
      (count : ℕ) (r : Robot S) (x : Result Bool × Session S) (rest : List Bool)
      → SessionEnds n (λ a s'. HasInstance s') x
      → ((r' : Robot S)
          → length r'.velocities ≡ length r.velocities + 1
          → IsHeld n r'.plc
          → StepsEnd n count (steps sdk env rest r'))
      → StepsEnd n count (and_then (handled sdk env r x) (λ _. steps sdk env rest))
  unfolding handled
  step-StepsEnd count r (done turning, s) rest (returns there v) go =
      go (set_velocity turning s r) (length-append r.velocities (turning ∷ [])) v
  step-StepsEnd count r (raised e, s) rest (raises v) go = elim (Bool-cases (is_caught e)) [
    | inl coasts ↦
        rw coasts (go (set_velocity false s r) (length-append r.velocities (false ∷ [])) v)
    | inr final ↦ rw final (fatal final v)
  ]
  step-StepsEnd count r (crashed, s) rest h go = elim h [ ]

  pub steps-StepsEnd :
      (count : ℕ) (readings : List Bool) (r : Robot S)
      → count ≡ length r.velocities + length readings
      → IsHeld n r.plc
      → StepsEnd n count (steps sdk env readings r)
  unfolding steps close
  steps-StepsEnd count [] r e v =
      went_through (omega (arith, e)) (drop-Holds sdk env (settings sdk) n r.plc v)
  steps-StepsEnd count (seen ∷ rest) r e v =
      step-StepsEnd count r _ rest (exchange-Ends seen r.plc v)
        (λ r' more v'. steps-StepsEnd count rest r' (omega (arith, e, more)) v')

  step-Steps :
      (seen : Bool) (r : Robot S) (x : Result Bool × Session S) (rest : List Bool)
      → exchange sdk env seen r.plc ≡ x
      → SessionEnds n (λ a s'. HasInstance s') x
      → ((r' : Robot S) → IsHeld n r'.plc → Steps sdk env rest r' (steps sdk env rest r'))
      → Steps sdk env (seen ∷ rest) r (and_then (handled sdk env r x) (λ _. steps sdk env rest))
  unfolding handled
  step-Steps seen r (done turning, s) rest e (returns there v) go =
      turned e (go (set_velocity turning s r) v)
  step-Steps seen r (raised x, s) rest e (raises v) go = elim (Bool-cases (is_caught x)) [
    | inl coasts ↦ rw coasts (coasted e coasts (go (set_velocity false s r) v))
    | inr final ↦ rw final (gave_up e final)
  ]
  step-Steps seen r (crashed, s) rest e h go = elim h [ ]

  pub steps-Steps :
      (readings : List Bool) (r : Robot S)
      → IsHeld n r.plc
      → Steps sdk env readings r (steps sdk env readings r)
  unfolding steps
  steps-Steps [] r v = last
  steps-Steps (seen ∷ rest) r v =
      step-Steps seen r _ rest refl (exchange-Ends seen r.plc v) (λ r' v'. steps-Steps rest r' v')
