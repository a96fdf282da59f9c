-- ===== src/Instance/Lifetime.antt =====
-- The life of an `Instance` of src/SdkBridge.cpp under any sequence of calls.
use plcsim_connector.Common.{
  ℕ, ◌≡◌, ◌≢◌, refl, Bool, true, false, ◌||◌, Option, none, some, inl, inr, Bytes, if◌then◌else◌,
}
use plcsim_connector.Address.{parse_bit_address}
use plcsim_connector.Address.Rejects.{parse_ends}
use plcsim_connector.ApiHandle.{is_null, manager_of}
use plcsim_connector.Bridge.{from_sdk}
use plcsim_connector.Error.{Outcome, returned, thrown, undefined}
use plcsim_connector.Prog.{Prog, pure, continue, ◌>>=◌}
use plcsim_connector.Sdk.{Sdk}
use plcsim_connector.Types.{Area}
use plcsim_connector.Instance.{Held, call, write_bit, read_bit}
use plcsim_connector.Instance.Evolution.{
  Evolves, Evolves-refl, Evolves-trans, Tame, Tame-bind, pure-Tame, call-Tame,
}
use plcsim_connector.Instance.Tame.{
  live-Tame, verify-Tame, area_size-Tame, check_bounds-Tame, write_bit-Tame, read_bit-Tame,
}
use plcsim_connector.Instance.Methods
use plcsim_connector.Instance.Methods.{
  Client, on_impl, lift, answered, set_address_bit, get_address_bit, instance_area_size,
  operating_state, ask_manager, is_connected, close,
}

-- A handle that was not moved from.
abbrev pub of_held : {S : Type 0} → Held S → Client S
of_held h = record { impl = some h.impl; world = h.world }

-- How a call on the handle `h` ends, and what it has made of the handle.
pub record Ends {S A : Type 0} (h : Held S) (r : Outcome A × Client S) : Type 0 where
  pub after : Held S
  pub same : r.1 ≡ of_held after
  pub evolves : Evolves h after
  pub defined : r.0 ≢ undefined

-- A program of a client ends so on every handle.
pub record IsMethod {S A : Type 0} (p : Prog (Client S) A) : Type 0 where
  pub ends : (h : Held S) → Ends h (p (of_held h))

module _ {S : Type 0} where
  on_impl-IsMethod : {A : Type 0} (m : Prog (Held S) A) → Tame m → IsMethod (on_impl m)
  unfolding on_impl
  on_impl-IsMethod m t = record {
    ends = λ h. record { after = (m h).1; same = refl; evolves = (t h).0; defined = (t h).1 };
  }

  continue-Ends :
      {A B : Type 0} (h : Held S) (r : Outcome A × Client S) (f : A → Prog (Client S) B)
      → Ends h r
      → ((a : A) → IsMethod (f a))
      → Ends h (continue r f)
  continue-Ends h (returned a, c) f e t =
      let next = (t a).ends e.after in
      rw e.same (record {
        after = next.after;
        same = next.same;
        evolves = Evolves-trans h e.after next.after e.evolves next.evolves;
        defined = next.defined;
      })
  continue-Ends h (thrown x, c) f e t = record {
    after = e.after;
    same = e.same;
    evolves = e.evolves;
    defined = λ d. cc;
  }
  continue-Ends h (undefined, c) f e t = absurd (e.defined refl)

  pub bind-IsMethod :
      {A B : Type 0} (p : Prog (Client S) A) (f : A → Prog (Client S) B)
      → IsMethod p
      → ((a : A) → IsMethod (f a))
      → IsMethod (p >>= f)
  bind-IsMethod p f t u = record { ends = λ h. continue-Ends h (p (of_held h)) f (t.ends h) u }

  pub pure-IsMethod : {A : Type 0} (a : A) → IsMethod {S = S} (pure a)
  pure-IsMethod a = record {
    ends = λ h. record { after = h; same = refl; evolves = Evolves-refl h; defined = λ d. cc };
  }

  parse-IsMethod : (address : Bytes) → IsMethod {S = S} (lift (parse_bit_address address))
  parse-IsMethod address = record {
    ends = λ h. record {
      after = h;
      same = refl;
      evolves = Evolves-refl h;
      defined = λ d. elim (parse_ends address) [ inl (a, e) ↦ cc | inr (reason, e) ↦ cc ];
    };
  }

  discard-IsMethod :
      {A : Type 0} (p : Prog (Client S) A) → IsMethod p → IsMethod (p >>= λ _. pure tt)
  discard-IsMethod p t = bind-IsMethod p _ t λ a. pure-IsMethod tt

-- The calls that a client can make, but for `close`.
pub data Call : Type 0 where
  sets : Bytes → Bool → Call
  gets : Bytes → Call
  writes : Area → ℕ → ℕ → Bool → Call
  reads : Area → ℕ → ℕ → Call
  sizes : Area → Call
  runs stops states asks names ids : Call

module _ {S : Type 0} (sdk : Sdk S) where
  -- The call with its result left out.
  unfoldable pub perform : Call → Prog (Client S) (Unit {0})
  perform (sets address value) = set_address_bit sdk address value
  perform (gets address) = get_address_bit sdk address >>= λ _. pure tt
  perform (writes area byte bit value) = on_impl (write_bit sdk area byte bit value)
  perform (reads area byte bit) = on_impl (read_bit sdk area byte bit) >>= λ _. pure tt
  perform (sizes area) = instance_area_size sdk area >>= λ _. pure tt
  perform runs = Methods.run sdk
  perform stops = Methods.stop sdk
  perform states = operating_state sdk >>= λ _. pure tt
  perform asks = λ c. (returned tt, (is_connected sdk c).1)
  perform names = Methods.name sdk >>= λ _. pure tt
  perform ids = Methods.id sdk >>= λ _. pure tt

  ask_ends :
      (h : Held S) (raw : Bool) (manager : Option ℕ)
      → (k : Held S) × ((if raw then (false, of_held h) else ask_manager sdk manager (of_held h)).1
          ≡ of_held k)
        × Evolves h k
  unfolding ask_manager
  ask_ends h true manager = (h, refl, Evolves-refl h)
  ask_ends h false none = (h, refl, Evolves-refl h)
  ask_ends h false (some m) =
      let f = sdk.is_runtime_manager_available m in ((call f h).1, refl, (call-Tame f h).0)

  pub set_address_bit-IsMethod :
      (address : Bytes) (value : Bool) → IsMethod (set_address_bit sdk address value)
  unfolding set_address_bit
  set_address_bit-IsMethod address value = bind-IsMethod _ _ (parse-IsMethod address) λ a.
      bind-IsMethod _ _ (on_impl-IsMethod _ (check_bounds-Tame sdk a "setAddressBit"))
        λ _. on_impl-IsMethod _ (write_bit-Tame sdk a.area a.byte a.bit value)

  pub get_address_bit-IsMethod : (address : Bytes) → IsMethod (get_address_bit sdk address)
  unfolding get_address_bit
  get_address_bit-IsMethod address = bind-IsMethod _ _ (parse-IsMethod address) λ a.
      bind-IsMethod _ _ (on_impl-IsMethod _ (check_bounds-Tame sdk a "getAddressBit"))
        λ _. on_impl-IsMethod _ (read_bit-Tame sdk a.area a.byte a.bit)

  pub area_size-IsMethod : (area : Area) → IsMethod (instance_area_size sdk area)
  unfolding instance_area_size
  area_size-IsMethod area = on_impl-IsMethod _ (area_size-Tame sdk area)

  pub run-IsMethod : IsMethod (Methods.run sdk)
  unfolding Methods.run
  run-IsMethod = on_impl-IsMethod _ (
      Tame-bind _ _ (live-Tame sdk "Run")
        λ raw. Tame-bind _ _ (call-Tame (sdk.run raw)) λ result. verify-Tame sdk result "Run")

  pub stop-IsMethod : IsMethod (Methods.stop sdk)
  unfolding Methods.stop
  stop-IsMethod = on_impl-IsMethod _ (
      Tame-bind _ _ (live-Tame sdk "Stop")
        λ raw. Tame-bind _ _ (call-Tame (sdk.stop raw)) λ result. verify-Tame sdk result "Stop")

  pub operating_state-IsMethod : IsMethod (operating_state sdk)
  unfolding operating_state
  operating_state-IsMethod = on_impl-IsMethod _ (
      Tame-bind _ _ (live-Tame sdk "GetOperatingState") λ raw.
        Tame-bind _ _ (call-Tame (sdk.get_operating_state raw))
          λ state. pure-Tame (from_sdk sdk.enums state))

  pub name-IsMethod : IsMethod (Methods.name sdk)
  unfolding Methods.name
  name-IsMethod = on_impl-IsMethod _ λ h. pure-Tame h.impl.name h

  pub id-IsMethod : IsMethod (Methods.id sdk)
  unfolding Methods.id
  id-IsMethod = on_impl-IsMethod _ λ h. pure-Tame h.impl.id h

  perform-IsMethod : (c : Call) → IsMethod (perform c)
  unfolding perform is_connected
  perform-IsMethod (sets address value) = set_address_bit-IsMethod address value
  perform-IsMethod (gets address) = discard-IsMethod _ (get_address_bit-IsMethod address)
  perform-IsMethod (writes area byte bit value) =
      on_impl-IsMethod _ (write_bit-Tame sdk area byte bit value)
  perform-IsMethod (reads area byte bit) =
      discard-IsMethod _ (on_impl-IsMethod _ (read_bit-Tame sdk area byte bit))
  perform-IsMethod (sizes area) = discard-IsMethod _ (area_size-IsMethod area)
  perform-IsMethod runs = run-IsMethod
  perform-IsMethod stops = stop-IsMethod
  perform-IsMethod states = discard-IsMethod _ operating_state-IsMethod
  perform-IsMethod asks = record {
    ends = λ h.
        let i = h.impl in
        let (k, e, ev) =
          ask_ends h (is_null i.raw || i.interface_removed) (manager_of i.api h.world) in
        record { after = k; same = e; evolves = ev; defined = λ d. cc };
  }
  perform-IsMethod names = discard-IsMethod _ name-IsMethod
  perform-IsMethod ids = discard-IsMethod _ id-IsMethod

  -- Every call of a method of Instance other than `close()`, on a handle that was not moved from, ends
  -- in a defined way, by returning or by throwing, and leaves the handle what it was: its interface
  -- pointer, its id, its name and its share of the API stay, the mark of a dropped interface stays and
  -- a cached area size is never changed.
  pub perform-Ends : (c : Call) (h : Held S) → Ends h (perform c (of_held h))
  perform-Ends c h = (perform-IsMethod c).ends h
