-- ===== src/Bindings/Methods/Gil.antt =====
-- The GIL around the methods of bindings/python/module.cpp, and the names of the enumerations.
use plcsim_connector.Common.{
  ℕ, ◌≡◌, ◌⊎◌, refl, ◌∙◌, arith, inl, inr, Bool, true, false, not, Option, none, some, All,
}
use plcsim_connector.ApiHandle.{World, ApiHandle}
use plcsim_connector.Error.{Outcome, returned, thrown, undefined}
use plcsim_connector.Instance.{Impl, Held}
use plcsim_connector.Instance.Methods
use plcsim_connector.Instance.Methods.{Client, on_impl, on_pointer}
use plcsim_connector.Prog.{Prog, continue}
use plcsim_connector.Sdk.{Sdk}
use plcsim_connector.Types.{OperatingState, state_to_string}
use plcsim_connector.Bindings.Methods.{
  InstanceOperation, gets_operating_state, asks_connected, closes, gets_name, gets_id, shows,
  RuntimeOperation, asks_available, gets_version, Method, Arguments, instance_methods,
  runtime_methods, instance_code, runtime_code, state_member,
}

-- The operations of Instance that call the SDK with the GIL held.
abbrev pub keeps_gil : InstanceOperation → Bool
keeps_gil gets_operating_state = true
keeps_gil asks_connected = true
keeps_gil closes = true
keeps_gil InstanceOperation.exits = true
keeps_gil _ = false

-- The same for RuntimeManager.
abbrev pub runtime_keeps_gil : RuntimeOperation → Bool
runtime_keeps_gil asks_available = true
runtime_keeps_gil gets_version = true
runtime_keeps_gil _ = false

module _ {S : Type 0} (sdk : Sdk S) (name_max : ℕ) where
  -- The code leaves the shared state alone.
  abbrev pub IsLocal : InstanceOperation → Type 0
  IsLocal operation =
      (args : Arguments) (c : Client S) → (instance_code sdk args operation c).1.world ≡ c.world

  abbrev pub RuntimeIsLocal : RuntimeOperation → Type 0
  RuntimeIsLocal operation =
      (args : Arguments) (api : Option ApiHandle) (w : World S)
      → (runtime_code sdk args name_max operation api w).1 ≡ w

  abbrev pub Guarded : Method InstanceOperation → Type 0
  Guarded m = (m.releases_gil ≡ not (keeps_gil m.operation)) ⊎ IsLocal m.operation

  abbrev pub RuntimeGuarded : Method RuntimeOperation → Type 0
  RuntimeGuarded m =
      (m.releases_gil ≡ not (runtime_keeps_gil m.operation)) ⊎ RuntimeIsLocal m.operation

  -- A method of `Impl` that leaves the shared state alone.
  on_impl-local :
      {A : Type 0} (m : Prog (Held S) A) (o : Option Impl) (w : World S)
      → ((h : Held S) → (m h).1.world ≡ h.world)
      → (on_pointer o m (record { impl = o; world = w })).1.world ≡ w
  unfolding on_pointer
  on_impl-local m none w same = refl
  on_impl-local m (some impl) w same = same (record { impl = impl; world = w })

  continue-local :
      {A B : Type 0} (r : Outcome A × Client S) (f : A → Prog (Client S) B) (w : World S)
      → r.1.world ≡ w
      → ((a : A) (c : Client S) → (f a c).1.world ≡ c.world)
      → (continue r f).1.world ≡ w
  continue-local (returned a, c) f w e g = g a c ∙ e
  continue-local (thrown x, c) f w e g = e
  continue-local (undefined, c) f w e g = e

  name_world : (c : Client S) → (Methods.name sdk c).1.world ≡ c.world
  unfolding Methods.name on_impl
  name_world c = on_impl-local _ c.impl c.world λ h. refl

  id_world : (c : Client S) → (Methods.id sdk c).1.world ≡ c.world
  unfolding Methods.id on_impl
  id_world c = on_impl-local _ c.impl c.world λ h. refl

  name-IsLocal : IsLocal gets_name
  unfolding instance_code
  name-IsLocal args c = continue-local _ _ c.world (name_world c) λ a k. refl

  id-IsLocal : IsLocal gets_id
  unfolding instance_code
  id-IsLocal args c = continue-local _ _ c.world (id_world c) λ a k. refl

  shows-IsLocal : IsLocal shows
  unfolding instance_code
  shows-IsLocal args c =
      continue-local (Methods.name sdk c) _ c.world (name_world c)
        λ a k. continue-local (Methods.id sdk k) _ k.world (id_world k) λ b j. refl

  -- Of the methods of Instance and RuntimeManager, those whose code may change the shared state release
  -- the GIL for the time of the call, but for operating_state, is_connected, close and __exit__ of
  -- Instance and is_runtime_manager_available and version of RuntimeManager, which hold it.
  pub methods-Guarded : All Guarded instance_methods × All RuntimeGuarded runtime_methods
  unfolding instance_methods runtime_methods instance_code runtime_code
  methods-Guarded = (
    (
      inl refl,
      (
        inl refl,
        (
          inl refl,
          (
            inl refl,
            (
              inl refl,
              (
                inl refl,
                (
                  inl refl,
                  (
                    inl refl,
                    (
                      inl refl,
                      (
                        inl refl,
                        (
                          inr name-IsLocal,
                          (
                            inr id-IsLocal,
                            (
                              inl refl,
                              (
                                inl refl,
                                (inr (λ args c. refl), (inl refl, (inr shows-IsLocal, tt))),
                              ),
                            ),
                          ),
                        ),
                      ),
                    ),
                  ),
                ),
              ),
            ),
          ),
        ),
      ),
    ),
    (
      inl refl,
      (
        inl refl,
        (
          inl refl,
          (
            inl refl,
            (inl refl, (inl refl, (inr (λ args api w. refl), (inr (λ args api w. refl), tt)))),
          ),
        ),
      ),
    ),
  )

-- The Python enumeration names the operating states as to_string does.
pub state_member_lem : (state : OperatingState) → state_member state ≡ state_to_string state
unfolding state_member state_to_string
state_member_lem state = ground arith
