-- ===== src/Demo/Whole.antt =====
-- examples/cpp/di_do_demo.cpp from its start to its end, on a machine where everything works.
use plcsim_connector.Common.{
  ℕ, ◌≡◌, refl, true, false, some, none, List, [], ◌∷◌, ◌++◌, Bytes, codes,
}
use plcsim_connector.Common.Int.{ℤ, pos, increment, decrement, ◌==ℤ◌}
use plcsim_connector.ApiHandle.{release, drop_ref, shut_down}
use plcsim_connector.Bridge.{from_sdk}
use plcsim_connector.Error.{returned}
use plcsim_connector.Instance.{destroy}
use plcsim_connector.Instance.Methods
use plcsim_connector.Instance.Methods.{close}
use plcsim_connector.RuntimeManager
use plcsim_connector.RuntimeManager.{version_text}
use plcsim_connector.RuntimeManager.Working.{
  owning, loaded, unloaded, construct-first, version_lem, attach-new,
}
use plcsim_connector.Sdk.{Sdk}
use plcsim_connector.Text.{to_wide}
use plcsim_connector.Demo.{
  main, finish, use_runtime, leave_runtime, with_runtime, use_plc, leave_plc, cycles_of, rounds_of,
  exited,
}
use plcsim_connector.Demo.Toggling.{IsPlant, plant_run}
use plcsim_connector.Demo.Printed.{started, IsUp, introduction, with_plc-prints}

module _ {S : Type 0} (sdk : Sdk S) (raw : ℕ) (state_code : ℤ) (inputs outputs : ℕ) (s : S)
    (m packed : ℕ) (number : ℤ) (text : Bytes) where
  -- The API loads, a Runtime Manager runs, and the instance is registered; asking for all that changes
  -- nothing.
  pub record IsMachine : Type 0 where
    pub quiet : sdk.set_last_error 0 s ≡ s
    pub loads : sdk.initialize_api none s ≡ ((pos 0, some m), s)
    pub available : sdk.is_runtime_manager_available m s ≡ (true, s)
    pub versioned : sdk.get_version m s ≡ (packed, s)
    pub created : sdk.create_interface_by_name m (to_wide sdk text) s ≡ ((pos 0, some raw), s)
    pub known : (pos 0 ==ℤ sdk.codes.does_not_exist) ≡ false
    pub numbered : sdk.get_id raw s ≡ (number, s)
    pub up : IsUp sdk raw state_code inputs outputs s

  -- What is printed before the cycles.
  abbrev pub opening : Bytes
  opening =
      introduction text number (from_sdk sdk.enums state_code) inputs outputs
        (codes "Runtime Manager " ++ (version_text packed ++ codes "\n"))

  uses_runtime :
      (name_max : ℕ) (cycles : ℤ)
      → (machine : IsMachine) → IsPlant sdk raw
      → let (shown, s') =
          plant_run sdk raw
            (rounds_of cycles)
            0
            opening
            (started sdk raw state_code inputs outputs s) in
        use_runtime sdk name_max text cycles (returned owning, loaded (pos 1) m s) ≡ (
          returned tt,
          record {
            out = shown;
            world = unloaded (sdk.shutdown_and_free_api m (sdk.destroy_interface raw s'));
          },
        )
  unfolding use_runtime leave_runtime with_runtime use_plc leave_plc Methods.destruct close destroy
      RuntimeManager.destruct release drop_ref shut_down decrement ◌==ℤ◌ increment
  uses_runtime name_max cycles machine plant =
      let up = machine.up in
      let first = codes "Runtime Manager " ++ (version_text packed ++ codes "\n") in
      rw
        (
          version_lem sdk name_max m s (pos 1) packed machine.versioned,
          attach-new sdk name_max m s (pos 1) text raw number machine.created machine.known
              machine.numbered,
          with_plc-prints sdk raw state_code inputs outputs s up (pos 2) m number text first cycles
              plant,
        )
        refl

  -- On a machine on which the API loads, a Runtime Manager runs and the instance is registered, answers
  -- and has the two bytes, whose PLC accepts the transfers, and where only Run and the transfers
  -- change what is behind the SDK, `main` called with the name of the instance prints the version,
  -- the identity, the state and the sizes, calls Run and says so if the state is one that does not
  -- exchange I/O, goes through all the cycles with one line for each, prints no error, returns 0,
  -- and gives the interface and the API back.
  pub main-prints :
      (name_max : ℕ) (atoi : Bytes → ℤ) (program : Bytes) (rest : List Bytes)
      → (machine : IsMachine) → IsPlant sdk raw
      → let cycles = rounds_of (cycles_of atoi rest) in
        let (shown, s') =
          plant_run sdk raw cycles 0 opening (started sdk raw state_code inputs outputs s) in
        main sdk name_max atoi program (text ∷ rest) (unloaded s) ≡ record {
          exit = exited 0;
          out = shown;
          err = [];
          world = unloaded (sdk.shutdown_and_free_api m (sdk.destroy_interface raw s'));
        }
  unfolding main finish
  main-prints name_max atoi program rest machine plant =
      rw
        (
          construct-first sdk name_max m s machine.quiet machine.loads machine.available,
          uses_runtime name_max (cycles_of atoi rest) machine plant,
        )
        refl
