-- ===== src/Demo/Tests.antt =====
-- examples/cpp/di_do_demo.cpp over the simulated SDK, two cycles long.
use plcsim_connector.Common.{◌≡◌, refl, none, [], ◌∷◌, codes, arith, Bytes}
use plcsim_connector.Common.Int.{pos, ◌==ℤ◌}
use plcsim_connector.ApiHandle.{World}
use plcsim_connector.Demo.{main, exited}
use plcsim_connector.Demo.Ends.{MainEnds, main-MainEnds}
use plcsim_connector.Demo.Toggling.{IsPlant, plant_run}
use plcsim_connector.Demo.Printed.{IsUp}
use plcsim_connector.Demo.Whole.{IsMachine, opening, main-prints}
use plcsim_connector.RuntimeManager.{version_text}
use plcsim_connector.Text.{to_wide}
use plcsim_connector.Bridge.{from_sdk}
use plcsim_connector.Types.{state_to_string, exchanges_io}
use plcsim_connector.Sdk.{Sdk}
use plcsim_connector.Std.Decimal
use plcsim_connector.Simulator.{sample, State, idle}

abbrev fresh : World State
fresh = record { refcount = pos 0; manager = none; external = idle }

main-MainEnds_example :
    MainEnds 0
      (codes "di_do_demo")
      fresh
      (codes "A" ∷ codes "2" ∷ [])
      (main sample 300 (λ text. pos 2) (codes "di_do_demo") (codes "A" ∷ codes "2" ∷ []) fresh)
main-MainEnds_example =
    main-MainEnds sample 0 300 (λ text. pos 2) (codes "di_do_demo") (codes "A" ∷ codes "2" ∷ [])
      fresh (record { counted = refl; shared = refl })

-- A PLC whose output follows its input.
abbrev following : Sdk State
following = record sample {
  write_bit = λ raw area byte bit value s. (pos 0, record s { bit = value });
  read_bit = λ raw area byte bit s. ((pos 0, s.bit), s);
  get_area_size = λ raw area s. (16, s);
}

following-IsPlant : IsPlant following 7
following-IsPlant = record { writes = λ value s. refl; reads = λ s. refl }

following-IsUp : IsUp following 7 (pos 6) 16 16 idle
unfolding ◌==ℤ◌
following-IsUp = record {
  in_state = refl;
  runs = refl;
  input_size = refl;
  output_size = refl;
  has_input = omega arith;
  has_output = omega arith;
  is_no_removal = refl;
}

following-IsMachine : IsMachine following 7 (pos 6) 16 16 idle 1 524288 (pos 1) (codes "A")
unfolding ◌==ℤ◌ to_wide
following-IsMachine = record {
  quiet = refl;
  loads = refl;
  available = refl;
  versioned = refl;
  created = refl;
  known = refl;
  numbered = refl;
  up = following-IsUp;
}

-- The PLC after two cycles, and what they print behind the opening.
abbrev printed : Bytes × State
printed =
    plant_run following 7 2 0 (opening following 7 (pos 6) 16 16 idle 1 524288 (pos 1) (codes "A"))
      idle

main-prints_example :
    main following 300 (λ text. pos 2) (codes "di_do_demo") (codes "A" ∷ codes "2" ∷ []) fresh
    ≡ record { exit = exited 0; out = printed.0; err = []; world = fresh }
unfolding exchanges_io from_sdk ◌==ℤ◌
main-prints_example =
    main-prints following 7 (pos 6) 16 16 idle 1 524288 (pos 1) (codes "A") 300 (λ text. pos 2)
      (codes "di_do_demo") (codes "2" ∷ []) following-IsMachine following-IsPlant

transcript :
    printed.0
    ≡ codes
        "Runtime Manager 8.0\nattached to \"A\" (id 1), state Run\nareas: %I 16 B, %Q 16 B\n\ncycle 0: %I10.2 <- true    %Q4.1 -> true\ncycle 1: %I10.2 <- false   %Q4.1 -> false\n"
unfolding Decimal.to_string Decimal.int_to_string version_text state_to_string exchanges_io from_sdk
    ◌==ℤ◌
transcript = refl
