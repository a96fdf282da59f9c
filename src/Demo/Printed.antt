-- ===== src/Demo/Printed.antt =====
-- examples/cpp/di_do_demo.cpp once it has attached an instance that answers: what it prints.
use plcsim_connector.Common.{
  ℕ, ◌<◌, ◌≡◌, refl, ap, false, some, none, [], ◌++◌, append_assoc, append-nil, if◌then◌else◌,
  Bytes, codes, arith, Bool-cases, inl, inr, ◌==◌,
}
use plcsim_connector.Common.Int.{ℤ, pos, ◌==ℤ◌}
use plcsim_connector.Bridge.{check, succeeded, to_sdk, from_sdk}
use plcsim_connector.Error.{returned}
use plcsim_connector.Instance.{
  Held, AreaSizes, no_sizes, set_size, live, verify, area_size, query_size, keep_size, size_at,
}
use plcsim_connector.Instance.Accepted.{with_external}
use plcsim_connector.Instance.Lifetime.{of_held}
use plcsim_connector.Instance.Methods
use plcsim_connector.Instance.Methods.{
  Client, on_impl, name, id, operating_state, instance_area_size,
}
use plcsim_connector.RuntimeManager.Working.{loaded, new_instance}
use plcsim_connector.Sdk.{Sdk}
use plcsim_connector.Std.Decimal
use plcsim_connector.Types.{Area, OperatingState, state_to_string, exchanges_io}
use plcsim_connector.Demo.{show_attached, start_if_needed, show_areas, with_plc, rounds_of}
use plcsim_connector.Demo.Steady.{screen}
use plcsim_connector.Demo.Toggling.{IsPlant, plant_run, cycles_from-prints}

-- What is printed before the cycles.
abbrev pub heading : Bytes → ℤ → OperatingState → Bytes
heading name id state =
    codes "attached to \""
    ++ (name
        ++ (codes "\" (id "
            ++ (Decimal.int_to_string id
                ++ (codes "), state " ++ (state_to_string state ++ codes "\n")))))

abbrev pub starting : OperatingState → Bytes
starting state =
    if exchanges_io state then [] else codes "instance is not in RUN; putting it there\n"

abbrev pub areas : ℕ → ℕ → Bytes
areas inputs outputs =
    codes "areas: %I "
    ++ (Decimal.to_string inputs
        ++ (codes " B, %Q " ++ (Decimal.to_string outputs ++ codes " B\n\n")))

-- All of this, behind what was printed before.
abbrev pub introduction : Bytes → ℤ → OperatingState → ℕ → ℕ → Bytes → Bytes
introduction name id state inputs outputs out =
    ((out ++ heading name id state) ++ starting state) ++ areas inputs outputs

regroup_heading :
    (o a b c d e f g : Bytes)
    → ((((((o ++ a) ++ b) ++ c) ++ d) ++ e) ++ f) ++ g
      ≡ o ++ (a ++ (b ++ (c ++ (d ++ (e ++ (f ++ g))))))
regroup_heading o a b c d e f g = simp append_assoc

regroup_areas :
    (o a b c d e : Bytes) → ((((o ++ a) ++ b) ++ c) ++ d) ++ e ≡ o ++ (a ++ (b ++ (c ++ (d ++ e))))
regroup_areas o a b c d e = simp append_assoc

module _ {S : Type 0} (sdk : Sdk S) (raw : ℕ) (state_code : ℤ) (inputs outputs : ℕ) (s : S) where
  abbrev pub state : OperatingState
  state = from_sdk sdk.enums state_code

  -- What is behind the SDK once the instance is in RUN.
  abbrev pub started : S
  started = if exchanges_io state then s else (sdk.run raw s).1

  -- The instance answers, and has the two bytes; asking it changes nothing.
  pub record IsUp : Type 0 where
    pub in_state : sdk.get_operating_state raw s ≡ (state_code, s)
    pub runs : (sdk.run raw s).0 ≡ pos 0
    pub input_size : sdk.get_area_size raw (to_sdk sdk.enums Area.input) started ≡ (inputs, started)
    pub output_size :
        sdk.get_area_size raw (to_sdk sdk.enums Area.output) started ≡ (outputs, started)
    pub has_input : 10 < inputs
    pub has_output : 4 < outputs
    pub is_no_removal : (pos 0 ==ℤ sdk.codes.interface_removed) ≡ false

  module _ (up : IsUp) (count : ℤ) (m : ℕ) (number : ℤ) (text : Bytes) where
    abbrev fresh : AreaSizes → S → Held S
    fresh sizes u = record {
      impl = record (new_instance raw number text) { area_sizes = sizes };
      world = loaded count m u;
    }

    asked_state :
        operating_state sdk (of_held (fresh no_sizes s))
        ≡ (returned state, of_held (fresh no_sizes s))
    unfolding operating_state on_impl live
    asked_state = rw up.in_state refl

    put_in_run :
        Methods.run sdk (of_held (fresh no_sizes s))
        ≡ (returned tt, of_held (fresh no_sizes (sdk.run raw s).1))
    unfolding Methods.run on_impl live verify check succeeded
    put_in_run = rw (up.runs, up.is_no_removal) refl

    show_attached-prints :
        (out : Bytes)
        → show_attached sdk (screen out (fresh no_sizes s))
          ≡ (returned tt, screen (out ++ heading text number state) (fresh no_sizes s))
    unfolding show_attached name id on_impl
    show_attached-prints out = rw asked_state (
        ap (λ t. (returned tt, screen t (fresh no_sizes s)))
          (regroup_heading out (codes "attached to \"") text (codes "\" (id ")
            (Decimal.int_to_string number) (codes "), state ") (state_to_string state)
            (codes "\n")))

    start_if_needed-prints :
        (out : Bytes)
        → start_if_needed sdk (screen out (fresh no_sizes s))
          ≡ (returned tt, screen (out ++ starting state) (fresh no_sizes started))
    unfolding start_if_needed
    start_if_needed-prints out = rw asked_state (elim (Bool-cases (exchanges_io state)) [
      | inl ready ↦ rw (ready, append-nil out) refl
      | inr stopped ↦ rw (stopped, put_in_run) refl
    ])

    abbrev pub sized : AreaSizes
    sized = record { input_size = some inputs; marker_size = none; output_size = some outputs }

    abbrev half_sized : AreaSizes
    half_sized = record { input_size = some inputs; marker_size = none; output_size = none }

    asked_input :
        instance_area_size sdk Area.input (of_held (fresh no_sizes started))
        ≡ (returned inputs, of_held (fresh half_sized started))
    unfolding instance_area_size on_impl area_size size_at query_size live keep_size set_size
    asked_input =
        let some_bytes : (inputs == 0) ≡ false = ground (arith, up.has_input) in
        rw (up.input_size, some_bytes) refl

    asked_output :
        instance_area_size sdk Area.output (of_held (fresh half_sized started))
        ≡ (returned outputs, of_held (fresh sized started))
    unfolding instance_area_size on_impl area_size size_at query_size live keep_size set_size
    asked_output =
        let some_bytes : (outputs == 0) ≡ false = ground (arith, up.has_output) in
        rw (up.output_size, some_bytes) refl

    show_areas-prints :
        (out : Bytes)
        → show_areas sdk (screen out (fresh no_sizes started))
          ≡ (returned tt, screen (out ++ areas inputs outputs) (fresh sized started))
    unfolding show_areas
    show_areas-prints out =
        rw (asked_input, asked_output)
          (ap (λ t. (returned tt, screen t (fresh sized started)))
            (regroup_areas out (codes "areas: %I ") (Decimal.to_string inputs) (codes " B, %Q ")
              (Decimal.to_string outputs) (codes " B\n\n")))

    pub with_plc-prints :
        (out : Bytes) (cycles : ℤ)
        → IsPlant sdk raw
        → let (shown, s') =
            plant_run sdk raw
              (rounds_of cycles)
              0
              (introduction text number state inputs outputs out)
              started in
          with_plc sdk cycles (screen out (fresh no_sizes s))
          ≡ (returned tt, screen shown (with_external sdk (fresh sized started) s'))
    unfolding with_plc size_at
    with_plc-prints out cycles plant =
        rw
          (
            show_attached-prints out,
            start_if_needed-prints (out ++ heading text number state),
            show_areas-prints ((out ++ heading text number state) ++ starting state),
          )
          (cycles_from-prints sdk raw (rounds_of cycles) 0
            (introduction text number state inputs outputs out) (fresh sized started) plant
            (record {
              there = refl;
              size = inputs;
              cached = refl;
              inside = up.has_input;
              is_no_removal = up.is_no_removal;
            })
            (record {
              there = refl;
              size = outputs;
              cached = refl;
              inside = up.has_output;
              is_no_removal = up.is_no_removal;
            }))
