-- ===== src/Demo/Toggling.antt =====
-- What the loop of examples/cpp/di_do_demo.cpp does to a PLC that accepts its transfers, and what it prints.
use plcsim_connector.Common.{
  ℕ, zero, suc, ◌%◌, ◌==◌, ◌≡◌, refl, ap, ◌∙◌, Bool, ◌++◌, append_assoc, if◌then◌else◌, Bytes,
  codes, arith,
}
use plcsim_connector.Common.Int.{ℤ, pos}
use plcsim_connector.Address
use plcsim_connector.Address.{BitAddress, parse_bit_address}
use plcsim_connector.Address.RoundTrip.{parse-to_string}
use plcsim_connector.Demo.{input_bit, output_bit, one_cycle, cycles_from}
use plcsim_connector.Demo.Steady.{screen}
use plcsim_connector.Error.{returned}
use plcsim_connector.Instance.{Held}
use plcsim_connector.Instance.Accepted.{
  with_external, written, transferred, IsReady, with_external-IsReady, set_address_bit-accepted,
  get_address_bit-accepted,
}
use plcsim_connector.Prog.{continue}
use plcsim_connector.Sdk.{Sdk}
use plcsim_connector.Std.Decimal
use plcsim_connector.Types.{Area, area_to_string}

abbrev pub input_address : BitAddress
input_address = record { area = Area.input; byte = 10; bit = 2 }

abbrev pub output_address : BitAddress
output_address = record { area = Area.output; byte = 4; bit = 1 }

parse_input : parse_bit_address input_bit ≡ returned input_address
unfolding Address.to_string area_to_string Decimal.to_string
parse_input = parse-to_string input_address (omega arith)

parse_output : parse_bit_address output_bit ≡ returned output_address
unfolding Address.to_string area_to_string Decimal.to_string
parse_output = parse-to_string output_address (omega arith)

-- The line of a cycle.
abbrev pub line : ℕ → Bool → Bool → Bytes
line cycle input output =
    codes "cycle "
    ++ (Decimal.to_string cycle
        ++ (codes ": %I10.2 <- "
            ++ ((if input then codes "true " else codes "false")
                ++ (codes "   %Q4.1 -> "
                    ++ ((if output then codes "true" else codes "false") ++ codes "\n")))))

-- The pieces of a line, one printed behind the other.
regroup :
    (o a b c d e f g h i j k : Bytes)
    → ((((((((((o ++ a) ++ b) ++ c) ++ d) ++ e) ++ f) ++ g) ++ h) ++ i) ++ j) ++ k
      ≡ o ++ (a ++ (b ++ (c ++ (d ++ (e ++ (f ++ (g ++ (h ++ (i ++ (j ++ k))))))))))
regroup o a b c d e f g h i j k = simp append_assoc

module _ {S : Type 0} (sdk : Sdk S) (raw : ℕ) where
  -- The SDK accepts the transfers of the two bits.
  pub record IsPlant : Type 0 where
    pub writes : (value : Bool) (s : S) → (written sdk input_address value raw s).0 ≡ pos 0
    pub reads : (s : S) → (transferred sdk output_address raw s).0.0 ≡ pos 0

  -- The PLC, when an input has been set and the output has been read.
  abbrev pub answer : Bool → S → (ℤ × Bool) × S
  answer input s = transferred sdk output_address raw (written sdk input_address input raw s).1

  -- So many cycles from one on, of a PLC whose input is set in the even ones and reset in the odd ones.
  abbrev pub plant_run : ℕ → ℕ → Bytes → S → Bytes × S
  plant_run zero cycle out s = (out, s)
  plant_run (suc rounds) cycle out s =
      let input = cycle % 2 == 0 in
      plant_run rounds (suc cycle) (out ++ line cycle input (answer input s).0.1) (answer input s).1

  one_cycle-prints :
      (cycle : ℕ) (out : Bytes) (h : Held S)
      → IsPlant
      → IsReady sdk h raw input_address
      → IsReady sdk h raw output_address
      → let input = cycle % 2 == 0 in
        let a = answer input h.world.external in
        one_cycle sdk cycle (screen out h)
        ≡ (returned tt, screen (out ++ line cycle input a.0.1) (with_external sdk h a.1))
  unfolding one_cycle
  one_cycle-prints cycle out h p ready_in ready_out =
      let input = cycle % 2 == 0 in
      let s = h.world.external in
      let s' = (written sdk input_address input raw s).1 in
      rw
        (
          set_address_bit-accepted sdk input_bit input_address input h raw parse_input ready_in
              (p.writes input s),
          get_address_bit-accepted sdk output_bit output_address (with_external sdk h s') raw
              parse_output (with_external-IsReady sdk h raw output_address s' ready_out)
              (p.reads s'),
        )
        (ap (λ text. (returned tt, screen text (with_external sdk h (answer input s).1)))
          (regroup out (codes "cycle ") (Decimal.to_string cycle) (codes ": ") input_bit
            (codes " <- ") (if input then codes "true " else codes "false") (codes "   ") output_bit
            (codes " -> ") (if (answer input s).0.1 then codes "true" else codes "false")
            (codes "\n")))

  -- On a PLC that accepts the transfers of %I10.2 and %Q4.1, and an instance whose areas have the two
  -- bytes, the loop goes through all its cycles: it sets the input in every even cycle and resets it in
  -- every odd one, reads the output behind it, and prints one line with both.
  pub cycles_from-prints :
      (rounds cycle : ℕ) (out : Bytes) (h : Held S)
      → IsPlant
      → IsReady sdk h raw input_address
      → IsReady sdk h raw output_address
      → let (out', s') = plant_run rounds cycle out h.world.external in
        cycles_from sdk rounds cycle (screen out h)
        ≡ (returned tt, screen out' (with_external sdk h s'))
  unfolding cycles_from
  cycles_from-prints zero cycle out h p ready_in ready_out = refl
  cycles_from-prints (suc rounds) cycle out h p ready_in ready_out =
      let input = cycle % 2 == 0 in
      let a = answer input h.world.external in
      ap (λ r. continue r (λ _. cycles_from sdk rounds (suc cycle)))
        (one_cycle-prints cycle out h p ready_in ready_out)
      ∙ cycles_from-prints rounds (suc cycle) (out ++ line cycle input a.0.1)
          (with_external sdk h a.1) p (with_external-IsReady sdk h raw input_address a.1 ready_in)
          (with_external-IsReady sdk h raw output_address a.1 ready_out)
