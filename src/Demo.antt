-- ===== src/Demo.antt =====
-- examples/cpp/di_do_demo.cpp: it attaches the instance that it is given, puts it into RUN, and toggles an
-- input bit and samples an output bit for a number of cycles. std::atoi is a parameter; the pauses between
-- the cycles are left out.
pub mod Steady
pub mod Toggling
pub mod Ends
pub mod Printed
pub mod Whole
pub mod Tests
use plcsim_connector.Common.{
  ℕ, zero, suc, ◌%◌, ◌==◌, Bool, true, false, Option, none, some, List, [], ◌∷◌, ◌++◌,
  if◌then◌else◌, String, Bytes, codes,
}
use plcsim_connector.Common.Int.{ℤ, pos, negsuc}
use plcsim_connector.ApiHandle.{World, ApiHandle}
use plcsim_connector.Error.{Error, Outcome, returned, thrown, undefined, retryable, kind_to_string}
use plcsim_connector.Instance.{Impl}
use plcsim_connector.Instance.Methods
use plcsim_connector.Instance.Methods.{
  Client, name, id, operating_state, instance_area_size, set_address_bit, get_address_bit,
}
use plcsim_connector.Prog.{Prog, pure, continue, ◌>>=◌, ◌>>◌}
use plcsim_connector.RuntimeManager
use plcsim_connector.RuntimeManager.{construct, version, attach}
use plcsim_connector.Sdk.{Sdk}
use plcsim_connector.Std.Decimal
use plcsim_connector.Types.{Area, state_to_string, exchanges_io}

-- kInputBit and kOutputBit
abbrev pub input_bit : Bytes
input_bit = codes "%I10.2"

abbrev pub output_bit : Bytes
output_bit = codes "%Q4.1"

-- What std::cout was given, and `plc` with the shared state.
pub record Screen (S : Type 0) : Type 0 where
  pub out : Bytes
  pub client : Client S

-- Before there is a `plc`.
pub record Console (S : Type 0) : Type 0 where
  pub out : Bytes
  pub world : World S

-- The end of the process: its exit status, or undefined behaviour.
pub data Exit : Type 0 where
  exited : ℕ → Exit
  crashed : Exit

pub record Finished (S : Type 0) : Type 0 where
  pub exit : Exit
  pub out : Bytes
  pub err : Bytes
  pub world : World S

-- The text of usage()
abbrev pub usage : Bytes → Bytes
usage program = codes "usage: " ++ (program ++ codes " <instance-name> [cycles]\n")

-- What the handler of `Error` prints.
abbrev pub report : Error → Bytes
report e =
    codes "\nPLCSIM error: "
    ++ (e.message
        ++ (codes "\n  kind="
            ++ (kind_to_string e.kind
                ++ (codes " code="
                    ++ (e.code_name
                        ++ (codes " ("
                            ++ (Decimal.int_to_string e.code
                                ++ (codes ") retryable="
                                    ++ (if retryable e then codes "yes\n" else codes "no\n")))))))))

-- The rounds of `for (int cycle = 0; cycle < cycles; ++cycle)`.
abbrev pub rounds_of : ℤ → ℕ
rounds_of (pos n) = n
rounds_of (negsuc n) = 0

-- `(argc > 2) ? std::atoi(argv[2]) : 10`
abbrev pub cycles_of : (Bytes → ℤ) → List Bytes → ℤ
cycles_of atoi [] = pos 10
cycles_of atoi (text ∷ rest) = atoi text

module _ {S : Type 0} where
  -- `std::cout << text`
  abbrev pub print : Bytes → Prog (Screen S) (Unit {0})
  print text s = (returned tt, record s { out = s.out ++ text })

  abbrev pub put_text : String → Prog (Screen S) (Unit {0})
  put_text text = print (codes text)

  -- A call of a method of `plc`.
  abbrev pub plc : {A : Type 0} → Prog (Client S) A → Prog (Screen S) A
  plc m s = let (r, c) = m s.client in (r, record s { client = c })

module _ {S : Type 0} (sdk : Sdk S) where
  -- A cycle: it sets the input, and reads and shows the output.
  pub one_cycle : ℕ → Prog (Screen S) (Unit {0})
  one_cycle cycle =
      let input = cycle % 2 == 0 in
      do
        plc (set_address_bit sdk input_bit input)
        output ← plc (get_address_bit sdk output_bit)
        put_text "cycle "
        print (Decimal.to_string cycle)
        put_text ": "
        print input_bit
        put_text " <- "
        print (if input then codes "true " else codes "false")
        put_text "   "
        print output_bit
        put_text " -> "
        print (if output then codes "true" else codes "false")
        put_text "\n"

  -- The loop, for the rounds that are left.
  pub cycles_from : ℕ → ℕ → Prog (Screen S) (Unit {0})
  cycles_from zero cycle = pure tt
  cycles_from (suc rounds) cycle = one_cycle cycle >> cycles_from rounds (suc cycle)

  pub show_attached : Prog (Screen S) (Unit {0})
  show_attached = do
    put_text "attached to \""
    text ← plc (name sdk)
    print text
    put_text "\" (id "
    number ← plc (id sdk)
    print (Decimal.int_to_string number)
    put_text "), state "
    state ← plc (operating_state sdk)
    print (state_to_string state)
    put_text "\n"

  pub start_if_needed : Prog (Screen S) (Unit {0})
  start_if_needed = do
    state ← plc (operating_state sdk)
    if exchanges_io state
        then pure tt
        else (put_text "instance is not in RUN; putting it there\n" >> plc (Methods.run sdk))

  pub show_areas : Prog (Screen S) (Unit {0})
  show_areas = do
    put_text "areas: %I "
    inputs ← plc (instance_area_size sdk Area.input)
    print (Decimal.to_string inputs)
    put_text " B, %Q "
    outputs ← plc (instance_area_size sdk Area.output)
    print (Decimal.to_string outputs)
    put_text " B\n\n"

  -- The scope of `plc`.
  pub with_plc : ℤ → Prog (Screen S) (Unit {0})
  with_plc cycles =
      show_attached >> (start_if_needed >> (show_areas >> cycles_from (rounds_of cycles) 0))

  -- `plc` is destroyed at its end, however it is left.
  pub leave_plc : Outcome (Unit {0}) × Screen S → Outcome (Unit {0}) × Console S
  leave_plc (r, s) = (r, record { out = s.out; world = Methods.destruct sdk s.client })

  pub use_plc : ℤ → Impl → Prog (Console S) (Unit {0})
  use_plc cycles impl k = leave_plc (
      with_plc cycles
        (record { out = k.out; client = record { impl = some impl; world = k.world } }))

  -- `std::cout << text`, and a call of a method of `runtime`.
  abbrev pub say : Bytes → Prog (Console S) (Unit {0})
  say text k = (returned tt, record k { out = k.out ++ text })

  abbrev pub runtime_call : {A : Type 0} → Prog (World S) A → Prog (Console S) A
  runtime_call m k = let (r, w) = m k.world in (r, record k { world = w })

  -- The scope of `runtime`.
  pub with_runtime : ℕ → Bytes → ℤ → ApiHandle → Prog (Console S) (Unit {0})
  with_runtime name_max instance_name cycles api = do
    say (codes "Runtime Manager ")
    text ← runtime_call (version sdk name_max (some api))
    say (text ++ codes "\n")
    impl ← runtime_call (attach sdk name_max instance_name (some api))
    use_plc cycles impl

  -- `return 0`, or the handler of `Error`.
  pub finish : Outcome (Unit {0}) × Console S → Finished S
  finish (returned t, k) = record { exit = exited 0; out = k.out; err = []; world = k.world }
  finish (thrown e, k) = record { exit = exited 1; out = k.out; err = report e; world = k.world }
  finish (undefined, k) = record { exit = crashed; out = k.out; err = []; world = k.world }

  -- `runtime` is destroyed at the end of its scope.
  pub leave_runtime :
      ℕ → ApiHandle → Outcome (Unit {0}) × Console S → Outcome (Unit {0}) × Console S
  leave_runtime name_max api (r, k) =
      (r, record k { world = RuntimeManager.destruct sdk name_max (some api) k.world })

  pub use_runtime : ℕ → Bytes → ℤ → Outcome ApiHandle × World S → Outcome (Unit {0}) × Console S
  use_runtime name_max instance_name cycles (returned api, w) =
      leave_runtime name_max api
        (with_runtime name_max instance_name cycles api (record { out = []; world = w }))
  use_runtime name_max instance_name cycles (thrown e, w) =
      (thrown e, record { out = []; world = w })
  use_runtime name_max instance_name cycles (undefined, w) =
      (undefined, record { out = []; world = w })

  -- main, for `program` as argv[0] and the arguments behind it
  pub main : ℕ → (Bytes → ℤ) → Bytes → List Bytes → World S → Finished S
  main name_max atoi program [] w = record {
    exit = exited 2;
    out = [];
    err = usage program;
    world = w;
  }
  main name_max atoi program (instance_name ∷ rest) w =
      finish
        (use_runtime name_max instance_name (cycles_of atoi rest) (construct sdk name_max none w))
