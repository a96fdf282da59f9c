-- ===== src/Python/Command.antt =====
-- bindings/python/plcsim_connector/__main__.py: the command that lists the registered instances. What
-- describe_api_dll_search reports is a parameter. The lines of print are a list.
pub mod Listed
pub mod Ends
use plcsim_connector.Common.{
  ℕ, Option, none, some, List, [], ◌∷◌, ◌++◌, length, if◌then◌else◌, Bytes, codes,
}
use plcsim_connector.ApiHandle.{World, ApiHandle}
use plcsim_connector.Bindings.Methods.{state_member}
use plcsim_connector.Error.{Error, Outcome, returned, thrown, undefined, retryable, kind_to_string}
use plcsim_connector.Instance.{Impl}
use plcsim_connector.Instance.Methods
use plcsim_connector.Instance.Methods.{Client, operating_state, instance_area_size, close}
use plcsim_connector.Prog.{Prog, pure, ◌>>=◌}
use plcsim_connector.Python.{native, Result, done, raised, crashed, effective_dir}
use plcsim_connector.RuntimeManager
use plcsim_connector.RuntimeManager.{construct, version, registered_instances, attach}
use plcsim_connector.Sdk.{Sdk}
use plcsim_connector.Std.Decimal
use plcsim_connector.Types.{Area, InstanceInfo, OperatingState, exchanges_io}

-- What main returns or raises, what it has printed to the two streams, and the shared state.
pub record Shown (S : Type 0) : Type 0 where
  pub status : Result ℕ
  pub out : List Bytes
  pub err : List Bytes
  pub world : World S

-- What is printed to sys.stderr for a Runtime Manager that is out of reach.
abbrev pub unreachable : Error → List Bytes
unreachable e =
    (codes "Cannot reach the Runtime Manager: " ++ e.message)
    ∷ (codes "  kind="
        ++ (kind_to_string e.kind
            ++ (codes " code="
                ++ (e.code_name
                    ++ (codes " retryable="
                        ++ (if retryable e then codes "True" else codes "False"))))))
    ∷ []

-- `  [{info.id}] {info.name}: ` and what follows it
abbrev entry_line : InstanceInfo → Bytes → Bytes
entry_line info text =
    codes "  ["
    ++ (Decimal.int_to_string info.id ++ (codes "] " ++ (info.name ++ (codes ": " ++ text))))

-- `detail`, for an instance that exchanges I/O and for another
abbrev sizes_text : OperatingState → ℕ → ℕ → ℕ → Bytes
sizes_text state inputs outputs markers =
    state_member state
    ++ (codes ", %I "
        ++ (Decimal.to_string inputs
            ++ (codes " B, %Q "
                ++ (Decimal.to_string outputs
                    ++ (codes " B, %M " ++ (Decimal.to_string markers ++ codes " B"))))))

abbrev inactive_text : OperatingState → Bytes
inactive_text state = state_member state ++ codes ", I/O inactive (not in RUN)"

abbrev version_line : Bytes → Bytes
version_line text = codes "Runtime Manager version " ++ text

abbrev nothing_line : Bytes
nothing_line = codes "No instances registered. Start one from the PLCSIM Advanced Control Panel."

abbrev count_line : List InstanceInfo → Bytes
count_line infos = Decimal.to_string (length infos) ++ codes " instance(s) registered:"

module _ {S : Type 0} (sdk : Sdk S) (name_max : ℕ) where
  -- The body of `with`.
  pub detail : Prog (Client S) Bytes
  detail = do
    state ← operating_state sdk
    if exchanges_io state
        then (do
          inputs ← instance_area_size sdk Area.input
          outputs ← instance_area_size sdk Area.output
          markers ← instance_area_size sdk Area.marker
          pure (sizes_text state inputs outputs markers))
        else pure (inactive_text state)

  -- `__exit__` closes the instance, and it is destroyed where `plc` is assigned anew or goes out of scope.
  pub leave_with : Outcome Bytes × Client S → Outcome Bytes × World S
  leave_with (r, c) = (r, Methods.destruct sdk (close sdk c))

  -- `with runtime.attach(info.name) as plc`
  pub with_attached : Outcome Impl × World S → Outcome Bytes × World S
  with_attached (returned impl, w) = leave_with (detail (record { impl = some impl; world = w }))
  with_attached (thrown e, w) = (thrown e, w)
  with_attached (undefined, w) = (undefined, w)

  -- The line of an instance, and the handler `except PlcSimError`.
  pub entry : InstanceInfo → Outcome Bytes × World S → Outcome Bytes × World S
  entry info (returned text, w) = (returned (entry_line info text), w)
  entry info (thrown e, w) = (returned (entry_line info (codes "unavailable - " ++ e.message)), w)
  entry info (undefined, w) = (undefined, w)

  -- The loop over the instances.
  pub entries : ApiHandle → List InstanceInfo → Prog (World S) (List Bytes)
  entries api [] = pure []
  entries api (info ∷ infos) = do
    text ← λ w. entry info (with_attached (attach sdk name_max info.name (some api) w))
    rest ← entries api infos
    pure (text ∷ rest)

  -- `runtime` goes out of scope.
  pub leave_main : ApiHandle → Result ℕ → List Bytes → World S → Shown S
  leave_main api status out w = record {
    status = status;
    out = out;
    err = [];
    world = RuntimeManager.destruct sdk name_max (some api) w;
  }

  pub after_entries : ApiHandle → List Bytes → Outcome (List Bytes) × World S → Shown S
  after_entries api out (returned lines, w) = leave_main api (done 0) (out ++ lines) w
  after_entries api out (thrown e, w) = leave_main api (raised (native e)) out w
  after_entries api out (undefined, w) = leave_main api crashed out w

  pub after_listing : ApiHandle → List Bytes → Outcome (List InstanceInfo) × World S → Shown S
  after_listing api out (returned [], w) = leave_main api (done 1) (out ++ (nothing_line ∷ [])) w
  after_listing api out (returned (info ∷ infos), w) =
      after_entries api (out ++ (count_line (info ∷ infos) ∷ [])) (entries api (info ∷ infos) w)
  after_listing api out (thrown e, w) = leave_main api (raised (native e)) out w
  after_listing api out (undefined, w) = leave_main api crashed out w

  pub after_version : ApiHandle → List Bytes → Outcome Bytes × World S → Shown S
  after_version api out (returned text, w) =
      after_listing api (out ++ (version_line text ∷ []))
        (registered_instances sdk name_max (some api) w)
  after_version api out (thrown e, w) = leave_main api (raised (native e)) out w
  after_version api out (undefined, w) = leave_main api crashed out w

  pub after_construct : List Bytes → Outcome ApiHandle × World S → Shown S
  after_construct report (returned api, w) =
      after_version api report (version sdk name_max (some api) w)
  after_construct report (thrown e, w) = record {
    status = done 1;
    out = report;
    err = unreachable e;
    world = w;
  }
  after_construct report (undefined, w) = record {
    status = crashed;
    out = report;
    err = [];
    world = w;
  }

  -- main, where `detected` is the answer of `_autodetect_api_dll_dir`
  pub main : List Bytes → Option Bytes → World S → Shown S
  main report detected w =
      after_construct report (construct sdk name_max (effective_dir detected none) w)
