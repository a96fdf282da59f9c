-- ===== src/Instance/Tests.antt =====
-- Handles of src/SdkBridge.cpp over the simulated SDK.
use plcsim_connector.Common.{◌≡◌, ◌≤◌, ◌<◌, ◌⊎◌, refl, true, false, some, [], ◌∷◌, codes, arith}
use plcsim_connector.Common.Int.{◌==ℤ◌, pos}
use plcsim_connector.Address.Tests.{spelled}
use plcsim_connector.Address.{BitAddress, to_string, parse_bit_address}
use plcsim_connector.Address.RoundTrip.{parse-to_string}
use plcsim_connector.ApiHandle.{World}
use plcsim_connector.Error.{Error, ErrorKind, returned, thrown}
use plcsim_connector.Std.Decimal
use plcsim_connector.Types.{Area, area_to_string}
use plcsim_connector.Instance.{
  query_size, live, keep_size, set_size, Impl, Held, no_sizes, size_at, area_size, write_bit,
  out_of_range_error,
}
use plcsim_connector.Instance.Methods.{
  on_impl, is_connected, close, set_address_bit, get_address_bit, instance_area_size,
}
use plcsim_connector.Instance.Lifetime.{of_held, Ends, sets, writes, runs, perform, perform-Ends}
use plcsim_connector.Instance.Closed.{performs, IsLostHandle, closed_throws}
use plcsim_connector.Instance.Memory.{IsKept, get-set}
use plcsim_connector.Bridge.{to_sdk}
use plcsim_connector.Sdk.{Sdk}
use plcsim_connector.Instance.Removed.{IsRemovalCode, removal, marked, removed_forever}
use plcsim_connector.Instance.Close.{area_size-close}
use plcsim_connector.Instance.Bounds.{set_address_bit_lem}
use plcsim_connector.Simulator.{sample, State, idle}

abbrev world : World State
world = record { refcount = pos 2; manager = some 1; external = idle }

abbrev impl : Impl
impl = record {
  api = record { owns = true };
  raw = some 7;
  id = pos 1;
  name = codes "A";
  interface_removed = false;
  area_sizes = no_sizes;
}

abbrev open_handle : Held State
open_handle = record { impl = impl; world = world }

abbrev sized_handle : Held State
sized_handle = record open_handle {
  impl = record impl { area_sizes = record no_sizes { output_size = some 8 } };
}

abbrev removed_handle : Held State
removed_handle = record open_handle { impl = record impl { interface_removed = true } }

perform-Ends_example :
    Ends open_handle (perform sample (sets (codes "%Q4.1") true) (of_held open_handle))
perform-Ends_example = perform-Ends sample (sets (codes "%Q4.1") true) open_handle

closed_throws_example :
    let c =
      performs sample
        (runs ∷ sets (codes "%Q4.1") true ∷ [])
        (close sample (of_held open_handle)) in
    (e : Error) × (perform sample (writes Area.output 4 1 true) c ≡ (thrown e, c))
    × IsLostHandle sample "WriteBit" e
closed_throws_example =
    closed_throws sample open_handle (runs ∷ sets (codes "%Q4.1") true ∷ [])
      (writes Area.output 4 1 true) refl

area_size-close_example :
    instance_area_size sample Area.output (close sample (of_held sized_handle))
    ≡ (returned 8, close sample (of_held sized_handle))
unfolding size_at
area_size-close_example = area_size-close sample sized_handle Area.output 8 refl

abbrev lamp : BitAddress
lamp = record { area = Area.output; byte = 4; bit = 1 }

parse_lamp : parse_bit_address (codes "%Q4.1") ≡ returned lamp
unfolding to_string area_to_string Decimal.to_string
parse_lamp = parse-to_string lamp (omega arith)

set_address_bit_lem_example :
    ((4 < 8)
      × (set_address_bit sample (codes "%Q4.1") true (of_held open_handle)
          ≡ on_impl (write_bit sample Area.output 4 1 true) (of_held sized_handle)))
    ⊎ ((8 ≤ 4)
        × (set_address_bit sample (codes "%Q4.1") true (of_held open_handle)
            ≡ (thrown (out_of_range_error sample lamp "setAddressBit" 8), of_held sized_handle)))
unfolding area_size query_size live keep_size size_at set_size
set_address_bit_lem_example =
    set_address_bit_lem sample (codes "%Q4.1") true lamp open_handle sized_handle 8 parse_lamp refl

-- The handle, in a Runtime Manager that has dropped the interface.
abbrev losing_handle : Held State
losing_handle = record open_handle {
  world = record world { external = record idle { removed = true } };
}

pub sample-IsRemovalCode : IsRemovalCode sample
unfolding ◌==ℤ◌
sample-IsRemovalCode = record { is_an_error = refl; is_different = refl }

removed_forever_example :
    let gone = of_held (marked sample losing_handle (record idle { removed = true; bit = true })) in
    (perform sample (writes Area.output 4 1 true) (of_held losing_handle)
      ≡ (thrown (removal sample "WriteBit"), gone))
    × ((removal sample "WriteBit").kind ≡ ErrorKind.connection_lost)
    × ((is_connected sample (performs sample (runs ∷ []) gone)).0 ≡ false)
removed_forever_example =
    removed_forever sample (writes Area.output 4 1 true) losing_handle 7 (runs ∷ [])
      sample-IsRemovalCode refl refl

-- An SDK that never drops an interface.
abbrev steady : Sdk State
steady = record sample {
  write_bit = λ raw area byte bit value s. (pos 0, record s { bit = value });
  read_bit = λ raw area byte bit s. ((pos 0, s.bit), s);
}

steady-IsKept : IsKept steady 7 (pos 130) 4 1 true idle
unfolding ◌==ℤ◌
steady-IsKept = record { writes = refl; reads = refl; is_no_removal = refl }

get-set_example :
    (k : Held State) × (set_address_bit steady (codes "%Q4.1") true (of_held sized_handle)
      ≡ (returned tt, of_held k))
    × ((get_address_bit steady (codes " %ax4.1") (of_held k)).0 ≡ returned true)
unfolding to_sdk size_at
get-set_example =
    get-set steady (codes "%Q4.1") (codes " %ax4.1") lamp true sized_handle 7 8 parse_lamp spelled
      refl refl (omega arith) steady-IsKept
