-- ===== src/Instance/Memory.antt =====
-- `setAddressBit` followed by `getAddressBit` of src/SdkBridge.cpp, on an SDK that keeps what is written.
use plcsim_connector.Common.{ℕ, ◌<◌, ◌≡◌, ap, ◌∙◌, Bool, false, some, Bytes}
use plcsim_connector.Common.Int.{ℤ, pos, ◌==ℤ◌}
use plcsim_connector.Address.{BitAddress, parse_bit_address}
use plcsim_connector.Bridge.{to_sdk}
use plcsim_connector.Error.{returned}
use plcsim_connector.Sdk.{Sdk}
use plcsim_connector.Instance.{Held, size_at}
use plcsim_connector.Instance.Methods.{set_address_bit, get_address_bit}
use plcsim_connector.Instance.Lifetime.{of_held}
use plcsim_connector.Instance.Accepted.{
  with_external, written, IsReady, with_external-IsReady, set_address_bit-accepted,
  get_address_bit-accepted,
}

module _ {S : Type 0} (sdk : Sdk S) where
  -- In the state `s`, as in that of an instance in RUN, the SDK accepts the write of the value to the bit,
  -- and a read directly behind it gives the value.
  pub record IsKept (raw : ℕ) (area : ℤ) (byte bit : ℕ) (value : Bool) (s : S) : Type 0 where
    pub writes : (sdk.write_bit raw area byte bit value s).0 ≡ pos 0
    pub reads :
        (sdk.read_bit raw area byte bit (sdk.write_bit raw area byte bit value s).1).0
        ≡ (pos 0, value)
    pub is_no_removal : (pos 0 ==ℤ sdk.codes.interface_removed) ≡ false

  -- On an open handle, where the size of the area is cached and the byte lies below it, and where the SDK
  -- accepts the write of the bit and gives the value back in a read directly behind it, `setAddressBit`
  -- returns, and `getAddressBit` then returns the value that was set, in whatever two spellings of
  -- the address.
  pub get-set :
      (s t : Bytes) (a : BitAddress) (value : Bool) (h : Held S) (raw n : ℕ)
      → parse_bit_address s ≡ returned a
      → parse_bit_address t ≡ returned a
      → h.impl.raw ≡ some raw
      → size_at h.impl.area_sizes a.area ≡ some n
      → a.byte < n
      → IsKept raw (to_sdk sdk.enums a.area) a.byte a.bit value h.world.external
      → (k : Held S) × (set_address_bit sdk s value (of_held h) ≡ (returned tt, of_held k))
        × ((get_address_bit sdk t (of_held k)).0 ≡ returned value)
  get-set s t a value h raw n ps pt there cached lt m =
      let ready : IsReady sdk h raw a = record {
        there = there;
        size = n;
        cached = cached;
        inside = lt;
        is_no_removal = m.is_no_removal;
      } in
      let after = (written sdk a value raw h.world.external).1 in
      let back = m.reads in
      (
        with_external sdk h after,
        set_address_bit-accepted sdk s a value h raw ps ready m.writes,
        ap (λ r. r.0)
              (get_address_bit-accepted sdk t a (with_external sdk h after) raw pt
                (with_external-IsReady sdk h raw a after ready) (ap (λ r. r.0) back))
            ∙ ap (λ r. returned r.1) back,
      )
