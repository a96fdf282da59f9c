-- ===== src/Instance/Accepted.antt =====
-- `setAddressBit` and `getAddressBit` of src/SdkBridge.cpp where nothing stands in the way: the address
-- parses, the byte lies in the area, and the SDK accepts the transfer.
use plcsim_connector.Common.{
  String, ℕ, ◌<◌, ◌≡◌, refl, ap, ◌∙◌, Bool, false, some, arith, inl, inr, Bytes,
}
use plcsim_connector.Common.Int.{ℤ, pos, ◌==ℤ◌}
use plcsim_connector.Address.{BitAddress, parse_bit_address}
use plcsim_connector.Bridge.{check, succeeded, to_sdk}
use plcsim_connector.Error.{returned}
use plcsim_connector.Prog.{continue, pure, ◌>>=◌, ◌>>◌}
use plcsim_connector.Sdk.{Sdk}
use plcsim_connector.Instance.{
  Held, size_at, call, live, live_pointer, verify, area_size, cached_or_query, write_bit, read_bit,
}
use plcsim_connector.Instance.Methods.{on_impl, set_address_bit, get_address_bit}
use plcsim_connector.Instance.Lifetime.{of_held}
use plcsim_connector.Instance.Bounds.{set_address_bit_lem, get_address_bit_lem}

module _ {S : Type 0} (sdk : Sdk S) where
  -- The handle with another state of the SDK.
  abbrev pub with_external : Held S → S → Held S
  with_external h s = record h { world = record h.world { external = s } }

  -- The transfers of a bit by the SDK, for an interface pointer.
  abbrev pub written : BitAddress → Bool → ℕ → S → ℤ × S
  written a value raw = sdk.write_bit raw (to_sdk sdk.enums a.area) a.byte a.bit value

  abbrev pub transferred : BitAddress → ℕ → S → (ℤ × Bool) × S
  transferred a raw = sdk.read_bit raw (to_sdk sdk.enums a.area) a.byte a.bit

  -- A handle with its interface, in an area whose size is known and which has the byte.
  pub record IsReady (h : Held S) (raw : ℕ) (a : BitAddress) : Type 0 where
    pub there : h.impl.raw ≡ some raw
    pub size : ℕ
    pub cached : size_at h.impl.area_sizes a.area ≡ some size
    pub inside : a.byte < size
    pub is_no_removal : (pos 0 ==ℤ sdk.codes.interface_removed) ≡ false

  -- It stays so whatever the SDK does.
  pub with_external-IsReady :
      (h : Held S) (raw : ℕ) (a : BitAddress) (s : S)
      → IsReady h raw a
      → IsReady (with_external h s) raw a
  with_external-IsReady h raw a s r = record {
    there = r.there;
    size = r.size;
    cached = r.cached;
    inside = r.inside;
    is_no_removal = r.is_no_removal;
  }

  verify-accepted :
      (code : ℤ) (name : String) (h : Held S)
      → (pos 0 ==ℤ sdk.codes.interface_removed) ≡ false
      → code ≡ pos 0
      → verify sdk code name h ≡ (returned tt, h)
  unfolding verify check succeeded
  verify-accepted code name h kept e = rw (e, kept) refl

  write_bit-accepted :
      (a : BitAddress) (value : Bool) (h : Held S) (raw : ℕ)
      → IsReady h raw a
      → (written a value raw h.world.external).0 ≡ pos 0
      → on_impl (write_bit sdk a.area a.byte a.bit value) (of_held h)
        ≡ (returned tt, of_held (with_external h (written a value raw h.world.external).1))
  unfolding on_impl write_bit live live_pointer
  write_bit-accepted a value h raw ready e =
      let s = h.world.external in
      ap
        (λ o.
          let (x, k) =
            continue (live_pointer sdk o "WriteBit" h)
              (λ raw. call (written a value raw) >>= λ code. verify sdk code "WriteBit") in
          (x, of_held k))
        ready.there
      ∙ ap (λ v. let (x, k) = v in (x, of_held k))
          (verify-accepted (written a value raw s).0 "WriteBit"
            (with_external h (written a value raw s).1) ready.is_no_removal e)

  read_bit-accepted :
      (a : BitAddress) (h : Held S) (raw : ℕ)
      → IsReady h raw a
      → (transferred a raw h.world.external).0.0 ≡ pos 0
      → on_impl (read_bit sdk a.area a.byte a.bit) (of_held h) ≡ (
        returned (transferred a raw h.world.external).0.1,
        of_held (with_external h (transferred a raw h.world.external).1),
      )
  unfolding on_impl read_bit live live_pointer
  read_bit-accepted a h raw ready e =
      let s = h.world.external in
      ap
        (λ o.
          let (x, k) =
            continue (live_pointer sdk o "ReadBit" h)
              (λ raw. call (transferred a raw) >>= λ r. verify sdk r.0 "ReadBit" >> pure r.1) in
          (x, of_held k))
        ready.there
      ∙ ap (λ v. let (x, k) = continue v (λ _. pure (transferred a raw s).0.1) in (x, of_held k))
          (verify-accepted (transferred a raw s).0.0 "ReadBit"
            (with_external h (transferred a raw s).1) ready.is_no_removal e)

  size_known :
      (h : Held S) (raw : ℕ) (a : BitAddress) (r : IsReady h raw a)
      → area_size sdk a.area h ≡ (returned r.size, h)
  unfolding area_size cached_or_query
  size_known h raw a r = ap (λ o. cached_or_query sdk a.area o h) r.cached

  pub set_address_bit-accepted :
      (text : Bytes) (a : BitAddress) (value : Bool) (h : Held S) (raw : ℕ)
      → parse_bit_address text ≡ returned a
      → IsReady h raw a
      → (written a value raw h.world.external).0 ≡ pos 0
      → set_address_bit sdk text value (of_held h)
        ≡ (returned tt, of_held (with_external h (written a value raw h.world.external).1))
  set_address_bit-accepted text a value h raw parsed ready e =
      let lt = ready.inside in
      elim (set_address_bit_lem sdk text value a h h ready.size parsed (size_known h raw a ready)) [
        | inl (inside, same) ↦ same ∙ write_bit-accepted a value h raw ready e
        | inr (outside, same) ↦ absurd (omega arith)
      ]

  pub get_address_bit-accepted :
      (text : Bytes) (a : BitAddress) (h : Held S) (raw : ℕ)
      → parse_bit_address text ≡ returned a
      → IsReady h raw a
      → (transferred a raw h.world.external).0.0 ≡ pos 0
      → get_address_bit sdk text (of_held h) ≡ (
        returned (transferred a raw h.world.external).0.1,
        of_held (with_external h (transferred a raw h.world.external).1),
      )
  get_address_bit-accepted text a h raw parsed ready e =
      let lt = ready.inside in
      elim (get_address_bit_lem sdk text a h h ready.size parsed (size_known h raw a ready)) [
        | inl (inside, same) ↦ same ∙ read_bit-accepted a h raw ready e
        | inr (outside, same) ↦ absurd (omega arith)
      ]
