-- ===== src/Instance/Bounds.antt =====
-- Area sizes and the local bounds check: `area_size`, `check_bounds`, `setAddressBit` and
-- `getAddressBit` of src/SdkBridge.cpp.
use plcsim_connector.Common.{
  ◌⊎◌, String, ℕ, ◌≤◌, ◌<◌, ◌≡◌, ◌≢◌, ◌∙◌, refl, ap, Bool, true, false, not, Option, none, some,
  arith, inl, inr, Bool-cases, ltb, ◌==◌, Bytes, if◌then◌else◌,
}
use native.Mathlib.Decide.{dec_lt}
use mathlib.Core.Path.{subst}
use plcsim_connector.Address.RoundTrip.{returned-injective}
use plcsim_connector.Address.{BitAddress, parse_bit_address}
use plcsim_connector.Bridge.{to_sdk}
use plcsim_connector.Error.{Outcome, returned, thrown}
use plcsim_connector.Prog.{Prog, pure, throw, continue, ◌>>=◌, ◌>>◌}
use plcsim_connector.Sdk.{Sdk}
use plcsim_connector.Types.{Area}
use plcsim_connector.Instance.{
  AreaSizes, size_at, set_size, Held, call, live, live_pointer, keep_size, query_size,
  cached_or_query, area_size, check_bounds, write_bit, read_bit, out_of_range_error,
}
use plcsim_connector.Instance.Evolution.{HasSizes, Evolves}
use plcsim_connector.Instance.Tame.{area_size-Tame}
use plcsim_connector.Instance.Methods.{Client, on_impl, lift, set_address_bit, get_address_bit}
use plcsim_connector.Instance.Lifetime.{of_held}

size_at-set_size_self :
    (z : AreaSizes) (area : Area) (n : ℕ) → size_at (set_size z area n) area ≡ some n
unfolding size_at set_size
size_at-set_size_self z Area.input n = refl
size_at-set_size_self z Area.marker n = refl
size_at-set_size_self z Area.output n = refl

split_returned :
    {S A : Type 0} {a b : A} {h k : Held S}
    → ◌≡◌ {A = Outcome A × Held S} (returned a, h) (returned b, k)
    → (a ≡ b) × (h ≡ k)
split_returned p = (returned-injective (ap (λ r. r.0) p), ap (λ r. r.1) p)

module _ {S : Type 0} (sdk : Sdk S) where
  keep_size_returned :
      (area : Area) (size : ℕ) (h k : Held S) (n : ℕ)
      → keep_size sdk area size h ≡ (returned n, k)
      → size_at k.impl.area_sizes area ≡ some n
  unfolding keep_size
  keep_size_returned area size h k n e = elim (Bool-cases (size == 0)) [
    | inl failed ↦ absurd (cc (rw failed at e))
    | inr good ↦
        let (same, end) = split_returned (rw good at e) in
        subst (λ (k : Held S). size_at k.impl.area_sizes area ≡ some n) end
          (size_at-set_size_self h.impl.area_sizes area size ∙ ap some same)
  ]

  query_size_returned :
      (area : Area) (h k : Held S) (n : ℕ)
      → query_size sdk area h ≡ (returned n, k)
      → size_at k.impl.area_sizes area ≡ some n
  unfolding query_size live
  query_size_returned area h k n = go h.impl.raw
    where
      ask : ℕ → Prog (Held S) ℕ
      ask raw = call (sdk.get_area_size raw (to_sdk sdk.enums area)) >>= keep_size sdk area

      go :
          (raw : Option ℕ)
          → continue (live_pointer sdk raw "GetAreaSize" h) ask ≡ (returned n, k)
          → size_at k.impl.area_sizes area ≡ some n
      go none e = absurd (cc (ap (λ r. r.0) e))
      go (some raw) e =
          let f = sdk.get_area_size raw (to_sdk sdk.enums area) in
          keep_size_returned area (f h.world.external).0 (call f h).1 k n e

  area_size_returned :
      (area : Area) (h k : Held S) (n : ℕ)
      → area_size sdk area h ≡ (returned n, k)
      → size_at k.impl.area_sizes area ≡ some n
  unfolding area_size
  area_size_returned area h k n = go (size_at h.impl.area_sizes area) refl
    where
      go :
          (cached : Option ℕ)
          → size_at h.impl.area_sizes area ≡ cached
          → cached_or_query sdk area cached h ≡ (returned n, k)
          → size_at k.impl.area_sizes area ≡ some n
      go (some m) e r =
          let (same, end) = split_returned r in
          subst (λ (k : Held S). size_at k.impl.area_sizes area ≡ some n) end (e ∙ ap some same)
      go none e r = query_size_returned area h k n r

  -- In a handle that has not cached a size 0, a size that `area_size` returned is not 0, and asking
  -- for it again returns the same size, changes nothing and makes no call to the SDK.
  pub area_size_cached :
      (area : Area) (h k : Held S) (n : ℕ)
      → HasSizes h.impl
      → area_size sdk area h ≡ (returned n, k)
      → (n ≢ 0) × (area_size sdk area k ≡ (returned n, k))
  area_size_cached area h k n sizes r =
      let cached = area_size_returned area h k n r in
      let evolved = subst (Evolves h) (ap (λ x. x.1) r) (area_size-Tame sdk area h).0 in
      (
        λ zero. evolved.sizes sizes area (cached ∙ ap some zero),
        unfold area_size in ap (λ o. cached_or_query sdk area o k) cached,
      )

  -- The rest of `check_bounds` once the size is known.
  after_size : BitAddress → String → ℕ → Prog (Held S) (Unit {0})
  after_size a operation size =
      if not (ltb a.byte size) then throw (out_of_range_error sdk a operation size) else pure tt

  check_bounds_inside :
      (a : BitAddress) (operation : String) (h k : Held S) (n : ℕ)
      → area_size sdk a.area h ≡ (returned n, k)
      → a.byte < n
      → check_bounds sdk a operation h ≡ (returned tt, k)
  unfolding check_bounds after_size
  check_bounds_inside a operation h k n r lt =
      let inside : ltb a.byte n ≡ true = ground arith in
      ap (λ x. continue x (after_size a operation)) r ∙ rw inside

  check_bounds_outside :
      (a : BitAddress) (operation : String) (h k : Held S) (n : ℕ)
      → area_size sdk a.area h ≡ (returned n, k)
      → n ≤ a.byte
      → check_bounds sdk a operation h ≡ (thrown (out_of_range_error sdk a operation n), k)
  unfolding check_bounds after_size
  check_bounds_outside a operation h k n r le =
      let outside : ltb a.byte n ≡ false = ground arith in
      ap (λ x. continue x (after_size a operation)) r ∙ rw outside

  -- What both methods by address do before the transfer `m`.
  by_address : {A : Type 0} → String → (BitAddress → Prog (Held S) A) → Bytes → Prog (Client S) A
  by_address operation m address = do
    parsed ← lift (parse_bit_address address)
    on_impl (check_bounds sdk parsed operation)
    on_impl (m parsed)

  by_address_lem :
      {A : Type 0} (operation : String) (m : BitAddress → Prog (Held S) A) (s : Bytes)
      (a : BitAddress) (h k : Held S) (n : ℕ)
      → parse_bit_address s ≡ returned a
      → area_size sdk a.area h ≡ (returned n, k)
      → ((a.byte < n) × (by_address operation m s (of_held h) ≡ on_impl (m a) (of_held k)))
        ⊎ ((n ≤ a.byte)
            × (by_address operation m s (of_held h)
                ≡ (thrown (out_of_range_error sdk a operation n), of_held k)))
  unfolding by_address on_impl
  by_address_lem operation m s a h k n p r =
      let rest = λ (b : BitAddress) (x : Outcome (Unit {0}) × Held S).
        continue (x.0, of_held x.1) (λ _. on_impl (m b)) in
      let parsed =
        ap
          (λ o.
            continue (o, of_held h)
              (λ b c. continue (on_impl (check_bounds sdk b operation) c) (λ _. on_impl (m b))))
          p in
      elim (dec_lt a.byte n) [
        | yes lt ↦ inl (lt, parsed ∙ ap (rest a) (check_bounds_inside a operation h k n r lt))
        | no ge ↦
            let le : n ≤ a.byte = omega arith in
            inr (le, parsed ∙ ap (rest a) (check_bounds_outside a operation h k n r le))
      ]

  -- With an address that parses, in an area of `n` bytes, `setAddressBit` makes the transfer of
  -- `writeBit` at exactly that area, byte and bit if the byte lies below `n`; otherwise it throws the
  -- error of an address out of range and makes no transfer.
  pub set_address_bit_lem :
      (s : Bytes) (value : Bool) (a : BitAddress) (h k : Held S) (n : ℕ)
      → parse_bit_address s ≡ returned a
      → area_size sdk a.area h ≡ (returned n, k)
      → ((a.byte < n)
          × (set_address_bit sdk s value (of_held h)
              ≡ on_impl (write_bit sdk a.area a.byte a.bit value) (of_held k)))
        ⊎ ((n ≤ a.byte)
            × (set_address_bit sdk s value (of_held h)
                ≡ (thrown (out_of_range_error sdk a "setAddressBit" n), of_held k)))
  unfolding set_address_bit by_address
  set_address_bit_lem s value a h k n =
      by_address_lem "setAddressBit" (λ b. write_bit sdk b.area b.byte b.bit value) s a h k n

  -- With an address that parses, in an area of `n` bytes, `getAddressBit` makes the transfer of
  -- `readBit` at exactly that area, byte and bit if the byte lies below `n`; otherwise it throws
  -- the error of an address out of range and makes no transfer.
  pub get_address_bit_lem :
      (s : Bytes) (a : BitAddress) (h k : Held S) (n : ℕ)
      → parse_bit_address s ≡ returned a
      → area_size sdk a.area h ≡ (returned n, k)
      → ((a.byte < n)
          × (get_address_bit sdk s (of_held h)
              ≡ on_impl (read_bit sdk a.area a.byte a.bit) (of_held k)))
        ⊎ ((n ≤ a.byte)
            × (get_address_bit sdk s (of_held h)
                ≡ (thrown (out_of_range_error sdk a "getAddressBit" n), of_held k)))
  unfolding get_address_bit by_address
  get_address_bit_lem s a h k n =
      by_address_lem "getAddressBit" (λ b. read_bit sdk b.area b.byte b.bit) s a h k n
