-- ===== src/Instance/Tame.antt =====
-- Every method of `Instance::Impl` in src/SdkBridge.cpp but `destroy` keeps what it must keep.
use plcsim_connector.Common.{
  ℕ, ◌≡◌, ◌≢◌, ◌⊎◌, refl, Bool, true, false, not, Option, none, some, String, arith, inl, inr,
  Bool-cases, ◌==◌, ltb, if◌then◌else◌,
}
use plcsim_connector.Common.Int.{ℤ, ◌==ℤ◌}
use plcsim_connector.Address.{BitAddress}
use plcsim_connector.Bridge.{check, succeeded, to_sdk}
use plcsim_connector.Error.{undefined}
use plcsim_connector.Prog.{Prog, ◌>>=◌}
use plcsim_connector.Sdk.{Sdk}
use plcsim_connector.Types.{Area}
use plcsim_connector.Instance.{
  AreaSizes, size_at, set_size, Held, call, remember_size, live, live_pointer, verify, query_size,
  cached_or_query, area_size, closed_error, keep_size, check_bounds, write_bit, read_bit,
  no_size_error,
}
use plcsim_connector.Instance.Evolution.{
  Evolves, Evolves-refl, Evolves-trans, Tame, Tame-bind, pure-Tame, throw-Tame, call-Tame, Tame-if,
}

size_at-set_size :
    (z : AreaSizes) (area other : Area) (n : ℕ)
    → (size_at (set_size z area n) other ≡ some n) × (area ≡ other)
      ⊎ (size_at (set_size z area n) other ≡ size_at z other) × (area ≢ other)
unfolding size_at set_size
size_at-set_size z Area.input Area.input n = inl (refl, refl)
size_at-set_size z Area.input Area.marker n = inr (refl, λ e. cc)
size_at-set_size z Area.input Area.output n = inr (refl, λ e. cc)
size_at-set_size z Area.marker Area.input n = inr (refl, λ e. cc)
size_at-set_size z Area.marker Area.marker n = inl (refl, refl)
size_at-set_size z Area.marker Area.output n = inr (refl, λ e. cc)
size_at-set_size z Area.output Area.input n = inr (refl, λ e. cc)
size_at-set_size z Area.output Area.marker n = inr (refl, λ e. cc)
size_at-set_size z Area.output Area.output n = inl (refl, refl)

-- A size is remembered where none was.
remember_size-Evolves :
    {S : Type 0} (h : Held S) (area : Area) (n : ℕ)
    → size_at h.impl.area_sizes area ≡ none
    → n ≢ 0
    → Evolves h (remember_size area n h).1
remember_size-Evolves h area n empty positive = record {
  same_api = refl;
  same_raw = refl;
  same_id = refl;
  same_name = refl;
  same_refcount = refl;
  same_manager = refl;
  sticky = λ e. e;
  cached = λ other m e. ground (arith, size_at-set_size h.impl.area_sizes area other n);
  sizes = λ z other e. ground (arith, size_at-set_size h.impl.area_sizes area other n, z other);
}

-- The mark that `verify` sets.
mark-Evolves :
    {S : Type 0} (b : Bool) (h : Held S)
    → Evolves h (if b then record h { impl = record h.impl { interface_removed = true } } else h)
mark-Evolves true h = record {
  same_api = refl;
  same_raw = refl;
  same_id = refl;
  same_name = refl;
  same_refcount = refl;
  same_manager = refl;
  sticky = λ e. refl;
  cached = λ area n e. e;
  sizes = λ z. z;
}
mark-Evolves false h = Evolves-refl h

module _ {S : Type 0} (sdk : Sdk S) where
  live_pointer-Tame : (raw : Option ℕ) (operation : String) → Tame (live_pointer sdk raw operation)
  unfolding live_pointer
  live_pointer-Tame none operation = throw-Tame _
  live_pointer-Tame (some raw) operation = pure-Tame raw

  pub live-Tame : (operation : String) → Tame (live sdk operation)
  unfolding live
  live-Tame operation h = live_pointer-Tame h.impl.raw operation h

  check-Tame : (code : ℤ) (context : String) → Tame {S = S} (check sdk code context)
  unfolding check
  check-Tame code context = Tame-if (not (succeeded code)) _ _ (throw-Tame _) (pure-Tame tt)

  pub verify-Tame : (code : ℤ) (context : String) → Tame (verify sdk code context)
  unfolding verify
  verify-Tame code context h =
      let marked = mark-Evolves (code ==ℤ sdk.codes.interface_removed) h in
      let (e, d) = check-Tame code context _ in (Evolves-trans h _ _ marked e, d)

  keep_size-Tame :
      (area : Area) (size : ℕ) (h : Held S)
      → size_at h.impl.area_sizes area ≡ none
      → Evolves h (keep_size sdk area size h).1 × ((keep_size sdk area size h).0 ≢ undefined)
  unfolding keep_size
  keep_size-Tame area size h empty = elim (Bool-cases (size == 0)) [
    | inl failed ↦ rw failed (throw-Tame (no_size_error sdk area) h)
    | inr good ↦ rw good (remember_size-Evolves h area size empty (ground arith), λ x. cc)
  ]

  cached_or_query-Tame :
      (area : Area) (cached : Option ℕ) (h : Held S)
      → size_at h.impl.area_sizes area ≡ cached
      → Evolves h (cached_or_query sdk area cached h).1
        × ((cached_or_query sdk area cached h).0 ≢ undefined)
  unfolding cached_or_query query_size live
  cached_or_query-Tame area (some size) h e = pure-Tame size h
  cached_or_query-Tame area none h empty = go h.impl.raw
    where
      m : Option ℕ → Prog (Held S) ℕ
      m raw = live_pointer sdk raw "GetAreaSize" >>= λ raw.
          call (sdk.get_area_size raw (to_sdk sdk.enums area)) >>= keep_size sdk area

      go : (raw : Option ℕ) → Evolves h (m raw h).1 × ((m raw h).0 ≢ undefined)
      go none = throw-Tame (closed_error sdk "GetAreaSize") h
      go (some raw) =
          let f = sdk.get_area_size raw (to_sdk sdk.enums area) in
          let k = (call f h).1 in
          let (e, d) = keep_size-Tame area (f h.world.external).0 k empty in
          (Evolves-trans h k _ (call-Tame f h).0 e, d)

  pub area_size-Tame : (area : Area) → Tame (area_size sdk area)
  unfolding area_size
  area_size-Tame area h = cached_or_query-Tame area (size_at h.impl.area_sizes area) h refl

  pub check_bounds-Tame :
      (address : BitAddress) (operation : String) → Tame (check_bounds sdk address operation)
  unfolding check_bounds
  check_bounds-Tame address operation =
      Tame-bind _ _ (area_size-Tame address.area)
        λ size. Tame-if (not (ltb address.byte size)) _ _ (throw-Tame _) (pure-Tame tt)

  pub write_bit-Tame :
      (area : Area) (byte bit : ℕ) (value : Bool) → Tame (write_bit sdk area byte bit value)
  unfolding write_bit
  write_bit-Tame area byte bit value =
      Tame-bind _ _ (live-Tame "WriteBit")
        λ raw. Tame-bind _ _ (call-Tame _) λ result. verify-Tame result "WriteBit"

  pub read_bit-Tame : (area : Area) (byte bit : ℕ) → Tame (read_bit sdk area byte bit)
  unfolding read_bit
  read_bit-Tame area byte bit = Tame-bind _ _ (live-Tame "ReadBit") λ raw.
      Tame-bind _ _ (call-Tame _) λ (answer : ℤ × Bool).
        Tame-bind _ _ (verify-Tame answer.0 "ReadBit") λ _. pure-Tame answer.1
