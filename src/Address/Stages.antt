-- ===== src/Address/Stages.antt =====
-- Each stage of the parser in src/Address.cpp accepts exactly one level of the syntax.
use mathlib.Core.Path.{subst}
use plcsim_connector.Common.{
  inr, true, ◌==◌, ◌||◌, ℕ, ◌%◌, ◌^◌, ◌≤◌, ◌≡◌, ◌≢◌, ◌∙◌, refl, sym, ap, false, [], ◌∷◌, ◌++◌,
  arith, ltb, inl, Bool-cases, Bytes, All,
}
use plcsim_connector.Error.{returned}
use plcsim_connector.Std.{toupper}
use plcsim_connector.Std.Decimal.{IsDigit}
use plcsim_connector.Types.{Area}
use plcsim_connector.Address.{
  BitAddress, parse_bit, parse_dot, parse_offset, parse_size_prefix, check_bit, check_offset,
}
use plcsim_connector.Address.Numbers.{Reads, read_number_complete, read_number_cases}
use plcsim_connector.Address.Grammar.{BitIndex, Offsets, Sized, IsSizePrefix}

abbrev pub address : Area → ℕ → ℕ → BitAddress
address area byte bit = record { area = area; byte = byte; bit = bit }

module _ (input : Bytes) where
  parse_bit_complete :
      (area : Area) (byte bit : ℕ) (s : Bytes)
      → BitIndex s bit
      → parse_bit input area byte s ≡ returned (address area byte bit)
  unfolding parse_bit check_bit
  parse_bit_complete area byte bit s b =
      let small : ltb 7 bit ≡ false = ground arith in
      let exact : bit % 2 ^ 8 ≡ bit = omega arith in
      rw (read_number_complete s 0 bit [] b.number, small, exact)

  check_bit_sound :
      (area : Area) (byte : ℕ) (a : BitAddress) (t : Bytes) (n : ℕ)
      → check_bit input area byte (record { found = true; rest = t; out = n }) ≡ returned a
      → (address area byte n ≡ a) × (t ≡ []) × (n ≤ 7)
  unfolding check_bit
  check_bit_sound area byte a [] n h = ground arith
  check_bit_sound area byte a (c ∷ t) n h = cc

  parse_bit_sound :
      (area : Area) (byte : ℕ) (s : Bytes) (a : BitAddress)
      → parse_bit input area byte s ≡ returned a
      → (bit : ℕ) × (address area byte bit ≡ a) × BitIndex s bit
  unfolding parse_bit
  parse_bit_sound area byte s a h = elim (read_number_cases s 0) [
    | inl missing ↦ unfold check_bit in cc (rw missing at h)
    | inr (n, t, e, r) ↦
        let (same, nil, small) = check_bit_sound area byte a t n (rw e at h) in
        (n, same, record { number = subst (Reads s n) nil r; small = small })
  ]

  parse_dot_complete :
      (area : Area) (byte bit : ℕ) (s : Bytes)
      → BitIndex s bit
      → parse_dot input area byte (b'.' ∷ s) ≡ returned (address area byte bit)
  unfolding parse_dot
  parse_dot_complete area byte bit s b = parse_bit_complete area byte bit s b

  parse_dot_sound :
      (area : Area) (byte : ℕ) (s : Bytes) (a : BitAddress)
      → parse_dot input area byte s ≡ returned a
      → (behind : Bytes) × (s ≡ b'.' ∷ behind) × (parse_bit input area byte behind ≡ returned a)
  unfolding parse_dot
  parse_dot_sound area byte [] a h = cc
  parse_dot_sound area byte (c ∷ s) a h = elim (Bool-cases (c == b'.')) [
    | inl dot ↦ (s, ground arith, rw dot at h)
    | inr bad ↦ cc (rw bad at h)
  ]

  parse_offset_complete :
      (area : Area) (byte bit : ℕ) (s : Bytes)
      → Offsets s byte bit
      → parse_offset input area s ≡ returned (address area byte bit)
  unfolding parse_offset check_offset
  parse_offset_complete area byte bit s o =
      rw (read_number_complete s 0 byte (b'.' ∷ o.behind) o.offset)
        (parse_dot_complete area byte bit o.behind o.index)

  parse_offset_sound :
      (area : Area) (s : Bytes) (a : BitAddress)
      → parse_offset input area s ≡ returned a
      → (byte bit : ℕ) × (address area byte bit ≡ a) × Offsets s byte bit
  unfolding parse_offset check_offset
  parse_offset_sound area s a h = elim (read_number_cases s 0) [
    | inl missing ↦ absurd (ground arith)
    | inr (n, t, e, r) ↦
        let (behind, dot, more) = parse_dot_sound area n t a (rw e at h) in
        let (bit, same, index) = parse_bit_sound area n behind a more in
        (n, bit, same, record { behind = behind; offset = subst (Reads s n) dot r; index = index })
  ]

  -- A rest that begins with a digit has no size prefix.
  pub parse_size_prefix_digit :
      (area : Area) (c : ℕ) (s : Bytes)
      → IsDigit c
      → parse_size_prefix input area (c ∷ s) ≡ parse_offset input area (c ∷ s)
  unfolding parse_size_prefix toupper
  parse_size_prefix_digit area c s d = ground arith

  Offsets-IsDigit :
      (s : Bytes) (byte bit : ℕ)
      → Offsets s byte bit
      → (c : ℕ) × (t : Bytes) × (s ≡ c ∷ t) × IsDigit c
  Offsets-IsDigit s byte bit o =
      first o.offset.digits o.offset.some_digit o.offset.all_digits o.offset.split
    where
      first :
          (ds : Bytes)
          → ds ≢ []
          → All IsDigit ds
          → s ≡ ds ++ b'.' ∷ o.behind
          → (c : ℕ) × (t : Bytes) × (s ≡ c ∷ t) × IsDigit c
      first [] h all e = absurd (h refl)
      first (c ∷ ds) h all e = (c, ds ++ b'.' ∷ o.behind, e, all.0)

  pub parse_size_prefix_complete :
      (area : Area) (byte bit : ℕ) (s : Bytes)
      → Sized s byte bit
      → parse_size_prefix input area s ≡ returned (address area byte bit)
  unfolding parse_size_prefix toupper
  parse_size_prefix_complete area byte bit s z = go z.is_prefix
    where
      done : parse_offset input area z.rest ≡ returned (address area byte bit)
      done = parse_offset_complete area byte bit z.rest z.offsets

      go :
          IsSizePrefix z.size_prefix
          → parse_size_prefix input area s ≡ returned (address area byte bit)
      go (inl nil) =
          let (c, t, e, d) = Offsets-IsDigit z.rest byte bit z.offsets in
          rw (z.split, nil, e)
            (parse_size_prefix_digit area c t d ∙ (sym (ap (parse_offset input area) e) ∙ done))
      go (inr (inl x)) = rw (z.split, x) done
      go (inr (inr x)) = rw (z.split, x) done

  pub parse_size_prefix_sound :
      (area : Area) (s : Bytes) (a : BitAddress)
      → parse_size_prefix input area s ≡ returned a
      → (byte bit : ℕ) × (address area byte bit ≡ a) × Sized s byte bit
  unfolding parse_size_prefix toupper
  parse_size_prefix_sound area [] a h =
      let (byte, bit, same, o) = parse_offset_sound area [] a h in
      (
        byte,
        bit,
        same,
        record { size_prefix = []; rest = []; split = refl; is_prefix = inl refl; offsets = o },
      )
  parse_size_prefix_sound area (c ∷ s) a h = elim (Bool-cases (toupper c == b'X')) [
    | inl x ↦
        let (byte, bit, same, o) = parse_offset_sound area s a (rw x at h) in
        (
          byte,
          bit,
          same,
          record {
            size_prefix = c ∷ [];
            rest = s;
            split = refl;
            is_prefix = inr (ground arith);
            offsets = o;
          },
        )
    | inr y ↦ elim (Bool-cases (toupper c == b'B' || (toupper c == b'W' || toupper c == b'D'))) [
      | inl wide ↦ absurd (ground arith)
      | inr narrow ↦
          let (byte, bit, same, o) = parse_offset_sound area (c ∷ s) a (ground arith) in
          (
            byte,
            bit,
            same,
            record {
              size_prefix = [];
              rest = c ∷ s;
              split = refl;
              is_prefix = inl refl;
              offsets = o;
            },
          )
    ]
  ]
