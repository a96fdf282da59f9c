-- ===== src/Address/Case.antt =====
-- The parser of src/Address.cpp does not tell upper from lower case.
use mathlib.Core.List.{map, map-append, reverse-cons}
use mathlib.Core.Path.{subst}
use native.Mathlib.Decide.{dec_le}
use plcsim_connector.Std.Decimal.{IsDigit}
use plcsim_connector.Address.Accepts.{
  Accepted-sound, Accepted-complete, parse_area_sound, parse_area_complete,
}
use plcsim_connector.Address.Numbers.{
  is_digit_iff, read_digits_stop, read_digits_more, read_digits_overflow, read_number_step,
  read_number_refuses,
}
use plcsim_connector.Common.{
  ℕ, ◌+◌, ◌-◌, ◌*◌, ◌≡◌, ◌↔◌, ◌∙◌, refl, sym, ap, true, [], ◌∷◌, reverse, arith, inl, inr,
  Bool-cases, Option-cases, ◌==◌, is_empty, Bytes,
}
use plcsim_connector.Error.{returned}
use plcsim_connector.Std.{toupper, isspace}
use plcsim_connector.Types.{Area}
use plcsim_connector.Address.{
  BitAddress, NumberRead, trim_front, trim, is_digit, read_digits, read_number, area_of,
  is_data_block, skip_percent, check_bit, parse_bit, parse_dot, check_offset, parse_offset,
  parse_size_prefix, parse_area, parse_bit_address, max_u32,
}

abbrev pub to_upper_case : Bytes → Bytes
to_upper_case = map toupper

toupper-toupper : (c : ℕ) → toupper (toupper c) ≡ toupper c
unfolding toupper
toupper-toupper c = ground arith

isspace-toupper : (c : ℕ) → isspace (toupper c) ≡ isspace c
unfolding isspace toupper
isspace-toupper c = ground arith

is_digit-toupper : (c : ℕ) → is_digit (toupper c) ≡ is_digit c
unfolding is_digit toupper
is_digit-toupper c = ground arith

toupper-digit : (c : ℕ) → is_digit c ≡ true → toupper c ≡ c
unfolding is_digit toupper
toupper-digit c h = ground arith

toupper-percent : (c : ℕ) → (toupper c == b'%') ≡ (c == b'%')
unfolding toupper
toupper-percent c = ground arith

toupper-dot : (c : ℕ) → (toupper c == b'.') ≡ (c == b'.')
unfolding toupper
toupper-dot c = ground arith

trim_front-map : (s : Bytes) → trim_front (to_upper_case s) ≡ to_upper_case (trim_front s)
unfolding trim_front
trim_front-map [] = refl
trim_front-map (c ∷ s) = ground (arith, isspace-toupper c, trim_front-map s)

map-reverse : (s : Bytes) → to_upper_case (reverse s) ≡ reverse (to_upper_case s)
map-reverse [] = refl
map-reverse (c ∷ s) =
    rw (reverse-cons c s, reverse-cons (toupper c) (to_upper_case s), map-append, map-reverse s)

trim-map : (s : Bytes) → trim (to_upper_case s) ≡ to_upper_case (trim s)
unfolding trim
trim-map s = simp (trim_front-map, ← map-reverse)

is_empty-map : (s : Bytes) → is_empty (to_upper_case s) ≡ is_empty s
is_empty-map [] = refl
is_empty-map (c ∷ s) = refl

is_data_block-map : (s : Bytes) → is_data_block (to_upper_case s) ≡ is_data_block s
unfolding is_data_block
is_data_block-map [] = refl
is_data_block-map (a ∷ []) = refl
is_data_block-map (a ∷ b ∷ s) = rw (toupper-toupper a, toupper-toupper b)

skip_percent-map : (s : Bytes) → skip_percent (to_upper_case s) ≡ to_upper_case (skip_percent s)
unfolding skip_percent
skip_percent-map [] = refl
skip_percent-map (c ∷ s) = ground (arith, toupper-percent c)

-- The same result, with the rest of the text in upper case.
abbrev raise : NumberRead → NumberRead
raise r = record r { rest = to_upper_case r.rest }

read_digits-map :
    (out v : ℕ) (s : Bytes) → read_digits out v (to_upper_case s) ≡ raise (read_digits out v s)
read_digits-map out v [] = unfold read_digits in refl
read_digits-map out v (c ∷ s) = elim (Bool-cases (is_digit c)) [
  | inr stop ↦
      read_digits_stop out v (toupper c) (to_upper_case s) (is_digit-toupper c ∙ stop)
      ∙ ap raise (sym (read_digits_stop out v c s stop))
  | inl digit ↦
      let same = toupper-digit c digit in
      let d = (is_digit_iff c).0 digit in
      rw same (elim (dec_le (v * 10 + (c - b'0')) max_u32) [
        | yes fits ↦
            rw
              (read_digits_more out v c (to_upper_case s) d fits, read_digits_more out v c s d fits)
              (read_digits-map out (v * 10 + (c - b'0')) s)
        | no over ↦ rw (
          read_digits_overflow out v c (to_upper_case s) d (omega arith),
          read_digits_overflow out v c s d (omega arith),
          same,
        )
      ])
]

read_number-map :
    (s : Bytes) (out : ℕ) → read_number (to_upper_case s) out ≡ raise (read_number s out)
read_number-map [] out = unfold read_number in refl
read_number-map (c ∷ s) out = elim (Bool-cases (is_digit c)) [
  | inl digit ↦
      let d = (is_digit_iff c).0 digit in
      read_number_step out (toupper c) (to_upper_case s)
        (subst IsDigit (sym (toupper-digit c digit)) d)
      ∙ (read_digits-map out 0 (c ∷ s) ∙ ap raise (sym (read_number_step out c s d)))
  | inr stop ↦
      read_number_refuses out (toupper c) (to_upper_case s) (is_digit-toupper c ∙ stop)
      ∙ ap raise (sym (read_number_refuses out c s stop))
]

module _ (input : Bytes) where
  check_bit-raise :
      (area : Area) (byte : ℕ) (r : NumberRead)
      → check_bit input area byte (raise r) ≡ check_bit input area byte r
  unfolding check_bit
  check_bit-raise area byte r = rw (is_empty-map r.rest)

  parse_dot-map :
      (area : Area) (byte : ℕ) (s : Bytes)
      → parse_dot input area byte (to_upper_case s) ≡ parse_dot input area byte s
  unfolding parse_dot parse_bit
  parse_dot-map area byte [] = refl
  parse_dot-map area byte (c ∷ s) =
      rw (toupper-dot c, read_number-map s 0, check_bit-raise area byte (read_number s 0))

  check_offset-raise :
      (area : Area) (r : NumberRead) → check_offset input area (raise r) ≡ check_offset input area r
  unfolding check_offset
  check_offset-raise area r = rw (is_empty-map r.rest, parse_dot-map area r.out r.rest)

  parse_offset-map :
      (area : Area) (s : Bytes)
      → parse_offset input area (to_upper_case s) ≡ parse_offset input area s
  unfolding parse_offset
  parse_offset-map area s = rw (read_number-map s 0, check_offset-raise area (read_number s 0))

  parse_size_prefix-map :
      (area : Area) (s : Bytes)
      → parse_size_prefix input area (to_upper_case s) ≡ parse_size_prefix input area s
  unfolding parse_size_prefix
  parse_size_prefix-map area [] = refl
  parse_size_prefix-map area (c ∷ s) =
      rw (toupper-toupper c, parse_offset-map area s, parse_offset-map area (c ∷ s))

  parse_area-map : (s : Bytes) → parse_area input (to_upper_case s) ≡ parse_area input s
  unfolding parse_area
  parse_area-map [] = refl
  parse_area-map (c ∷ s) = elim (Option-cases (area_of (toupper c))) [
    | inl unknown ↦ rw (toupper-toupper c, unknown, parse_area)
    | inr (area, known) ↦ rw (toupper-toupper c, known, parse_area) (parse_size_prefix-map area s)
  ]

-- An address parses to a bit address exactly when the address in upper case parses to the same one.
pub parse-to_upper_case :
    (s : Bytes) (a : BitAddress)
    → (parse_bit_address (to_upper_case s) ≡ returned a) ↔ (parse_bit_address s ≡ returned a)
parse-to_upper_case s a = (to_lower, to_upper)
  where
    same_rest :
        parse_area [] (skip_percent (trim (to_upper_case s)))
        ≡ parse_area [] (skip_percent (trim s))
    same_rest =
        rw (trim-map s, skip_percent-map (trim s)) (parse_area-map [] (skip_percent (trim s)))

    empty : is_empty (trim (to_upper_case s)) ≡ is_empty (trim s)
    empty = rw (trim-map s) (is_empty-map (trim s))

    block : is_data_block (trim (to_upper_case s)) ≡ is_data_block (trim s)
    block = rw (trim-map s) (is_data_block-map (trim s))

    to_lower : parse_bit_address (to_upper_case s) ≡ returned a → parse_bit_address s ≡ returned a
    to_lower h =
        let p = Accepted-sound (to_upper_case s) a h in
        Accepted-complete s a (record {
          some_text = sym empty ∙ p.some_text;
          no_block = sym block ∙ p.no_block;
          located = parse_area_sound [] _ a (sym same_rest ∙ parse_area_complete [] _ a p.located);
        })

    to_upper : parse_bit_address s ≡ returned a → parse_bit_address (to_upper_case s) ≡ returned a
    to_upper h =
        let p = Accepted-sound s a h in
        Accepted-complete (to_upper_case s) a (record {
          some_text = empty ∙ p.some_text;
          no_block = block ∙ p.no_block;
          located = parse_area_sound [] _ a (same_rest ∙ parse_area_complete [] _ a p.located);
        })
