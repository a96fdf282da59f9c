-- ===== src/Address.antt =====
-- include/plcsim/Address.hpp and src/Address.cpp. The parser's position `pos` in the view `s` is the
-- text that is left, `s[pos..]`: `pos >= s.size()` is the empty rest, `s[pos]` its head and `++pos`
-- its tail.
pub mod Numbers
pub mod Trim
pub mod Grammar
pub mod Stages
pub mod Visible
pub mod Accepts
pub mod RoundTrip
pub mod Spellings
pub mod Rejects
pub mod Case
pub mod Tests
use plcsim_connector.Common.{
  ℕ, ◌+◌, ◌-◌, ◌*◌, ◌/◌, ◌%◌, ◌^◌, Bool, true, false, not, ◌&&◌, ◌||◌, Option, none, some, [], ◌∷◌,
  ◌++◌, reverse, String, ltb, leb, ◌==◌, if◌then◌else◌, Bytes, codes, is_empty,
}
use plcsim_connector.Common.Int.{pos}
use plcsim_connector.Error.{Error, ErrorKind, Outcome, returned, thrown}
use plcsim_connector.Std.{toupper, isspace}
use plcsim_connector.Std.Decimal
use plcsim_connector.Types.{Area, area_value, area_to_string}

pub record BitAddress : Type 0 where
  pub area : Area
  pub byte : ℕ
  pub bit : ℕ

abbrev pub max_u32 : ℕ
max_u32 = 2 ^ 32 - 1

-- The defaulted `operator==`: memberwise.
unfoldable pub address_eq : BitAddress → BitAddress → Bool
address_eq a b = area_value a.area == area_value b.area && (a.byte == b.byte && a.bit == b.bit)

-- BitAddress::to_string
unfoldable pub to_string : BitAddress → Bytes
to_string a =
    codes "%"
    ++ (area_to_string a.area ++ (Decimal.to_string a.byte ++ (b'.' ∷ Decimal.to_string a.bit)))

-- The error that `invalid` throws.
pub invalid_error : Bytes → String → Error
invalid_error address reason = record {
  kind = ErrorKind.invalid_address;
  code = pos 0;
  code_name = [];
  message = codes "invalid PLC address \"" ++ (address ++ (codes "\": " ++ codes reason));
}

abbrev pub invalid {ℓ} : {A : Type ℓ} → Bytes → String → Outcome A
invalid address reason = thrown (invalid_error address reason)

abbrev upper : ℕ → ℕ
upper = toupper

pub is_digit : ℕ → Bool
is_digit c = leb b'0' c && leb c b'9'

abbrev is_space : ℕ → Bool
is_space = isspace

-- `while (!s.empty() && is_space(s.front())) s.remove_prefix(1);`
trim_front : Bytes → Bytes
trim_front [] = []
trim_front (c ∷ s) = if is_space c then trim_front s else c ∷ s

-- The second loop is the first one at the other end.
pub trim : Bytes → Bytes
trim s = reverse (trim_front (reverse (trim_front s)))

-- What `read_number` returns and leaves in its reference arguments `pos` and `out`.
pub record NumberRead : Type 0 where
  pub found : Bool
  pub rest : Bytes
  pub out : ℕ

-- The loop of `read_number`, in uint32_t; `out` is the caller's variable.
pub read_digits : ℕ → ℕ → Bytes → NumberRead
read_digits out value [] = record { found = true; rest = []; out = value }
read_digits out value (c ∷ s) =
    let digit = c - b'0' in
    let more = read_digits out ((value * 10 + digit) % 2 ^ 32) s in
    if is_digit c
    then (if ltb ((max_u32 - digit) / 10) value
        then record { found = false; rest = c ∷ s; out = out }
        else more)
    else record { found = true; rest = c ∷ s; out = value }

pub read_number : Bytes → ℕ → NumberRead
unfolding is_digit read_digits
read_number [] out = record { found = false; rest = []; out = out }
read_number (c ∷ s) out =
    if is_digit c
    then read_digits out 0 (c ∷ s)
    else record { found = false; rest = c ∷ s; out = out }

-- `s.size() >= 2 && upper(s[0]) == 'D' && upper(s[1]) == 'B'`
pub is_data_block : Bytes → Bool
is_data_block [] = false
is_data_block (a ∷ []) = false
is_data_block (a ∷ b ∷ s) = upper a == b'D' && upper b == b'B'

pub skip_percent : Bytes → Bytes
skip_percent [] = []
skip_percent (c ∷ s) = if c == b'%' then s else c ∷ s

-- The switch over the upper-case area letter; `none` is its default case.
pub area_of : ℕ → Option Area
area_of c =
    if c == b'I' || c == b'E'
    then some Area.input
    else if c == b'Q' || c == b'A'
    then some Area.output
    else if c == b'M'
    then some Area.marker
    else none

module _ (input : Bytes) where
  -- What is made of the bit index that was read.
  pub check_bit : Area → ℕ → NumberRead → Outcome BitAddress
  check_bit area byte r =
      if not r.found
      then invalid input "expected a bit index after '.'"
      else if not (is_empty r.rest)
      then invalid input "unexpected trailing characters"
      else if ltb 7 r.out
      then invalid input "bit index must be between 0 and 7"
      else returned (record { area = area; byte = byte; bit = r.out % 2 ^ 8 })

  pub parse_bit : Area → ℕ → Bytes → Outcome BitAddress
  parse_bit area byte s = check_bit area byte (read_number s 0)

  pub parse_dot : Area → ℕ → Bytes → Outcome BitAddress
  parse_dot area byte [] =
      invalid input "missing bit index; a bit address needs a '.', e.g. \"%I10.2\""
  parse_dot area byte (c ∷ s) =
      if not (c == b'.')
      then invalid input "expected '.' between the byte offset and the bit index"
      else parse_bit area byte s

  -- What is made of the byte offset that was read.
  pub check_offset : Area → NumberRead → Outcome BitAddress
  check_offset area r =
      if not r.found
      then (if not (is_empty r.rest)
          then invalid input "expected a byte offset after the area letter"
          else invalid input "byte offset is missing or too large")
      else parse_dot area r.out r.rest

  pub parse_offset : Area → Bytes → Outcome BitAddress
  parse_offset area s = check_offset area (read_number s 0)

  pub parse_size_prefix : Area → Bytes → Outcome BitAddress
  parse_size_prefix area [] = parse_offset area []
  parse_size_prefix area (c ∷ s) =
      let size_prefix = upper c in
      if size_prefix == b'X'
      then parse_offset area s
      else if size_prefix == b'B' || (size_prefix == b'W' || size_prefix == b'D')
      then invalid input
          "byte, word and double-word addressing is not supported; use a bit address such as \"%I10.2\""
      else parse_offset area (c ∷ s)

  pub parse_area : Bytes → Outcome BitAddress
  parse_area [] = invalid input "expected an area letter (I, Q or M) after '%'"
  parse_area (c ∷ s) = elim (area_of (upper c)) [
    | none ↦ invalid input "unknown area letter; expected I/E (input), Q/A (output) or M (marker)"
    | some area ↦ parse_size_prefix area s
  ]

pub parse_bit_address : Bytes → Outcome BitAddress
parse_bit_address address =
    let s = trim address in
    if is_empty s
    then invalid address "address is empty"
    else if is_data_block s
    then invalid address
        "data block addressing is not supported; this connector handles %I, %Q and %M bit addresses only"
    else parse_area address (skip_percent s)
