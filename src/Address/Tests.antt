-- ===== src/Address/Tests.antt =====
-- The cases of tests/test_address.cpp, and the theorems about addresses at concrete inputs.
use plcsim_connector.Common.{ℕ, ◌≡◌, refl, inl, inr, arith, String, codes}
use plcsim_connector.Error.{Outcome, returned, thrown}
use plcsim_connector.Std.{toupper, isspace}
use plcsim_connector.Std.Decimal
use plcsim_connector.Types.{Area, area_to_string}
use plcsim_connector.Address.{
  BitAddress, trim_front, trim, read_number, area_of, is_data_block, skip_percent, check_bit,
  parse_bit, parse_dot, check_offset, parse_offset, parse_size_prefix, parse_area,
  parse_bit_address, invalid_error, to_string,
}
use plcsim_connector.Address.Grammar.{Spells}
use plcsim_connector.Address.Accepts.{parse-iff-Spells}
use plcsim_connector.Address.RoundTrip.{parse-to_string}
use plcsim_connector.Address.Rejects.{too_large_offset}

-- The parser with all its parts open.
parse : String → Outcome BitAddress
unfolding parse_bit_address trim trim_front is_data_block skip_percent parse_area area_of
    parse_size_prefix parse_offset check_offset read_number parse_dot parse_bit check_bit toupper
    isspace
parse s = parse_bit_address (codes s)

abbrev at : Area → ℕ → ℕ → Outcome BitAddress
at area byte bit = returned (record { area = area; byte = byte; bit = bit })

english :
    (parse "%I10.2" ≡ at Area.input 10 2)
    × (parse "%Q4.1" ≡ at Area.output 4 1)
    × (parse "%M0.0" ≡ at Area.marker 0 0)
unfolding parse
english = (refl, refl, refl)

german : (parse "%E10.2" ≡ parse "%I10.2") × (parse "%A4.1" ≡ parse "%Q4.1")
unfolding parse
german = (refl, refl)

optional_syntax :
    (parse "I10.2" ≡ at Area.input 10 2)
    × (parse "%IX10.2" ≡ at Area.input 10 2)
    × (parse "%i10.2" ≡ at Area.input 10 2)
    × (parse "ix10.2" ≡ at Area.input 10 2)
    × (parse "  %I10.2\t" ≡ at Area.input 10 2)
unfolding parse
optional_syntax = (refl, refl, refl, refl, refl)

large_offsets :
    (parse "%M65535.7" ≡ at Area.marker 65535 7)
    × (parse "%I4294967295.0" ≡ at Area.input 4294967295 0)
unfolding parse
large_offsets = (refl, refl)

abbrev Refused : String → String → Type 0
Refused s reason = parse s ≡ thrown (invalid_error (codes s) reason)

malformed :
    Refused "" "address is empty"
    × Refused "   " "address is empty"
    × Refused "%Z1.0" "unknown area letter; expected I/E (input), Q/A (output) or M (marker)"
    × Refused "%I10" "missing bit index; a bit address needs a '.', e.g. \"%I10.2\""
    × Refused "%I10." "expected a bit index after '.'"
    × Refused "%Q0.99" "bit index must be between 0 and 7"
    × Refused "%I4294967296.0" "expected a byte offset after the area letter"
    × Refused "%I10.2.3" "unexpected trailing characters"
    × Refused "%I" "byte offset is missing or too large"
    × Refused "%" "expected an area letter (I, Q or M) after '%'"
unfolding parse
malformed = (refl, refl, refl, refl, refl, refl, refl, refl, refl, refl)

unsupported :
    Refused "%QW4"
      "byte, word and double-word addressing is not supported; use a bit address such as \"%I10.2\""
    × Refused "DB1.DBX0.0"
        "data block addressing is not supported; this connector handles %I, %Q and %M bit addresses only"
unfolding parse
unsupported = (refl, refl)

abbrev pub lamp : BitAddress
lamp = record { area = Area.output; byte = 4; bit = 1 }

abbrev switch : BitAddress
switch = record { area = Area.input; byte = 4294967295; bit = 7 }

printed : to_string lamp ≡ codes "%Q4.1"
unfolding to_string area_to_string Decimal.to_string
printed = refl

pub spelled : parse_bit_address (codes " %ax4.1") ≡ returned lamp
unfolding parse
spelled = refl

parse-iff-Spells_example : Spells (codes " %ax4.1") lamp
parse-iff-Spells_example = (parse-iff-Spells (codes " %ax4.1") lamp).0 spelled

parse-to_string_example : parse_bit_address (to_string switch) ≡ returned switch
parse-to_string_example = parse-to_string switch (omega arith)

pub bad_bit :
    parse_bit_address (codes "%I10.8")
    ≡ thrown (invalid_error (codes "%I10.8") "bit index must be between 0 and 7")
unfolding parse
bad_bit = refl

too_large_offset_example :
    parse_bit_address (codes "%IX4294967296.0")
    ≡ thrown
        (invalid_error (codes "%IX4294967296.0") "expected a byte offset after the area letter")
unfolding parse
too_large_offset_example =
    too_large_offset (codes "%IX4294967296.0") Area.input (codes "4294967296") (codes ".0")
      (omega arith) (omega arith) (codes "%") (codes "X") b'I' (inr refl) (inl refl)
      (inr (inl refl)) refl
