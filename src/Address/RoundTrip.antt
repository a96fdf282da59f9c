-- ===== src/Address/RoundTrip.antt =====
-- Printing an address (`BitAddress::to_string`) and parsing it back.
use plcsim_connector.Common.{
  ℕ, ◌≤◌, ◌≡◌, ◌∙◌, refl, sym, ap, [], ◌∷◌, ◌++◌, append-nil, arith, inl, inr, Bytes, codes,
}
use plcsim_connector.Error.{returned}
use plcsim_connector.Std.Decimal
use plcsim_connector.Types.{Area, area_to_string}
use plcsim_connector.Address.{BitAddress, max_u32, to_string, parse_bit_address, is_digit}
use plcsim_connector.Address.Grammar.{Offsets, Spells, IsMnemonic}
use plcsim_connector.Address.Accepts.{parse_sound, parse_complete}

-- What a BitAddress can hold that `parse_bit_address` returns.
pub record IsValid (a : BitAddress) : Type 0 where
  pub byte_fits : a.byte ≤ max_u32
  pub bit_fits : a.bit ≤ 7

abbrev letter : Area → ℕ
letter Area.input = b'I'
letter Area.marker = b'M'
letter Area.output = b'Q'

letter-IsMnemonic : (area : Area) → IsMnemonic (letter area) area
letter-IsMnemonic Area.input = inl refl
letter-IsMnemonic Area.marker = inl refl
letter-IsMnemonic Area.output = inl refl

area_to_string-letter : (area : Area) → area_to_string area ≡ letter area ∷ []
unfolding area_to_string
area_to_string-letter Area.input = refl
area_to_string-letter Area.marker = refl
area_to_string-letter Area.output = refl

printed-Offsets :
    (byte bit : ℕ)
    → byte ≤ max_u32
    → bit ≤ 7
    → Offsets (Decimal.to_string byte ++ b'.' ∷ Decimal.to_string bit) byte bit
unfolding is_digit
printed-Offsets byte bit hb hi = record {
  behind = Decimal.to_string bit;
  offset = record {
    digits = Decimal.to_string byte;
    split = refl;
    some_digit = Decimal.to_string-ne-nil byte;
    all_digits = Decimal.to_string-IsDigit byte;
    stops = refl;
    exact = sym (Decimal.value-to_string byte);
    fits = hb;
  };
  index = record {
    number = record {
      digits = Decimal.to_string bit;
      split = sym (append-nil _);
      some_digit = Decimal.to_string-ne-nil bit;
      all_digits = Decimal.to_string-IsDigit bit;
      stops = tt;
      exact = sym (Decimal.value-to_string bit);
      fits = omega arith;
    };
    small = hi;
  };
}

to_string-Spells : (a : BitAddress) → IsValid a → Spells (to_string a) a
unfolding to_string
to_string-Spells a v = record {
  before = [];
  text = to_string a;
  after = [];
  split = sym (append-nil _);
  before_spaces = tt;
  after_spaces = tt;
  marked = record {
    percent = codes "%";
    rest = letter a.area ∷ offsets;
    split = rw (area_to_string-letter a.area);
    is_percent = inr refl;
    located = record {
      letter = letter a.area;
      rest = offsets;
      split = refl;
      mnemonic = letter-IsMnemonic a.area;
      sized = record {
        size_prefix = [];
        rest = offsets;
        split = refl;
        is_prefix = inl refl;
        offsets = printed-Offsets a.byte a.bit v.byte_fits v.bit_fits;
      };
    };
  };
}
  where
    offsets : Bytes
    offsets = Decimal.to_string a.byte ++ b'.' ∷ Decimal.to_string a.bit

-- A byte offset below 2^32 and a bit index up to 7, in any area, are printed as a text that the
-- parser reads back as the same address.
pub parse-to_string : (a : BitAddress) → IsValid a → parse_bit_address (to_string a) ≡ returned a
parse-to_string a v = parse_complete (to_string a) a (to_string-Spells a v)

-- Every address that the parser returns has a byte offset below 2^32 and a bit index up to 7.
pub parse-IsValid : (s : Bytes) (a : BitAddress) → parse_bit_address s ≡ returned a → IsValid a
parse-IsValid s a h =
    let o = (parse_sound s a h).marked.located.sized.offsets in
    record { byte_fits = o.offset.fits; bit_fits = o.index.small }

-- Whatever spelling was parsed, printing the address gives a spelling of the same address.
pub parse-to_string-parse :
    (s : Bytes) (a : BitAddress)
    → parse_bit_address s ≡ returned a
    → parse_bit_address (to_string a) ≡ returned a
parse-to_string-parse s a h = parse-to_string a (parse-IsValid s a h)

pub returned-injective {ℓ} : {A : Type ℓ} {a b : A} → returned a ≡ returned b → a ≡ b
returned-injective h = cc

-- Two valid addresses that are printed alike are the same address.
pub to_string-injective :
    (a b : BitAddress) → IsValid a → IsValid b → to_string a ≡ to_string b → a ≡ b
to_string-injective a b va vb e =
    returned-injective
      (sym (parse-to_string a va) ∙ (ap parse_bit_address e ∙ parse-to_string b vb))
