-- ===== src/Address/Spellings.antt =====
-- src/Address.cpp: the texts that the parser accepts, without what tells two spellings of an address apart.
use mathlib.Core.Equiv.{iso_to_equiv, Iso}
use mathlib.Core.HLevel.{Σ_prop_path}
use mathlib.Core.Path.{transport}
use mathlib.Core.Quot
use mathlib.Core.Quot.{Quot, Quot-set}
use native.Mathlib.Bridge.{le_prop}
use native.Mathlib.Nat.{ℕ_set}
use plcsim_connector.Common.{◌≡◌, refl, Bytes}
use plcsim_connector.Error.{returned}
use plcsim_connector.Address.{BitAddress, to_string, parse_bit_address}
use plcsim_connector.Address.RoundTrip.{IsValid, parse-to_string, parse-IsValid}

-- A text that parses, with what it parses to.
pub record Spelling : Type 0 where
  pub text : Bytes
  pub address : BitAddress
  pub parses : parse_bit_address text ≡ returned address

abbrev pub SameAddress : Spelling → Spelling → Type 0
SameAddress s t = s.address ≡ t.address

-- The texts that parse, where two that parse to the same address are one.
abbrev pub Spellings : Type 0
Spellings = Quot SameAddress

abbrev pub ValidAddress : Type 0
ValidAddress = (a : BitAddress) × IsValid a

IsValid-prop : (a : BitAddress) → IsProp (IsValid a)
IsValid-prop a = hlevel le_prop

ValidAddress-set : IsSet ValidAddress
ValidAddress-set = hlevel (le_prop, ℕ_set)

address_of : Spelling → ValidAddress
address_of s = (s.address, parse-IsValid s.text s.address s.parses)

canonical : ValidAddress → Spelling
canonical v = record { text = to_string v.0; address = v.0; parses = parse-to_string v.0 v.1 }

address : Spellings → ValidAddress
unfolding address_of
address = Quot.lift ValidAddress-set address_of (λ s t same. Σ_prop_path IsValid-prop same)

spelled-Iso : Iso Spellings ValidAddress
unfolding address address_of canonical
spelled-Iso = record {
  fun = address;
  inv = λ v. Quot.mk (canonical v);
  rinv = λ v. Σ_prop_path IsValid-prop {v = v} refl;
  linv = Quot.ind (λ q. Quot-set _ _) (λ s. Quot.sound refl);
}

spelled : Spellings ≡ ValidAddress
spelled i = V i Spellings ValidAddress (iso_to_equiv spelled-Iso)

-- The texts that parse, where two that parse to the same address count as one, are the same type as the
-- addresses with a byte offset below 2^32 and a bit index up to 7, and along this equation a text is
-- the address that it parses to.
pub Spellings-eq-ValidAddress :
    (e : Spellings ≡ ValidAddress) × ((s : Spelling) → (transport e (Quot.mk s)).0 ≡ s.address)
unfolding spelled spelled-Iso address address_of transport
Spellings-eq-ValidAddress = (spelled, λ s. refl)
