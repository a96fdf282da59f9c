-- ===== src/Bindings/Values.antt =====
-- bindings/python/module.cpp: parse_bit_address, `str` and `==` of BitAddress as Python code sees them, with
-- the translator that turns a C++ `Error` into a Python exception.
use plcsim_connector.Common.{
  ◌≡◌, ◌↔◌, sym, ap, ◌∙◌, Bool, true, false, ◌++◌, Bytes, codes, arith, inl, inr,
}
use plcsim_connector.Common.Int.{pos}
use plcsim_connector.Address
use plcsim_connector.Address.{BitAddress, address_eq, parse_bit_address, invalid_error}
use plcsim_connector.Address.Rejects.{parse_ends, parse-thrown-IsAbout}
use plcsim_connector.Address.RoundTrip.{
  IsValid, parse-IsValid, parse-to_string, to_string-injective,
}
use plcsim_connector.Error.{kind_to_string}
use plcsim_connector.Error.{Outcome, returned, thrown, undefined}
use plcsim_connector.Std.{c_str}
use plcsim_connector.Types.{Area, area_value}
use plcsim_connector.Bindings.{Raised, ExceptionType, for_kind, raise_as_python}

-- How a bound C++ function ends for its caller in Python.
pub data Answer {ℓ} (A : Type ℓ) : Type ℓ where
  answered : A → Answer A
  raised : Raised → Answer A
  crashed : Answer A

-- The translator: an `Error` that a bound function throws becomes the current Python exception.
unfoldable pub translated {ℓ} : {A : Type ℓ} → Outcome A → Answer A
translated (returned a) = answered a
translated (thrown e) = raised (raise_as_python e)
translated undefined = crashed

-- `_core.parse_bit_address(address)`, for a text in UTF-8.
pub py_parse : Bytes → Answer BitAddress
py_parse address = translated (parse_bit_address address)

-- `str(a)` and `a == b`
pub py_str : BitAddress → Bytes
py_str = Address.to_string

pub py_eq : BitAddress → BitAddress → Bool
py_eq a b = address_eq a b

-- What the caller gets for the text `s`: an address whose `str` parses to the same address, or an
-- InvalidAddressError that quotes the text, up to its first NUL.
pub data ParseEnds (s : Bytes) : Answer BitAddress → Type 0 where
  accepted : {a : BitAddress} → py_parse (py_str a) ≡ answered a → ParseEnds s (answered a)
  refused :
      {r : Raised} (reason : Bytes)
      → r.type ≡ ExceptionType.invalid_address
      → r.kind ≡ codes "InvalidAddress"
      → r.can_retry ≡ false
      → r.code ≡ pos 0
      → r.what ≡ c_str (codes "invalid PLC address \"" ++ (s ++ (codes "\": " ++ reason)))
      → ParseEnds s (raised r)

-- For every text, `parse_bit_address` in Python either gives an address whose `str` it parses to the
-- same address, or raises an InvalidAddressError with code 0, the kind "InvalidAddress" and retryable
-- False, whose message quotes the text up to its first NUL.
pub py_parse-ParseEnds : (s : Bytes) → ParseEnds s (py_parse s)
unfolding py_parse py_str translated raise_as_python for_kind kind_to_string
py_parse-ParseEnds s = elim (parse_ends s) [
  | inl (a, ok) ↦ rw ok (accepted (ap translated (parse-to_string a (parse-IsValid s a ok))))
  | inr (reason, bad) ↦
      let about = parse-thrown-IsAbout s (invalid_error s reason) bad in
      rw bad (
        refused about.reason (ap for_kind about.kind) (ap kind_to_string about.kind)
          about.not_retryable about.no_code (ap c_str about.quotes))
]

answered-injective {ℓ} : {A : Type ℓ} {a b : A} → answered a ≡ answered b → a ≡ b
answered-injective h = cc

pub py_parse-answered :
    (s : Bytes) (a : BitAddress) → parse_bit_address s ≡ returned a → py_parse s ≡ answered a
unfolding py_parse translated
py_parse-answered s a ok = ap translated ok

answered-IsValid : (s : Bytes) (a : BitAddress) → py_parse s ≡ answered a → IsValid a
unfolding py_parse translated
answered-IsValid s a h = elim (parse_ends s) [
  | inl (b, ok) ↦
      let same : b ≡ a = answered-injective (sym (ap translated ok) ∙ h) in
      parse-IsValid s a (ok ∙ ap returned same)
  | inr (reason, bad) ↦ absurd (cc (sym (ap translated bad) ∙ h))
]

area_value-injective : (x y : Area) → area_value x ≡ area_value y → x ≡ y
area_value-injective Area.input y h = ground arith
area_value-injective Area.marker y h = ground arith
area_value-injective Area.output y h = ground arith

py_eq_iff : (a b : BitAddress) → (py_eq a b ≡ true) ↔ (a ≡ b)
unfolding py_eq address_eq
py_eq_iff a b = (λ h. ground (arith, area_value-injective a.area b.area), λ e. ground arith)

-- Two addresses that `parse_bit_address` gives in Python are `==` exactly if `str` is the same for both.
pub py_eq-py_str :
    (s t : Bytes) (a b : BitAddress)
    → py_parse s ≡ answered a
    → py_parse t ≡ answered b
    → (py_eq a b ≡ true) ↔ (py_str a ≡ py_str b)
unfolding py_str
py_eq-py_str s t a b pa pb = (
  λ h. ap py_str ((py_eq_iff a b).0 h),
  λ e.
      (py_eq_iff a b).1
        (to_string-injective a b (answered-IsValid s a pa) (answered-IsValid t b pb) e),
)
