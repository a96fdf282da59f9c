-- ===== src/RuntimeManager/Version.antt =====
-- `RuntimeManager::version` of src/SdkBridge.cpp.
use plcsim_connector.Common.{ℕ, ◌/◌, ◌%◌, ◌≡◌, refl, sym, ap, ◌∙◌, [], ◌∷◌, ◌++◌, Bytes, All, arith}
use plcsim_connector.Std.Decimal
use plcsim_connector.Std.Decimal.{IsDigit, value, value-to_string, to_string-IsDigit}
use plcsim_connector.RuntimeManager.{version_text}

-- Digits end at the first point.
split-digits :
    (s t u v : Bytes)
    → All IsDigit s
    → All IsDigit t
    → s ++ b'.' ∷ u ≡ t ++ b'.' ∷ v
    → (s ≡ t) × (u ≡ v)
split-digits [] [] u v hs ht e = (refl, cc e)
split-digits [] (d ∷ t) u v hs ht e = absurd (ground (arith, ht.0, e))
split-digits (c ∷ s) [] u v hs ht e = absurd (ground (arith, hs.0, e))
split-digits (c ∷ s) (d ∷ t) u v hs ht e =
    let (front, back) = split-digits s t u v hs.1 ht.1 (cc e) in
    let same : c ≡ d = cc e in (cc (front, same), back)

same_number : (m n : ℕ) → Decimal.to_string m ≡ Decimal.to_string n → m ≡ n
same_number m n e = sym (value-to_string m) ∙ (ap value e ∙ value-to_string n)

-- Two packed versions with the same text are the same version.
pub version_text-injective : (p q : ℕ) → version_text p ≡ version_text q → p ≡ q
unfolding version_text
version_text-injective p q e =
    let (major, minor) =
      split-digits (Decimal.to_string (p / 65536)) (Decimal.to_string (q / 65536)) _ _
        (to_string-IsDigit (p / 65536)) (to_string-IsDigit (q / 65536)) e in
    let high = same_number (p / 65536) (q / 65536) major in
    let low = same_number (p % 65536) (q % 65536) minor in omega arith
