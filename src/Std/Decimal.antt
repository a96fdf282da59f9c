-- ===== src/Std/Decimal.antt =====
-- std::to_string of the unsigned and the signed integers.
use plcsim_connector.Common.{
  ℕ, zero, suc, ◌+◌, ◌-◌, ◌*◌, ◌/◌, ◌%◌, ◌≤◌, ◌<◌, ◌≡◌, ◌≢◌, refl, [], ◌∷◌, ◌++◌, arith, ltb, inl,
  inr, Bool-cases, if◌then◌else◌, Bytes, All, All-append,
}
use mathlib.Core.List.{concat-ne-nil}
use plcsim_connector.Common.Int.{ℤ, pos, negsuc}

-- The decimal digits of a number below the fuel.
spell : ℕ → ℕ → Bytes
spell zero n = []
spell (suc f) n =
    let front = spell f (n / 10) in
    if ltb n 10 then (b'0' + n) ∷ [] else front ++ (b'0' + n % 10) ∷ []

-- Every round takes a digit off, so `n + 1` rounds are enough.
unfoldable pub to_string : ℕ → Bytes
unfolding spell
to_string n = spell (suc n) n

unfoldable pub int_to_string : ℤ → Bytes
unfolding to_string
int_to_string (pos n) = to_string n
int_to_string (negsuc n) = b'-' ∷ to_string (suc n)

abbrev pub IsDigit : ℕ → Type 0
IsDigit c = (b'0' ≤ c) × (c ≤ b'9')

-- The number that digits spell behind the number `v`, with no bound.
abbrev pub value_from : ℕ → Bytes → ℕ
value_from v [] = v
value_from v (c ∷ s) = value_from (v * 10 + (c - b'0')) s

abbrev pub value : Bytes → ℕ
value = value_from 0

pub value_from-append :
    (v : ℕ) (s t : Bytes) → value_from v (s ++ t) ≡ value_from (value_from v s) t
value_from-append v [] t = refl
value_from-append v (c ∷ s) t = value_from-append (v * 10 + (c - b'0')) s t

pub le-value_from : (v : ℕ) (s : Bytes) → v ≤ value_from v s
le-value_from v [] = omega arith
le-value_from v (c ∷ s) = omega (arith, le-value_from (v * 10 + (c - b'0')) s)

spell-value : (f n : ℕ) → n < f → value (spell f n) ≡ n
unfolding spell
spell-value zero n h = elim h [ ]
spell-value (suc f) n h = elim (Bool-cases (ltb n 10)) [
  | inl small ↦ rw small (omega arith)
  | inr large ↦ rw large (
      rw (value_from-append 0 (spell f (n / 10)) ((b'0' + n % 10) ∷ []))
        (rw (spell-value f (n / 10) (ground arith)) (omega arith)))
]

spell-IsDigit : (f n : ℕ) → All IsDigit (spell f n)
unfolding spell
spell-IsDigit zero n = tt
spell-IsDigit (suc f) n = elim (Bool-cases (ltb n 10)) [
  | inl small ↦ rw small (ground arith)
  | inr large ↦
      rw large (All-append IsDigit (spell f (n / 10)) _ (spell-IsDigit f (n / 10)) (omega arith))
]

spell-ne-nil : (f n : ℕ) → spell (suc f) n ≢ []
unfolding spell
spell-ne-nil f n h = elim (Bool-cases (ltb n 10)) [
  | inl small ↦ cc (rw small at h)
  | inr large ↦ concat-ne-nil (b'0' + n % 10) (spell f (n / 10)) (rw large at h)
]

pub value-to_string : (n : ℕ) → value (to_string n) ≡ n
unfolding to_string
value-to_string n = spell-value (suc n) n (omega arith)

pub to_string-IsDigit : (n : ℕ) → All IsDigit (to_string n)
unfolding to_string
to_string-IsDigit n = spell-IsDigit (suc n) n

pub to_string-ne-nil : (n : ℕ) → to_string n ≢ []
unfolding to_string
to_string-ne-nil n = spell-ne-nil n n
