-- ===== src/Address/Numbers.antt =====
-- `read_number` of src/Address.cpp against the numbers that digits spell.
use plcsim_connector.Common.{
  ℕ, ◌+◌, ◌-◌, ◌*◌, ◌/◌, ◌%◌, ◌^◌, ◌≤◌, ◌<◌, ◌≡◌, ◌≢◌, ◌↔◌, ◌∙◌, ◌⊎◌, refl, sym, ap, true, false,
  [], ◌∷◌, ◌++◌, arith, ltb, inl, inr, Bool-cases, is_empty, Bytes, All,
}
use mathlib.Core.Path.{subst}
use native.Mathlib.Decide.{dec_le}
use plcsim_connector.Std.Decimal.{IsDigit, value_from, value, le-value_from}
use plcsim_connector.Address.{max_u32, NumberRead, is_digit, read_digits, read_number}

-- The text does not go on with a digit.
abbrev pub Stops : Bytes → Type 0
Stops [] = Unit {0}
Stops (c ∷ s) = is_digit c ≡ false

-- The text `s` begins with the digits of the number `n`, which fits into 32 bits, and goes on with
-- `t`, which does not begin with a digit.
pub record Reads (s : Bytes) (n : ℕ) (t : Bytes) : Type 0 where
  pub digits : Bytes
  pub split : s ≡ digits ++ t
  pub some_digit : digits ≢ []
  pub all_digits : All IsDigit digits
  pub stops : Stops t
  pub exact : n ≡ value digits
  pub fits : n ≤ max_u32

pub is_digit_iff : (c : ℕ) → (is_digit c ≡ true) ↔ IsDigit c
unfolding is_digit
is_digit_iff c = ground arith

-- One round of the loop: it stops in front of what is no digit, it gives up where the next value
-- does not fit into 32 bits, and otherwise takes the digit without wrapping around.
pub read_digits_stop :
    (out v c : ℕ) (s : Bytes)
    → is_digit c ≡ false
    → read_digits out v (c ∷ s) ≡ record { found = true; rest = c ∷ s; out = v }
unfolding read_digits
read_digits_stop out v c s h = rw h

pub read_digits_overflow :
    (out v c : ℕ) (s : Bytes)
    → IsDigit c
    → max_u32 < v * 10 + (c - b'0')
    → read_digits out v (c ∷ s) ≡ record { found = false; rest = c ∷ s; out = out }
unfolding read_digits
read_digits_overflow out v c s h large = rw ((is_digit_iff c).1 h) (ground arith)

pub read_digits_more :
    (out v c : ℕ) (s : Bytes)
    → IsDigit c
    → v * 10 + (c - b'0') ≤ max_u32
    → read_digits out v (c ∷ s) ≡ read_digits out (v * 10 + (c - b'0')) s
unfolding read_digits
read_digits_more out v c s h small =
    let passes : ltb ((max_u32 - (c - b'0')) / 10) v ≡ false = ground arith in
    let exact : (v * 10 + (c - b'0')) % 2 ^ 32 ≡ v * 10 + (c - b'0') = omega arith in
    rw ((is_digit_iff c).1 h, passes, exact)

read_digits_complete :
    (out v : ℕ) (ds t : Bytes)
    → All IsDigit ds
    → Stops t
    → value_from v ds ≤ max_u32
    → read_digits out v (ds ++ t) ≡ record { found = true; rest = t; out = value_from v ds }
read_digits_complete out v [] [] h st fits = unfold read_digits in refl
read_digits_complete out v [] (c ∷ t) h st fits = read_digits_stop out v c t st
read_digits_complete out v (c ∷ ds) t h st fits =
    let w = v * 10 + (c - b'0') in
    read_digits_more out v c (ds ++ t) h.0 (omega (arith, le-value_from w ds))
    ∙ read_digits_complete out w ds t h.1 st fits

-- Digits of a number that is too large make the loop fail, in front of a digit.
read_digits_too_large :
    (out v : ℕ) (ds t : Bytes)
    → All IsDigit ds
    → v ≤ max_u32
    → max_u32 < value_from v ds
    → ((read_digits out v (ds ++ t)).found ≡ false)
      × (is_empty (read_digits out v (ds ++ t)).rest ≡ false)
read_digits_too_large out v [] t h small large = absurd (omega arith)
read_digits_too_large out v (c ∷ ds) t h small large =
    let w = v * 10 + (c - b'0') in
    elim (dec_le w max_u32) [
      | yes fits ↦
          rw (read_digits_more out v c (ds ++ t) h.0 fits)
            (read_digits_too_large out w ds t h.1 fits large)
      | no over ↦ rw (read_digits_overflow out v c (ds ++ t) h.0 (omega arith)) (refl, refl)
    ]

-- What a successful run of the loop has read.
record Scanned (v : ℕ) (s : Bytes) (r : NumberRead) : Type 0 where
  digits : Bytes
  split : s ≡ digits ++ r.rest
  all_digits : All IsDigit digits
  stops : Stops r.rest
  exact : r.out ≡ value_from v digits
  fits : r.out ≤ max_u32

read_digits_sound :
    (out v : ℕ) (s : Bytes)
    → v ≤ max_u32
    → (read_digits out v s).found ≡ true
    → Scanned v s (read_digits out v s)
read_digits_sound out v [] small h =
    unfold read_digits in
    record { digits = []; split = refl; all_digits = tt; stops = tt; exact = refl; fits = small }
read_digits_sound out v (c ∷ s) small h = elim (Bool-cases (is_digit c)) [
  | inr stop ↦ rw (read_digits_stop out v c s stop) (record {
    digits = [];
    split = refl;
    all_digits = tt;
    stops = stop;
    exact = refl;
    fits = small;
  })
  | inl digit ↦
      let d = (is_digit_iff c).0 digit in
      elim (dec_le (v * 10 + (c - b'0')) max_u32) [
        | no over ↦ cc (rw (read_digits_overflow out v c s d (omega arith)) at h)
        | yes fits ↦
            let e = read_digits_more out v c s d fits in
            let r = read_digits_sound out (v * 10 + (c - b'0')) s fits (rw e at h) in
            rw e (record {
              digits = c ∷ r.digits;
              split = ap (λ t. c ∷ t) r.split;
              all_digits = (d, r.all_digits);
              stops = r.stops;
              exact = r.exact;
              fits = r.fits;
            })
      ]
]

pub read_number_step :
    (out c : ℕ) (s : Bytes) → IsDigit c → read_number (c ∷ s) out ≡ read_digits out 0 (c ∷ s)
unfolding read_number
read_number_step out c s h = rw ((is_digit_iff c).1 h)

pub read_number_refuses :
    (out c : ℕ) (s : Bytes)
    → is_digit c ≡ false
    → read_number (c ∷ s) out ≡ record { found = false; rest = c ∷ s; out = out }
unfolding read_number
read_number_refuses out c s h = rw h

pub read_number_complete :
    (s : Bytes) (out n : ℕ) (t : Bytes)
    → Reads s n t
    → read_number s out ≡ record { found = true; rest = t; out = n }
read_number_complete s out n t r =
    rw (r.split, r.exact) (complete r.digits r.some_digit r.all_digits (rw r.exact at r.fits))
  where
    complete :
        (ds : Bytes)
        → ds ≢ []
        → All IsDigit ds
        → value ds ≤ max_u32
        → read_number (ds ++ t) out ≡ record { found = true; rest = t; out = value ds }
    complete [] h all fits = absurd (h refl)
    complete (c ∷ ds) h all fits =
        read_number_step out c (ds ++ t) all.0
        ∙ read_digits_complete out 0 (c ∷ ds) t all r.stops fits

-- Digits of a number that does not fit into 32 bits are refused, in front of a digit.
pub read_number_too_large :
    (ds t : Bytes) (out : ℕ)
    → All IsDigit ds
    → max_u32 < value ds
    → ((read_number (ds ++ t) out).found ≡ false)
      × (is_empty (read_number (ds ++ t) out).rest ≡ false)
read_number_too_large [] t out h large = absurd (omega arith)
read_number_too_large (c ∷ ds) t out h large =
    rw (read_number_step out c (ds ++ t) h.0)
      (read_digits_too_large out 0 (c ∷ ds) t h (omega arith) large)

pub read_number_sound :
    (s : Bytes) (out n : ℕ) (t : Bytes)
    → read_number s out ≡ record { found = true; rest = t; out = n }
    → Reads s n t
read_number_sound [] out n t h = unfold read_number in cc h
read_number_sound (c ∷ s) out n t h = elim (Bool-cases (is_digit c)) [
  | inr stop ↦ cc (rw (read_number_refuses out c s stop) at h)
  | inl digit ↦
      let e = sym (read_number_step out c s ((is_digit_iff c).0 digit)) ∙ h in
      let r = read_digits_sound out 0 (c ∷ s) (omega arith) (ap (λ (x : NumberRead). x.found) e) in
      let rest = ap (λ (x : NumberRead). x.rest) e in
      let num = ap (λ (x : NumberRead). x.out) e in
      record {
        digits = r.digits;
        split = r.split ∙ ap (λ x. r.digits ++ x) rest;
        some_digit = λ nil. cc (digit, subst Stops (sym (rw nil at r.split)) r.stops);
        all_digits = r.all_digits;
        stops = subst Stops rest r.stops;
        exact = sym num ∙ r.exact;
        fits = omega arith;
      }
]

-- Either there is no number to read, or there is one and it is returned.
pub read_number_cases :
    (s : Bytes) (out : ℕ)
    → ((read_number s out).found ≡ false)
      ⊎ ((n : ℕ) × (t : Bytes) × (read_number s out ≡ record { found = true; rest = t; out = n })
          × Reads s n t)
read_number_cases s out = elim (Bool-cases (read_number s out).found) [
  | inr missing ↦ inl missing
  | inl found ↦
      let r = read_number s out in
      let e : read_number s out ≡ record { found = true; rest = r.rest; out = r.out } =
        λ i. record { found = found i; rest = r.rest; out = r.out } in
      inr (r.out, r.rest, e, read_number_sound s out r.out r.rest e)
]

-- `read_number` succeeds exactly on a text that begins with a 32-bit number, and then returns that
-- number and the rest of the text.
pub read_number_iff :
    (s : Bytes) (out n : ℕ) (t : Bytes)
    → (read_number s out ≡ record { found = true; rest = t; out = n }) ↔ Reads s n t
read_number_iff s out n t = (read_number_sound s out n t, read_number_complete s out n t)
