-- ===== src/Address/Trim.antt =====
-- `trim` of src/Address.cpp: it takes the white space off both ends and nothing else.
use mathlib.Core.List.{reverse-append, reverse-reverse}
use mathlib.Core.Path.{subst}
use plcsim_connector.Common.{
  ℕ, ◌≡◌, ◌∙◌, refl, sym, ap, true, false, [], ◌∷◌, ◌++◌, reverse, inl, inr, Bool-cases, Bytes, All,
  All-reverse,
}
use plcsim_connector.Std.{isspace}
use plcsim_connector.Address.{trim_front, trim}

abbrev pub IsSpace : ℕ → Type 0
IsSpace c = isspace c ≡ true

-- The text does not begin with white space.
abbrev pub IsFlush : Bytes → Type 0
IsFlush [] = Unit {0}
IsFlush (c ∷ s) = isspace c ≡ false

trim_front-append :
    (before s : Bytes) → All IsSpace before → IsFlush s → trim_front (before ++ s) ≡ s
unfolding trim_front
trim_front-append [] [] h f = refl
trim_front-append [] (c ∷ s) h f = rw f
trim_front-append (b ∷ before) s h f = rw h.0 (trim_front-append before s h.1 f)

-- What stands in front of the trimmed text.
trim_front_split :
    (s : Bytes)
    → (before : Bytes) × (s ≡ before ++ trim_front s) × All IsSpace before × IsFlush (trim_front s)
unfolding trim_front
trim_front_split [] = ([], refl, tt, tt)
trim_front_split (c ∷ s) = elim (Bool-cases (isspace c)) [
  | inl space ↦
      let (before, e, spaces, flush) = trim_front_split s in
      rw space (c ∷ before, ap (λ t. c ∷ t) e, (space, spaces), flush)
  | inr solid ↦ rw solid ([], refl, tt, solid)
]

-- A text with no white space at its ends comes back from between any white space.
pub trim-append :
    (before s after : Bytes)
    → All IsSpace before
    → All IsSpace after
    → IsFlush (s ++ after)
    → IsFlush (reverse s)
    → trim (before ++ (s ++ after)) ≡ s
unfolding trim
trim-append before s after hb ha front back = rw (
  trim_front-append before (s ++ after) hb front,
  reverse-append s after,
  trim_front-append (reverse after) (reverse s) (All-reverse IsSpace after ha) back,
  reverse-reverse s,
)

-- What `trim` takes off is white space, and no white space is left at the ends.
pub record Trimmed (s t : Bytes) : Type 0 where
  pub before : Bytes
  pub after : Bytes
  pub split : s ≡ before ++ (t ++ after)
  pub before_spaces : All IsSpace before
  pub after_spaces : All IsSpace after
  pub front : IsFlush (t ++ after)
  pub back : IsFlush (reverse t)

-- `trim` takes white space off both ends and nothing else, and what it leaves neither begins nor
-- ends with white space.
pub trim-Trimmed : (s : Bytes) → Trimmed s (trim s)
unfolding trim
trim-Trimmed s =
    let (before, e, spaces, flush) = trim_front_split s in
    let (tail, e', spaces', flush') = trim_front_split (reverse (trim_front s)) in
    let t = reverse (trim_front (reverse (trim_front s))) in
    let back : trim_front s ≡ t ++ reverse tail =
      sym (reverse-reverse _) ∙ (ap reverse e' ∙ reverse-append tail _) in
    record {
      before = before;
      after = reverse tail;
      split = e ∙ ap (λ x. before ++ x) back;
      before_spaces = spaces;
      after_spaces = All-reverse IsSpace tail spaces';
      front = subst IsFlush back flush;
      back = subst IsFlush (sym (reverse-reverse _)) flush';
    }
