-- ===== src/Address/Visible.antt =====
-- What the first tests of `parse_bit_address` in src/Address.cpp see of a text that has the syntax.
use mathlib.Core.List.{reverse-append, reverse-reverse}
use mathlib.Core.Path.{subst}
use plcsim_connector.Common.{
  All-reverse, append-nil, ◌≢◌, ℕ, ◌≡◌, ◌∙◌, ◌⊎◌, refl, sym, ap, false, [], ◌∷◌, ◌++◌, reverse,
  arith, inl, inr, is_empty, Bytes, codes, All,
}
use plcsim_connector.Std.{toupper, isspace}
use plcsim_connector.Std.Decimal.{IsDigit}
use plcsim_connector.Types.{Area}
use plcsim_connector.Address.{BitAddress, is_data_block, skip_percent}
use plcsim_connector.Address.Trim.{IsFlush}
use plcsim_connector.Address.Grammar.{IsMnemonic, Sized, Offsets, Located, Marked}

pub not_data_block : (c : ℕ) (s : Bytes) → toupper c ≢ b'D' → is_data_block (c ∷ s) ≡ false
unfolding is_data_block
not_data_block c [] h = refl
not_data_block c (b ∷ s) h = ground arith

pub mnemonic-letter :
    (c : ℕ) (area : Area)
    → IsMnemonic c area
    → (toupper c ≢ b'D') × (c ≢ b'%') × (isspace c ≡ false)
unfolding toupper isspace
mnemonic-letter c Area.input h = ground arith
mnemonic-letter c Area.marker h = ground arith
mnemonic-letter c Area.output h = ground arith

pub skip_percent_letter : (c : ℕ) (s : Bytes) → c ≢ b'%' → skip_percent (c ∷ s) ≡ c ∷ s
unfolding skip_percent
skip_percent_letter c s h = ground arith

-- What the parser sees of a text between the white space.
pub record Visible (t rest : Bytes) : Type 0 where
  pub some_text : is_empty t ≡ false
  pub front : (after : Bytes) → IsFlush (t ++ after)
  pub no_block : is_data_block t ≡ false
  pub skips : skip_percent t ≡ rest

pub Marked-Visible : (t : Bytes) (a : BitAddress) (m : Marked t a) → Visible t m.rest
unfolding skip_percent
Marked-Visible t a m = go m.is_percent
  where
    l : Located m.rest a
    l = m.located

    c : (toupper l.letter ≢ b'D') × (l.letter ≢ b'%') × (isspace l.letter ≡ false)
    c = mnemonic-letter l.letter a.area l.mnemonic

    go : (m.percent ≡ []) ⊎ (m.percent ≡ codes "%") → Visible t m.rest
    go (inl nil) =
        rw (m.split, nil, l.split)
          (record {
            some_text = refl;
            front = λ after. c.2;
            no_block = not_data_block l.letter l.rest c.0;
            skips = ground arith;
          })
    go (inr sign) =
        rw (m.split, sign)
          (record {
            some_text = refl;
            front = λ after. unfold isspace in refl;
            no_block = not_data_block b'%' m.rest (unfold toupper in omega arith);
            skips = refl;
          })

-- The text is not empty and does not end in white space.
abbrev pub Solid : Bytes → Type 0
Solid t = (t ≢ []) × IsFlush (reverse t)

IsFlush-append : (u v : Bytes) → u ≢ [] → IsFlush u → IsFlush (u ++ v)
IsFlush-append [] v h f = absurd (h refl)
IsFlush-append (c ∷ u) v h f = f

Solid-append : (s t : Bytes) → Solid t → Solid (s ++ t)
Solid-append s t (h, f) = (
  nonempty s,
  subst IsFlush (sym (reverse-append s t)) (IsFlush-append (reverse t) (reverse s) back f),
)
  where
    back : reverse t ≢ []
    back nil = h (sym (reverse-reverse t) ∙ ap reverse nil)

    nonempty : (u : Bytes) → u ++ t ≢ []
    nonempty [] nil = h nil
    nonempty (c ∷ u) nil = cc

digits-Solid : (ds : Bytes) → ds ≢ [] → All IsDigit ds → Solid ds
unfolding isspace
digits-Solid ds h all = (h, flush (reverse ds) (All-reverse IsDigit ds all))
  where
    flush : (u : Bytes) → All IsDigit u → IsFlush u
    flush [] d = tt
    flush (c ∷ u) d = ground arith

pub Marked-Solid : (t : Bytes) (a : BitAddress) → Marked t a → Solid t
Marked-Solid t a m =
    rw (m.split, m.located.split, z.split, o.offset.split)
      (Solid-append m.percent _ (
        Solid-append (m.located.letter ∷ z.size_prefix) _
          (Solid-append o.offset.digits _ (Solid-append (b'.' ∷ []) o.behind index))))
  where
    z : Sized m.located.rest a.byte a.bit
    z = m.located.sized

    o : Offsets z.rest a.byte a.bit
    o = z.offsets

    index : Solid o.behind
    index =
        rw (o.index.number.split, append-nil)
          (digits-Solid o.index.number.digits o.index.number.some_digit o.index.number.all_digits)
