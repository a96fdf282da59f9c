-- ===== src/Address/Accepts.antt =====
-- `parse_bit_address` of src/Address.cpp accepts exactly the texts of the syntax.
use mathlib.Core.Path.{subst}
use plcsim_connector.Common.{
  false, ℕ, ◌≡◌, ◌↔◌, refl, some, [], ◌∷◌, arith, inl, inr, Bool-cases, Option-cases, ◌==◌,
  is_empty, Bytes,
}
use plcsim_connector.Error.{returned}
use plcsim_connector.Std.{toupper}
use plcsim_connector.Types.{Area}
use plcsim_connector.Address.{
  BitAddress, trim, area_of, is_data_block, skip_percent, parse_area, parse_bit_address,
}
use plcsim_connector.Address.Visible.{Visible, Marked-Visible, Marked-Solid}
use plcsim_connector.Address.Trim.{trim-append, trim-Trimmed}
use plcsim_connector.Address.Grammar.{IsMnemonic, Located, Marked, Spells}
use plcsim_connector.Address.Stages.{parse_size_prefix_complete, parse_size_prefix_sound}

pub area_of-mnemonic : (c : ℕ) (area : Area) → IsMnemonic c area → area_of (toupper c) ≡ some area
unfolding area_of toupper
area_of-mnemonic c Area.input h = ground arith
area_of-mnemonic c Area.marker h = ground arith
area_of-mnemonic c Area.output h = ground arith

IsMnemonic-area_of : (c : ℕ) (area : Area) → area_of (toupper c) ≡ some area → IsMnemonic c area
unfolding area_of toupper
IsMnemonic-area_of c Area.input h = ground arith
IsMnemonic-area_of c Area.marker h = ground arith
IsMnemonic-area_of c Area.output h = ground arith

module _ (input : Bytes) where
  pub parse_area_complete :
      (s : Bytes) (a : BitAddress) → Located s a → parse_area input s ≡ returned a
  unfolding parse_area
  parse_area_complete s a l =
      rw (l.split, area_of-mnemonic l.letter a.area l.mnemonic, parse_area)
        (parse_size_prefix_complete input a.area a.byte a.bit l.rest l.sized)

  pub parse_area_sound :
      (s : Bytes) (a : BitAddress) → parse_area input s ≡ returned a → Located s a
  unfolding parse_area
  parse_area_sound [] a h = absurd (cc)
  parse_area_sound (c ∷ s) a h = elim (Option-cases (area_of (toupper c))) [
    | inl unknown ↦ cc (rw (unknown, parse_area) at h)
    | inr (area, known) ↦
        let (byte, bit, same, z) =
          parse_size_prefix_sound input area s a (rw (known, parse_area) at h) in
        subst (Located (c ∷ s)) same (record {
          letter = c;
          rest = s;
          split = refl;
          mnemonic = IsMnemonic-area_of c area known;
          sized = z;
        })
  ]

-- What the parser has found in a text that it accepts.
pub record Accepted (s : Bytes) (a : BitAddress) : Type 0 where
  pub some_text : is_empty (trim s) ≡ false
  pub no_block : is_data_block (trim s) ≡ false
  pub located : Located (skip_percent (trim s)) a

pub Accepted-complete :
    (s : Bytes) (a : BitAddress) → Accepted s a → parse_bit_address s ≡ returned a
unfolding parse_bit_address
Accepted-complete s a p =
    rw (p.some_text, p.no_block) (parse_area_complete s (skip_percent (trim s)) a p.located)

pub Accepted-sound : (s : Bytes) (a : BitAddress) → parse_bit_address s ≡ returned a → Accepted s a
unfolding parse_bit_address
Accepted-sound s a h = elim (Bool-cases (is_empty (trim s))) [
  | inl nil ↦ absurd (cc (rw nil at h))
  | inr text ↦ elim (Bool-cases (is_data_block (trim s))) [
    | inl block ↦ absurd (cc (rw (text, block) at h))
    | inr plain ↦ record {
      some_text = text;
      no_block = plain;
      located = parse_area_sound s (skip_percent (trim s)) a (rw (text, plain) at h);
    }
  ]
]

trim-Spells : (s : Bytes) (a : BitAddress) (p : Spells s a) → trim s ≡ p.text
trim-Spells s a p = rw p.split (
    trim-append p.before p.text p.after p.before_spaces p.after_spaces
      ((Marked-Visible p.text a p.marked).front p.after) (Marked-Solid p.text a p.marked).1)

pub parse_complete : (s : Bytes) (a : BitAddress) → Spells s a → parse_bit_address s ≡ returned a
parse_complete s a p = Accepted-complete s a (record {
  some_text = rw same_text v.some_text;
  no_block = rw same_text v.no_block;
  located = rw (same_text, v.skips) p.marked.located;
})
  where
    v : Visible p.text p.marked.rest
    v = Marked-Visible p.text a p.marked

    same_text : trim s ≡ p.text
    same_text = trim-Spells s a p

Marked-skip_percent : (t : Bytes) (a : BitAddress) → Located (skip_percent t) a → Marked t a
unfolding skip_percent
Marked-skip_percent [] a l = record {
  percent = [];
  rest = [];
  split = refl;
  is_percent = inl refl;
  located = l;
}
Marked-skip_percent (c ∷ t) a l = elim (Bool-cases (c == b'%')) [
  | inl sign ↦ record {
    percent = c ∷ [];
    rest = t;
    split = refl;
    is_percent = inr (ground arith);
    located = rw sign at l;
  }
  | inr letter ↦ record {
    percent = [];
    rest = c ∷ t;
    split = refl;
    is_percent = inl refl;
    located = rw letter at l;
  }
]

pub parse_sound : (s : Bytes) (a : BitAddress) → parse_bit_address s ≡ returned a → Spells s a
parse_sound s a h =
    let t = trim-Trimmed s in
    record {
      before = t.before;
      text = trim s;
      after = t.after;
      split = t.split;
      before_spaces = t.before_spaces;
      after_spaces = t.after_spaces;
      marked = Marked-skip_percent (trim s) a (Accepted-sound s a h).located;
    }

-- `parse_bit_address` returns an address for exactly the texts that spell it in the syntax of
-- include/plcsim/Address.hpp: white space, an optional percent sign, an English or German area
-- letter in either case, an optional size prefix X, a byte offset below 2^32, a dot, a bit index up
-- to 7, and white space. On every other text it returns no address.
pub parse-iff-Spells :
    (s : Bytes) (a : BitAddress) → (parse_bit_address s ≡ returned a) ↔ Spells s a
parse-iff-Spells s a = (parse_sound s a, parse_complete s a)
