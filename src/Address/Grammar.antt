-- ===== src/Address/Grammar.antt =====
-- The syntax of bit addresses that include/plcsim/Address.hpp promises, written down without the
-- parser: one record for each level of the syntax, outermost last.
use plcsim_connector.Common.{ℕ, ◌≤◌, ◌≡◌, ◌⊎◌, [], ◌∷◌, ◌++◌, Bytes, codes, All}
use plcsim_connector.Types.{Area}
use plcsim_connector.Address.{BitAddress}
use plcsim_connector.Address.Numbers.{Reads}
use plcsim_connector.Address.Trim.{IsSpace}

-- A bit index: a number up to 7 and nothing behind it.
pub record BitIndex (s : Bytes) (bit : ℕ) : Type 0 where
  pub number : Reads s bit []
  pub small : bit ≤ 7

-- A byte offset, a dot and a bit index.
pub record Offsets (s : Bytes) (byte bit : ℕ) : Type 0 where
  pub behind : Bytes
  pub offset : Reads s byte (b'.' ∷ behind)
  pub index : BitIndex behind bit

abbrev pub IsSizePrefix : Bytes → Type 0
IsSizePrefix x = (x ≡ []) ⊎ (x ≡ codes "X") ⊎ (x ≡ codes "x")

-- The offsets, perhaps behind the size prefix of a bit.
pub record Sized (s : Bytes) (byte bit : ℕ) : Type 0 where
  pub size_prefix : Bytes
  pub rest : Bytes
  pub split : s ≡ size_prefix ++ rest
  pub is_prefix : IsSizePrefix size_prefix
  pub offsets : Offsets rest byte bit

-- The English and the German mnemonics, in both cases.
abbrev pub IsMnemonic : ℕ → Area → Type 0
IsMnemonic c Area.input = (c ≡ b'I') ⊎ (c ≡ b'i') ⊎ (c ≡ b'E') ⊎ (c ≡ b'e')
IsMnemonic c Area.marker = (c ≡ b'M') ⊎ (c ≡ b'm')
IsMnemonic c Area.output = (c ≡ b'Q') ⊎ (c ≡ b'q') ⊎ (c ≡ b'A') ⊎ (c ≡ b'a')

-- An area mnemonic and what belongs behind it.
pub record Located (s : Bytes) (a : BitAddress) : Type 0 where
  pub letter : ℕ
  pub rest : Bytes
  pub split : s ≡ letter ∷ rest
  pub mnemonic : IsMnemonic letter a.area
  pub sized : Sized rest a.byte a.bit

-- The same, perhaps behind a percent sign.
pub record Marked (s : Bytes) (a : BitAddress) : Type 0 where
  pub percent : Bytes
  pub rest : Bytes
  pub split : s ≡ percent ++ rest
  pub is_percent : (percent ≡ []) ⊎ (percent ≡ codes "%")
  pub located : Located rest a

-- The text `s` spells the address `a`: white space, an address, white space.
pub record Spells (s : Bytes) (a : BitAddress) : Type 0 where
  pub before : Bytes
  pub text : Bytes
  pub after : Bytes
  pub split : s ≡ before ++ (text ++ after)
  pub before_spaces : All IsSpace before
  pub after_spaces : All IsSpace after
  pub marked : Marked text a
