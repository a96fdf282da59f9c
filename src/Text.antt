-- ===== src/Text.antt =====
-- src/SdkBridge.cpp: the conversions between UTF-8 and UTF-16.
pub mod Converted
use plcsim_connector.Common.{
  ℕ, zero, suc, ◌+◌, ◌-◌, Bool, true, Option, none, some, [], ◌∷◌, List, if◌then◌else◌, ◌==◌, leb,
  is_empty, Bytes,
}
use plcsim_connector.Common.Int.{ℤ, pos, negsuc}
use plcsim_connector.Sdk.{Sdk, Wide}

abbrev pub replicate : ℕ → ℕ → List ℕ
replicate zero a = []
replicate (suc n) a = a ∷ replicate n a

-- What a buffer holds after a call that writes from its start. A terminating zero may go one place
-- past the end of a std::string, where one stands already.
pub overwrite : List ℕ → List ℕ → List ℕ
overwrite [] written = []
overwrite (b ∷ buffer) [] = b ∷ buffer
overwrite (b ∷ buffer) (c ∷ written) = c ∷ overwrite buffer written

-- The size that a conversion asks for, as a std::size_t where it is not negative.
abbrev size_of : ℤ → ℕ
size_of (pos n) = n
size_of (negsuc n) = 0

abbrev starts_with_zero : Wide → Bool
starts_with_zero [] = true
starts_with_zero (c ∷ w) = c == 0

module _ {S : Type 0} (sdk : Sdk S) where
  -- to_utf8 of a pointer that is not null.
  convert_wide : Wide → Bytes
  convert_wide wide =
      let needed = size_of (sdk.wide_char_to_multi_byte wide 0).0 in
      if leb needed 1
      then []
      else overwrite (replicate (needed - 1) 0) (sdk.wide_char_to_multi_byte wide needed).1

  unfoldable pub to_utf8 : Option Wide → Bytes
  unfolding convert_wide overwrite
  to_utf8 none = []
  to_utf8 (some wide) = if starts_with_zero wide then [] else convert_wide wide

  unfoldable pub to_wide : Bytes → Wide
  unfolding overwrite
  to_wide utf8 =
      let needed = size_of (sdk.multi_byte_to_wide_char utf8 0).0 in
      if is_empty utf8
      then 0 ∷ []
      else if leb needed 0
      then 0 ∷ []
      else overwrite (replicate (needed + 1) 0) (sdk.multi_byte_to_wide_char utf8 needed).1
