-- ===== src/Text/Converted.antt =====
-- The two-step conversions of src/SdkBridge.cpp: the size is asked for, then a buffer of that size is
-- filled.
use plcsim_connector.Common.{
  ℕ, suc, ◌+◌, ◌-◌, ◌≡◌, refl, ap, false, some, List, [], ◌∷◌, ◌++◌, arith, length, is_empty, leb,
  Bytes,
}
use plcsim_connector.Common.Int.{pos}
use plcsim_connector.Sdk.{Sdk, Wide}
use plcsim_connector.Text.{replicate, overwrite, starts_with_zero, convert_wide, to_utf8, to_wide}

overwrite-all : (t rest : List ℕ) → overwrite (replicate (length t) 0) (t ++ rest) ≡ t
unfolding overwrite
overwrite-all [] rest = refl
overwrite-all (c ∷ t) rest = ap (λ s. c ∷ s) (overwrite-all t rest)

overwrite-most : (w : List ℕ) → overwrite (replicate (suc (length w)) 0) w ≡ w ++ 0 ∷ []
unfolding overwrite
overwrite-most [] = refl
overwrite-most (c ∷ w) = ap (λ s. c ∷ s) (overwrite-most w)

-- WideCharToMultiByte converts `wide` into `text`: its sizes count the terminating zero, which it writes.
pub record Narrows {S : Type 0} (sdk : Sdk S) (wide : Wide) (text : Bytes) : Type 0 where
  pub size : (sdk.wide_char_to_multi_byte wide 0).0 ≡ pos (suc (length text))
  pub written : (sdk.wide_char_to_multi_byte wide (suc (length text))).1 ≡ text ++ 0 ∷ []

-- MultiByteToWideChar converts `text` into `wide`: its sizes count no terminating zero.
pub record Widens {S : Type 0} (sdk : Sdk S) (text : Bytes) (wide : Wide) : Type 0 where
  pub size : (sdk.multi_byte_to_wide_char text 0).0 ≡ pos (length wide)
  pub written : (sdk.multi_byte_to_wide_char text (length wide)).1 ≡ wide

module _ {S : Type 0} (sdk : Sdk S) where
  -- `to_utf8` of a text that is not empty is exactly what WideCharToMultiByte converts it into, without
  -- the terminating zero.
  pub to_utf8-Narrows :
      (wide : Wide) (text : Bytes)
      → starts_with_zero wide ≡ false
      → Narrows sdk wide text
      → to_utf8 sdk (some wide) ≡ text
  unfolding to_utf8 convert_wide
  to_utf8-Narrows wide [] filled n = rw (filled, n.size) refl
  to_utf8-Narrows wide (c ∷ t) filled n =
      let large : leb (suc (suc (length t))) 1 ≡ false = ground arith in
      let room : suc (suc (length t)) - 1 ≡ suc (length t) = omega arith in
      rw (filled, n.size, large, room, n.written) (overwrite-all (c ∷ t) (0 ∷ []))

  -- `to_wide` of a text that is not empty is exactly what MultiByteToWideChar converts it into, followed
  -- by one terminating zero, also where that is nothing.
  pub to_wide-Widens :
      (text : Bytes) (wide : Wide)
      → is_empty text ≡ false
      → Widens sdk text wide
      → to_wide sdk text ≡ wide ++ 0 ∷ []
  unfolding to_wide
  to_wide-Widens text [] filled n = rw (filled, n.size) refl
  to_wide-Widens text (c ∷ w) filled n =
      let large : leb (suc (length w)) 0 ≡ false = ground arith in
      let room : suc (length w) + 1 ≡ suc (suc (length w)) = omega arith in
      rw (filled, n.size, large, room, n.written) (overwrite-most (c ∷ w))
