-- ===== src/Std.antt =====
-- The parts of the C and C++ standard libraries that the connector calls: <cctype> in the "C"
-- locale, which a program has unless it calls setlocale, and std::to_string.
use plcsim_connector.Common.{
  ℕ, zero, suc, ◌+◌, ◌-◌, ◌*◌, ◌/◌, ◌%◌, ◌≤◌, ◌<◌, ◌≡◌, refl, Bool, ◌&&◌, ◌||◌, [], ◌∷◌, ◌++◌,
  arith, ltb, leb, ◌==◌, if◌then◌else◌, Bytes,
}
use plcsim_connector.Common.Int.{ℤ, pos, negsuc}
pub mod Decimal

-- std::toupper
unfoldable pub toupper : ℕ → ℕ
toupper c = if leb b'a' c && leb c b'z' then c - 32 else c

-- std::isspace: the space, and \t \n \v \f \r.
unfoldable pub isspace : ℕ → Bool
isspace c = c == b' ' || (leb 9 c && leb c 13)

-- What a reader of a C string sees of a text: the bytes up to the first NUL.
unfoldable pub c_str : Bytes → Bytes
c_str [] = []
c_str (c ∷ s) = if c == 0 then [] else c ∷ c_str s
