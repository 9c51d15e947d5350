-- ===== src/Shared/Values.antt =====
-- What a handler can receive from outside: JavaScript numbers and values of unknown type, as far
-- as the code tells them apart, and the patterns that names are tested by.
use core_dashboard.Prelude.{
  ℕ, Bool, false, ◌&&◌, ◌||◌, [], ◌∷◌, leb, all, ◌==◌, number_equality, length, Text,
}

-- `other` stands for fractions, infinities and NaN.
pub data Number : Type 0 where
  natural : ℕ → Number
  negative : ℕ → Number
  other : Number

-- `opaque` stands for a value of any other type.
pub data Value : Type 0 where
  text : Text → Value
  number : Number → Value
  undefined : Value
  opaque : Value

abbrev pub is_alnum : ℕ → Bool
is_alnum c = (leb b'a' c && leb c b'z') || (leb b'A' c && leb c b'Z') || (leb b'0' c && leb c b'9')

abbrev pub is_name_char : ℕ → Bool
is_name_char c = is_alnum c || c == b'_' || c == b'.' || c == b'-'

-- `/^[a-z0-9][a-z0-9_.-]{0,most}$/i`.
unfoldable pub is_name : ℕ → Text → Bool
is_name most [] = false
is_name most (c ∷ s) = is_alnum c && leb (length s) most && all is_name_char s
