-- ===== src/FormatUtils.antt =====
-- utils/format-utils.cc: numbers and addresses as texts and as bytes. A text is the list of its
-- characters' codes; an exception that leaves a function is `none`.
pub mod Numbers
pub mod Bytes
pub mod Decimal
pub mod Hexadecimal
pub mod Packed
mod Tests
use p4simulator.Base.{
  ℕ, ◌+◌, ◌-◌, Bool, true, false, ◌&&◌, ◌||◌, Option, none, some, [], ◌∷◌, ltb, leb, ◌==◌,
  if◌then◌else◌,
}
use p4simulator.Base.Text.{Text}

-- `isdigit` and `isxdigit`.
unfoldable pub is_digit : ℕ → Bool
is_digit c = leb 48 c && leb c 57

unfoldable pub is_xdigit : ℕ → Bool
is_xdigit c = leb 48 c && leb c 57 || leb 97 c && leb c 102 || leb 65 c && leb c 70

-- `tolower`
unfoldable pub to_lower : ℕ → ℕ
to_lower c = if leb 65 c && leb c 90 then c + 32 else c

-- The characters of "0x" and "0b".
abbrev pub hex_mark : ℕ
hex_mark = 120

abbrev pub binary_mark : ℕ
binary_mark = 98

-- What follows "0" and the mark at the front, as `find(prefix) == 0` and `substr(2)` have it.
unfoldable pub after_prefix : ℕ → Text → Option Text
after_prefix mark (a ∷ b ∷ rest) = if (a == 48) && (b == mark) then some rest else none
after_prefix mark _ = none
