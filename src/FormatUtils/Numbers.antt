-- ===== src/FormatUtils/Numbers.antt =====
-- utils/format-utils.cc: `StrToInt`, `HexCharToInt`, `IntToStr`, `UintToString` and `Uint32IpToHex`.
use p4simulator.Base.{
  ℕ, zero, suc, ◌+◌, ◌-◌, ◌*◌, ◌/◌, ◌%◌, ◌^◌, ◌&&◌, ◌||◌, Option, none, some, [], ◌∷◌, ◌++◌, ltb,
  leb, ◌==◌, if◌then◌else◌,
}
use p4simulator.Base.Text.{Text}
use p4simulator.FormatUtils.{is_digit, is_xdigit, to_lower, hex_mark, binary_mark, after_prefix}

-- The loops of `StrToInt`: digits of a base into an `unsigned int`; `none` for the exception.
unfoldable pub digits_from : ℕ → (ℕ → Option ℕ) → ℕ → Text → Option ℕ
digits_from base digit res [] = some res
digits_from base digit res (c ∷ cs) = elim (digit c) [
  | none ↦ none
  | some d ↦ digits_from base digit ((res * base + d) % 2 ^ 32) cs
]

unfoldable pub hex_digit : ℕ → Option ℕ
hex_digit c =
    if is_digit c then some (c - 48) else if is_xdigit c then some (to_lower c - 97 + 10) else none

unfoldable pub binary_digit : ℕ → Option ℕ
binary_digit c = if (c == 48) || (c == 49) then some (c - 48) else none

unfoldable pub decimal_digit : ℕ → Option ℕ
decimal_digit c = if is_digit c then some (c - 48) else none

-- The value where an exception is caught.
unfoldable pub or_zero : Option ℕ → ℕ
or_zero none = 0
or_zero (some n) = n

unfoldable pub str_to_int_by : Text → Option Text → Option Text → ℕ
str_to_int_by str (some hex) binary = or_zero (digits_from 16 hex_digit 0 hex)
str_to_int_by str none (some binary) = or_zero (digits_from 2 binary_digit 0 binary)
str_to_int_by str none none = or_zero (digits_from 10 decimal_digit 0 str)

unfoldable pub str_to_int : Text → ℕ
unfolding str_to_int_by
str_to_int str = str_to_int_by str (after_prefix hex_mark str) (after_prefix binary_mark str)

unfoldable pub hex_char_to_int : ℕ → Option ℕ
hex_char_to_int c =
    if leb 48 c && leb c 57
    then some (c - 48)
    else if leb 97 c && leb c 102
    then some (c - 97 + 10)
    else if leb 65 c && leb c 70
    then some (c - 65 + 10)
    else none

-- `oss << num`: the decimal digits, on fuel, the number of digits at most.
unfoldable pub decimal : ℕ → ℕ → Text
decimal zero num = []
decimal (suc fuel) num =
    let higher : Text = decimal fuel (num / 10) in
    if ltb num 10 then (48 + num) ∷ [] else higher ++ ((48 + num % 10) ∷ [])

-- An `unsigned int` has up to ten digits.
unfoldable pub uint_to_string : ℕ → Text
uint_to_string num = decimal 10 num

-- `std::hex` for a digit.
unfoldable pub hex_char : ℕ → ℕ
hex_char d = if ltb d 10 then 48 + d else 87 + d

-- So many hexadecimal digits, with zeros in front.
unfoldable pub hex_padded : ℕ → ℕ → Text
hex_padded zero num = []
hex_padded (suc width) num = hex_padded width (num / 16) ++ (hex_char (num % 16) ∷ [])

-- `std::setw(8)` is the width of every `unsigned int`.
unfoldable pub uint32_ip_to_hex : ℕ → Text
uint32_ip_to_hex ip = 48 ∷ hex_mark ∷ hex_padded 8 ip
