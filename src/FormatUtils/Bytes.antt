-- ===== src/FormatUtils/Bytes.antt =====
-- utils/format-utils.cc: `HexStrToBytes`, `IpStrToBytes`, `IntToBytes` and `ParseParam`.
use p4simulator.Base.{
  ℕ, zero, suc, ◌+◌, ◌-◌, ◌*◌, ◌/◌, ◌%◌, ◌^◌, Bool, true, false, ◌&&◌, ◌||◌, Option, none, some,
  List, [], ◌∷◌, ◌++◌, ltb, leb, ◌==◌, if◌then◌else◌, length,
}
use mathlib.Core.Option
use p4simulator.Base.Text.{Text}
use p4simulator.FormatUtils.{is_digit, is_xdigit, hex_mark, after_prefix}
use p4simulator.FormatUtils.Numbers.{hex_char_to_int, hex_digit}

-- The text without a prefix "0x".
unfoldable pub unprefixed : Text → Text
unprefixed str = elim (after_prefix hex_mark str) [ none ↦ str | some rest ↦ rest ]

-- The last loop: a byte of each two digits.
unfoldable pub hex_pairs : Text → Option Text
hex_pairs [] = some []
hex_pairs (a ∷ []) = none
hex_pairs (a ∷ b ∷ cs) = elim (hex_char_to_int a) [
  | none ↦ none
  | some x ↦ elim (hex_char_to_int b) [
    | none ↦ none
    | some y ↦ Option.map (λ bs. ((x * 16 + y) % 2 ^ 8) ∷ bs) (hex_pairs cs)
  ]
]

unfoldable pub all_xdigits : Text → Bool
all_xdigits [] = true
all_xdigits (c ∷ cs) = is_xdigit c && all_xdigits cs

-- `HexStrToBytes(str)`: the empty text where an exception is caught.
unfoldable pub hex_str_to_bytes : Text → Text
hex_str_to_bytes str =
    if length (unprefixed str) % 2 == 0
    then (if all_xdigits (unprefixed str)
        then elim (hex_pairs (unprefixed str)) [ none ↦ [] | some bytes ↦ bytes ]
        else [])
    else []

-- The loop of the other `HexStrToBytes`, for up to `max_bytes` bytes.
unfoldable pub hex_pairs_up_to : ℕ → Text → Option Text
hex_pairs_up_to zero cs = some []
hex_pairs_up_to (suc max_bytes) [] = some []
hex_pairs_up_to (suc max_bytes) (a ∷ []) = none
hex_pairs_up_to (suc max_bytes) (a ∷ b ∷ cs) = elim (hex_digit a) [
  | none ↦ none
  | some x ↦ elim (hex_digit b) [
    | none ↦ none
    | some y ↦ Option.map (λ bs. (x * 16 + y) ∷ bs) (hex_pairs_up_to max_bytes cs)
  ]
]

-- An odd number of digits gets a zero in front.
unfoldable pub padded_even : Text → Text
padded_even cs = if length cs % 2 == 0 then cs else (48 ∷ cs)

-- `HexStrToBytes(str, bitWidth)`
unfoldable pub hex_str_to_bytes_of_width : Text → ℕ → Option Text
hex_str_to_bytes_of_width str bit_width =
    if bit_width % 8 == 0
    then hex_pairs_up_to (bit_width / 8) (padded_even (unprefixed str))
    else none

-- `std::stoi` on what is left after a sign: digits until another character, and whether there was
-- one at all.
unfoldable pub stoi_digits : Bool → ℕ → Text → Option ℕ
stoi_digits some_digit n [] = if some_digit then some n else none
stoi_digits some_digit n (c ∷ cs) =
    let more : Option ℕ = stoi_digits true (n * 10 + (c - 48)) cs in
    if is_digit c then more else if some_digit then some n else none

-- An `int` as it is converted to `unsigned int`, or `none` for an exception.
unfoldable pub positive_int : Option ℕ → Option ℕ
positive_int none = none
positive_int (some n) = if ltb n (2 ^ 31) then some n else none

unfoldable pub negative_int : Option ℕ → Option ℕ
negative_int none = none
negative_int (some n) = if leb n (2 ^ 31) then some ((2 ^ 32 - n) % 2 ^ 32) else none

unfoldable pub stoi_signed : Text → Option ℕ
stoi_signed [] = none
stoi_signed (c ∷ cs) =
    if c == 45
    then negative_int (stoi_digits false 0 cs)
    else if c == 43
    then positive_int (stoi_digits false 0 cs)
    else positive_int (stoi_digits false 0 (c ∷ cs))

-- Spaces in front are passed over.
unfoldable pub stoi : Text → Option ℕ
stoi [] = none
stoi (c ∷ cs) =
    let rest : Option ℕ = stoi cs in
    if (c == 32) || leb 9 c && leb c 13 then rest else stoi_signed (c ∷ cs)

-- `find('.', start)`: the text before the next dot, and behind it.
unfoldable pub at_dot : Text → Text × Option Text
at_dot [] = ([], none)
at_dot (c ∷ cs) =
    let rest : Text × Option Text = at_dot cs in
    if c == 46 then ([], some cs) else (c ∷ rest.0, rest.1)

-- The parts of an address that are still to come; only the last may lack its dot.
unfoldable pub ip_parts : ℕ → Text → Option Text
ip_parts zero str = some []
ip_parts (suc left) str = elim (at_dot str).1 [
  | none ↦ if left == 0 then Option.map (λ n. (n % 2 ^ 8) ∷ []) (stoi (at_dot str).0) else none
  | some rest ↦ elim (stoi (at_dot str).0) [
    | none ↦ none
    | some n ↦ Option.map (λ bs. (n % 2 ^ 8) ∷ bs) (ip_parts left rest)
  ]
]

-- `IpStrToBytes(str)`
unfoldable pub ip_str_to_bytes : Text → Text
ip_str_to_bytes str = elim (ip_parts 4 str) [ none ↦ [] | some bytes ↦ bytes ]

-- The first loop of `IntToBytes`, the lowest byte first, on fuel: an `unsigned int` has four bytes.
unfoldable pub bytes_of : ℕ → ℕ → List ℕ
bytes_of zero input_num = []
bytes_of (suc fuel) input_num =
    let rest : List ℕ = bytes_of fuel (input_num / 256) in
    if ltb 0 input_num then input_num % 256 ∷ rest else []

-- The second loop.
unfoldable pub zeros : ℕ → List ℕ
zeros zero = []
zeros (suc n) = 0 ∷ zeros n

-- `std::reverse`
unfoldable pub turned : List ℕ → List ℕ
turned [] = []
turned (b ∷ bs) = turned bs ++ (b ∷ [])

unfoldable pub packed : ℕ → ℕ → List ℕ
packed byte_width input_num =
    turned (bytes_of 4 input_num ++ zeros (byte_width - length (bytes_of 4 input_num)))

-- `IntToBytes`; a number too large for the width is packed all the same.
unfoldable pub int_to_bytes : Text → ℕ → Option Text
int_to_bytes input_str bit_width = Option.map (packed ((bit_width + 7) / 8)) (stoi input_str)

-- `ParseParam`: the number of bytes is passed on as a width in bits.
unfoldable pub parse_param : Text → ℕ → Option Text
parse_param input_str bitwidth =
    if bitwidth == 32
    then some (hex_str_to_bytes input_str)
    else int_to_bytes input_str ((bitwidth + 7) / 8)
