-- ===== src/FormatUtils/Tests.antt =====
-- Runs of the functions of utils/format-utils.cc.
use p4simulator.Base.{◌+◌, ◌/◌, ◌^◌, ◌<◌, ◌≤◌, ◌≡◌, refl, some, [], ◌∷◌, length, arith}
use p4simulator.Base.Text.{Text}
use p4simulator.FormatUtils.{is_digit}
use p4simulator.FormatUtils.Numbers.{str_to_int, uint_to_string, uint32_ip_to_hex}
use p4simulator.FormatUtils.Bytes.{
  int_to_bytes, stoi, stoi_signed, stoi_digits, positive_int, hex_str_to_bytes, parse_param,
  ip_str_to_bytes, ip_parts, at_dot, packed, turned, zeros, bytes_of,
}
use p4simulator.FormatUtils.Decimal.{str_to_int-uint_to_string}
use p4simulator.FormatUtils.Hexadecimal.{uint32_ip_to_hex_read}
use p4simulator.FormatUtils.Packed.{number_from, int_to_bytes_lem}

-- "258"
abbrev two_five_eight : Text
two_five_eight = 50 ∷ 53 ∷ 56 ∷ []

stoi_test : stoi two_five_eight ≡ some 258
unfolding stoi stoi_signed stoi_digits positive_int is_digit
stoi_test = refl

-- "10.0.0.1"
ip_str_to_bytes_test :
    ip_str_to_bytes (49 ∷ 48 ∷ 46 ∷ 48 ∷ 46 ∷ 48 ∷ 46 ∷ 49 ∷ []) ≡ (10 ∷ 0 ∷ 0 ∷ 1 ∷ [])
unfolding ip_str_to_bytes ip_parts at_dot stoi stoi_signed stoi_digits positive_int is_digit
ip_str_to_bytes_test = refl

-- For 16 bits `ParseParam` asks for two bits, and one byte is packed for the number 5.
parse_param_test : parse_param (53 ∷ []) 16 ≡ some (5 ∷ [])
unfolding parse_param int_to_bytes packed turned zeros bytes_of stoi stoi_signed stoi_digits
    positive_int is_digit
parse_param_test = refl

str_to_int-uint_to_string_example : str_to_int (uint_to_string 4711) ≡ 4711
str_to_int-uint_to_string_example = str_to_int-uint_to_string 4711 (omega arith)

uint32_ip_to_hex_read_example :
    (str_to_int (uint32_ip_to_hex 0x0a000001) ≡ 0x0a000001)
    × (hex_str_to_bytes (uint32_ip_to_hex 0x0a000001) ≡ (10 ∷ 0 ∷ 0 ∷ 1 ∷ []))
    × (parse_param (uint32_ip_to_hex 0x0a000001) 32
        ≡ some (hex_str_to_bytes (uint32_ip_to_hex 0x0a000001)))
uint32_ip_to_hex_read_example = uint32_ip_to_hex_read 0x0a000001 (omega arith)

int_to_bytes_lem_example :
    (bytes : Text) × (int_to_bytes two_five_eight 32 ≡ some bytes)
    × (number_from 0 bytes ≡ 258)
    × ((32 + 7) / 8 ≤ length bytes)
    × (258 < 256 ^ ((32 + 7) / 8) → length bytes ≡ (32 + 7) / 8)
int_to_bytes_lem_example = int_to_bytes_lem two_five_eight 258 32 stoi_test (omega arith)
