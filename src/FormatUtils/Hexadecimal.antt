-- ===== src/FormatUtils/Hexadecimal.antt =====
-- utils/format-utils.cc: an address printed by `Uint32IpToHex` is read back by `StrToInt`, and turned
-- into its four bytes by `HexStrToBytes`.
use p4simulator.Base.{
  ℕ, zero, suc, ◌+◌, ◌*◌, ◌/◌, ◌%◌, ◌^◌, ◌<◌, ◌≡◌, refl, ap, ◌∙◌, true, some, [], ◌∷◌, length,
  arith,
}
use native.Mathlib.Nat.{pow-suc}
use p4simulator.Base.Text.{Text}
use p4simulator.FormatUtils.{is_digit, is_xdigit, to_lower, after_prefix, hex_mark}
use p4simulator.FormatUtils.Numbers.{
  digits_from, hex_digit, or_zero, str_to_int, str_to_int_by, hex_char, hex_char_to_int, hex_padded,
  uint32_ip_to_hex,
}
use p4simulator.FormatUtils.Bytes.{
  hex_str_to_bytes, unprefixed, hex_pairs, all_xdigits, parse_param,
}
use p4simulator.FormatUtils.Decimal.{digits_from-snoc}

hex_digit_lem : (d : ℕ) → d < 16 → hex_digit (hex_char d) ≡ some d
unfolding hex_digit hex_char is_digit is_xdigit to_lower
hex_digit_lem d h = ground arith

is_xdigit_lem : (d : ℕ) → d < 16 → is_xdigit (hex_char d) ≡ true
unfolding hex_char is_xdigit
is_xdigit_lem d h = ground arith

hex_char_to_int_lem : (d : ℕ) → d < 16 → hex_char_to_int (hex_char d) ≡ some d
unfolding hex_char hex_char_to_int
hex_char_to_int_lem d h = ground arith

hex_padded-digits_from :
    (width n : ℕ)
    → n < 16 ^ width
    → n < 2 ^ 32
    → digits_from 16 hex_digit 0 (hex_padded width n) ≡ some n
unfolding hex_padded digits_from
hex_padded-digits_from zero n h small = ap some (omega arith)
hex_padded-digits_from (suc width) n h small =
    digits_from-snoc 16 hex_digit (hex_padded width (n / 16)) 0 (n / 16) (hex_char (n % 16))
      (n % 16)
      (hex_padded-digits_from width (n / 16) (omega (arith, pow-suc 16 width)) (omega arith))
      (hex_digit_lem (n % 16) (omega arith))
    ∙ ap some (omega arith)

-- Two digits of a byte, and what is behind them.
hex_pairs_lem :
    (a b : ℕ) (cs bs : Text)
    → a < 16
    → b < 16
    → hex_pairs cs ≡ some bs
    → hex_pairs (hex_char a ∷ hex_char b ∷ cs) ≡ some ((a * 16 + b) % 2 ^ 8 ∷ bs)
unfolding hex_pairs
hex_pairs_lem a b cs bs ha hb h =
    rw (hex_char_to_int_lem a ha, hex_char_to_int_lem b hb, h, hex_pairs) refl

-- Eight digits make four bytes.
eight_digits :
    (a b c d e f g h : ℕ)
    → a < 16
    → b < 16
    → c < 16
    → d < 16
    → e < 16
    → f < 16
    → g < 16
    → h < 16
    → (all_xdigits (
          hex_char a
          ∷ hex_char b
          ∷ hex_char c
          ∷ hex_char d
          ∷ hex_char e
          ∷ hex_char f
          ∷ hex_char g
          ∷ hex_char h
          ∷ [])
        ≡ true)
      × (hex_pairs (
            hex_char a
            ∷ hex_char b
            ∷ hex_char c
            ∷ hex_char d
            ∷ hex_char e
            ∷ hex_char f
            ∷ hex_char g
            ∷ hex_char h
            ∷ [])
          ≡ some (
              ((a * 16 + b) % 2 ^ 8)
              ∷ ((c * 16 + d) % 2 ^ 8)
              ∷ ((e * 16 + f) % 2 ^ 8)
              ∷ ((g * 16 + h) % 2 ^ 8)
              ∷ []))
unfolding all_xdigits hex_pairs
eight_digits a b c d e f g h ha hb hc hd he hf hg hh = (
  rw
      (
        is_xdigit_lem a ha,
        is_xdigit_lem b hb,
        is_xdigit_lem c hc,
        is_xdigit_lem d hd,
        is_xdigit_lem e he,
        is_xdigit_lem f hf,
        is_xdigit_lem g hg,
        is_xdigit_lem h hh,
      )
      refl,
  (hex_pairs_lem a b
      (hex_char c ∷ hex_char d ∷ hex_char e ∷ hex_char f ∷ hex_char g ∷ hex_char h ∷ [])
      (((c * 16 + d) % 2 ^ 8) ∷ ((e * 16 + f) % 2 ^ 8) ∷ ((g * 16 + h) % 2 ^ 8) ∷ []) ha hb
      (hex_pairs_lem c d (hex_char e ∷ hex_char f ∷ hex_char g ∷ hex_char h ∷ [])
        (((e * 16 + f) % 2 ^ 8) ∷ ((g * 16 + h) % 2 ^ 8) ∷ []) hc hd
        (hex_pairs_lem e f (hex_char g ∷ hex_char h ∷ []) (((g * 16 + h) % 2 ^ 8) ∷ []) he hf
          (hex_pairs_lem g h ([]) ([]) hg hh refl)))),
)

hex_str_to_bytes_lem :
    (cs bs : Text)
    → length cs ≡ 8
    → all_xdigits cs ≡ true
    → hex_pairs cs ≡ some bs
    → hex_str_to_bytes (48 ∷ hex_mark ∷ cs) ≡ bs
unfolding hex_str_to_bytes unprefixed after_prefix
hex_str_to_bytes_lem cs bs n a p = rw (n, a, p) refl

bytes_at :
    (a b c d a' b' c' d' : ℕ)
    → a ≡ a'
    → b ≡ b'
    → c ≡ c'
    → d ≡ d'
    → ◌≡◌ {A = Text} (a ∷ b ∷ c ∷ d ∷ []) (a' ∷ b' ∷ c' ∷ d' ∷ [])
bytes_at a b c d a' b' c' d' p q r s = rw (p, q, r, s) refl

-- An address printed by `Uint32IpToHex` is read back by `StrToInt`, and `HexStrToBytes`, and with it
-- `ParseParam` for 32 bits, makes its four bytes of it, the highest first.
pub uint32_ip_to_hex_read :
    (ip : ℕ)
    → ip < 2 ^ 32
    → (str_to_int (uint32_ip_to_hex ip) ≡ ip)
      × (hex_str_to_bytes (uint32_ip_to_hex ip)
          ≡ (ip / 2 ^ 24 ∷ ip / 2 ^ 16 % 2 ^ 8 ∷ ip / 2 ^ 8 % 2 ^ 8 ∷ ip % 2 ^ 8 ∷ []))
      × (parse_param (uint32_ip_to_hex ip) 32 ≡ some (hex_str_to_bytes (uint32_ip_to_hex ip)))
unfolding str_to_int str_to_int_by uint32_ip_to_hex hex_padded after_prefix or_zero parse_param
uint32_ip_to_hex_read ip small =
    let digits : _ =
      eight_digits (ip / 16 / 16 / 16 / 16 / 16 / 16 / 16 % 16)
        (ip / 16 / 16 / 16 / 16 / 16 / 16 % 16) (ip / 16 / 16 / 16 / 16 / 16 % 16)
        (ip / 16 / 16 / 16 / 16 % 16) (ip / 16 / 16 / 16 % 16) (ip / 16 / 16 % 16) (ip / 16 % 16)
        (ip % 16) (omega arith) (omega arith) (omega arith) (omega arith) (omega arith)
        (omega arith) (omega arith) (omega arith) in
    (
      rw (hex_padded-digits_from 8 ip (omega arith) small) refl,
      hex_str_to_bytes_lem (hex_padded 8 ip) _ refl digits.0 digits.1
          ∙ bytes_at _ _ _ _ _ _ _ _ (omega arith) (omega arith) (omega arith) (omega arith),
      refl,
    )
