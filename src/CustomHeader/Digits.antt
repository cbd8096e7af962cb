-- ===== src/CustomHeader/Digits.antt =====
-- The shifts and masks of model/custom-header.cc on numbers of a variable number of bits.
use p4simulator.Base.{
  ℕ, zero, suc, ◌+◌, ◌-◌, ◌*◌, ◌/◌, ◌%◌, ◌^◌, ◌<◌, ◌≡◌, refl, sym, ◌∙◌, bit_and, bit_or, arith,
}
use p4simulator.Base.Bits.{
  bit_and-pieces, bit_or-pieces, bit_and-ones, bit_and-zero, bit_or-zero, zero-bit_or, pow_pos,
}
use native.Mathlib.Nat.{
  pow-suc, mod-lt, mul_assoc, mul-le-mul_right, div-add-mod', div-div-eq-div-mul,
}

pub pow_add : (a b : ℕ) → 2 ^ (a + b) ≡ 2 ^ a * 2 ^ b
pow_add a zero = ground arith
pow_add a (suc b) =
    let up : a + suc b ≡ suc (a + b) = omega arith in
    rw (up, pow-suc 2 (a + b), pow-suc 2 b, pow_add a b) (mul_assoc (2 ^ a) (2 ^ b) 2)

and_split :
    (s x y a b c d : ℕ)
    → x ≡ a * 2 ^ s + b
    → y ≡ c * 2 ^ s + d
    → b < 2 ^ s
    → d < 2 ^ s
    → bit_and x y ≡ bit_and a c * 2 ^ s + bit_and b d
and_split s x y a b c d ex ey hb hd = rw (ex, ey) (bit_and-pieces s a b c d hb hd)

or_split :
    (s x y a b c d : ℕ)
    → x ≡ a * 2 ^ s + b
    → y ≡ c * 2 ^ s + d
    → b < 2 ^ s
    → d < 2 ^ s
    → bit_or x y ≡ bit_or a c * 2 ^ s + bit_or b d
or_split s x y a b c d ex ey hb hd = rw (ex, ey) (bit_or-pieces s a b c d hb hd)

-- A mask of ones keeps the remainder.
pub bit_and-mask : (k x : ℕ) → bit_and x (2 ^ k - 1) ≡ x % 2 ^ k
bit_and-mask k x =
    let ones : 2 ^ k - 1 < 2 ^ k = omega (arith, pow_pos k) in
    let low : x % 2 ^ k < 2 ^ k = mod-lt x (pow_pos k) in
    and_split k x (2 ^ k - 1) (x / 2 ^ k) (x % 2 ^ k) 0 (2 ^ k - 1) (sym (div-add-mod' x (2 ^ k)))
      (omega arith) low ones
    ∙ rw (bit_and-ones k (x % 2 ^ k) low, bit_and-zero (x / 2 ^ k)) (omega arith)

-- A number of `m` bits goes under another, both moved up by `s`.
pub bit_or-under :
    (h c m s : ℕ) → c < 2 ^ m → bit_or (h * 2 ^ m * 2 ^ s) (c * 2 ^ s) ≡ (h * 2 ^ m + c) * 2 ^ s
bit_or-under h c m s p =
    or_split s (h * 2 ^ m * 2 ^ s) (c * 2 ^ s) (h * 2 ^ m) 0 c 0 (omega arith) (omega arith)
      (pow_pos s) (pow_pos s)
    ∙ rw
        (
          zero-bit_or 0,
          or_split m (h * 2 ^ m) c h 0 0 c (omega arith) (omega arith) (pow_pos m) p,
          bit_or-zero h,
          zero-bit_or c,
        )
        (omega arith)

pub bit_or_low : (v c m : ℕ) → c < 2 ^ m → bit_or (v * 2 ^ m) c ≡ v * 2 ^ m + c
bit_or_low v c m p =
    or_split m (v * 2 ^ m) c v 0 0 c (omega arith) (omega arith) (pow_pos m) p
    ∙ rw (bit_or-zero v, zero-bit_or c) refl

-- The highest digits, and the next `m` of them.
pub div_pieces : (x m s : ℕ) → x / 2 ^ (m + s) * 2 ^ m + x / 2 ^ s % 2 ^ m ≡ x / 2 ^ s
div_pieces x m s =
    rw (pow_add m s)
      (ground (arith, div-div-eq-div-mul x (2 ^ s) (2 ^ m), div-add-mod' (x / 2 ^ s) (2 ^ m)))

pub append_lt : (h c n m : ℕ) → h < 2 ^ n → c < 2 ^ m → h * 2 ^ m + c < 2 ^ (n + m)
append_lt h c n m p q = rw (pow_add n m) (omega (arith, mul-le-mul_right (2 ^ m) p))
