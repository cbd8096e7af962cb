-- ===== src/Registers/Masks.antt =====
-- utils/register-access-v1model.h: what masking and shifting do at each of the four places.
use p4simulator.Base.{ℕ, ◌+◌, ◌*◌, ◌/◌, ◌%◌, ◌^◌, ◌<◌, ◌≡◌, arith}
use p4simulator.Base.Fields.{mask_keeps, mask_writes}
use p4simulator.Registers.{mask_0, mask_16, mask_32, mask_48, read_bits, write_bits}

pub read_bits_0 : (w : ℕ) → w < 2 ^ 64 → read_bits w mask_0 0 ≡ w / 2 ^ 0 % 2 ^ 16
unfolding read_bits
read_bits_0 w h = omega (
  arith,
  mask_keeps 48 0 (w / 2 ^ 16) (w / 2 ^ 0 % 2 ^ 16) (w % 2 ^ 0) w (omega arith) (omega arith)
      (omega arith) (omega arith),
)

pub write_bits_0 :
    (w v : ℕ)
    → w < 2 ^ 64
    → write_bits w mask_0 0 v ≡ (w / 2 ^ 16 * 2 ^ 16 + v % 2 ^ 16) * 2 ^ 0 + w % 2 ^ 0
unfolding write_bits
write_bits_0 w v h = omega (
  arith,
  mask_writes 48 0 (w / 2 ^ 16) (w / 2 ^ 0 % 2 ^ 16) (w % 2 ^ 0) w (omega arith) (omega arith)
      (omega arith) (omega arith) (v % 2 ^ 16) (v % 2 ^ 16 * 2 ^ 0 % 2 ^ 64) (omega arith)
      (omega arith),
)

pub read_bits_16 : (w : ℕ) → w < 2 ^ 64 → read_bits w mask_16 16 ≡ w / 2 ^ 16 % 2 ^ 16
unfolding read_bits
read_bits_16 w h = omega (
  arith,
  mask_keeps 32 16 (w / 2 ^ 32) (w / 2 ^ 16 % 2 ^ 16) (w % 2 ^ 16) w (omega arith) (omega arith)
      (omega arith) (omega arith),
)

pub write_bits_16 :
    (w v : ℕ)
    → w < 2 ^ 64
    → write_bits w mask_16 16 v ≡ (w / 2 ^ 32 * 2 ^ 16 + v % 2 ^ 16) * 2 ^ 16 + w % 2 ^ 16
unfolding write_bits
write_bits_16 w v h = omega (
  arith,
  mask_writes 32 16 (w / 2 ^ 32) (w / 2 ^ 16 % 2 ^ 16) (w % 2 ^ 16) w (omega arith) (omega arith)
      (omega arith) (omega arith) (v % 2 ^ 16) (v % 2 ^ 16 * 2 ^ 16 % 2 ^ 64) (omega arith)
      (omega arith),
)

pub read_bits_32 : (w : ℕ) → w < 2 ^ 64 → read_bits w mask_32 32 ≡ w / 2 ^ 32 % 2 ^ 16
unfolding read_bits
read_bits_32 w h = omega (
  arith,
  mask_keeps 16 32 (w / 2 ^ 48) (w / 2 ^ 32 % 2 ^ 16) (w % 2 ^ 32) w (omega arith) (omega arith)
      (omega arith) (omega arith),
)

pub write_bits_32 :
    (w v : ℕ)
    → w < 2 ^ 64
    → write_bits w mask_32 32 v ≡ (w / 2 ^ 48 * 2 ^ 16 + v % 2 ^ 16) * 2 ^ 32 + w % 2 ^ 32
unfolding write_bits
write_bits_32 w v h = omega (
  arith,
  mask_writes 16 32 (w / 2 ^ 48) (w / 2 ^ 32 % 2 ^ 16) (w % 2 ^ 32) w (omega arith) (omega arith)
      (omega arith) (omega arith) (v % 2 ^ 16) (v % 2 ^ 16 * 2 ^ 32 % 2 ^ 64) (omega arith)
      (omega arith),
)

pub read_bits_48 : (w : ℕ) → w < 2 ^ 64 → read_bits w mask_48 48 ≡ w / 2 ^ 48 % 2 ^ 16
unfolding read_bits
read_bits_48 w h = omega (
  arith,
  mask_keeps 0 48 (w / 2 ^ 64) (w / 2 ^ 48 % 2 ^ 16) (w % 2 ^ 48) w (omega arith) (omega arith)
      (omega arith) (omega arith),
)

pub write_bits_48 :
    (w v : ℕ)
    → w < 2 ^ 64
    → write_bits w mask_48 48 v ≡ (w / 2 ^ 64 * 2 ^ 16 + v % 2 ^ 16) * 2 ^ 48 + w % 2 ^ 48
unfolding write_bits
write_bits_48 w v h = omega (
  arith,
  mask_writes 0 48 (w / 2 ^ 64) (w / 2 ^ 48 % 2 ^ 16) (w % 2 ^ 48) w (omega arith) (omega arith)
      (omega arith) (omega arith) (v % 2 ^ 16) (v % 2 ^ 16 * 2 ^ 48 % 2 ^ 64) (omega arith)
      (omega arith),
)
