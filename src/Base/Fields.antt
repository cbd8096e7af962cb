-- ===== src/Base/Fields.antt =====
-- A word as three pieces, `lo` of `s` bits under `mid` of 16 bits under `hi` of `m` bits: what the
-- masks of the middle piece do.
use Prim.Native.Nat.{ℕ, ◌+◌, ◌-◌, ◌*◌, ◌^◌, ◌<◌, bit_and, bit_or}
use mathlib.Core.Path.{◌≡◌}
use native.Mathlib.Omega.{arith}
use p4simulator.Base.Bits.{
  bit_and-pieces, bit_or-pieces, bit_and-ones, bit_and-zero, bit_or-zero, zero-bit_or,
}

module _ (m s hi mid lo w : ℕ) (h₁ : hi < 2 ^ m) (h₂ : mid < 2 ^ 16) (h₃ : lo < 2 ^ s)
    (e : w ≡ (hi * 2 ^ 16 + mid) * 2 ^ s + lo) where
  -- The mask keeps the middle piece,
  pub mask_keeps : bit_and w ((0 * 2 ^ 16 + (2 ^ 16 - 1)) * 2 ^ s + 0) ≡ mid * 2 ^ s
  mask_keeps =
      rw
        (
          e,
          bit_and-pieces s (hi * 2 ^ 16 + mid) lo (0 * 2 ^ 16 + (2 ^ 16 - 1)) 0 h₃ (omega arith),
          bit_and-pieces 16 hi mid 0 (2 ^ 16 - 1) h₂ (omega arith),
          bit_and-ones 16 mid h₂,
          bit_and-zero hi,
          bit_and-zero lo,
        )
        (omega arith)

  -- its complement clears it,
  pub mask_clears :
      bit_and w (((2 ^ m - 1) * 2 ^ 16 + 0) * 2 ^ s + (2 ^ s - 1)) ≡ (hi * 2 ^ 16 + 0) * 2 ^ s + lo
  mask_clears =
      rw
        (
          e,
          bit_and-pieces s (hi * 2 ^ 16 + mid) lo ((2 ^ m - 1) * 2 ^ 16 + 0) (2 ^ s - 1) h₃
              (omega arith),
          bit_and-pieces 16 hi mid (2 ^ m - 1) 0 h₂ (omega arith),
          bit_and-ones m hi h₁,
          bit_and-zero mid,
          bit_and-ones s lo h₃,
        )
        (omega arith)

  -- and `or` then writes it.
  pub mask_writes :
      (v u : ℕ)
      → v < 2 ^ 16
      → u ≡ (0 * 2 ^ 16 + v) * 2 ^ s + 0
      → bit_or (bit_and w (((2 ^ m - 1) * 2 ^ 16 + 0) * 2 ^ s + (2 ^ s - 1))) u
        ≡ (hi * 2 ^ 16 + v) * 2 ^ s + lo
  mask_writes v u hv eu =
      rw
        (
          mask_clears,
          eu,
          bit_or-pieces s (hi * 2 ^ 16 + 0) lo (0 * 2 ^ 16 + v) 0 h₃ (omega arith),
          bit_or-pieces 16 hi 0 0 v (omega arith) hv,
          bit_or-zero hi,
          zero-bit_or v,
          bit_or-zero lo,
        )
        (omega arith)
