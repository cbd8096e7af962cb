-- ===== src/Base/Bits.antt =====
-- Laws of `bit_and` and `bit_or` at variables: a word in two pieces is worked on piece by piece, so
-- a mask of ones at some place reads, clears or writes the digits at that place alone.
use Prim.Native.Nat.{
  ℕ, zero, suc, ◌+◌, ◌-◌, ◌*◌, ◌/◌, ◌%◌, ◌^◌, ◌≤◌, ◌<◌, min, max, bit_and, bit_or, digits,
  bit_and-bitwise, bit_or-bitwise, bitwise,
}
use mathlib.Core.Path.{◌≡◌, refl, ap, ◌∙◌}
use native.Mathlib.Decide.{ℕ_discrete}
use native.Mathlib.Nat.{pow-suc}
use native.Mathlib.Omega.{arith}

pub pow_pos : (k : ℕ) → 0 < 2 ^ k
pow_pos zero = omega arith
pow_pos (suc k) = omega (arith, pow-suc 2 k, pow_pos k)

module _ (z : ℕ → ℕ) (f : ℕ → ℕ → ℕ) where
  -- A round past the last digit of the first number adds nothing.
  round_past : (n x y : ℕ) → x ≤ n → digits z f (suc n) x y ≡ digits z f n x y
  round_past n zero y h = elim n as (λ k. digits z f (suc k) zero y ≡ digits z f k zero y) [
    | zero ↦ refl
    | suc k ↦ refl
  ]
  round_past zero (suc x) y h = absurd (omega arith)
  round_past (suc n) (suc x) y h =
      ap (λ t. t * 2 + f (suc x % 2) (y % 2)) (round_past n (suc x / 2) (y / 2) (omega arith))

  rounds_past : (n x y : ℕ) → x ≤ n → digits z f n x y ≡ bitwise z f x y
  rounds_past zero x y h = let x0 : x ≡ 0 = omega arith in rw x0
  rounds_past (suc n) x y h = elim (ℕ_discrete x (suc n)) [
    | yes all ↦ rw all
    | no fewer ↦ round_past n x y (omega arith) ∙ rounds_past n x y (omega arith)
  ]

  -- The lowest digit, and the rest.
  bitwise-suc :
      (x y : ℕ)
      → bitwise z f (suc x) y ≡ bitwise z f (suc x / 2) (y / 2) * 2 + f (suc x % 2) (y % 2)
  bitwise-suc x y =
      ap (λ t. t * 2 + f (suc x % 2) (y % 2)) (rounds_past x (suc x / 2) (y / 2) (omega arith))

zero-bit_and : (y : ℕ) → bit_and 0 y ≡ 0
zero-bit_and y = bit_and-bitwise 0 y

pub zero-bit_or : (y : ℕ) → bit_or 0 y ≡ y
zero-bit_or y = bit_or-bitwise 0 y

bit_and_step : (x y : ℕ) → bit_and x y ≡ bit_and (x / 2) (y / 2) * 2 + min (x % 2) (y % 2)
bit_and_step zero y = omega (arith, zero-bit_and y, zero-bit_and (y / 2))
bit_and_step (suc x) y = omega (
  arith,
  bit_and-bitwise (suc x) y,
  bit_and-bitwise (suc x / 2) (y / 2),
  bitwise-suc (λ _. zero) min x y,
)

bit_or_step : (x y : ℕ) → bit_or x y ≡ bit_or (x / 2) (y / 2) * 2 + max (x % 2) (y % 2)
bit_or_step zero y = omega (arith, zero-bit_or y, zero-bit_or (y / 2))
bit_or_step (suc x) y = omega (
  arith,
  bit_or-bitwise (suc x) y,
  bit_or-bitwise (suc x / 2) (y / 2),
  bitwise-suc (λ t. t) max x y,
)

bit_and_step_at :
    (x y a b u v : ℕ)
    → x ≡ a * 2 + u
    → y ≡ b * 2 + v
    → u < 2
    → v < 2
    → bit_and x y ≡ bit_and a b * 2 + min u v
bit_and_step_at x y a b u v p q hu hv =
    let xa : x / 2 ≡ a = omega arith in
    let yb : y / 2 ≡ b = omega arith in
    let s : bit_and x y ≡ bit_and a b * 2 + min (x % 2) (y % 2) =
      rw (← xa, ← yb) (bit_and_step x y) in
    omega arith

-- In words of two pieces, `s` low digits under the rest, each piece is worked on by itself.
pub bit_and-pieces :
    (s a b c d : ℕ)
    → b < 2 ^ s
    → d < 2 ^ s
    → bit_and (a * 2 ^ s + b) (c * 2 ^ s + d) ≡ bit_and a c * 2 ^ s + bit_and b d
bit_and-pieces zero a b c d p q =
    let b0 : b ≡ 0 = omega arith in
    let d0 : d ≡ 0 = omega arith in
    let ea : a * 2 ^ 0 + b ≡ a = omega arith in
    let ec : c * 2 ^ 0 + d ≡ c = omega arith in rw (ea, ec, b0, d0) (omega arith)
bit_and-pieces (suc s) a b c d p q = rw (pow-suc 2 s) (
    omega (
      arith,
      bit_and-pieces s a (b / 2) c (d / 2) (omega (arith, pow-suc 2 s))
          (omega (arith, pow-suc 2 s)),
      bit_and_step_at (a * (2 ^ s * 2) + b) (c * (2 ^ s * 2) + d) (a * 2 ^ s + b / 2)
          (c * 2 ^ s + d / 2) (b % 2) (d % 2) (omega arith) (omega arith) (omega arith)
          (omega arith),
      bit_and_step b d,
    ))

bit_or_step_at :
    (x y a b u v : ℕ)
    → x ≡ a * 2 + u
    → y ≡ b * 2 + v
    → u < 2
    → v < 2
    → bit_or x y ≡ bit_or a b * 2 + max u v
bit_or_step_at x y a b u v p q hu hv =
    let xa : x / 2 ≡ a = omega arith in
    let yb : y / 2 ≡ b = omega arith in
    let s : bit_or x y ≡ bit_or a b * 2 + max (x % 2) (y % 2) = rw (← xa, ← yb) (bit_or_step x y) in
    omega arith

-- In words of two pieces, `s` low digits under the rest, each piece is worked on by itself.
pub bit_or-pieces :
    (s a b c d : ℕ)
    → b < 2 ^ s
    → d < 2 ^ s
    → bit_or (a * 2 ^ s + b) (c * 2 ^ s + d) ≡ bit_or a c * 2 ^ s + bit_or b d
bit_or-pieces zero a b c d p q =
    let b0 : b ≡ 0 = omega arith in
    let d0 : d ≡ 0 = omega arith in
    let ea : a * 2 ^ 0 + b ≡ a = omega arith in
    let ec : c * 2 ^ 0 + d ≡ c = omega arith in rw (ea, ec, b0, d0) (omega arith)
bit_or-pieces (suc s) a b c d p q = rw (pow-suc 2 s) (
    omega (
      arith,
      bit_or-pieces s a (b / 2) c (d / 2) (omega (arith, pow-suc 2 s)) (omega (arith, pow-suc 2 s)),
      bit_or_step_at (a * (2 ^ s * 2) + b) (c * (2 ^ s * 2) + d) (a * 2 ^ s + b / 2)
          (c * 2 ^ s + d / 2) (b % 2) (d % 2) (omega arith) (omega arith) (omega arith)
          (omega arith),
      bit_or_step b d,
    ))

blank_within : (n x : ℕ) → x ≤ n → (bit_and x 0 ≡ 0) × (bit_or x 0 ≡ x)
blank_within zero x h = let x0 : x ≡ 0 = omega arith in rw x0 (zero-bit_and 0, zero-bit_or 0)
blank_within (suc n) x h =
    let half : x / 2 ≤ n = omega arith in
    let (both_clear, either_kept) = blank_within n (x / 2) half in
    (omega (arith, bit_and_step x 0, both_clear), omega (arith, bit_or_step x 0, either_kept))

pub bit_and-zero : (a : ℕ) → bit_and a 0 ≡ 0
bit_and-zero a = (blank_within a a (omega arith)).0

pub bit_or-zero : (a : ℕ) → bit_or a 0 ≡ a
bit_or-zero a = (blank_within a a (omega arith)).1

pub bit_and-ones : (k x : ℕ) → x < 2 ^ k → bit_and x (2 ^ k - 1) ≡ x
bit_and-ones zero x p = let x0 : x ≡ 0 = omega arith in rw x0
bit_and-ones (suc k) x p = omega (
  arith,
  bit_and-ones k (x / 2) (omega (arith, pow-suc 2 k)),
  pow-suc 2 k,
  bit_and_step_at x (2 ^ suc k - 1) (x / 2) (2 ^ k - 1) (x % 2) 1 (omega arith)
      (omega (arith, pow-suc 2 k, pow_pos k)) (omega arith) (omega arith),
)
