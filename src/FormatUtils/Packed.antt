-- ===== src/FormatUtils/Packed.antt =====
-- utils/format-utils.cc: the bytes that `IntToBytes` makes of a number.
use p4simulator.Base.{
  ℕ, zero, suc, ◌+◌, ◌-◌, ◌*◌, ◌/◌, ◌^◌, ◌≤◌, ◌<◌, ◌≡◌, refl, ap, ◌∙◌, Bool-cases, inl, inr, some,
  List, [], ◌∷◌, ◌++◌, length, length-append, ltb, arith,
}
use mathlib.Core.Option
use native.Mathlib.Nat.{pow-suc}
use p4simulator.Base.Text.{Text}
use p4simulator.FormatUtils.Bytes.{bytes_of, zeros, turned, packed, int_to_bytes, stoi}

-- The number that bytes make, the highest first.
abbrev pub number_from : ℕ → List ℕ → ℕ
number_from n [] = n
number_from n (b ∷ bs) = number_from (n * 256 + b) bs

-- The number that bytes make, the lowest first.
abbrev low_first : List ℕ → ℕ
low_first [] = 0
low_first (b ∷ bs) = b + low_first bs * 256

number_from-append :
    (bs cs : List ℕ) (n : ℕ) → number_from n (bs ++ cs) ≡ number_from (number_from n bs) cs
number_from-append [] cs n = refl
number_from-append (b ∷ bs) cs n = number_from-append bs cs (n * 256 + b)

number_from-turned : (bs : List ℕ) → number_from 0 (turned bs) ≡ low_first bs
unfolding turned
number_from-turned [] = refl
number_from-turned (b ∷ bs) =
    number_from-append (turned bs) (b ∷ []) 0 ∙ omega (arith, number_from-turned bs)

low_first-bytes_of : (fuel n : ℕ) → n < 256 ^ fuel → low_first (bytes_of fuel n) ≡ n
unfolding bytes_of
low_first-bytes_of zero n h = omega arith
low_first-bytes_of (suc fuel) n h = elim (Bool-cases (ltb 0 n)) [
  | inl e ↦
      rw e (omega (arith, low_first-bytes_of fuel (n / 256) (omega (arith, pow-suc 256 fuel))))
  | inr e ↦ rw e (ground arith)
]

low_first-zeros : (k : ℕ) → low_first (zeros k) ≡ 0
unfolding zeros
low_first-zeros zero = refl
low_first-zeros (suc k) = omega (arith, low_first-zeros k)

low_first-append : (bs : List ℕ) (k : ℕ) → low_first (bs ++ zeros k) ≡ low_first bs
low_first-append [] k = low_first-zeros k
low_first-append (b ∷ bs) k = omega (arith, low_first-append bs k)

length-zeros : (k : ℕ) → length (zeros k) ≡ k
unfolding zeros
length-zeros zero = refl
length-zeros (suc k) = ap suc (length-zeros k)

length-turned : (bs : List ℕ) → length (turned bs) ≡ length bs
unfolding turned
length-turned [] = refl
length-turned (b ∷ bs) = omega (arith, length-append (turned bs) (b ∷ []), length-turned bs)

length-bytes_of : (fuel n k : ℕ) → n < 256 ^ k → length (bytes_of fuel n) ≤ k
unfolding bytes_of
length-bytes_of zero n k h = omega arith
length-bytes_of (suc fuel) n zero h = let n0 : n ≡ 0 = omega arith in rw n0 (omega arith)
length-bytes_of (suc fuel) n (suc k) h = elim (Bool-cases (ltb 0 n)) [
  | inl e ↦ rw e (omega (arith, length-bytes_of fuel (n / 256) k (omega (arith, pow-suc 256 k))))
  | inr e ↦ rw e (omega arith)
]

-- Whatever `std::stoi` reads, an `unsigned int`, `IntToBytes` makes bytes of it that are the number,
-- the highest first, and at least as many as the width asks for; they are exactly as many where the
-- number fits the width.
pub int_to_bytes_lem :
    (input_str : Text) (n bit_width : ℕ)
    → stoi input_str ≡ some n
    → n < 2 ^ 32
    → (bytes : Text) × (int_to_bytes input_str bit_width ≡ some bytes)
      × (number_from 0 bytes ≡ n)
      × ((bit_width + 7) / 8 ≤ length bytes)
      × (n < 256 ^ ((bit_width + 7) / 8) → length bytes ≡ (bit_width + 7) / 8)
unfolding int_to_bytes packed
int_to_bytes_lem input_str n bit_width h small =
    let width : ℕ = (bit_width + 7) / 8 in
    let low : List ℕ = bytes_of 4 n in
    let pad : ℕ = width - length low in
    let long : length (turned (low ++ zeros pad)) ≡ length low + pad =
      length-turned (low ++ zeros pad)
      ∙ length-append low (zeros pad)
      ∙ ap (λ t. length low + t) (length-zeros pad) in
    (
      turned (low ++ zeros pad),
      ap (Option.map (packed width)) h,
      number_from-turned (low ++ zeros pad)
          ∙ low_first-append low pad
          ∙ low_first-bytes_of 4 n (omega arith),
      omega (arith, long),
      λ fits. omega (arith, long, length-bytes_of 4 n width fits),
    )
