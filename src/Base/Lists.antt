-- ===== src/Base/Lists.antt =====
-- Lists measured and indexed by native numbers, maps as functions, and sums over an initial segment.
use Prim.Native.Nat.{ℕ, zero, suc, ◌+◌, ◌<◌}
use mathlib.Core.Path.{◌≡◌, sym, subst}
use mathlib.Core.List.{List, [], ◌∷◌, ◌++◌}
use mathlib.Core.Option.{Option, none, some}
use native.Mathlib.Decide.{ℕ_discrete}
use native.Mathlib.Omega.{arith}
use p4simulator.Base.Tests.{◌==◌, if◌then◌else◌}

module _ {ℓ} {A : Type ℓ} where
  abbrev pub length : List A → ℕ
  length [] = 0
  length (x ∷ xs) = suc (length xs)

  abbrev pub get_elem? : List A → ℕ → Option A
  get_elem? [] i = none
  get_elem? (x ∷ xs) zero = some x
  get_elem? (x ∷ xs) (suc i) = get_elem? xs i

  pub length-append : (xs ys : List A) → length (xs ++ ys) ≡ length xs + length ys
  length-append [] ys = omega arith
  length-append (x ∷ xs) ys = omega (arith, length-append xs ys)

  -- A map with numbers for keys; a write replaces what the key had.
  abbrev pub update : (ℕ → A) → ℕ → A → ℕ → A
  update f k v j = if j == k then v else f j

-- The sum of `f` over the numbers below `n`.
abbrev pub sum_below : ℕ → (ℕ → ℕ) → ℕ
sum_below zero f = 0
sum_below (suc n) f = sum_below n f + f n

pub sum_below-congr :
    (n : ℕ) (f g : ℕ → ℕ) → ((i : ℕ) → i < n → f i ≡ g i) → sum_below n f ≡ sum_below n g
sum_below-congr zero f g h = omega arith
sum_below-congr (suc n) f g h =
    omega (arith, sum_below-congr n f g (λ i p. h i (omega arith)), h n (omega arith))

-- A change at one place changes the sum by as much.
pub sum_below-change :
    (n k : ℕ) (f g : ℕ → ℕ)
    → k < n
    → ((i : ℕ) → i < n → ¬ (i ≡ k) → f i ≡ g i)
    → sum_below n f + g k ≡ sum_below n g + f k
sum_below-change zero k f g p h = absurd (omega arith)
sum_below-change (suc n) k f g p h = elim (ℕ_discrete n k) [
  | yes e ↦ rw (← e) (omega (arith, sum_below-congr n f g (λ i q. h i (omega arith) (omega arith))))
  | no ne ↦ omega (
    arith,
    sum_below-change n k f g (omega arith) (λ i q. h i (omega arith)),
    h n (omega arith) ne,
  )
]

-- A sum grows by one with its summand.
pub sum_up :
    (n k : ℕ) (f g : ℕ → ℕ)
    → k < n
    → ((i : ℕ) → i < n → ¬ (i ≡ k) → g i ≡ f i)
    → g k ≡ suc (f k)
    → sum_below n g ≡ suc (sum_below n f)
sum_up n k f g h same up = omega (arith, sum_below-change n k g f h same)

-- What holds below `n` and at `n` holds below `suc n`.
pub below_suc {ℓ} :
    (P : ℕ → Type ℓ) (n : ℕ) → P n → ((p : ℕ) → p < n → P p) → (p : ℕ) → p < suc n → P p
below_suc P n last lower p h = elim (ℕ_discrete p n) [
  | yes e ↦ subst P (sym e) last
  | no ne ↦ lower p (omega arith)
]

pub sum_below-zero : (n : ℕ) (f : ℕ → ℕ) → sum_below n f ≡ 0 → (p : ℕ) → p < n → f p ≡ 0
sum_below-zero zero f h p lt = absurd (omega arith)
sum_below-zero (suc n) f h p lt =
    below_suc (λ p. f p ≡ 0) n (omega arith) (sum_below-zero n f (omega arith)) p lt

pub sum_below-zeros : (n : ℕ) → sum_below n (λ _. 0) ≡ 0
sum_below-zeros zero = omega arith
sum_below-zeros (suc n) = omega (arith, sum_below-zeros n)
