-- ===== src/FattreeTopo/Loops.antt =====
-- utils/fattree-topo-helper.cc, `Build`: its loops, and the places they run over.
use p4simulator.Base.{
  ℕ, zero, suc, ◌+◌, ◌*◌, ◌^◌, ◌≤◌, ◌<◌, ◌≡◌, refl, ap, ◌∙◌, Option, none, some, arith, ℕ_discrete,
}
use native.Mathlib.Nat.{suc-mul}
use p4simulator.FattreeTopo.{wrap, for_loop, next_place}

for_loop-step {ℓ} :
    {S : Type ℓ} (body : ℕ → S → Option S) (n i : ℕ) (s u : S)
    → body i s ≡ some u
    → for_loop (suc n) i body s ≡ for_loop n (suc i) body u
unfolding for_loop
for_loop-step body n i s u e =
    ap (λ o. elim o [ none ↦ none | some t ↦ for_loop n (suc i) body t ]) e

-- A loop whose rounds each succeed and keep what is left.
pub for_loop-ends {ℓ κ} :
    {S : Type ℓ} (body : ℕ → S → Option S) (Q : ℕ → S → Type κ) (n i : ℕ) (s : S)
    → Q n s
    → ((left k : ℕ) (s : S)
        → k + suc left ≡ i + n
        → Q (suc left) s
        → (t : S) × (body k s ≡ some t) × Q left t)
    → (t : S) × (for_loop n i body s ≡ some t) × Q 0 t
unfolding for_loop
for_loop-ends body Q zero i s q step = (s, refl, q)
for_loop-ends body Q (suc n) i s q step =
    let (u, e, qu) = step n i s refl q in
    let (t, f, qt) =
      for_loop-ends body Q n (suc i) u qu (λ left k s h. step left k s (omega (arith, h))) in
    (t, for_loop-step body n i s u e ∙ f, qt)

pub place-bound : (m h i j : ℕ) → i < m → j < h → i * h + j < m * h
place-bound zero h i j a b = absurd (omega arith)
place-bound (suc m) h i j a b = elim (ℕ_discrete i m) [
  | yes e ↦ rw e (omega (arith, suc-mul m h))
  | no ne ↦ omega (arith, suc-mul m h, place-bound m h i j (omega arith) b)
]

pub mul_mono : (a b c : ℕ) → a ≤ b → a * c ≤ b * c
mul_mono a zero c h = let e : a ≡ 0 = omega arith in rw e (omega arith)
mul_mono a (suc b) c h = elim (ℕ_discrete a (suc b)) [
  | yes e ↦ rw e (omega arith)
  | no ne ↦ omega (arith, suc-mul b c, mul_mono a b c (omega arith))
]

pub wrap_small : (n : ℕ) → n < 2 ^ 32 → wrap n ≡ n
wrap_small n h = omega (arith, h)

pub next_place-bound : (h k : ℕ) → k < h → next_place h k < h
unfolding next_place
next_place-bound h k lt = ground (arith, lt)

pub positive : (h n : ℕ) → n < h * h → 0 < h
positive zero n lt = absurd (omega (arith, lt))
positive (suc h) n lt = omega arith
