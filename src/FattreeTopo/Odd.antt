-- ===== src/FattreeTopo/Odd.antt =====
-- utils/fattree-topo-helper.cc, `Build`: an odd number of pods.
use p4simulator.Base.{
  ℕ, zero, suc, ◌+◌, ◌*◌, ◌/◌, ◌≤◌, ◌<◌, ◌≡◌, refl, ap, ◌∙◌, false, Option, none, some, ltb, arith,
  ℕ_discrete, Bool-cases, inl, inr,
}
use p4simulator.FattreeTopo.{
  LinkNodeTypeIndex, Topo, wrap, for_loop, push_back, counted, then_push, link_pair, link_switches,
  link_pod, link_cores, empty, build_on, build,
}
use p4simulator.FattreeTopo.Loops.{mul_mono, wrap_small}

-- The vector of switches has `n` entries, when the tree is there.
abbrev Keeps : ℕ → Option Topo → Type 0
Keeps n none = Unit
Keeps n (some t) = t.switch_num ≡ n

push_back-Keeps :
    (n : ℕ) (t : Topo) (i : ℕ) (l : LinkNodeTypeIndex)
    → t.switch_num ≡ n
    → Keeps n (push_back t i l)
unfolding push_back
push_back-Keeps n t i l e = elim (Bool-cases (ltb i t.switch_num)) [
  | inl inside ↦ rw inside e
  | inr outside ↦ rw outside tt
]

counted-Keeps : (n m : ℕ) (o : Option Topo) → Keeps n o → Keeps n (counted m o)
unfolding counted
counted-Keeps n m none k = tt
counted-Keeps n m (some t) k = k

then_push-Keeps :
    (n : ℕ) (o : Option Topo) (i : ℕ) (l : LinkNodeTypeIndex)
    → Keeps n o
    → Keeps n (then_push o i l)
unfolding then_push
then_push-Keeps n none i l k = tt
then_push-Keeps n (some t) i l k = push_back-Keeps n t i l k

next-Keeps :
    (n : ℕ) (o : Option Topo) (f : Topo → Option Topo)
    → ((u : Topo) → u.switch_num ≡ n → Keeps n (f u))
    → Keeps n o
    → Keeps n (elim o [ none ↦ none | some u ↦ f u ])
next-Keeps n none f step k = tt
next-Keeps n (some u) f step k = step u k

next-none :
    (n : ℕ) (o : Option Topo) (f : Topo → Option Topo)
    → ((u : Topo) → u.switch_num ≡ n → f u ≡ none)
    → Keeps n o
    → elim o as (λ _. Option Topo) [ none ↦ none | some u ↦ f u ] ≡ none
next-none n none f step k = refl
next-none n (some u) f step k = step u k

for_loop-Keeps :
    (n left i : ℕ) (body : ℕ → Topo → Option Topo) (t : Topo)
    → ((k : ℕ) (u : Topo) → u.switch_num ≡ n → Keeps n (body k u))
    → t.switch_num ≡ n
    → Keeps n (for_loop left i body t)
unfolding for_loop
for_loop-Keeps n zero i body t step e = e
for_loop-Keeps n (suc left) i body t step e =
    next-Keeps n (body i t) (for_loop left (suc i) body)
      (λ u f. for_loop-Keeps n left (suc i) body u step f) (step i t e)

-- A loop with a round that always fails.
for_loop-none :
    (n left i k : ℕ) (body : ℕ → Topo → Option Topo) (t : Topo)
    → ((k : ℕ) (u : Topo) → u.switch_num ≡ n → Keeps n (body k u))
    → ((u : Topo) → u.switch_num ≡ n → body k u ≡ none)
    → i ≤ k
    → k < i + left
    → t.switch_num ≡ n
    → for_loop left i body t ≡ none
unfolding for_loop
for_loop-none n zero i k body t step fails le lt e = absurd (omega (arith, le, lt))
for_loop-none n (suc left) i k body t step fails le lt e = elim (ℕ_discrete i k) [
  | yes at ↦
      ap (λ o. elim o [ none ↦ none | some u ↦ for_loop left (suc i) body u ])
        (ap (λ m. body m t) at ∙ fails t e)
  | no ne ↦
      next-none n (body i t) (for_loop left (suc i) body)
        (λ u f.
          for_loop-none n left (suc i) k body u step fails (omega (arith, le, ne))
            (omega (arith, lt)) f)
        (step i t e)
]

link_pair-Keeps :
    (n half core i j p : ℕ) (t : Topo) → t.switch_num ≡ n → Keeps n (link_pair half core i j p t)
unfolding link_pair counted
link_pair-Keeps n half core i j p t e =
    counted-Keeps n 2 _ (then_push-Keeps n _ _ _ (push_back-Keeps n t _ _ e))

link_switches-Keeps :
    (n half core i j : ℕ) (t : Topo) → t.switch_num ≡ n → Keeps n (link_switches half core i j t)
unfolding link_switches
link_switches-Keeps n half core i j t e =
    for_loop-Keeps n half 0 (link_pair half core i j) t (link_pair-Keeps n half core i j) e

link_pod-Keeps :
    (n half core i : ℕ) (t : Topo) → t.switch_num ≡ n → Keeps n (link_pod half core i t)
unfolding link_pod
link_pod-Keeps n half core i t e =
    for_loop-Keeps n half 0 (link_switches half core i) t (link_switches-Keeps n half core i) e

not_below : (i n : ℕ) → n ≤ i → ltb i n ≡ false
not_below i n le = ground (arith, le)

then_push-none :
    (n : ℕ) (o : Option Topo) (i : ℕ) (l : LinkNodeTypeIndex)
    → Keeps n o
    → n ≤ i
    → then_push o i l ≡ none
unfolding then_push push_back
then_push-none n none i l k le = refl
then_push-none n (some t) i l k le = rw (not_below i t.switch_num (omega (arith, k, le))) refl

-- The last pod of an odd number has no edge switches.
link_pair-none :
    (h : ℕ) (t : Topo)
    → h ≤ 512
    → t.switch_num ≡ 5 * (h * h)
    → link_pair h (h * h) (2 * h) 0 0 t ≡ none
unfolding link_pair counted
link_pair-none h t le e = ap (counted 2) (
    then_push-none (5 * (h * h)) _ _ _ (push_back-Keeps (5 * (h * h)) t _ _ e)
      (omega (arith, mul_mono h 512 h le)))

link_pod-none :
    (h : ℕ) (t : Topo)
    → 0 < h
    → h ≤ 512
    → t.switch_num ≡ 5 * (h * h)
    → link_pod h (h * h) (2 * h) t ≡ none
unfolding link_pod link_switches
link_pod-none h t pos le e =
    for_loop-none (5 * (h * h)) h 0 0 (link_switches h (h * h) (2 * h)) t
      (link_switches-Keeps (5 * (h * h)) h (h * h) (2 * h))
      (λ u f.
        for_loop-none (5 * (h * h)) h 0 0 (link_pair h (h * h) (2 * h) 0) u
          (link_pair-Keeps (5 * (h * h)) h (h * h) (2 * h) 0) (λ v g. link_pair-none h v le g)
          (omega arith) (omega (arith, pos)) f)
      (omega arith) (omega (arith, pos)) e

-- The helper's tree of an odd number of pods, from 3 to 1025, writes beyond the vector of switches, which
-- has no room for the edge switches of the last pod.
pub build-none : (h : ℕ) (rand : ℕ → ℕ) → 0 < h → h ≤ 512 → build (2 * h + 1) rand ≡ none
unfolding build build_on empty link_cores
build-none h rand pos le =
    let half_is : (2 * h + 1) / 2 ≡ h = omega arith in
    let sq : h * h ≤ 512 * 512 = omega (arith, mul_mono h 512 h le) in
    let core_is : wrap (h * h) ≡ h * h = wrap_small (h * h) (omega (arith, sq)) in
    ap (λ n. build_on rand (2 * h + 1) n (wrap (n * n))) half_is
    ∙ ap (build_on rand (2 * h + 1) h) core_is
    ∙ ap (link_cores rand (2 * h + 1) h (h * h)) (
        for_loop-none (5 * (h * h)) (2 * h + 1) 0 (2 * h) (link_pod h (h * h))
          (empty (2 * h + 1) (h * h)) (link_pod-Keeps (5 * (h * h)) h (h * h))
          (λ u f. link_pod-none h u pos le f) (omega arith) (omega arith)
          (wrap_small (5 * (h * h)) (omega (arith, sq))))
