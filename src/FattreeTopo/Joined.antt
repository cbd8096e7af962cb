-- ===== src/FattreeTopo/Joined.antt =====
-- utils/fattree-topo-helper.cc, `Build`: which switches and hosts its loops join.
use p4simulator.Base.{
  ℕ, zero, suc, ◌+◌, ◌≤◌, ◌<◌, ◌≡◌, refl, subst, ◌∙◌, Bool-cases, Option, none, some, List, [], ◌∷◌,
  ◌++◌, ltb, arith, ℕ_discrete, ==-refl, ==-false, inl, inr, ◌⊎◌,
}
use p4simulator.FattreeTopo.{LinkNodeTypeIndex, Topo, for_loop, push_back}

-- A link is in the list of a switch.
abbrev pub Lists : LinkNodeTypeIndex → List LinkNodeTypeIndex → Type 0
Lists l [] = ⊥
Lists l (x ∷ xs) = (x ≡ l) ⊎ Lists l xs

Lists-left :
    (l m : LinkNodeTypeIndex) (xs : List LinkNodeTypeIndex) → Lists l xs → Lists l (xs ++ (m ∷ []))
Lists-left l m [] h = elim h [ ]
Lists-left l m (x ∷ xs) (inl e) = inl e
Lists-left l m (x ∷ xs) (inr h) = inr (Lists-left l m xs h)

Lists-last : (l : LinkNodeTypeIndex) (xs : List LinkNodeTypeIndex) → Lists l (xs ++ (l ∷ []))
Lists-last l [] = inl refl
Lists-last l (x ∷ xs) = inr (Lists-last l xs)

abbrev pub Joins : Topo → ℕ → LinkNodeTypeIndex → Type 0
Joins t a l = Lists l (t.links a)

-- A later tree has the switches and the links of an earlier one.
pub record Extends (t u : Topo) : Type 0 where
  pub same_switches : u.switch_num ≡ t.switch_num
  pub keeps : (a : ℕ) (l : LinkNodeTypeIndex) → Joins t a l → Joins u a l

pub Extends-refl : (t : Topo) → Extends t t
Extends-refl t = record { same_switches = refl; keeps = λ a l h. h }

pub Extends-trans : (t u v : Topo) → Extends t u → Extends u v → Extends t v
Extends-trans t u v e f = record {
  same_switches = f.same_switches ∙ e.same_switches;
  keeps = λ a l h. f.keeps a l (e.keeps a l h);
}

-- What holds of a result, when there is one.
abbrev pub After {ℓ κ} : {S : Type ℓ} → (S → Type κ) → Option S → Type κ
After P none = Unit
After P (some s) = P s

pub next-After {ℓ κ λ'} :
    {S : Type ℓ} (P : S → Type κ) (Q : S → Type λ') (o : Option S) (f : S → Option S)
    → ((s : S) → P s → After Q (f s))
    → After P o
    → After Q (elim o [ none ↦ none | some s ↦ f s ])
next-After P Q none f step h = tt
next-After P Q (some s) f step h = step s h

pub After-map {ℓ κ λ'} :
    {S : Type ℓ} (P : S → Type κ) (Q : S → Type λ') (o : Option S)
    → ((s : S) → P s → Q s)
    → After P o
    → After Q o
After-map P Q none f h = tt
After-map P Q (some s) f h = f s h

-- A round, or some of them, on states that hold a tree: a condition on the state is kept, the tree grows,
-- and what the rounds are to join is joined.
module _ {S : Type 0} (tree : S → Topo) (Inv : S → Type 0) (Joined : ℕ → Topo → Type 0) where
  abbrev pub Round : ℕ → S → S → Type 0
  Round k s u = Inv u × Extends (tree s) (tree u) × Joined k (tree u)

  abbrev pub Rounds : ℕ → ℕ → S → S → Type 0
  Rounds i n s u =
      Inv u × Extends (tree s) (tree u) × ((k : ℕ) → i ≤ k → k < i + n → Joined k (tree u))

module _ {S : Type 0} (tree : S → Topo) (Inv : S → Type 0) (Joined : ℕ → Topo → Type 0)
    (keeps : (k : ℕ) (t u : Topo) → Extends t u → Joined k t → Joined k u) where
  joined_first :
      (i n : ℕ) (s u v : S)
      → Round tree Inv Joined i s u
      → Rounds tree Inv Joined (suc i) n u v
      → Rounds tree Inv Joined i (suc n) s v
  joined_first i n s u v (_, e, first) (inv, f, later) = (
    inv,
    Extends-trans (tree s) (tree u) (tree v) e f,
    λ k le lt. elim (ℕ_discrete i k) [
      | yes at ↦ subst (λ m. Joined m (tree v)) at (keeps i (tree u) (tree v) f first)
      | no ne ↦ later k (omega (arith, le, ne)) (omega (arith, lt))
    ],
  )

  pub for_loop-Joined :
      (n i : ℕ) (body : ℕ → S → Option S) (s : S)
      → ((k : ℕ) (u : S) → i ≤ k → k < i + n → Inv u → After (Round tree Inv Joined k u) (body k u))
      → Inv s
      → After (Rounds tree Inv Joined i n s) (for_loop n i body s)
  unfolding for_loop
  for_loop-Joined zero i body s round inv =
      (inv, Extends-refl (tree s), λ k le lt. absurd (omega (arith, le, lt)))
  for_loop-Joined (suc n) i body s round inv =
      next-After (Round tree Inv Joined i s) (Rounds tree Inv Joined i (suc n) s) (body i s)
        (for_loop n (suc i) body)
        (λ u h.
          After-map (Rounds tree Inv Joined (suc i) n u) (Rounds tree Inv Joined i (suc n) s)
            (for_loop n (suc i) body u) (λ v later. joined_first i n s u v h later)
            (for_loop-Joined n (suc i) body u
              (λ k w le lt inv. round k w (omega (arith, le)) (omega (arith, lt)) inv) h.0))
        (round i s (omega arith) (omega arith) inv)

-- A link that is pushed is there, and so are those before it.
abbrev pub Pushed : Topo → ℕ → LinkNodeTypeIndex → Topo → Type 0
Pushed t i l u = Extends t u × Joins u i l

pub push_back-Pushed :
    (t : Topo) (i : ℕ) (l : LinkNodeTypeIndex) → After (Pushed t i l) (push_back t i l)
unfolding push_back
push_back-Pushed t i l = elim (Bool-cases (ltb i t.switch_num)) [
  | inl inside ↦ rw inside (
    record {
      same_switches = refl;
      keeps = λ a m h. elim (ℕ_discrete a i) [
        | yes e ↦ rw (e, ==-refl i) (Lists-left m l (t.links i) (subst (λ b. Joins t b m) e h))
        | no ne ↦ rw (==-false a i ne) h
      ];
    },
    rw (==-refl i) (Lists-last l (t.links i)),
  )
  | inr outside ↦ rw outside tt
]
