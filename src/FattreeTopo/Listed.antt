-- ===== src/FattreeTopo/Listed.antt =====
-- utils/fattree-topo-helper.cc, `Build`: the links that are listed under the switches.
use p4simulator.Base.{
  ℕ, suc, ◌+◌, ◌≤◌, ◌<◌, ◌≡◌, refl, some, List, [], ◌∷◌, ◌++◌, update, length, length-append, arith,
  lt→ltb, sum_below, sum_up, ℕ_discrete, ==-refl, ==-false,
}
use p4simulator.FattreeTopo.{switch, host, LinkNodeTypeIndex, Topo, push_back}

-- The links that are listed.
abbrev pub total : Topo → ℕ
total t = sum_below t.switch_num (λ i. length (t.links i))

-- A link leads to one of `n` switches, or to one of `t` hosts, which are numbered after the switches.
abbrev pub InTree : ℕ → ℕ → LinkNodeTypeIndex → Type 0
InTree n t l = elim l.type [ switch ↦ l.index < n | host ↦ (n ≤ l.index) × (l.index < n + t) ]

abbrev pub AllInTree : ℕ → ℕ → List LinkNodeTypeIndex → Type 0
AllInTree n t [] = Unit
AllInTree n t (l ∷ ls) = InTree n t l × AllInTree n t ls

AllInTree-append :
    (n t : ℕ) (ls : List LinkNodeTypeIndex) (l : LinkNodeTypeIndex)
    → AllInTree n t ls
    → InTree n t l
    → AllInTree n t (ls ++ (l ∷ []))
AllInTree-append n t [] l a b = (b, tt)
AllInTree-append n t (x ∷ xs) l (a, c) b = (a, AllInTree-append n t xs l c b)

abbrev pub linked : Topo → ℕ → LinkNodeTypeIndex → Topo
linked t i l = record t { links = update t.links i (t.links i ++ (l ∷ [])) }

pub push_back-linked :
    (t : Topo) (i : ℕ) (l : LinkNodeTypeIndex)
    → i < t.switch_num
    → push_back t i l ≡ some (linked t i l)
unfolding push_back
push_back-linked t i l lt = rw (lt→ltb i t.switch_num lt) refl

pub total-linked :
    (t : Topo) (i : ℕ) (l : LinkNodeTypeIndex)
    → i < t.switch_num
    → total (linked t i l) ≡ suc (total t)
total-linked t i l lt =
    sum_up t.switch_num i (λ k. length (t.links k)) (λ k. length ((linked t i l).links k)) lt
      (λ k _ ne. rw (==-false k i ne) refl)
      (rw (==-refl i) (omega (arith, length-append (t.links i) (l ∷ []))))

pub linked-AllInTree :
    (n m : ℕ) (t : Topo) (i : ℕ) (l : LinkNodeTypeIndex)
    → InTree n m l
    → ((k : ℕ) → AllInTree n m (t.links k))
    → (k : ℕ) → AllInTree n m ((linked t i l).links k)
linked-AllInTree n m t i l tree all k = elim (ℕ_discrete k i) [
  | yes e ↦ rw (e, ==-refl i) (AllInTree-append n m (t.links i) l (all i) tree)
  | no ne ↦ rw (==-false k i ne) (all k)
]
