-- ===== src/FattreeTopo/Joints.antt =====
-- utils/fattree-topo-helper.cc, `Build`: what its loops join, one inside the other.
use p4simulator.Base.{ℕ, ◌+◌, ◌*◌, ◌%◌, ◌≤◌, ◌<◌, ◌≡◌, subst, ◌∙◌, Option, none, some, arith}
use native.Mathlib.Nat.{mod-lt}
use p4simulator.FattreeTopo.{
  switch, host, LinkNodeTypeIndex, Topo, wrap, for_loop, push_back, counted, then_push, link_pair,
  link_switches, link_pod, next_place, with_place, link_core_to, without_place, link_core,
  link_cores,
}
use p4simulator.FattreeTopo.Loops.{next_place-bound}
use p4simulator.FattreeTopo.Joined.{
  Joins, Extends, Extends-trans, After, After-map, Round, Rounds, for_loop-Joined, Pushed,
  push_back-Pushed,
}

Extends-counted : (t u : Topo) (n : ℕ) → Extends t u → Extends t (record u { link_num = n })
Extends-counted t u n e = record { same_switches = e.same_switches; keeps = e.keeps }

abbrev PushedBoth : Topo → ℕ → LinkNodeTypeIndex → ℕ → LinkNodeTypeIndex → Topo → Type 0
PushedBoth t i l j m u = Extends t u × Joins u i l × Joins u j m

then_push-PushedBoth :
    (t : Topo) (o : Option Topo) (i : ℕ) (l : LinkNodeTypeIndex) (j : ℕ) (m : LinkNodeTypeIndex)
    → After (Pushed t i l) o
    → After (PushedBoth t i l j m) (then_push o j m)
unfolding then_push
then_push-PushedBoth t none i l j m h = tt
then_push-PushedBoth t (some s) i l j m (e, first) =
    After-map (Pushed s j m) (PushedBoth t i l j m) (push_back s j m)
      (λ u h. (Extends-trans t s u e h.0, h.0.keeps i l first, h.1)) (push_back-Pushed s j m)

counted-PushedBoth :
    (t : Topo) (n i : ℕ) (l : LinkNodeTypeIndex) (j : ℕ) (m : LinkNodeTypeIndex) (o : Option Topo)
    → After (PushedBoth t i l j m) o
    → After (PushedBoth t i l j m) (counted n o)
unfolding counted
counted-PushedBoth t n i l j m none h = tt
counted-PushedBoth t n i l j m (some u) (e, first, second) =
    (Extends-counted t u _ e, first, second)

counted-Pushed :
    (t : Topo) (n i : ℕ) (l : LinkNodeTypeIndex) (o : Option Topo)
    → After (Pushed t i l) o
    → After (Pushed t i l) (counted n o)
unfolding counted
counted-Pushed t n i l none h = tt
counted-Pushed t n i l (some u) (e, first) = (Extends-counted t u _ e, first)

-- `half` is the number of switches of a kind in a pod, `core` that of core switches, `N` that of all.
module _ (half core N : ℕ) where
  abbrev Sized : Topo → Type 0
  Sized t = t.switch_num ≡ N

  -- Edge switch and aggregation switch of a pod, an edge switch and a host of its own.
  abbrev pub PairJoined : ℕ → ℕ → ℕ → Topo → Type 0
  PairJoined i j p t =
      Joins t (wrap (core + i * half + j))
        (record { type = switch; index = wrap (3 * core + i * half + p) })
      × Joins t (wrap (3 * core + i * half + j))
          (record { type = host; index = wrap (N + i * core + j * half + p) })

  abbrev pub SwitchJoined : ℕ → ℕ → Topo → Type 0
  SwitchJoined i j t = (p : ℕ) → 0 ≤ p → p < 0 + half → PairJoined i j p t

  abbrev pub PodJoined : ℕ → Topo → Type 0
  PodJoined i t = (j : ℕ) → 0 ≤ j → j < 0 + half → SwitchJoined i j t

  -- Some aggregation switch of a pod and a core switch.
  abbrev pub CoreJoined : ℕ → ℕ → Topo → Type 0
  CoreJoined c i t =
      (k : ℕ) × (k < half)
      × Joins t (wrap (core + i * half + k)) (record { type = switch; index = c })

  link_pair-Joined :
      (i j p : ℕ) (t : Topo)
      → Sized t
      → After (Round (λ u. u) Sized (PairJoined i j) p t) (link_pair half core i j p t)
  unfolding link_pair
  link_pair-Joined i j p t sized =
      After-map (PushedBoth t _ _ _ _) (Round (λ u. u) Sized (PairJoined i j) p t)
        (link_pair half core i j p t)
        (λ u h. (
          h.0.same_switches ∙ sized,
          h.0,
          (
            h.1,
            subst
                (λ n.
                  Joins u (wrap (3 * core + i * half + j))
                    (record { type = host; index = wrap (n + i * core + j * half + p) }))
                sized h.2,
          ),
        ))
        (counted-PushedBoth t 2 _ _ _ _ _
          (then_push-PushedBoth t _ _ _ _ _ (push_back-Pushed t _ _)))

  link_switches-Joined :
      (i j : ℕ) (t : Topo)
      → Sized t
      → After (Round (λ u. u) Sized (SwitchJoined i) j t) (link_switches half core i j t)
  unfolding link_switches
  link_switches-Joined i j t sized =
      for_loop-Joined (λ u. u) Sized (PairJoined i j)
        (λ p u v e h. (e.keeps _ _ h.0, e.keeps _ _ h.1)) half 0 (link_pair half core i j) t
        (λ p u le lt inv. link_pair-Joined i j p u inv) sized

  link_pod-Joined :
      (i : ℕ) (t : Topo)
      → Sized t
      → After (Round (λ u. u) Sized PodJoined i t) (link_pod half core i t)
  unfolding link_pod
  link_pod-Joined i t sized =
      for_loop-Joined (λ u. u) Sized (SwitchJoined i)
        (λ j u v e h p le lt. (e.keeps _ _ (h p le lt).0, e.keeps _ _ (h p le lt).1)) half 0
        (link_switches half core i) t (λ j u le lt inv. link_switches-Joined i j u inv) sized

  PodJoined-keeps : (i : ℕ) (t u : Topo) → Extends t u → PodJoined i t → PodJoined i u
  PodJoined-keeps i t u e h j le lt p le_p lt_p =
      (e.keeps _ _ (h j le lt p le_p lt_p).0, e.keeps _ _ (h j le lt p le_p lt_p).1)

  link_pods-Joined :
      (pods : ℕ) (t : Topo)
      → Sized t
      → After (Rounds (λ u. u) Sized PodJoined 0 pods t) (for_loop pods 0 (link_pod half core) t)
  link_pods-Joined pods t sized =
      for_loop-Joined (λ u. u) Sized PodJoined PodJoined-keeps pods 0 (link_pod half core) t
        (λ i u le lt inv. link_pod-Joined i u inv) sized

  CoreJoined-keeps : (c i : ℕ) (t u : Topo) → Extends t u → CoreJoined c i t → CoreJoined c i u
  CoreJoined-keeps c i t u e (k, lt, h) = (k, lt, e.keeps _ _ h)

  abbrev SizedPlace : Topo × ℕ → Type 0
  SizedPlace s = Sized s.0 × (s.1 < half)

  with_place-Joined :
      (c i k : ℕ) (t : Topo) (o : Option Topo)
      → Sized t
      → k < half
      → After (Pushed t (wrap (core + i * half + k)) (record { type = switch; index = c })) o
      → (before : ℕ)
      → After (Round (λ s. s.0) SizedPlace (CoreJoined c) i (t, before)) (with_place k o)
  unfolding with_place
  with_place-Joined c i k t none sized lt h before = tt
  with_place-Joined c i k t (some u) sized lt (e, joined) before =
      ((e.same_switches ∙ sized, lt), e, (k, lt, joined))

  link_core_to-Joined :
      (c i : ℕ) (s : Topo × ℕ)
      → SizedPlace s
      → After (Round (λ s. s.0) SizedPlace (CoreJoined c) i s) (link_core_to half core c i s)
  unfolding link_core_to
  link_core_to-Joined c i (t, k) (sized, lt) =
      with_place-Joined c i (next_place half k) t _ sized (next_place-bound half k lt)
        (counted-Pushed t 1 _ _ _ (push_back-Pushed t _ _)) k

  abbrev pub AllPods : ℕ → ℕ → Topo → Type 0
  AllPods pods c t = (i : ℕ) → 0 ≤ i → i < 0 + pods → CoreJoined c i t

  without_place-Joined :
      (pods c : ℕ) (t : Topo) (k : ℕ) (o : Option (Topo × ℕ))
      → After (Rounds (λ s. s.0) SizedPlace (CoreJoined c) 0 pods (t, k)) o
      → After (Round (λ u. u) Sized (AllPods pods) c t) (without_place o)
  unfolding without_place
  without_place-Joined pods c t k none h = tt
  without_place-Joined pods c t k (some (u, m)) ((sized, lt), e, all) = (sized, e, all)

  link_core-Joined :
      (rand : ℕ → ℕ) (pods c : ℕ) (t : Topo)
      → 0 < half
      → Sized t
      → After (Round (λ u. u) Sized (AllPods pods) c t) (link_core rand pods half core c t)
  unfolding link_core
  link_core-Joined rand pods c t pos sized = without_place-Joined pods c t (rand c % half) _ (
      for_loop-Joined (λ s. s.0) SizedPlace (CoreJoined c) (CoreJoined-keeps c) pods 0
        (link_core_to half core c) (t, rand c % half)
        (λ i s le lt inv. link_core_to-Joined c i s inv) (sized, mod-lt (rand c) pos))

  -- What is joined when all loops have ended.
  abbrev pub AllJoined : ℕ → Topo → Type 0
  AllJoined pods t =
      ((i : ℕ) → 0 ≤ i → i < 0 + pods → PodJoined i t)
      × ((c : ℕ) → 0 ≤ c → c < 0 + core → AllPods pods c t)

  cores-Joined :
      (rand : ℕ → ℕ) (pods : ℕ) (t : Topo) (o : Option Topo)
      → (0 < core → 0 < half)
      → After (Rounds (λ u. u) Sized PodJoined 0 pods t) o
      → After (AllJoined pods) (link_cores rand pods half core o)
  unfolding link_cores
  cores-Joined rand pods t none pos h = tt
  cores-Joined rand pods t (some u) pos (sized, e, joined) =
      After-map (Rounds (λ u. u) Sized (AllPods pods) 0 core u) (AllJoined pods)
        (for_loop core 0 (link_core rand pods half core) u)
        (λ v h. (λ i le lt. PodJoined-keeps i u v h.1 (joined i le lt), h.2))
        (for_loop-Joined (λ u. u) Sized (AllPods pods)
          (λ c t u e h i le lt. CoreJoined-keeps c i t u e (h i le lt)) core 0
          (link_core rand pods half core) u
          (λ c w le lt inv. link_core-Joined rand pods c w (pos (omega (arith, lt))) inv) sized)

  pub link_cores-Joined :
      (rand : ℕ → ℕ) (pods : ℕ) (t : Topo)
      → (0 < core → 0 < half)
      → Sized t
      → After
          (AllJoined pods)
          (link_cores rand pods half core (for_loop pods 0 (link_pod half core) t))
  link_cores-Joined rand pods t pos sized =
      cores-Joined rand pods t _ pos (link_pods-Joined pods t sized)
