-- ===== src/FattreeTopo/Grown.antt =====
-- utils/fattree-topo-helper.cc, `Build`: its loops at an even number of pods.
use p4simulator.Base.{ℕ, suc, ◌+◌, ◌*◌, ◌%◌, ◌^◌, ◌<◌, ◌≡◌, refl, ap, subst, ◌∙◌, some, arith}
use native.Mathlib.Nat.{suc-mul, mod-lt}
use p4simulator.FattreeTopo.{
  LinkNodeTypeIndex, Topo, wrap, for_loop, push_back, counted, then_push, link_pair, link_switches,
  link_pod, next_place, with_place, link_core_to, without_place, link_core, link_cores,
}
use p4simulator.FattreeTopo.Loops.{
  for_loop-ends, place-bound, wrap_small, next_place-bound, positive,
}
use p4simulator.FattreeTopo.Listed.{
  total, InTree, AllInTree, linked, push_back-linked, total-linked, linked-AllInTree,
}

module _ (h N T pods End : ℕ) (small : End < 2 ^ 32) where
  -- The tree so far, and how many links are still to come.
  pub record Grown (left : ℕ) (t : Topo) : Type 0 where
    pub switches : t.switch_num ≡ N
    pub terminals : t.terminal_num ≡ T
    pub pod : t.pod_num ≡ pods
    pub cores : t.core_switch_num ≡ h * h
    pub to_come : t.link_num + left ≡ End
    pub listed : total t ≡ t.link_num
    pub in_tree : (i : ℕ) → AllInTree N T (t.links i)

  counted-Grown :
      (n left more : ℕ) (t u : Topo)
      → more ≡ n + left
      → Grown more t
      → u.switch_num ≡ t.switch_num
      → u.terminal_num ≡ t.terminal_num
      → u.pod_num ≡ t.pod_num
      → u.core_switch_num ≡ t.core_switch_num
      → u.link_num ≡ t.link_num
      → total u ≡ n + total t
      → ((i : ℕ) → AllInTree N T (u.links i))
      → (v : Topo) × (counted n (some u) ≡ some v) × Grown left v
  unfolding counted
  counted-Grown n left more t u more_is g a b c d e f all =
      let fits : wrap (u.link_num + n) ≡ u.link_num + n =
        wrap_small (u.link_num + n) (omega (arith, small, g.to_come, e, more_is)) in
      (
        record u { link_num = wrap (u.link_num + n) },
        refl,
        record {
          switches = a ∙ g.switches;
          terminals = b ∙ g.terminals;
          pod = c ∙ g.pod;
          cores = d ∙ g.cores;
          to_come = omega (arith, fits, e, g.to_come, more_is);
          listed = omega (arith, fits, e, f, g.listed);
          in_tree = all;
        },
      )

  -- After one link and its count.
  pushed-Grown :
      (left more : ℕ) (t : Topo) (i : ℕ) (l : LinkNodeTypeIndex)
      → more ≡ 1 + left
      → Grown more t
      → i < N
      → InTree N T l
      → (v : Topo) × (counted 1 (push_back t i l) ≡ some v) × Grown left v
  pushed-Grown left more t i l more_is g lt tree =
      let inside : i < t.switch_num = omega (arith, lt, g.switches) in
      let (v, e, gv) =
        counted-Grown 1 left more t (linked t i l) more_is g refl refl refl refl refl
          (omega (arith, total-linked t i l inside)) (linked-AllInTree N T t i l tree g.in_tree) in
      (v, ap (counted 1) (push_back-linked t i l inside) ∙ e, gv)

  -- After two links and their count.
  pushed_twice-Grown :
      (left more : ℕ) (t : Topo) (i j : ℕ) (l k : LinkNodeTypeIndex)
      → more ≡ 2 + left
      → Grown more t
      → i < N
      → j < N
      → InTree N T l
      → InTree N T k
      → (v : Topo) × (counted 2 (then_push (push_back t i l) j k) ≡ some v) × Grown left v
  unfolding then_push
  pushed_twice-Grown left more t i j l k more_is g lt lt_2 tree tree_2 =
      let inside : i < t.switch_num = omega (arith, lt, g.switches) in
      let inside_2 : j < t.switch_num = omega (arith, lt_2, g.switches) in
      let u : Topo = linked t i l in
      let (v, e, gv) =
        counted-Grown 2 left more t (linked u j k) more_is g refl refl refl refl refl
          (omega (arith, total-linked t i l inside, total-linked u j k inside_2))
          (linked-AllInTree N T u j k tree_2 (linked-AllInTree N T t i l tree g.in_tree)) in
      (
        v,
        ap (λ o. counted 2 (then_push o j k)) (push_back-linked t i l inside)
            ∙ ap (counted 2) (push_back-linked u j k inside_2)
            ∙ e,
        gv,
      )

  module _ (n_is : N ≡ 5 * (h * h)) (t_is : T ≡ 2 * h * (h * h)) (n_small : N + T < 2 ^ 32) where
    -- A round of the innermost loop stays within the tree.
    link_pair-Grown :
        (left more i j p : ℕ) (t : Topo)
        → more ≡ 2 + left
        → i < 2 * h
        → j < h
        → p < h
        → Grown more t
        → (v : Topo) × (link_pair h (h * h) i j p t ≡ some v) × Grown left v
    unfolding link_pair
    link_pair-Grown left more i j p t more_is lt_i lt_j lt_p g =
        let at_j : i * h + j < 2 * (h * h) = omega (arith, place-bound (2 * h) h i j lt_i lt_j) in
        let at_p : i * h + p < 2 * (h * h) = omega (arith, place-bound (2 * h) h i p lt_i lt_p) in
        let at_host : i * (h * h) + (j * h + p) < T = omega (
          arith,
          t_is,
          place-bound (2 * h) (h * h) i (j * h + p) lt_i (place-bound h h j p lt_j lt_p),
        ) in
        pushed_twice-Grown left more t _ _ _ _ more_is g (omega (arith, n_is, n_small, at_j))
          (omega (arith, n_is, n_small, at_j)) (omega (arith, n_is, n_small, at_p))
          (
            omega (arith, n_is, n_small, at_host, g.switches),
            omega (arith, n_is, n_small, at_host, g.switches),
          )

    link_switches-Grown :
        (left more i j : ℕ) (t : Topo)
        → more ≡ 2 * h + left
        → i < 2 * h
        → j < h
        → Grown more t
        → (v : Topo) × (link_switches h (h * h) i j t ≡ some v) × Grown left v
    unfolding link_switches
    link_switches-Grown left more i j t more_is lt_i lt_j g =
        let (u, e, gu) =
          for_loop-ends (link_pair h (h * h) i j) (λ n. Grown (2 * n + left)) h 0 t
            (subst (λ m. Grown m t) more_is g)
            (λ n p u e gu.
              link_pair-Grown (2 * n + left) _ i j p u (omega arith) lt_i lt_j (omega (arith, e))
                gu) in
        (u, e, subst (λ m. Grown m u) (omega arith) gu)

    link_pod-Grown :
        (left more i : ℕ) (t : Topo)
        → more ≡ 2 * (h * h) + left
        → i < 2 * h
        → Grown more t
        → (v : Topo) × (link_pod h (h * h) i t ≡ some v) × Grown left v
    unfolding link_pod
    link_pod-Grown left more i t more_is lt_i g =
        let (u, e, gu) =
          for_loop-ends (link_switches h (h * h) i) (λ n. Grown (2 * (n * h) + left)) h 0 t
            (subst (λ m. Grown m t) more_is g)
            (λ n j u e gu.
              link_switches-Grown (2 * (n * h) + left) _ i j u (omega (arith, suc-mul n h)) lt_i
                (omega (arith, e)) gu) in
        (u, e, subst (λ m. Grown m u) (omega arith) gu)

    pub link_pods-Grown :
        (left more : ℕ) (t : Topo)
        → more ≡ 2 * (2 * h * (h * h)) + left
        → Grown more t
        → (v : Topo) × (for_loop (2 * h) 0 (link_pod h (h * h)) t ≡ some v) × Grown left v
    link_pods-Grown left more t more_is g =
        let (u, e, gu) =
          for_loop-ends (link_pod h (h * h)) (λ n. Grown (2 * (n * (h * h)) + left)) (2 * h) 0 t
            (subst (λ m. Grown m t) more_is g)
            (λ n i u e gu.
              link_pod-Grown (2 * (n * (h * h)) + left) _ i u (omega (arith, suc-mul n (h * h)))
                (omega (arith, e)) gu) in
        (u, e, subst (λ m. Grown m u) (omega arith) gu)

    -- A round of the loop over the pods of a core switch, with the place in the pod.
    link_core_to-Grown :
        (left more i j : ℕ) (s : Topo × ℕ)
        → more ≡ 1 + left
        → i < h * h
        → j < 2 * h
        → Grown more s.0 × (s.1 < h)
        → (r : Topo × ℕ) × (link_core_to h (h * h) i j s ≡ some r) × (Grown left r.0 × (r.1 < h))
    unfolding link_core_to with_place
    link_core_to-Grown left more i j (t, k) more_is lt_i lt_j (g, lt_k) =
        let lt_next : next_place h k < h = next_place-bound h k lt_k in
        let at : j * h + next_place h k < 2 * (h * h) =
          omega (arith, place-bound (2 * h) h j (next_place h k) lt_j lt_next) in
        let (v, e, gv) =
          pushed-Grown left more t _ _ more_is g (omega (arith, n_is, n_small, at))
            (omega (arith, n_is, lt_i)) in
        ((v, next_place h k), ap (with_place (next_place h k)) e, (gv, lt_next))

    link_core-Grown :
        (rand : ℕ → ℕ) (left more i : ℕ) (t : Topo)
        → more ≡ 2 * h + left
        → i < h * h
        → 0 < h
        → Grown more t
        → (v : Topo) × (link_core rand (2 * h) h (h * h) i t ≡ some v) × Grown left v
    unfolding link_core without_place
    link_core-Grown rand left more i t more_is lt_i pos g =
        let (s, e, gs) =
          for_loop-ends (link_core_to h (h * h) i) (λ n s. Grown (n + left) (s.0) × (s.1 < h))
            (2 * h) 0 (t, rand i % h) (subst (λ m. Grown m t) more_is g, mod-lt (rand i) pos)
            (λ n j s e gs.
              link_core_to-Grown (n + left) (suc n + left) i j s (omega arith) lt_i
                (omega (arith, e)) gs) in
        (s.0, ap without_place e, subst (λ m. Grown m (s.0)) (omega arith) (gs.0))

    pub link_cores-Grown :
        (rand : ℕ → ℕ) (t : Topo)
        → Grown (h * h * (2 * h)) t
        → (v : Topo) × (link_cores rand (2 * h) h (h * h) (some t) ≡ some v) × Grown 0 v
    unfolding link_cores
    link_cores-Grown rand t g =
        let (u, e, gu) =
          for_loop-ends (link_core rand (2 * h) h (h * h)) (λ n. Grown (n * (2 * h))) (h * h) 0 t g
            (λ n i u e gu.
              link_core-Grown rand (n * (2 * h)) (suc n * (2 * h)) i u
                (omega (arith, suc-mul n (2 * h))) (omega (arith, e))
                (positive h i (omega (arith, e))) gu) in
        (u, e, subst (λ m. Grown m u) (omega arith) gu)
