-- ===== src/FattreeTopo/Even.antt =====
-- utils/fattree-topo-helper.cc, `Build`: the tree of an even number of pods.
use p4simulator.Base.{
  ℕ, zero, suc, ◌+◌, ◌*◌, ◌/◌, ◌^◌, ◌≤◌, ◌<◌, ◌≡◌, refl, ap, subst, ◌∙◌, Option, some, arith,
  sum_below,
}
use native.Mathlib.Nat.{mul_comm}
use p4simulator.FattreeTopo.{NodeType, switch, host, Topo, wrap, link_cores, empty, build_on, build}
use p4simulator.FattreeTopo.Loops.{wrap_small, mul_mono, place-bound, positive}
use p4simulator.FattreeTopo.Joined.{Joins, After}
use p4simulator.FattreeTopo.Joints.{AllJoined, link_cores-Joined}
use p4simulator.FattreeTopo.Listed.{total, AllInTree}
use p4simulator.FattreeTopo.Grown.{link_pods-Grown, link_cores-Grown}

-- The tree of `2 * h` pods. Core switches are numbered from 0, aggregation switches from `h * h`, edge
-- switches from `3 * (h * h)` and hosts from `5 * (h * h)`, pod by pod.
pub record FatTree (h : ℕ) (t : Topo) : Type 0 where
  pub switch_count : t.switch_num ≡ 5 * (h * h)
  pub host_count : t.terminal_num ≡ 2 * h * (h * h)
  pub pod_count : t.pod_num ≡ 2 * h
  pub core_count : t.core_switch_num ≡ h * h
  pub link_count : t.link_num ≡ 3 * (2 * h * (h * h))
  pub all_listed : total t ≡ t.link_num
  pub all_in_tree : (i : ℕ) → AllInTree (5 * (h * h)) (2 * h * (h * h)) (t.links i)
  -- Every aggregation switch of a pod and every edge switch of the pod.
  pub edge_switches_joined :
      (i j p : ℕ)
      → i < 2 * h
      → j < h
      → p < h
      → Joins t (h * h + i * h + j) (record { type = switch; index = 3 * (h * h) + i * h + p })
  -- Every edge switch and its `h` hosts.
  pub hosts_joined :
      (i j p : ℕ)
      → i < 2 * h
      → j < h
      → p < h
      → Joins t
          (3 * (h * h) + i * h + j)
          (record { type = host; index = 5 * (h * h) + i * (h * h) + j * h + p })
  -- An aggregation switch of every pod and every core switch.
  pub cores_joined :
      (c i : ℕ)
      → c < h * h
      → i < 2 * h
      → (k : ℕ) × (k < h) × Joins t (h * h + i * h + k) (record { type = switch; index = c })

square-bound : (h : ℕ) → h ≤ 512 → h * h ≤ 512 * 512
square-bound h le = omega (arith, mul_mono h 512 h le)

cube-bound : (h : ℕ) → h ≤ 512 → 2 * h * (h * h) ≤ 1024 * (512 * 512)
cube-bound h le =
    omega (arith, mul_mono (2 * h) 1024 (h * h) (omega (arith, le)), square-bound h le)

half_of : (h : ℕ) → 2 * h / 2 ≡ h
half_of h = omega arith

empty-total : (n : ℕ) → sum_below n (λ i. 0) ≡ 0
empty-total zero = refl
empty-total (suc n) = omega (arith, empty-total n)

Joins-small :
    (t : Topo) (type : NodeType) (a n : ℕ)
    → a < 2 ^ 32
    → n < 2 ^ 32
    → Joins t (wrap a) (record { type = type; index = wrap n })
    → Joins t a (record { type = type; index = n })
Joins-small t type a n small_a small_n joined =
    subst (λ m. Joins t a (record { type = type; index = m })) (wrap_small n small_n)
      (subst (λ b. Joins t b (record { type = type; index = wrap n })) (wrap_small a small_a)
        joined)

-- What the loops join, of a tree that they have built.
After-some {ℓ} : (P : Topo → Type ℓ) (o : Option Topo) (t : Topo) → o ≡ some t → After P o → P t
After-some P o t e h = subst (After P) e h

module _ (h : ℕ) (le : h ≤ 512) (t : Topo) (all : AllJoined h (h * h) (5 * (h * h)) (2 * h) t) where
  at_pod : (i j : ℕ) → i < 2 * h → j < h → i * h + j < 2 * (h * h)
  at_pod i j lt_i lt_j = omega (arith, place-bound (2 * h) h i j lt_i lt_j)

  built-edge_switches :
      (i j p : ℕ)
      → i < 2 * h
      → j < h
      → p < h
      → Joins t (h * h + i * h + j) (record { type = switch; index = 3 * (h * h) + i * h + p })
  built-edge_switches i j p lt_i lt_j lt_p =
      Joins-small t switch _ _ (omega (arith, at_pod i j lt_i lt_j, square-bound h le))
        (omega (arith, at_pod i p lt_i lt_p, square-bound h le))
        (all.0 i (omega arith) (omega (arith, lt_i)) j (omega arith) (omega (arith, lt_j)) p
          (omega arith) (omega (arith, lt_p))).0

  built-hosts :
      (i j p : ℕ)
      → i < 2 * h
      → j < h
      → p < h
      → Joins t
          (3 * (h * h) + i * h + j)
          (record { type = host; index = 5 * (h * h) + i * (h * h) + j * h + p })
  built-hosts i j p lt_i lt_j lt_p =
      Joins-small t host _ _ (omega (arith, at_pod i j lt_i lt_j, square-bound h le))
        (omega (
          arith,
          place-bound (2 * h) (h * h) i (j * h + p) lt_i (place-bound h h j p lt_j lt_p),
          square-bound h le,
          cube-bound h le,
        ))
        (all.0 i (omega arith) (omega (arith, lt_i)) j (omega arith) (omega (arith, lt_j)) p
          (omega arith) (omega (arith, lt_p))).1

  built-cores :
      (c i : ℕ)
      → c < h * h
      → i < 2 * h
      → (k : ℕ) × (k < h) × Joins t (h * h + i * h + k) (record { type = switch; index = c })
  built-cores c i lt_c lt_i =
      let (k, lt_k, joined) =
        all.1 c (omega arith) (omega (arith, lt_c)) i (omega arith) (omega (arith, lt_i)) in
      (
        k,
        lt_k,
        subst (λ b. Joins t b (record { type = switch; index = c }))
            (wrap_small (h * h + i * h + k)
              (omega (arith, at_pod i k lt_i lt_k, square-bound h le)))
            joined,
      )

build_on-FatTree :
    (h : ℕ) (rand : ℕ → ℕ)
    → h ≤ 512
    → (t : Topo) × (build_on rand (2 * h) h (h * h) ≡ some t) × FatTree h t
unfolding build_on empty
build_on-FatTree h rand le =
    let t0 : Topo = empty (2 * h) (h * h) in
    let n_is : t0.switch_num ≡ 5 * (h * h) = omega (arith, square-bound h le) in
    let t_is : t0.terminal_num ≡ 2 * h * (h * h) =
      omega (arith, cube-bound h le, mul_comm (2 * h) (h * h)) in
    let small : 3 * (2 * h * (h * h)) < 2 ^ 32 = omega (arith, cube-bound h le) in
    let n_small : 5 * (h * h) + 2 * h * (h * h) < 2 ^ 32 =
      omega (arith, cube-bound h le, square-bound h le) in
    let (u, e, gu) =
      link_pods-Grown h (5 * (h * h)) (2 * h * (h * h)) (2 * h) (3 * (2 * h * (h * h))) small refl
        refl n_small (h * h * (2 * h)) (3 * (2 * h * (h * h))) t0
        (omega (arith, mul_comm (2 * h) (h * h)))
        record {
          switches = n_is;
          terminals = t_is;
          pod = refl;
          cores = refl;
          to_come = omega arith;
          listed = empty-total t0.switch_num;
          in_tree = λ i. tt;
        } in
    let (v, f, gv) =
      link_cores-Grown h (5 * (h * h)) (2 * h * (h * h)) (2 * h) (3 * (2 * h * (h * h))) small refl
        refl n_small rand u gu in
    let built : build_on rand (2 * h) h (h * h) ≡ some v =
      ap (link_cores rand (2 * h) h (h * h)) e ∙ f in
    let all : AllJoined h (h * h) (5 * (h * h)) (2 * h) v =
      After-some (AllJoined h (h * h) (5 * (h * h)) (2 * h)) _ v built
        (link_cores-Joined h (h * h) (5 * (h * h)) rand (2 * h) t0 (λ lt. positive h 0 lt) n_is) in
    (
      v,
      built,
      record {
        switch_count = gv.switches;
        host_count = gv.terminals;
        pod_count = gv.pod;
        core_count = gv.cores;
        link_count = omega (arith, gv.to_come);
        all_listed = gv.listed;
        all_in_tree = gv.in_tree;
        edge_switches_joined = built-edge_switches h le v all;
        hosts_joined = built-hosts h le v all;
        cores_joined = built-cores h le v all;
      },
    )

-- The helper's tree of an even number of pods, `2 * h` up to 1024, is built without an access beyond the
-- vector of switches, whatever numbers are drawn: `5 * h * h` switches, `2 * h * h * h` hosts and
-- `6 * h * h * h` links, each listed under a switch and leading to a switch or a host of the tree. Among
-- the links are those of each aggregation switch to every edge switch of its pod, of each edge switch to
-- its `h` hosts, and, for each core switch, of an aggregation switch in every pod.
pub build-FatTree :
    (h : ℕ) (rand : ℕ → ℕ) → h ≤ 512 → (t : Topo) × (build (2 * h) rand ≡ some t) × FatTree h t
unfolding build
build-FatTree h rand le =
    let core_is : wrap (2 * h / 2 * (2 * h / 2)) ≡ h * h =
      ap (λ n. wrap (n * n)) (half_of h) ∙ wrap_small (h * h) (omega (arith, square-bound h le)) in
    let (t, e, g) = build_on-FatTree h rand le in
    (
      t,
      ap (build_on rand (2 * h) (2 * h / 2)) core_is
          ∙ ap (λ n. build_on rand (2 * h) n (h * h)) (half_of h)
          ∙ e,
      g,
    )
