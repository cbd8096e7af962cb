-- ===== src/FattreeTopo.antt =====
-- utils/fattree-topo-helper.cc, class FattreeTopoHelper: the fat tree of a number of pods. Numbers are
-- of 32 bits; an access beyond the end of the vector of switches is `none`.
pub mod Loops
pub mod Listed
pub mod Grown
pub mod Joined
pub mod Joints
pub mod Even
pub mod Odd
mod Tests
use p4simulator.Base.{
  ℕ, zero, suc, ◌+◌, ◌-◌, ◌*◌, ◌/◌, ◌%◌, ◌^◌, Option, none, some, List, [], ◌∷◌, ◌++◌, ltb, ◌==◌,
  if◌then◌else◌, update,
}

-- The type is 's' for a switch and 'h' for a host.
pub data NodeType : Type 0 where
  switch host : NodeType

pub record LinkNodeTypeIndex : Type 0 where
  pub type : NodeType
  pub index : ℕ

-- The links of a switch are listed under its number, in the order in which they were added.
pub record Topo : Type 0 where
  pub switch_num : ℕ
  pub terminal_num : ℕ
  pub pod_num : ℕ
  pub core_switch_num : ℕ
  pub links : ℕ → List LinkNodeTypeIndex
  pub link_num : ℕ

abbrev pub wrap : ℕ → ℕ
wrap n = n % 2 ^ 32

-- A `for` loop from `i` on, with the count of the rounds that are left.
unfoldable pub for_loop {ℓ} : {S : Type ℓ} → ℕ → ℕ → (ℕ → S → Option S) → S → Option S
for_loop zero i body s = some s
for_loop (suc left) i body s = elim (body i s) [
  | none ↦ none
  | some t ↦ for_loop left (suc i) body t
]

unfoldable pub push_back : Topo → ℕ → LinkNodeTypeIndex → Option Topo
push_back t i l =
    if ltb i t.switch_num
    then some (record t { links = update t.links i (t.links i ++ (l ∷ [])) })
    else none

unfoldable pub counted : ℕ → Option Topo → Option Topo
counted n none = none
counted n (some t) = some (record t { link_num = wrap (t.link_num + n) })

unfoldable pub then_push : Option Topo → ℕ → LinkNodeTypeIndex → Option Topo
then_push none i l = none
then_push (some t) i l = push_back t i l

-- A round of the innermost loop: a link of an aggregation switch and one of an edge switch.
unfoldable pub link_pair : ℕ → ℕ → ℕ → ℕ → ℕ → Topo → Option Topo
link_pair half core i j p t = counted 2 (
    then_push
      (push_back t (wrap (core + i * half + j))
        (record { type = switch; index = wrap (3 * core + i * half + p) }))
      (wrap (3 * core + i * half + j))
      (record { type = host; index = wrap (t.switch_num + i * core + j * half + p) }))

unfoldable pub link_switches : ℕ → ℕ → ℕ → ℕ → Topo → Option Topo
link_switches half core i j t = for_loop half 0 (link_pair half core i j) t

unfoldable pub link_pod : ℕ → ℕ → ℕ → Topo → Option Topo
link_pod half core i t = for_loop half 0 (link_switches half core i) t

-- The aggregation switch of a pod that a core switch is linked to moves on from pod to pod.
unfoldable pub next_place : ℕ → ℕ → ℕ
next_place half k = if k == half - 1 then 0 else suc k

-- The place is kept beside the tree.
unfoldable pub with_place : ℕ → Option Topo → Option (Topo × ℕ)
with_place k none = none
with_place k (some t) = some (t, k)

unfoldable pub link_core_to : ℕ → ℕ → ℕ → ℕ → Topo × ℕ → Option (Topo × ℕ)
link_core_to half core i j (t, k) = with_place (next_place half k) (
    counted 1 (
      push_back t (wrap (core + j * half + next_place half k))
        (record { type = switch; index = i })))

unfoldable pub without_place : Option (Topo × ℕ) → Option Topo
without_place none = none
without_place (some (t, k)) = some t

-- `rand` is the number that is drawn for a core switch.
unfoldable pub link_core : (ℕ → ℕ) → ℕ → ℕ → ℕ → ℕ → Topo → Option Topo
link_core rand pods half core i t =
    without_place (for_loop pods 0 (link_core_to half core i) (t, rand i % half))

unfoldable pub link_cores : (ℕ → ℕ) → ℕ → ℕ → ℕ → Option Topo → Option Topo
link_cores rand pods half core none = none
link_cores rand pods half core (some t) = for_loop core 0 (link_core rand pods half core) t

unfoldable pub empty : ℕ → ℕ → Topo
empty pods core = record {
  switch_num = wrap (5 * core);
  terminal_num = wrap (core * pods);
  pod_num = pods;
  core_switch_num = core;
  links = λ i. [];
  link_num = 0;
}

unfoldable pub build_on : (ℕ → ℕ) → ℕ → ℕ → ℕ → Option Topo
build_on rand pods half core =
    link_cores rand pods half core (for_loop pods 0 (link_pod half core) (empty pods core))

unfoldable pub build : ℕ → (ℕ → ℕ) → Option Topo
build pods rand = build_on rand pods (pods / 2) (wrap (pods / 2 * (pods / 2)))
