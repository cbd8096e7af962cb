-- ===== src/FattreeTopo/Tests.antt =====
-- utils/fattree-topo-helper.cc: the trees of four and of three pods.
use p4simulator.Base.{ℕ, ◌*◌, ◌+◌, ◌≡◌, refl, some, none, Option, arith}
use p4simulator.FattreeTopo.{
  Topo, build, for_loop, push_back, counted, then_push, link_pair, link_switches, link_pod,
  next_place, with_place, link_core_to, without_place, link_core, link_cores, empty, build_on,
}
use p4simulator.FattreeTopo.Even.{FatTree, build-FatTree}
use p4simulator.FattreeTopo.Odd.{build-none}

abbrev drawn : ℕ → ℕ
drawn i = 7 * i + 3

abbrev link_count_of : Option Topo → ℕ
link_count_of none = 0
link_count_of (some t) = t.link_num

four_pods : link_count_of (build 4 drawn) ≡ 48
unfolding build build_on for_loop push_back counted then_push link_pair link_switches link_pod
    next_place with_place link_core_to without_place link_core link_cores empty
four_pods = refl

build-FatTree_example : (t : Topo) × (build (2 * 2) drawn ≡ some t) × FatTree 2 t
build-FatTree_example = build-FatTree 2 drawn (omega arith)

build-none_example : build (2 * 1 + 1) drawn ≡ none
build-none_example = build-none 1 drawn (omega arith) (omega arith)
