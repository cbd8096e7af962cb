-- ===== src/EgressQueue/Tests.antt =====
-- The egress buffer at concrete calls: one worker, two ports, eight priorities.
use p4simulator.Base.{
  ℕ, ◌/◌, ◌≡◌, ◌≢◌, refl, List, [], ◌∷◌, arith, suc, ◌≤◌, ◌<◌, ◌++◌, ◌↔◌, ◌⊎◌, max, ◌+◌,
}
use p4simulator.EgressQueue.Heap.{emplace, timed_of, DueBy, count_of}
use p4simulator.EgressQueue.{
  Logic, accepted, full, out_of_range, nothing, taken, init, push_front, get_queue, admit,
  fresh_queue, rate_to_time, get_next_tp,
}
use p4simulator.EgressQueue.Pop.{pop_back, size, serving, uncounted, unheaped}
use p4simulator.EgressQueue.Settings.{set_rate_for_all, set_rate_fn, each_pri, for_all_q}
use p4simulator.EgressQueue.Counts.{Inv, heap, home}
use p4simulator.EgressQueue.Service.{Serves, pop_back-Serves}
use p4simulator.EgressQueue.History.{Call, push, rate_for_all, step, run, run-init-Inv}
use p4simulator.EgressQueue.Timing.{last_sent_of}
use p4simulator.EgressQueue.Fifo.{push_front_order}
use p4simulator.EgressQueue.Capacity.{push_front_capacity}

abbrev ns_per : ℕ → ℕ
ns_per pps = 1_000_000_000 / pps

abbrev one_worker : ℕ → ℕ
one_worker q = 0

-- A thousand packets a second; two packets for port 3, one of them urgent, and one for port 5.
abbrev calls : List (ℕ × Call ℕ)
calls = (0, rate_for_all 1000) ∷ (10, push 3 0 41) ∷ (20, push 3 7 42) ∷ (30, push 5 0 51) ∷ []

abbrev buffer : Logic ℕ
buffer = run (init 1 4 one_worker 8 ns_per) calls

first_pop : (pop_back buffer 2_000_000 0).1 ≡ taken 42 3 7
unfolding run step init push_front admit get_queue fresh_queue set_rate_for_all set_rate_fn each_pri
    rate_to_time get_next_tp emplace pop_back serving uncounted unheaped for_all_q
first_pop = refl

too_early : (pop_back buffer 500_000 0).1 ≡ nothing
unfolding run step init push_front admit get_queue fresh_queue set_rate_for_all set_rate_fn each_pri
    rate_to_time get_next_tp emplace pop_back serving for_all_q
too_early = refl

size_of_port : size buffer 3 ≡ 2
unfolding run step init push_front admit get_queue fresh_queue set_rate_for_all set_rate_fn each_pri
    rate_to_time get_next_tp emplace size for_all_q
size_of_port = refl

run-init-Inv_example : Inv buffer
run-init-Inv_example = run-init-Inv 1 4 one_worker 8 ns_per calls

pop_back-Serves_example : Serves buffer 2_000_000 0 (pop_back buffer 2_000_000 0)
unfolding run step init push_front admit get_queue fresh_queue set_rate_for_all set_rate_fn each_pri
    rate_to_time get_next_tp emplace for_all_q
pop_back-Serves_example =
    pop_back-Serves buffer 2_000_000 0 (run-init-Inv 1 4 one_worker 8 ns_per calls) (omega arith)
      (omega arith)

push_front_order_example :
    (timed_of 3 (home (push_front buffer 40 3 0 43).0 3 0)
      ≡ timed_of 3 (home buffer 3 0)
        ++ (
          43,
          max 40 (
              ((get_queue buffer 40 3).pri 0).last_sent
              + ((get_queue buffer 40 3).pri 0).pkt_delay_time),
        )
          ∷ [])
    × DueBy 3 ((get_queue buffer 40 3).pri 0).last_sent (home buffer 3 0)
    × (last_sent_of ((push_front buffer 40 3 0 43).0.queues_info 3) 0
        ≡ max 40 (
            ((get_queue buffer 40 3).pri 0).last_sent
            + ((get_queue buffer 40 3).pri 0).pkt_delay_time))
unfolding run step init push_front admit get_queue fresh_queue set_rate_for_all set_rate_fn each_pri
    rate_to_time get_next_tp emplace for_all_q
push_front_order_example =
    push_front_order 1 4 one_worker 8 ns_per calls (push_front buffer 40 3 0 43).0 40 3 0 43 refl
      (omega arith)

push_front_capacity_example :
    ((push_front buffer 40 3 0 43).1 ≡ out_of_range ↔ (1 ≤ 0) ⊎ (8 ≤ 0))
    × ((push_front buffer 40 3 0 43).1 ≡ full
        ↔ (0 < 1)
          × (0 < 8)
          × (((get_queue buffer 40 3).pri 0).capacity ≤ count_of 3 (home buffer 3 0)))
    × ((push_front buffer 40 3 0 43).1 ≢ accepted
        → (w j : ℕ) → heap (push_front buffer 40 3 0 43).0 w j ≡ heap buffer w j)
    × ((push_front buffer 40 3 0 43).1 ≡ accepted
        → (count_of 3 (home (push_front buffer 40 3 0 43).0 3 0)
            ≡ suc (count_of 3 (home buffer 3 0)))
          × (count_of 3 (home (push_front buffer 40 3 0 43).0 3 0)
              ≤ ((get_queue buffer 40 3).pri 0).capacity))
unfolding run step init push_front admit get_queue fresh_queue set_rate_for_all set_rate_fn each_pri
    rate_to_time get_next_tp emplace for_all_q
push_front_capacity_example =
    push_front_capacity buffer 40 3 0 43 (run-init-Inv 1 4 one_worker 8 ns_per calls) (omega arith)
