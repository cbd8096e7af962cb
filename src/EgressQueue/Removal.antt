-- ===== src/EgressQueue/Removal.antt =====
-- utils/p4-queue.h, class NSQueueingLogicPriRL: taking an entry out keeps the three sizes right.
use p4simulator.Base.{
  ℕ, ◌+◌, ◌<◌, ◌≡◌, ◌≢◌, none, some, List, ◌∷◌, ◌==◌, if◌then◌else◌, length, sum_below,
  sum_below-congr, sum_up, arith, ℕ_discrete,
}
use p4simulator.EgressQueue.Heap.{Entry, count_of}
use p4simulator.EgressQueue.{QueueInfo, Logic}
use p4simulator.EgressQueue.Pop.{unheaped, uncounted}
use p4simulator.EgressQueue.Counts.{Inv, heap, home}

module _ {ℓ} {T : Type ℓ} where
  module _ (l : Logic T) (w₀ p₀ : ℕ) (x : Entry T) (rest : List (Entry T))
      (h : p₀ < l.nb_priorities) (top : heap l w₀ p₀ ≡ x ∷ rest) (v : Inv l) where
    -- The entry is in the heap of its own queue, which is known.
    at_home : w₀ ≡ l.map_to_worker x.queue_id
    at_home = elim (ℕ_discrete w₀ (l.map_to_worker x.queue_id)) [
      | yes e ↦ e
      | no ne ↦ ground (arith, v.homed w₀ x.queue_id p₀ ne)
    ]

    pub known_queue : l.queues_info x.queue_id ≢ none
    known_queue e = ground (arith, v.known x.queue_id p₀ e, at_home)

    module _ (q : QueueInfo) (found : l.queues_info x.queue_id ≡ some q) where
      abbrev after : Logic T
      after = uncounted (unheaped l w₀ p₀ rest) w₀ q x.queue_id p₀

      count_after :
          (w j p : ℕ)
          → count_of j (heap l w p)
            ≡ (if w == w₀ then (if j == x.queue_id then (if p == p₀ then 1 else 0) else 0) else 0)
              + count_of j (heap after w p)
      unfolding uncounted unheaped
      count_after w j p = ground arith

      length-after :
          (w p : ℕ)
          → length (heap l w p)
            ≡ (if w == w₀ then (if p == p₀ then 1 else 0) else 0) + length (heap after w p)
      unfolding uncounted unheaped
      length-after w p = ground arith

      sum_count_after :
          (j : ℕ)
          → sum_below l.nb_priorities (λ p. count_of j (home l j p))
            ≡ (if j == x.queue_id then 1 else 0)
              + sum_below l.nb_priorities (λ p. count_of j (home after j p))
      unfolding uncounted unheaped
      sum_count_after j = elim (ℕ_discrete j x.queue_id) [
        | yes e ↦ rw e (
            ground (
              arith,
              sum_up l.nb_priorities p₀ (λ p. count_of x.queue_id (home after x.queue_id p))
                  (λ p. count_of x.queue_id (home l x.queue_id p)) h
                  (λ p _ ne. ground (arith, count_after (l.map_to_worker x.queue_id) x.queue_id p))
                  (ground (arith, at_home, count_after (l.map_to_worker x.queue_id) x.queue_id p₀)),
            ))
        | no ne ↦ ground (
          arith,
          sum_below-congr l.nb_priorities (λ p. count_of j (home l j p))
              (λ p. count_of j (home after j p))
              (λ p _. ground (arith, count_after (l.map_to_worker j) j p)),
        )
      ]

      sum_length-after :
          (w : ℕ)
          → sum_below l.nb_priorities (λ p. length (heap l w p))
            ≡ (if w == w₀ then 1 else 0) + sum_below l.nb_priorities (λ p. length (heap after w p))
      sum_length-after w = elim (ℕ_discrete w w₀) [
        | yes e ↦ ground (
          arith,
          sum_up l.nb_priorities p₀ (λ p. length (heap after w p)) (λ p. length (heap l w p)) h
              (λ p _ ne. ground (arith, length-after w p)) (ground (arith, length-after w p₀)),
        )
        | no ne ↦ ground (
          arith,
          sum_below-congr l.nb_priorities (λ p. length (heap l w p)) (λ p. length (heap after w p))
              (λ p _. ground (arith, length-after w p)),
        )
      ]

      pub removed-Inv : Inv after
      unfolding uncounted unheaped
      removed-Inv = record {
        counted =
            λ j p. ground (arith, at_home, count_after (l.map_to_worker j) j p, v.counted j p);
        queue_total = λ j. ground (arith, sum_count_after j, v.queue_total j);
        worker_total = λ w. ground (arith, sum_length-after w, v.worker_total w);
        homed = λ w j p ne. ground (arith, count_after w j p, v.homed w j p ne);
        known = λ j p e. ground (arith, count_after (l.map_to_worker j) j p, v.known j p);
      }
