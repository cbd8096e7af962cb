-- ===== src/EgressQueue/Capacity.antt =====
-- utils/p4-queue.h, `push_front`: when a packet is let in, and that the capacity bounds what is there.
use p4simulator.Base.{ℕ, suc, ◌^◌, ◌≤◌, ◌<◌, ◌≡◌, ◌≢◌, ◌⊎◌, ◌↔◌, refl, arith}
use p4simulator.EgressQueue.Heap.{count_of, count_of-emplace}
use p4simulator.EgressQueue.{
  QueueInfoPri, Logic, accepted, full, out_of_range, get_queue, with_queue, admit, push_front,
  get_next_tp,
}
use p4simulator.EgressQueue.Counts.{Inv, heap, home, get_queue_size}

module _ {ℓ} {T : Type ℓ} where
  module _ (l : Logic T) (now q p : ℕ) (item : T) where
    abbrev pri : QueueInfoPri
    pri = (get_queue l now q).pri p

    abbrev after : Logic T
    after = (push_front l now q p item).0

    with_queue_heaps : (w j : ℕ) → heap (with_queue l now q) w j ≡ heap l w j
    unfolding with_queue
    with_queue_heaps w j = refl

    admit_count : count_of q (home (admit l now q p item) q p) ≡ suc (count_of q (home l q p))
    unfolding admit
    admit_count = ground (
      arith,
      count_of-emplace q
          (record {
            e = item;
            queue_id = q;
            send = get_next_tp now pri;
            id = (l.workers_info (l.map_to_worker q)).wrapping_counter;
          })
          (home l q p),
    )

    pri_counted : Inv l → count_of q (home l q p) < 2 ^ 64 → pri.size ≡ count_of q (home l q p)
    pri_counted v small = omega (arith, get_queue_size l now q p, v.counted q p)

    -- `push_front` refuses with an exception just when the worker of the port or the priority is out
    -- of range, and returns 0 just when otherwise the priority queue holds its capacity or more;
    -- in both cases every heap is as before. In the third case the port has one entry more at the
    -- priority, and no more than the capacity.
    pub push_front_capacity :
        Inv l
        → count_of q (home l q p) < 2 ^ 64
        → ((push_front l now q p item).1 ≡ out_of_range
            ↔ (l.nb_workers ≤ l.map_to_worker q) ⊎ (l.nb_priorities ≤ p))
          × ((push_front l now q p item).1 ≡ full
              ↔ (l.map_to_worker q < l.nb_workers)
                × (p < l.nb_priorities)
                × (pri.capacity ≤ count_of q (home l q p)))
          × ((push_front l now q p item).1 ≢ accepted → (w j : ℕ) → heap after w j ≡ heap l w j)
          × ((push_front l now q p item).1 ≡ accepted
              → (count_of q (home after q p) ≡ suc (count_of q (home l q p)))
                × (count_of q (home after q p) ≤ pri.capacity))
    unfolding push_front
    push_front_capacity v small = (
      ground arith,
      ground (arith, pri_counted v small),
      λ refused w j. ground (arith, with_queue_heaps w j),
      ground (arith, pri_counted v small, admit_count),
    )
