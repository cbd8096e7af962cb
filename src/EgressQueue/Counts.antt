-- ===== src/EgressQueue/Counts.antt =====
-- utils/p4-queue.h, class NSQueueingLogicPriRL: the three sizes that the egress buffer keeps count the
-- entries of its heaps.
use p4simulator.Base.{
  ℕ, ◌+◌, ◌%◌, ◌^◌, ◌<◌, ◌≡◌, ◌≢◌, refl, Option, none, some, List, ◌==◌, if◌then◌else◌, length,
  sum_below, sum_below-congr, sum_up, arith, ℕ_discrete,
}
use p4simulator.EgressQueue.Heap.{Entry, count_of, count_of-emplace, length-emplace}
use p4simulator.EgressQueue.{QueueInfo, Logic, fresh_queue, get_queue, admit, get_next_tp}

-- The recorded sizes of a logical queue, none where there is no such queue.
abbrev pub pri_size : Option QueueInfo → ℕ → ℕ
pri_size none p = 0
pri_size (some q) p = (q.pri p).size

abbrev pub queue_size : Option QueueInfo → ℕ
queue_size none = 0
queue_size (some q) = q.size

module _ {ℓ} {T : Type ℓ} where
  abbrev pub heap : Logic T → ℕ → ℕ → List (Entry T)
  heap l w p = (l.workers_info w).queues p

  -- The heap that holds a logical queue at a priority.
  abbrev pub home : Logic T → ℕ → ℕ → List (Entry T)
  home l q p = heap l (l.map_to_worker q) p

  pub record Inv (l : Logic T) : Type 0 where
    pub counted : (q p : ℕ) → pri_size (l.queues_info q) p ≡ count_of q (home l q p) % 2 ^ 64
    pub queue_total :
        (q : ℕ)
        → queue_size (l.queues_info q)
          ≡ sum_below l.nb_priorities (λ p. count_of q (home l q p)) % 2 ^ 64
    pub worker_total :
        (w : ℕ)
        → (l.workers_info w).size ≡ sum_below l.nb_priorities (λ p. length (heap l w p)) % 2 ^ 64
    pub homed : (w q p : ℕ) → w ≢ l.map_to_worker q → count_of q (heap l w p) ≡ 0
    pub known : (q p : ℕ) → l.queues_info q ≡ none → count_of q (home l q p) ≡ 0

  pub get_queue_size :
      (l : Logic T) (now q p : ℕ)
      → (((get_queue l now q).pri p).size ≡ pri_size (l.queues_info q) p)
        × ((get_queue l now q).size ≡ queue_size (l.queues_info q))
  unfolding get_queue fresh_queue
  get_queue_size l now q p = ground arith

  module _ (l : Logic T) (now q₀ p₀ : ℕ) (item : T) (h : p₀ < l.nb_priorities) (v : Inv l) where
    abbrev after : Logic T
    after = admit l now q₀ p₀ item

    abbrev entry : Entry T
    entry = record {
      e = item;
      queue_id = q₀;
      send = get_next_tp now ((get_queue l now q₀).pri p₀);
      id = (l.workers_info (l.map_to_worker q₀)).wrapping_counter;
    }

    count_after :
        (w q p : ℕ)
        → count_of q (heap after w p)
          ≡ (if w == l.map_to_worker q₀
              then (if q == q₀ then (if p == p₀ then 1 else 0) else 0)
              else 0)
            + count_of q (heap l w p)
    unfolding admit
    count_after w q p = ground (arith, count_of-emplace q entry (home l q₀ p₀))

    length-after :
        (w p : ℕ)
        → length (heap after w p)
          ≡ (if w == l.map_to_worker q₀ then (if p == p₀ then 1 else 0) else 0)
            + length (heap l w p)
    unfolding admit
    length-after w p = ground (arith, length-emplace entry (home l q₀ p₀))

    nb_after : (after.nb_priorities ≡ l.nb_priorities) × (after.map_to_worker ≡ l.map_to_worker)
    unfolding admit
    nb_after = (refl, refl)

    admit-counted :
        (q p : ℕ) → pri_size (after.queues_info q) p ≡ count_of q (home after q p) % 2 ^ 64
    unfolding admit
    admit-counted q p =
        ground (arith, count_after (l.map_to_worker q) q p, v.counted q p, get_queue_size l now q p)

    sum_count_after :
        (q : ℕ)
        → sum_below l.nb_priorities (λ p. count_of q (home after q p))
          ≡ (if q == q₀ then 1 else 0) + sum_below l.nb_priorities (λ p. count_of q (home l q p))
    unfolding admit
    sum_count_after q = elim (ℕ_discrete q q₀) [
      | yes e ↦ rw e (
          ground (
            arith,
            sum_up l.nb_priorities p₀ (λ p. count_of q₀ (home l q₀ p))
                (λ p. count_of q₀ (home after q₀ p)) h
                (λ p _ ne. ground (arith, count_after (l.map_to_worker q₀) q₀ p))
                (ground (arith, count_after (l.map_to_worker q₀) q₀ p₀)),
          ))
      | no ne ↦ ground (
        arith,
        sum_below-congr l.nb_priorities (λ p. count_of q (home after q p))
            (λ p. count_of q (home l q p))
            (λ p _. ground (arith, count_after (l.map_to_worker q) q p)),
      )
    ]

    sum_length-after :
        (w : ℕ)
        → sum_below l.nb_priorities (λ p. length (heap after w p))
          ≡ (if w == l.map_to_worker q₀ then 1 else 0)
            + sum_below l.nb_priorities (λ p. length (heap l w p))
    sum_length-after w = elim (ℕ_discrete w (l.map_to_worker q₀)) [
      | yes e ↦ ground (
        arith,
        sum_up l.nb_priorities p₀ (λ p. length (heap l w p)) (λ p. length (heap after w p)) h
            (λ p _ ne. ground (arith, length-after w p)) (ground (arith, length-after w p₀)),
      )
      | no ne ↦ ground (
        arith,
        sum_below-congr l.nb_priorities (λ p. length (heap after w p)) (λ p. length (heap l w p))
            (λ p _. ground (arith, length-after w p)),
      )
    ]

    pub admit-Inv : Inv (admit l now q₀ p₀ item)
    unfolding admit
    admit-Inv = record {
      counted = admit-counted;
      queue_total =
          λ q. ground (arith, sum_count_after q, v.queue_total q, get_queue_size l now q p₀);
      worker_total = λ w. ground (arith, sum_length-after w, v.worker_total w);
      homed = λ w q p ne. ground (arith, count_after w q p, v.homed w q p ne);
      known = λ q p e. ground (arith, count_after (l.map_to_worker q) q p, v.known q p);
    }
