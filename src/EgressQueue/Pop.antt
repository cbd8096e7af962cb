-- ===== src/EgressQueue/Pop.antt =====
-- utils/p4-queue.h, class NSQueueingLogicPriRL: taking the next packet out, and the queries on time
-- and size.
use p4simulator.Base.{
  ℕ, zero, suc, Option, none, some, List, [], ◌∷◌, ltb, leb, ◌==◌, if◌then◌else◌, update, size_dec,
}
use p4simulator.EgressQueue.Heap.{Entry}
use p4simulator.EgressQueue.{
  QueueInfo, QueueInfoPri, WorkerInfo, Logic, Popped, nothing, taken, thrown, get_queue, with_queue,
}

-- What a query returns: a value, or the exception `std::out_of_range`.
pub data Answer {ℓ} (A : Type ℓ) : Type ℓ where
  value : A → Answer A
  no_such : Answer A

module _ {ℓ} {T : Type ℓ} where
  -- A priority queue gives its top, if that is due; otherwise the search goes on.
  unfoldable pub pick_top :
      ℕ
      → ℕ
      → List (Entry T)
      → Option (ℕ × Entry T × List (Entry T))
      → Option (ℕ × Entry T × List (Entry T))
  pick_top now pri [] others = others
  pick_top now pri (x ∷ xs) others = if leb x.send now then some (pri, x, xs) else others

  -- The loop of `pop_back` from priority `n - 1` down to 0: the first queue whose top is due.
  unfoldable pub serving : (ℕ → List (Entry T)) → ℕ → ℕ → Option (ℕ × Entry T × List (Entry T))
  unfolding pick_top
  serving queues now zero = none
  serving queues now (suc pri) = pick_top now pri (queues pri) (serving queues now pri)

  -- The entry has left its heap.
  unfoldable pub unheaped : Logic T → ℕ → ℕ → List (Entry T) → Logic T
  unheaped l worker_id pri rest = record l {
    workers_info = update l.workers_info worker_id (record w { queues = update w.queues pri rest });
  }
    where
      w : WorkerInfo T
      w = l.workers_info worker_id

  -- The three sizes go down, after the logical queue of the entry is looked up.
  unfoldable pub uncounted : Logic T → ℕ → QueueInfo → ℕ → ℕ → Logic T
  uncounted l worker_id q queue_id pri = record l {
    queues_info = update l.queues_info queue_id (
        some (record q {
          pri = update q.pri pri (record p { size = size_dec p.size });
          size = size_dec q.size;
        }));
    workers_info = update l.workers_info worker_id (record w { size = size_dec w.size });
  }
    where
      p : QueueInfoPri
      p = q.pri pri

      w : WorkerInfo T
      w = l.workers_info worker_id

  unfoldable pub release : Logic T → ℕ → ℕ → Entry T → Option QueueInfo → Logic T × Popped T
  release l worker_id pri x none = (l, thrown)
  release l worker_id pri x (some q) =
      if ltb pri l.nb_priorities
      then (uncounted l worker_id q x.queue_id pri, taken x.e x.queue_id pri)
      else (l, thrown)

  unfoldable pub serve : Logic T → ℕ → Option (ℕ × Entry T × List (Entry T)) → Logic T × Popped T
  unfolding release
  serve l worker_id none = (l, nothing)
  serve l worker_id (some (pri, x, rest)) =
      release (unheaped l worker_id pri rest) worker_id pri x (l.queues_info x.queue_id)

  unfoldable pub pop_back : Logic T → ℕ → ℕ → Logic T × Popped T
  unfolding serve
  pop_back l now worker_id =
      if ltb worker_id l.nb_workers
      then (if w.size == 0
          then (l, nothing)
          else serve l worker_id (serving w.queues now l.nb_priorities))
      else (l, thrown)
    where
      w : WorkerInfo T
      w = l.workers_info worker_id

  -- `size(queue_id)`
  unfoldable pub size : Logic T → ℕ → ℕ
  size l queue_id = elim (l.queues_info queue_id) [ none ↦ 0 | some q ↦ q.size ]

  -- `size(queue_id, priority)`
  unfoldable pub size_of_priority : Logic T → ℕ → ℕ → Answer ℕ
  size_of_priority l queue_id priority = elim (l.queues_info queue_id) [
    | none ↦ value 0
    | some q ↦ if ltb priority l.nb_priorities then value (q.pri priority).size else no_such
  ]

  -- The query makes the logical queue if it is not there.
  unfoldable pub get_this_pkt_delay : Logic T → ℕ → ℕ → ℕ → Logic T × Answer ℕ
  get_this_pkt_delay l now queue_id priority = (
    with_queue l now queue_id,
    if ltb priority l.nb_priorities
        then value ((get_queue l now queue_id).pri priority).pkt_delay_time
        else no_such,
  )
