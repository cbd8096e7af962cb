-- ===== src/EgressQueue.antt =====
-- utils/p4-queue.h, class NSQueueingLogicPriRL: the egress buffer. Each egress port is a logical
-- queue, which has a fixed number of priority queues; a worker keeps the entries of its ports in one
-- heap for each priority. Times are nanoseconds of simulated time, an argument of each call.
pub mod Heap
pub mod Pop
pub mod Counts
pub mod Removal
pub mod Service
pub mod History
pub mod Timing
pub mod Order
pub mod Fifo
pub mod Capacity
mod Tests
pub mod Settings
use p4simulator.Base.{
  ℕ, zero, suc, ◌+◌, ◌≡◌, Bool, true, false, ◌&&◌, Option, none, some, List, [], ◌∷◌, ltb, leb,
  ◌==◌, if◌then◌else◌, update, size_inc, size_dec, min,
}
use Heap.{Entry, emplace}

-- `QueueInfoPri`: one priority queue of a logical queue.
pub record QueueInfoPri : Type 0 where
  pub size : ℕ
  pub capacity : ℕ
  pub queue_rate_pps : ℕ
  pub pkt_delay_time : ℕ
  pub last_sent : ℕ

-- `QueueInfo`: a vector of `nb_priorities` such queues, and their common size.
pub record QueueInfo : Type 0 where
  pub pri : ℕ → QueueInfoPri
  pub size : ℕ

-- `WorkerInfo`. The condition variable has no part: nobody waits on it.
pub record WorkerInfo {ℓ} (T : Type ℓ) : Type ℓ where
  pub size : ℕ
  pub queues : ℕ → List (Entry T)
  pub wrapping_counter : ℕ

-- The object. `seconds_per` is `Seconds(1. / pps)`, a double rounded to nanoseconds by ns-3.
pub record Logic {ℓ} (T : Type ℓ) : Type ℓ where
  pub nb_workers : ℕ
  pub capacity : ℕ
  pub queue_rate_pps : ℕ
  pub queues_info : ℕ → Option QueueInfo
  pub workers_info : ℕ → WorkerInfo T
  pub map_to_worker : ℕ → ℕ
  pub nb_priorities : ℕ
  pub seconds_per : ℕ → ℕ

-- What `push_front` returns: 1, 0, or the exception `std::out_of_range`.
pub data Pushed : Type 0 where
  accepted full out_of_range : Pushed

-- What `pop_back` has put through its pointers when it returns.
pub data Popped {ℓ} (T : Type ℓ) : Type ℓ where
  nothing : Popped T
  taken : T → ℕ → ℕ → Popped T
  thrown : Popped T

-- Without a rate a packet takes a millisecond.
unfoldable pub rate_to_time : (ℕ → ℕ) → ℕ → ℕ
rate_to_time seconds_per pps = if pps == 0 then 1_000_000 else seconds_per pps

-- The earliest time at which the next packet of the queue may leave.
unfoldable pub get_next_tp : ℕ → QueueInfoPri → ℕ
get_next_tp now p =
    if ltb (p.last_sent + p.pkt_delay_time) now then now else p.last_sent + p.pkt_delay_time

module _ {ℓ} {T : Type ℓ} where
  unfoldable pub init : ℕ → ℕ → (ℕ → ℕ) → ℕ → (ℕ → ℕ) → Logic T
  init nb_workers capacity map_to_worker nb_priorities seconds_per = record {
    nb_workers = nb_workers;
    capacity = capacity;
    queue_rate_pps = 0;
    queues_info = λ _. none;
    workers_info = λ _. record { size = 0; queues = λ _. []; wrapping_counter = 0 };
    map_to_worker = map_to_worker;
    nb_priorities = nb_priorities;
    seconds_per = seconds_per;
  }

  -- The `QueueInfo` of a port that was not met before.
  unfoldable pub fresh_queue : Logic T → ℕ → QueueInfo
  fresh_queue l now = record {
    pri = λ _. record {
      size = 0;
      capacity = l.capacity;
      queue_rate_pps = l.queue_rate_pps;
      pkt_delay_time = rate_to_time l.seconds_per l.queue_rate_pps;
      last_sent = now;
    };
    size = 0;
  }

  found_queue : Logic T → ℕ → Option QueueInfo → QueueInfo
  found_queue l now none = fresh_queue l now
  found_queue l now (some q) = q

  -- `get_queue` makes the entry where there is none: the queue, and the object with it in the map.
  unfoldable pub get_queue : Logic T → ℕ → ℕ → QueueInfo
  unfolding found_queue
  get_queue l now queue_id = found_queue l now (l.queues_info queue_id)

  unfoldable pub with_queue : Logic T → ℕ → ℕ → Logic T
  with_queue l now queue_id = record l {
    queues_info = update l.queues_info queue_id (some (get_queue l now queue_id));
  }

  -- The part of `push_front` behind its checks.
  unfoldable pub admit : Logic T → ℕ → ℕ → ℕ → T → Logic T
  admit l now queue_id priority item = record l {
    queues_info = update l.queues_info queue_id (
        some (record q {
          pri = update q.pri priority (record p { size = size_inc p.size; last_sent = send });
          size = size_inc q.size;
        }));
    workers_info = update l.workers_info worker_id (record w {
      queues = update w.queues priority (emplace entry (w.queues priority));
      wrapping_counter = size_inc w.wrapping_counter;
      size = size_inc w.size;
    });
  }
    where
      worker_id : ℕ
      worker_id = l.map_to_worker queue_id

      q : QueueInfo
      q = get_queue l now queue_id

      w : WorkerInfo T
      w = l.workers_info worker_id

      p : QueueInfoPri
      p = q.pri priority

      send : ℕ
      send = get_next_tp now p

      entry : Entry T
      entry = record { e = item; queue_id = queue_id; send = send; id = w.wrapping_counter }

  unfoldable pub push_front : Logic T → ℕ → ℕ → ℕ → T → Logic T × Pushed
  push_front l now queue_id priority item =
      if ltb (l.map_to_worker queue_id) l.nb_workers && ltb priority l.nb_priorities
      then (if leb p.capacity p.size
          then (with_queue l now queue_id, full)
          else (admit l now queue_id priority item, accepted))
      else (with_queue l now queue_id, out_of_range)
    where
      p : QueueInfoPri
      p = (get_queue l now queue_id).pri priority
