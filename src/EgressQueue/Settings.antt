-- ===== src/EgressQueue/Settings.antt =====
-- utils/p4-queue.h, class NSQueueingLogicPriRL: capacities and rates, for one priority queue, for all
-- of a logical queue, and for all.
use p4simulator.Base.{ℕ, Bool, true, false, Option, some, ltb, if◌then◌else◌, update}
use mathlib.Core.Option
use p4simulator.EgressQueue.{QueueInfo, QueueInfoPri, Logic, rate_to_time, get_queue, with_queue}

-- `SetCapacityFn` and `SetRateFn`
unfoldable pub set_capacity_fn : ℕ → QueueInfoPri → QueueInfoPri
set_capacity_fn c info = record info { capacity = c }

unfoldable pub set_rate_fn : (ℕ → ℕ) → ℕ → QueueInfoPri → QueueInfoPri
set_rate_fn seconds_per pps info = record info {
  queue_rate_pps = pps;
  pkt_delay_time = rate_to_time seconds_per pps;
}

-- The loop over the priority queues of a logical queue.
unfoldable pub each_pri : (QueueInfoPri → QueueInfoPri) → QueueInfo → QueueInfo
each_pri fn q = record q { pri = λ p. fn (q.pri p) }

module _ {ℓ} {T : Type ℓ} where
  unfoldable pub for_each_q : Logic T → ℕ → ℕ → (QueueInfoPri → QueueInfoPri) → Logic T
  for_each_q l now queue_id fn = record l {
    queues_info = update l.queues_info queue_id (some (each_pri fn q));
  }
    where
      q : QueueInfo
      q = get_queue l now queue_id

  -- `false` for the exception, which comes when the logical queue is already there.
  unfoldable pub for_one_q : Logic T → ℕ → ℕ → ℕ → (QueueInfoPri → QueueInfoPri) → Logic T × Bool
  for_one_q l now queue_id priority fn =
      if ltb priority l.nb_priorities
      then (record l { queues_info = update l.queues_info queue_id (some changed) }, true)
      else (with_queue l now queue_id, false)
    where
      q : QueueInfo
      q = get_queue l now queue_id

      changed : QueueInfo
      changed = record q { pri = update q.pri priority (fn (q.pri priority)) }

  unfoldable pub for_all_q : Logic T → (QueueInfoPri → QueueInfoPri) → ℕ → Option QueueInfo
  for_all_q l fn queue_id = Option.map (each_pri fn) (l.queues_info queue_id)

  unfoldable pub set_capacity : Logic T → ℕ → ℕ → ℕ → Logic T
  set_capacity l now queue_id c = for_each_q l now queue_id (set_capacity_fn c)

  unfoldable pub set_capacity_of_priority : Logic T → ℕ → ℕ → ℕ → ℕ → Logic T × Bool
  set_capacity_of_priority l now queue_id priority c =
      for_one_q l now queue_id priority (set_capacity_fn c)

  unfoldable pub set_capacity_for_all : Logic T → ℕ → Logic T
  unfolding for_all_q
  set_capacity_for_all l c = record l {
    queues_info = for_all_q l (set_capacity_fn c);
    capacity = c;
  }

  unfoldable pub set_rate : Logic T → ℕ → ℕ → ℕ → Logic T
  set_rate l now queue_id pps = for_each_q l now queue_id (set_rate_fn l.seconds_per pps)

  unfoldable pub set_rate_of_priority : Logic T → ℕ → ℕ → ℕ → ℕ → Logic T × Bool
  set_rate_of_priority l now queue_id priority pps =
      for_one_q l now queue_id priority (set_rate_fn l.seconds_per pps)

  unfoldable pub set_rate_for_all : Logic T → ℕ → Logic T
  unfolding for_all_q
  set_rate_for_all l pps = record l {
    queues_info = for_all_q l (set_rate_fn l.seconds_per pps);
    queue_rate_pps = pps;
  }
