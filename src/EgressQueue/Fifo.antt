-- ===== src/EgressQueue/Fifo.antt =====
-- utils/p4-queue.h, class NSQueueingLogicPriRL: first in, first out, at the rate of the port, after any
-- calls.
use p4simulator.Base.{
  ℕ, ◌+◌, ◌<◌, ◌≡◌, Option, List, [], ◌∷◌, ◌++◌, ltb, ◌==◌, max, arith, Bool-cases, inl, inr,
}
use p4simulator.EgressQueue.Heap.{Entry, timed_of, DueBy}
use p4simulator.EgressQueue.{Logic, accepted, init, get_queue, admit, push_front}
use p4simulator.EgressQueue.Pop.{pop_back, serve, get_this_pkt_delay}
use p4simulator.EgressQueue.Settings.{
  set_capacity, set_capacity_of_priority, set_capacity_for_all, set_rate, set_rate_of_priority,
  set_rate_for_all,
}
use p4simulator.EgressQueue.Counts.{Inv, home}
use p4simulator.EgressQueue.Service.{Found, serving-Found, serve-Serves}
use p4simulator.EgressQueue.Timing.{InTime, last_sent_of, admit_order}
use p4simulator.EgressQueue.History.{
  Call, push, pop, delay, capacity, rate, capacity_of_priority, rate_of_priority, capacity_for_all,
  rate_for_all, step, run, step-Inv, run-init-Inv, init-Inv,
}
use p4simulator.EgressQueue.Order.{
  set_capacity_fn-KeepsTime, set_rate_fn-KeepsTime, with_queue-InTime, for_each_q-InTime,
  for_one_q-InTime, for_all_q-InTime, push_front-InTime, removed-InTime,
}

module _ {ℓ} {T : Type ℓ} where
  module _ (l : Logic T) (now w : ℕ) (v : Inv l) (t : InTime l) where
    serve-InTime :
        (r : Option (ℕ × Entry T × List (Entry T)))
        → Found (l.workers_info w).queues now l.nb_priorities r
        → InTime (serve l w r).0
    serve-InTime r f = elim (serve-Serves l now w v r f) [
      | inl (e, _) ↦ rw e t
      | inr (p, x, rest, q, e, known, h, top, _, _) ↦
          rw e (removed-InTime l w p x rest q known top t)
    ]

    pop_back-InTime : InTime (pop_back l now w).0
    unfolding pop_back
    pop_back-InTime = elim (Bool-cases (ltb w l.nb_workers)) [
      | inl there ↦ elim (Bool-cases ((l.workers_info w).size == 0)) [
        | inl idle ↦ rw (there, idle) t
        | inr busy ↦
            rw (there, busy)
              (serve-InTime _ (serving-Found (l.workers_info w).queues now l.nb_priorities))
      ]
      | inr absent ↦ rw absent t
    ]

  step-InTime : (l : Logic T) (c : ℕ × Call T) → Inv l → InTime l → InTime (step l c)
  unfolding step set_capacity set_rate set_capacity_of_priority set_rate_of_priority
      set_capacity_for_all set_rate_for_all get_this_pkt_delay
  step-InTime l (now, push q p item) v t = push_front-InTime l now v t q p item
  step-InTime l (now, pop w) v t = pop_back-InTime l now w v t
  step-InTime l (now, delay q p) v t = with_queue-InTime l now v t q
  step-InTime l (now, capacity q c) v t =
      for_each_q-InTime l now v t q _ (set_capacity_fn-KeepsTime c)
  step-InTime l (now, rate q pps) v t =
      for_each_q-InTime l now v t q _ (set_rate_fn-KeepsTime l.seconds_per pps)
  step-InTime l (now, capacity_of_priority q p c) v t =
      for_one_q-InTime l now v t q p _ (set_capacity_fn-KeepsTime c)
  step-InTime l (now, rate_of_priority q p pps) v t =
      for_one_q-InTime l now v t q p _ (set_rate_fn-KeepsTime l.seconds_per pps)
  step-InTime l (now, capacity_for_all c) v t =
      for_all_q-InTime l now v t c l.queue_rate_pps _ (set_capacity_fn-KeepsTime c)
  step-InTime l (now, rate_for_all pps) v t =
      for_all_q-InTime l now v t l.capacity pps _ (set_rate_fn-KeepsTime l.seconds_per pps)

  run-InTime : (l : Logic T) (cs : List (ℕ × Call T)) → Inv l → InTime l → InTime (run l cs)
  unfolding run
  run-InTime l [] v t = t
  run-InTime l (c ∷ cs) v t = run-InTime (step l c) cs (step-Inv l c v) (step-InTime l c v t)

  init-InTime :
      (nb_workers capacity : ℕ) (map_to_worker : ℕ → ℕ) (nb_priorities : ℕ) (seconds_per : ℕ → ℕ)
      → InTime (init {T = T} nb_workers capacity map_to_worker nb_priorities seconds_per)
  unfolding init
  init-InTime nw c m np s = record { timed = λ w p. tt; due = λ q p. tt }

  accepted_admit :
      (l after : Logic T) (now q p : ℕ) (item : T)
      → push_front l now q p item ≡ (after, accepted)
      → after ≡ admit l now q p item
  unfolding push_front
  accepted_admit l after now q p item e = ground arith

  module _ (nb_workers cap : ℕ) (map_to_worker : ℕ → ℕ) (nb_priorities : ℕ) (seconds_per : ℕ → ℕ)
      (cs : List (ℕ × Call T)) where
    abbrev reached : Logic T
    reached = run (init nb_workers cap map_to_worker nb_priorities seconds_per) cs

    -- Whatever calls came before, a packet that `push_front` accepts goes behind the packets of its
    -- port and priority that are there, if that priority queue has a packet time; the others keep the
    -- times at which they may leave, and those are not after `last_sent`. The entry of the new packet
    -- may leave now, or a packet time after `last_sent`, whichever is later, and `last_sent` becomes
    -- that time.
    pub push_front_order :
        (after : Logic T) (now q p : ℕ) (item : T)
        → push_front reached now q p item ≡ (after, accepted)
        → let info = (get_queue reached now q).pri p in
          0 < info.pkt_delay_time
          → (timed_of q (home after q p)
              ≡ timed_of q (home reached q p)
                ++ (item, max now (info.last_sent + info.pkt_delay_time)) ∷ [])
            × DueBy q info.last_sent (home reached q p)
            × (last_sent_of (after.queues_info q) p
                ≡ max now (info.last_sent + info.pkt_delay_time))
    push_front_order after now q p item e h = rw (accepted_admit reached after now q p item e) (
        admit_order reached now q p item
          (run-init-Inv nb_workers cap map_to_worker nb_priorities seconds_per cs)
          (run-InTime _ cs (init-Inv nb_workers cap map_to_worker nb_priorities seconds_per)
            (init-InTime nb_workers cap map_to_worker nb_priorities seconds_per))
          h)
