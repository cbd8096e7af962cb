-- ===== src/EgressQueue/History.antt =====
-- utils/p4-queue.h, class NSQueueingLogicPriRL: any sequence of calls.
use p4simulator.Base.{
  ℕ, ◌≡◌, refl, ◌∙◌, Option, none, some, List, [], ◌∷◌, ltb, sum_below-zeros, arith, Bool-cases,
  inl, inr,
}
use mathlib.Core.Option
use p4simulator.EgressQueue.{
  QueueInfo, QueueInfoPri, Logic, init, get_queue, with_queue, push_front,
}
use p4simulator.EgressQueue.Pop.{pop_back, get_this_pkt_delay}
use p4simulator.EgressQueue.Settings.{
  set_capacity_fn, set_rate_fn, each_pri, for_each_q, for_one_q, for_all_q, set_capacity,
  set_capacity_of_priority, set_capacity_for_all, set_rate, set_rate_of_priority, set_rate_for_all,
}
use p4simulator.EgressQueue.Counts.{Inv, pri_size, get_queue_size, admit-Inv}
use p4simulator.EgressQueue.Service.{pop_back-Inv}

-- A change of settings keeps the size of a priority queue.
abbrev KeepsSize : (QueueInfoPri → QueueInfoPri) → Type 0
KeepsSize fn = (p : QueueInfoPri) → (fn p).size ≡ p.size

set_capacity_fn-KeepsSize : (c : ℕ) → KeepsSize (set_capacity_fn c)
unfolding set_capacity_fn
set_capacity_fn-KeepsSize c p = refl

set_rate_fn-KeepsSize : (f : ℕ → ℕ) (pps : ℕ) → KeepsSize (set_rate_fn f pps)
unfolding set_rate_fn
set_rate_fn-KeepsSize f pps p = refl

pri_size_each :
    (fn : QueueInfoPri → QueueInfoPri) (o : Option QueueInfo) (p : ℕ)
    → KeepsSize fn
    → pri_size (Option.map (each_pri fn) o) p ≡ pri_size o p
unfolding each_pri
pri_size_each fn none p k = refl
pri_size_each fn (some q) p k = k (q.pri p)

-- The calls of the class that change it. The numbers are the arguments of the method, in order.
pub data Call {ℓ} (T : Type ℓ) : Type ℓ where
  push : ℕ → ℕ → T → Call T
  pop : ℕ → Call T
  delay : ℕ → ℕ → Call T
  capacity rate : ℕ → ℕ → Call T
  capacity_of_priority rate_of_priority : ℕ → ℕ → ℕ → Call T
  capacity_for_all rate_for_all : ℕ → Call T

module _ {ℓ} {T : Type ℓ} where
  with_queue-Inv : (l : Logic T) (now q : ℕ) → Inv l → Inv (with_queue l now q)
  unfolding with_queue
  with_queue-Inv l now q v = record {
    counted = λ j p. ground (arith, v.counted j p, get_queue_size l now q p);
    queue_total = λ j. ground (arith, v.queue_total j, get_queue_size l now q 0);
    worker_total = v.worker_total;
    homed = v.homed;
    known = λ j p e. ground (arith, v.known j p);
  }

  push_front-Inv :
      (l : Logic T) (now q p : ℕ) (item : T) → Inv l → Inv (push_front l now q p item).0
  unfolding push_front
  push_front-Inv l now q p item v =
      ground (arith, with_queue-Inv l now q v, admit-Inv l now q p item)

  for_each_q-Inv :
      (l : Logic T) (now q : ℕ) (fn : QueueInfoPri → QueueInfoPri)
      → KeepsSize fn
      → Inv l
      → Inv (for_each_q l now q fn)
  unfolding for_each_q each_pri
  for_each_q-Inv l now q fn k v = record {
    counted = λ j p.
        ground (arith, v.counted j p, get_queue_size l now q p, k ((get_queue l now q).pri p));
    queue_total = λ j. ground (arith, v.queue_total j, get_queue_size l now q 0);
    worker_total = v.worker_total;
    homed = v.homed;
    known = λ j p e. ground (arith, v.known j p);
  }

  for_one_q-Inv :
      (l : Logic T) (now q p₀ : ℕ) (fn : QueueInfoPri → QueueInfoPri)
      → KeepsSize fn
      → Inv l
      → Inv (for_one_q l now q p₀ fn).0
  unfolding for_one_q
  for_one_q-Inv l now q p₀ fn k v = elim (Bool-cases (ltb p₀ l.nb_priorities)) [
    | inl there ↦ rw there (record {
      counted = λ j p.
          ground (arith, v.counted j p, get_queue_size l now q p, k ((get_queue l now q).pri p₀));
      queue_total = λ j. ground (arith, v.queue_total j, get_queue_size l now q 0);
      worker_total = v.worker_total;
      homed = v.homed;
      known = λ j p e. ground (arith, v.known j p);
    })
    | inr absent ↦ rw absent (with_queue-Inv l now q v)
  ]

  for_all_q-Inv :
      (l : Logic T) (c pps : ℕ) (fn : QueueInfoPri → QueueInfoPri)
      → KeepsSize fn
      → Inv l
      → Inv (record l { queues_info = for_all_q l fn; capacity = c; queue_rate_pps = pps })
  unfolding for_all_q each_pri
  for_all_q-Inv l c pps fn k v = record {
    counted = λ j p. pri_size_each fn (l.queues_info j) p k ∙ v.counted j p;
    queue_total = λ j. ground (arith, v.queue_total j);
    worker_total = v.worker_total;
    homed = v.homed;
    known = λ j p e. ground (arith, v.known j p);
  }

  -- A call at its time.
  unfoldable pub step : Logic T → ℕ × Call T → Logic T
  step l (now, push q p item) = (push_front l now q p item).0
  step l (now, pop w) = (pop_back l now w).0
  step l (now, delay q p) = (get_this_pkt_delay l now q p).0
  step l (now, capacity q c) = set_capacity l now q c
  step l (now, rate q pps) = set_rate l now q pps
  step l (now, capacity_of_priority q p c) = (set_capacity_of_priority l now q p c).0
  step l (now, rate_of_priority q p pps) = (set_rate_of_priority l now q p pps).0
  step l (now, capacity_for_all c) = set_capacity_for_all l c
  step l (now, rate_for_all pps) = set_rate_for_all l pps

  unfoldable pub run : Logic T → List (ℕ × Call T) → Logic T
  run l [] = l
  run l (c ∷ cs) = run (step l c) cs

  pub step-Inv : (l : Logic T) (c : ℕ × Call T) → Inv l → Inv (step l c)
  unfolding step set_capacity set_rate set_capacity_of_priority set_rate_of_priority
      set_capacity_for_all set_rate_for_all get_this_pkt_delay
  step-Inv l (now, push q p item) v = push_front-Inv l now q p item v
  step-Inv l (now, pop w) v = pop_back-Inv l now w v
  step-Inv l (now, delay q p) v = with_queue-Inv l now q v
  step-Inv l (now, capacity q c) v = for_each_q-Inv l now q _ (set_capacity_fn-KeepsSize c) v
  step-Inv l (now, rate q pps) v =
      for_each_q-Inv l now q _ (set_rate_fn-KeepsSize l.seconds_per pps) v
  step-Inv l (now, capacity_of_priority q p c) v =
      for_one_q-Inv l now q p _ (set_capacity_fn-KeepsSize c) v
  step-Inv l (now, rate_of_priority q p pps) v =
      for_one_q-Inv l now q p _ (set_rate_fn-KeepsSize l.seconds_per pps) v
  step-Inv l (now, capacity_for_all c) v =
      for_all_q-Inv l c l.queue_rate_pps _ (set_capacity_fn-KeepsSize c) v
  step-Inv l (now, rate_for_all pps) v =
      for_all_q-Inv l l.capacity pps _ (set_rate_fn-KeepsSize l.seconds_per pps) v

  run-Inv : (l : Logic T) (cs : List (ℕ × Call T)) → Inv l → Inv (run l cs)
  unfolding run
  run-Inv l [] v = v
  run-Inv l (c ∷ cs) v = run-Inv (step l c) cs (step-Inv l c v)

  pub init-Inv :
      (nb_workers capacity : ℕ) (map_to_worker : ℕ → ℕ) (nb_priorities : ℕ) (seconds_per : ℕ → ℕ)
      → Inv (init {T = T} nb_workers capacity map_to_worker nb_priorities seconds_per)
  unfolding init
  init-Inv nw c m np s = record {
    counted = λ q p. omega arith;
    queue_total = λ q. omega (arith, sum_below-zeros np);
    worker_total = λ w. omega (arith, sum_below-zeros np);
    homed = λ w q p ne. refl;
    known = λ q p e. refl;
  }

  -- After any calls on a new buffer the three recorded sizes are the numbers of entries, as `size_t`
  -- counts them: of a port at a priority, of a port, and of a worker; and an entry stands only with
  -- the worker of its port, which is a known one.
  pub run-init-Inv :
      (nb_workers capacity : ℕ) (map_to_worker : ℕ → ℕ) (nb_priorities : ℕ) (seconds_per : ℕ → ℕ)
      (cs : List (ℕ × Call T))
      → Inv (run (init nb_workers capacity map_to_worker nb_priorities seconds_per) cs)
  run-init-Inv nw c m np s cs = run-Inv _ cs (init-Inv nw c m np s)
