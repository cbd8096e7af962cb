-- ===== src/EgressQueue/Timing.antt =====
-- utils/p4-queue.h, class NSQueueingLogicPriRL: the times at which the packets of a port may leave, and
-- their order.
use p4simulator.Base.{
  ℕ, ◌+◌, ◌<◌, ◌≡◌, refl, sym, subst, ==-refl, ==-false, ◌&&◌, Option, none, some, List, [], ◌∷◌,
  ◌++◌, ◌==◌, if◌then◌else◌, max, arith, Bool-cases, Option-cases, inl, inr, ℕ_discrete,
}
use p4simulator.EgressQueue.Heap.{
  Entry, emplace, timed_of, count_of, IsTimed, DueBy, emplace-IsTimed, emplace-DueBy, DueBy-mono,
  timed_of-emplace_self,
}
use p4simulator.EgressQueue.{QueueInfo, QueueInfoPri, Logic, get_queue, admit, get_next_tp}
use p4simulator.EgressQueue.Counts.{Inv, heap, home}

-- When a port's priority queue last let a packet go, or will.
abbrev pub last_sent_of : Option QueueInfo → ℕ → ℕ
last_sent_of none p = 0
last_sent_of (some q) p = (q.pri p).last_sent

module _ {ℓ} {T : Type ℓ} where
  -- Each heap is in order of time, and `last_sent` bounds the times of its queue.
  pub record InTime (l : Logic T) : Type 0 where
    pub timed : (w p : ℕ) → IsTimed (heap l w p)
    pub due : (q p : ℕ) → DueBy q (last_sent_of (l.queues_info q) p) (home l q p)

  DueBy-none : (q t : ℕ) (xs : List (Entry T)) → count_of q xs ≡ 0 → DueBy q t xs
  DueBy-none q t [] h = tt
  DueBy-none q t (x ∷ xs) h = (λ e. absurd (ground arith), DueBy-none q t xs (ground arith))

  -- Before a packet is let in, `last_sent` bounds what is there, also for a port not met before.
  module _ (l : Logic T) (now q₀ p₀ : ℕ) (v : Inv l) (t : InTime l) where
    last_sent_known :
        (q : QueueInfo)
        → l.queues_info q₀ ≡ some q
        → last_sent_of (l.queues_info q₀) p₀ ≡ ((get_queue l now q₀).pri p₀).last_sent
    unfolding get_queue
    last_sent_known q e = ground arith

    pub due_before : DueBy q₀ ((get_queue l now q₀).pri p₀).last_sent (home l q₀ p₀)
    due_before = elim (Option-cases (l.queues_info q₀)) [
      | inl e ↦ DueBy-none q₀ _ (home l q₀ p₀) (v.known q₀ p₀ e)
      | inr (q, e) ↦ subst (λ u. DueBy q₀ u (home l q₀ p₀)) (last_sent_known q e) (t.due q₀ p₀)
    ]

  module _ (l : Logic T) (now q₀ p₀ : ℕ) (item : T) (v : Inv l) (t : InTime l) where
    abbrev pri : QueueInfoPri
    pri = (get_queue l now q₀).pri p₀

    -- The packet's time: at once, or a packet's time after the one before.
    abbrev send : ℕ
    send = get_next_tp now pri

    abbrev entry : Entry T
    entry = record {
      e = item;
      queue_id = q₀;
      send = send;
      id = (l.workers_info (l.map_to_worker q₀)).wrapping_counter;
    }

    send_lem : send ≡ max now (pri.last_sent + pri.pkt_delay_time)
    unfolding get_next_tp
    send_lem = ground arith

    home_after : home (admit l now q₀ p₀ item) q₀ p₀ ≡ emplace entry (home l q₀ p₀)
    unfolding admit
    home_after = ground arith

    heap_after :
        (w p : ℕ)
        → heap (admit l now q₀ p₀ item) w p ≡ (
            if w == l.map_to_worker q₀ && p == p₀ then emplace entry (home l q₀ p₀) else heap l w p)
    unfolding admit
    heap_after w p = ground arith

    last_after :
        (q p : ℕ)
        → last_sent_of ((admit l now q₀ p₀ item).queues_info q) p ≡ (
            if q == q₀
            then (if p == p₀ then send else ((get_queue l now q₀).pri p).last_sent)
            else last_sent_of (l.queues_info q) p)
    unfolding admit
    last_after q p = ground arith

    map_after : (admit l now q₀ p₀ item).map_to_worker ≡ l.map_to_worker
    unfolding admit
    map_after = refl

    due_own :
        (p : ℕ)
        → DueBy q₀
            (if p == p₀ then send else ((get_queue l now q₀).pri p).last_sent)
            (heap (admit l now q₀ p₀ item) (l.map_to_worker q₀) p)
    due_own p = rw (heap_after (l.map_to_worker q₀) p) (elim (ℕ_discrete p p₀) [
      | yes e ↦
          rw (e, ==-refl p₀, ==-refl (l.map_to_worker q₀))
            (emplace-DueBy q₀ send entry (home l q₀ p₀) (λ _. omega arith)
              (DueBy-mono q₀ pri.last_sent send _ (omega (arith, send_lem))
                (due_before l now q₀ p₀ v t)))
      | no ne ↦ rw (==-false p p₀ ne, ==-refl (l.map_to_worker q₀)) (due_before l now q₀ p v t)
    ])

    due_after :
        (q p : ℕ)
        → DueBy q
            (last_sent_of ((admit l now q₀ p₀ item).queues_info q) p)
            (heap (admit l now q₀ p₀ item) (l.map_to_worker q) p)
    due_after q p = rw (last_after q p) (elim (ℕ_discrete q q₀) [
      | yes e ↦ rw (e, ==-refl q₀) (due_own p)
      | no ne ↦
          rw (==-false q q₀ ne, heap_after (l.map_to_worker q) p)
            (elim (Bool-cases (l.map_to_worker q == l.map_to_worker q₀ && p == p₀)) [
              | inl e ↦ rw e (
                  emplace-DueBy q _ entry (home l q₀ p₀) (λ same. absurd (ne (sym same)))
                    (subst (λ h. DueBy q (last_sent_of (l.queues_info q) p) h) (ground arith)
                      (t.due q p)))
              | inr e ↦ rw e (t.due q p)
            ])
    ])

    pub admit-InTime : InTime (admit l now q₀ p₀ item)
    unfolding admit
    admit-InTime = record {
      timed = λ w p. rw (heap_after w p) (elim (Bool-cases (w == l.map_to_worker q₀ && p == p₀)) [
        | inl e ↦ rw e (emplace-IsTimed entry _ (t.timed (l.map_to_worker q₀) p₀))
        | inr e ↦ rw e (t.timed w p)
      ]);
      due = λ q p. due_after q p;
    }

    pub admit_order :
        0 < pri.pkt_delay_time
        → (timed_of q₀ (home (admit l now q₀ p₀ item) q₀ p₀)
            ≡ timed_of q₀ (home l q₀ p₀)
              ++ (item, max now (pri.last_sent + pri.pkt_delay_time)) ∷ [])
          × DueBy q₀ pri.last_sent (home l q₀ p₀)
          × (last_sent_of ((admit l now q₀ p₀ item).queues_info q₀) p₀
              ≡ max now (pri.last_sent + pri.pkt_delay_time))
    admit_order h = (
      subst
          (λ at.
            timed_of q₀ (home (admit l now q₀ p₀ item) q₀ p₀)
            ≡ timed_of q₀ (home l q₀ p₀) ++ (item, at) ∷ [])
          send_lem
          (rw home_after (
            timed_of-emplace_self entry pri.last_sent (home l q₀ p₀)
              (t.timed (l.map_to_worker q₀) p₀) (due_before l now q₀ p₀ v t)
              (omega (arith, send_lem)))),
      due_before l now q₀ p₀ v t,
      rw (last_after q₀ p₀, ==-refl q₀, ==-refl p₀) send_lem,
    )
