-- ===== src/EgressQueue/Order.antt =====
-- utils/p4-queue.h, class NSQueueingLogicPriRL: every call keeps the packets of a port in order.
use p4simulator.Base.{
  ℕ, ◌≡◌, ◌⊎◌, refl, sym, subst, ◌&&◌, Option, none, some, List, [], ◌∷◌, ltb, ◌==◌, if◌then◌else◌,
  arith, Bool-cases, inl, inr, ℕ_discrete, update, ==-refl, ==-false,
}
use mathlib.Core.Option
use p4simulator.EgressQueue.Heap.{Entry, IsTimed, DueBy}
use p4simulator.EgressQueue.{QueueInfo, QueueInfoPri, Logic, get_queue, with_queue, push_front}
use p4simulator.EgressQueue.Pop.{unheaped, uncounted}
use p4simulator.EgressQueue.Settings.{
  set_capacity_fn, set_rate_fn, each_pri, for_each_q, for_one_q, for_all_q,
}
use p4simulator.EgressQueue.Counts.{Inv, heap, home}
use p4simulator.EgressQueue.Timing.{InTime, last_sent_of, due_before, admit-InTime}

-- A change of settings keeps the time of the last packet.
abbrev pub KeepsTime : (QueueInfoPri → QueueInfoPri) → Type 0
KeepsTime fn = (p : QueueInfoPri) → (fn p).last_sent ≡ p.last_sent

pub set_capacity_fn-KeepsTime : (c : ℕ) → KeepsTime (set_capacity_fn c)
unfolding set_capacity_fn
set_capacity_fn-KeepsTime c p = refl

pub set_rate_fn-KeepsTime : (f : ℕ → ℕ) (pps : ℕ) → KeepsTime (set_rate_fn f pps)
unfolding set_rate_fn
set_rate_fn-KeepsTime f pps p = refl

last_sent_each :
    (fn : QueueInfoPri → QueueInfoPri) (o : Option QueueInfo) (p : ℕ)
    → KeepsTime fn
    → last_sent_of (Option.map (each_pri fn) o) p ≡ last_sent_of o p
unfolding each_pri
last_sent_each fn none p k = refl
last_sent_each fn (some q) p k = k (q.pri p)

module _ {ℓ} {T : Type ℓ} where
  module _ (l : Logic T) (now : ℕ) (v : Inv l) (t : InTime l) where
    -- A change of the logical queues that keeps their times, or makes one.
    quiet-InTime :
        (f : ℕ → Option QueueInfo) (c pps : ℕ)
        → ((q p : ℕ)
            → (last_sent_of (f q) p ≡ last_sent_of (l.queues_info q) p)
              ⊎ (last_sent_of (f q) p ≡ ((get_queue l now q).pri p).last_sent))
        → InTime (record l { queues_info = f; capacity = c; queue_rate_pps = pps })
    quiet-InTime f c pps same = record {
      timed = t.timed;
      due = λ q p. elim (same q p) [
        | inl e ↦ subst (λ u. DueBy q u (home l q p)) (sym e) (t.due q p)
        | inr e ↦ subst (λ u. DueBy q u (home l q p)) (sym e) (due_before l now q p v t)
      ];
    }

    one_queue-InTime :
        (q : ℕ) (q' : QueueInfo)
        → ((p : ℕ) → (q'.pri p).last_sent ≡ ((get_queue l now q).pri p).last_sent)
        → InTime (record l { queues_info = update l.queues_info q (some q') })
    one_queue-InTime q q' same = quiet-InTime _ l.capacity l.queue_rate_pps (λ j p.
        elim (ℕ_discrete j q) [
          | yes e ↦ inr (rw (e, ==-refl q) (same p))
          | no ne ↦ inl (rw (==-false j q ne))
        ])

    pub with_queue-InTime : (q : ℕ) → InTime (with_queue l now q)
    unfolding with_queue
    with_queue-InTime q = one_queue-InTime q _ (λ p. refl)

    pub for_each_q-InTime :
        (q : ℕ) (fn : QueueInfoPri → QueueInfoPri) → KeepsTime fn → InTime (for_each_q l now q fn)
    unfolding for_each_q each_pri
    for_each_q-InTime q fn k = one_queue-InTime q _ (λ p. k _)

    pub for_one_q-InTime :
        (q p₀ : ℕ) (fn : QueueInfoPri → QueueInfoPri)
        → KeepsTime fn
        → InTime (for_one_q l now q p₀ fn).0
    unfolding for_one_q
    for_one_q-InTime q p₀ fn k = elim (Bool-cases (ltb p₀ l.nb_priorities)) [
      | inl there ↦
          rw there (one_queue-InTime q _ (λ p. ground (arith, k ((get_queue l now q).pri p₀))))
      | inr absent ↦ rw absent (with_queue-InTime q)
    ]

    pub for_all_q-InTime :
        (c pps : ℕ) (fn : QueueInfoPri → QueueInfoPri)
        → KeepsTime fn
        → InTime (record l { queues_info = for_all_q l fn; capacity = c; queue_rate_pps = pps })
    unfolding for_all_q
    for_all_q-InTime c pps fn k =
        quiet-InTime _ c pps (λ j p. inl (last_sent_each fn (l.queues_info j) p k))

    pub push_front-InTime : (q p : ℕ) (item : T) → InTime (push_front l now q p item).0
    unfolding push_front
    push_front-InTime q p item =
        ground (arith, with_queue-InTime q, admit-InTime l now q p item v t)

  IsTimed-tail : (x : Entry T) (xs : List (Entry T)) → IsTimed (x ∷ xs) → IsTimed xs
  IsTimed-tail x [] h = tt
  IsTimed-tail x (y ∷ ys) h = h.1

  module _ (l : Logic T) (w₀ p₀ : ℕ) (x : Entry T) (rest : List (Entry T)) (q : QueueInfo)
      (known : l.queues_info x.queue_id ≡ some q) (top : heap l w₀ p₀ ≡ x ∷ rest)
      (t : InTime l) where
    abbrev after : Logic T
    after = uncounted (unheaped l w₀ p₀ rest) w₀ q x.queue_id p₀

    heap-after : (w p : ℕ) → heap after w p ≡ (if w == w₀ && p == p₀ then rest else heap l w p)
    unfolding uncounted unheaped
    heap-after w p = ground arith

    last_after : (j p : ℕ) → last_sent_of (after.queues_info j) p ≡ last_sent_of (l.queues_info j) p
    unfolding uncounted unheaped
    last_after j p = ground arith

    -- What held of the heap with its front holds of the rest.
    on_rest {κ} :
        (P : List (Entry T) → Type κ) (w p : ℕ)
        → (P (x ∷ rest) → P rest)
        → P (heap l w p)
        → P (heap after w p)
    on_rest P w p tail h = rw (heap-after w p) (elim (Bool-cases (w == w₀ && p == p₀)) [
      | inl e ↦ rw e (tail (subst P (ground arith) h))
      | inr e ↦ rw e h
    ])

    pub removed-InTime : InTime after
    unfolding uncounted unheaped
    removed-InTime = record {
      timed = λ w p. on_rest IsTimed w p (IsTimed-tail x rest) (t.timed w p);
      due = λ j p. rw (last_after j p) (
          on_rest (DueBy j (last_sent_of (l.queues_info j) p)) (l.map_to_worker j) p (λ d. d.1)
            (t.due j p));
    }
