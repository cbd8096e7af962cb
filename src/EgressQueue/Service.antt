-- ===== src/EgressQueue/Service.antt =====
-- utils/p4-queue.h, `pop_back`: which entry is served, and when none is.
use p4simulator.Base.{
  ℕ, zero, suc, ◌^◌, ◌≤◌, ◌<◌, ◌≡◌, ◌⊎◌, refl, Option, none, some, List, [], ◌∷◌, leb, ◌==◌, length,
  sum_below, below_suc, sum_below-zero, lt→ltb, ltb, arith, Bool-cases, Option-cases, inl, inr,
}
use p4simulator.EgressQueue.Heap.{Entry}
use p4simulator.EgressQueue.{QueueInfo, Logic, Popped, nothing, taken}
use p4simulator.EgressQueue.Pop.{pick_top, serving, unheaped, uncounted, release, serve, pop_back}
use p4simulator.EgressQueue.Counts.{Inv, heap}
use p4simulator.EgressQueue.Removal.{known_queue, removed-Inv}

module _ {ℓ} {T : Type ℓ} where
  -- The front of a heap has to wait.
  abbrev pub Waits : ℕ → List (Entry T) → Type 0
  Waits now [] = Unit
  Waits now (x ∷ xs) = now < x.send

  -- What the loop over `n` priorities has found.
  abbrev pub Found : (ℕ → List (Entry T)) → ℕ → ℕ → Option (ℕ × Entry T × List (Entry T)) → Type ℓ
  Found queues now n r =
      ((r ≡ none) × ((p : ℕ) → p < n → Waits now (queues p)))
      ⊎ ((p : ℕ) × (x : Entry T) × (rest : List (Entry T)) × (r ≡ some (p, x, rest))
          × (p < n)
          × (queues p ≡ x ∷ rest)
          × (x.send ≤ now)
          × ((j : ℕ) → p < j → j < n → Waits now (queues j)))

  -- A heap that waits changes nothing.
  Found-suc :
      (queues : ℕ → List (Entry T)) (now n : ℕ) (r : Option (ℕ × Entry T × List (Entry T)))
      → Waits now (queues n)
      → Found queues now n r
      → Found queues now (suc n) r
  Found-suc queues now n r w (inl (g, waits)) =
      inl (g, below_suc (λ p. Waits now (queues p)) n w waits)
  Found-suc queues now n r w (inr (p, x, rest, g, h, top, due, waits)) =
      inr (p, x, rest, g, omega arith, top, due, λ j a b. upto j b a)
    where
      upto : (j : ℕ) → j < suc n → p < j → Waits now (queues j)
      upto = below_suc (λ j. p < j → Waits now (queues j)) n (λ _. w) (λ j b a. waits j a b)

  pick_top-Found :
      (queues : ℕ → List (Entry T)) (now n : ℕ) (xs : List (Entry T))
      (r : Option (ℕ × Entry T × List (Entry T)))
      → queues n ≡ xs
      → Found queues now n r
      → Found queues now (suc n) (pick_top now n xs r)
  unfolding pick_top
  pick_top-Found queues now n [] r e f = Found-suc queues now n r (rw e tt) f
  pick_top-Found queues now n (y ∷ ys) r e f = elim (Bool-cases (leb y.send now)) [
    | inl due ↦
        rw due (inr (n, y, ys, refl, omega arith, e, ground arith, λ j a b. absurd (omega arith)))
    | inr late ↦ rw late (Found-suc queues now n r (rw e (ground arith)) f)
  ]

  pub serving-Found :
      (queues : ℕ → List (Entry T)) (now n : ℕ) → Found queues now n (serving queues now n)
  unfolding serving
  serving-Found queues now zero = inl (refl, λ p h. elim h [ ])
  serving-Found queues now (suc n) =
      pick_top-Found queues now n (queues n) _ refl (serving-Found queues now n)

  -- The entries that a worker holds.
  abbrev pub held : Logic T → ℕ → ℕ
  held l w = sum_below l.nb_priorities (λ p. length (heap l w p))

  -- A worker's `pop_back` either takes nothing, and then the front of each of its heaps has to wait;
  -- or it takes the front of the heap of highest priority number whose front is due, and no more.
  abbrev pub Serves : Logic T → ℕ → ℕ → Logic T × Popped T → Type ℓ
  Serves l now w r =
      ((r ≡ (l, nothing)) × ((p : ℕ) → p < l.nb_priorities → Waits now (heap l w p)))
      ⊎ ((p : ℕ) × (x : Entry T) × (rest : List (Entry T)) × (q : QueueInfo) × (r
            ≡ (uncounted (unheaped l w p rest) w q x.queue_id p, taken x.e x.queue_id p))
          × (l.queues_info x.queue_id ≡ some q)
          × (p < l.nb_priorities)
          × (heap l w p ≡ x ∷ rest)
          × (x.send ≤ now)
          × ((j : ℕ) → p < j → j < l.nb_priorities → Waits now (heap l w j)))

  Waits-empty : (now : ℕ) (xs : List (Entry T)) → length xs ≡ 0 → Waits now xs
  Waits-empty now [] h = tt
  Waits-empty now (x ∷ xs) h = absurd (omega arith)

  module _ (l : Logic T) (now w : ℕ) (v : Inv l) where
    release_known :
        (p : ℕ) (x : Entry T) (rest : List (Entry T)) (q : QueueInfo)
        → p < l.nb_priorities
        → release (unheaped l w p rest) w p x (some q)
          ≡ (uncounted (unheaped l w p rest) w q x.queue_id p, taken x.e x.queue_id p)
    unfolding release unheaped
    release_known p x rest q h = rw (lt→ltb p l.nb_priorities h)

    pub serve-Serves :
        (r : Option (ℕ × Entry T × List (Entry T)))
        → Found (l.workers_info w).queues now l.nb_priorities r
        → Serves l now w (serve l w r)
    unfolding serve
    serve-Serves r (inl (none_due, waits)) = rw none_due (inl (refl, waits))
    serve-Serves r (inr (p, x, rest, found, h, top, due, waits)) =
        elim (Option-cases (l.queues_info x.queue_id)) [
          | inl unknown ↦ absurd (known_queue l w p x rest h top v unknown)
          | inr (q, e) ↦
              rw found
                (inr (p, x, rest, q, rw e (release_known p x rest q h), e, h, top, due, waits))
        ]

    -- For a worker that there is, where the sizes are right and its entries fewer than 2^64, `pop_back`
    -- either leaves the buffer alone and gives nothing, and then the front of each of the worker's
    -- heaps has to wait; or it gives the front of the heap of highest priority number whose front is
    -- due, and that entry leaves the heap and the sizes. It never throws.
    pub pop_back-Serves : w < l.nb_workers → held l w < 2 ^ 64 → Serves l now w (pop_back l now w)
    unfolding pop_back
    pop_back-Serves hw fits = elim (Bool-cases ((l.workers_info w).size == 0)) [
      | inl idle ↦ inl (
        ground arith,
        λ p h. Waits-empty now (heap l w p) (
            sum_below-zero l.nb_priorities (λ p. length (heap l w p))
              (ground (arith, v.worker_total w)) p h),
      )
      | inr busy ↦
          rw (lt→ltb w l.nb_workers hw, busy)
            (serve-Serves _ (serving-Found (l.workers_info w).queues now l.nb_priorities))
    ]

    serve-Inv :
        (r : Option (ℕ × Entry T × List (Entry T)))
        → Found (l.workers_info w).queues now l.nb_priorities r
        → Inv (serve l w r).0
    serve-Inv r f = elim (serve-Serves r f) [
      | inl (e, _) ↦ rw e v
      | inr (p, x, rest, q, e, known, h, top, _, _) ↦
          rw e (removed-Inv l w p x rest h top v q known)
    ]

    -- Taking out keeps the sizes right, also for a worker that is not there.
    pub pop_back-Inv : Inv (pop_back l now w).0
    unfolding pop_back
    pop_back-Inv = elim (Bool-cases (ltb w l.nb_workers)) [
      | inl there ↦ elim (Bool-cases ((l.workers_info w).size == 0)) [
        | inl idle ↦ rw (there, idle) v
        | inr busy ↦
            rw (there, busy)
              (serve-Inv _ (serving-Found (l.workers_info w).queues now l.nb_priorities))
      ]
      | inr absent ↦ rw absent v
    ]
