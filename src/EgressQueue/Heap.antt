-- ===== src/EgressQueue/Heap.antt =====
-- utils/p4-queue.h, `QE`, `QEComp` and `MyQ`: a `std::priority_queue` of timed entries, kept as the
-- list of its entries in the order in which it would give them out.
use p4simulator.Base.{
  ℕ, suc, ◌+◌, ◌≤◌, ◌<◌, ◌≡◌, refl, Bool, true, List, [], ◌∷◌, ◌++◌, ltb, ◌==◌, if◌then◌else◌,
  length, arith, Bool-cases, inl, inr,
}

-- `QE`
pub record Entry {ℓ} (T : Type ℓ) : Type ℓ where
  pub e : T
  pub queue_id : ℕ
  pub send : ℕ
  pub id : ℕ

module _ {ℓ} {T : Type ℓ} where
  -- `QEComp`: the left entry is to be served after the right one.
  unfoldable pub comes_after : Entry T → Entry T → Bool
  comes_after lhs rhs = if lhs.send == rhs.send then ltb rhs.id lhs.id else ltb rhs.send lhs.send

  unfoldable pub emplace : Entry T → List (Entry T) → List (Entry T)
  unfolding comes_after
  emplace x [] = x ∷ []
  emplace x (y ∷ ys) = if comes_after y x then x ∷ y ∷ ys else y ∷ emplace x ys

  -- How many of the entries are of one logical queue.
  abbrev pub count_of : ℕ → List (Entry T) → ℕ
  count_of q [] = 0
  count_of q (x ∷ xs) = (if x.queue_id == q then 1 else 0) + count_of q xs

  -- The packets of one logical queue with the times at which they may leave, in the order of service.
  abbrev pub timed_of : ℕ → List (Entry T) → List (T × ℕ)
  timed_of q [] = []
  timed_of q (x ∷ xs) = if x.queue_id == q then (x.e, x.send) ∷ timed_of q xs else timed_of q xs

  -- Served front first, no entry is due earlier than one before it.
  abbrev pub IsTimed : List (Entry T) → Type 0
  IsTimed [] = Unit
  IsTimed (x ∷ []) = Unit
  IsTimed (x ∷ y ∷ ys) = (x.send ≤ y.send) × IsTimed (y ∷ ys)

  -- All entries of a queue are due by a time.
  abbrev pub DueBy : ℕ → ℕ → List (Entry T) → Type 0
  DueBy q t [] = Unit
  DueBy q t (x ∷ xs) = (x.queue_id ≡ q → x.send ≤ t) × DueBy q t xs

  pub count_of-emplace :
      (q : ℕ) (x : Entry T) (ys : List (Entry T))
      → count_of q (emplace x ys) ≡ (if x.queue_id == q then 1 else 0) + count_of q ys
  unfolding emplace
  count_of-emplace q x [] = refl
  count_of-emplace q x (y ∷ ys) = ground (arith, count_of-emplace q x ys)

  pub length-emplace : (x : Entry T) (ys : List (Entry T)) → length (emplace x ys) ≡ suc (length ys)
  unfolding emplace
  length-emplace x [] = refl
  length-emplace x (y ∷ ys) = ground (arith, length-emplace x ys)

  comes_after_send : (x y : Entry T) → comes_after y x ≡ true → (t : ℕ) → t < x.send → t < y.send
  unfolding comes_after
  comes_after_send x y h t p = ground arith

  pub emplace-IsTimed : (x : Entry T) (ys : List (Entry T)) → IsTimed ys → IsTimed (emplace x ys)
  unfolding emplace
  emplace-IsTimed x [] h = tt
  emplace-IsTimed x (y ∷ []) h = ground arith
  emplace-IsTimed x (y ∷ z ∷ zs) h = ground (arith, emplace-IsTimed x (z ∷ zs) h.1)

  pub emplace-DueBy :
      (q t : ℕ) (x : Entry T) (ys : List (Entry T))
      → (x.queue_id ≡ q → x.send ≤ t)
      → DueBy q t ys
      → DueBy q t (emplace x ys)
  unfolding emplace
  emplace-DueBy q t x [] h d = (h, tt)
  emplace-DueBy q t x (y ∷ ys) h d = ground (arith, emplace-DueBy q t x ys h d.1)

  pub DueBy-mono : (q t u : ℕ) (xs : List (Entry T)) → t ≤ u → DueBy q t xs → DueBy q u xs
  DueBy-mono q t u [] h d = tt
  DueBy-mono q t u (x ∷ xs) h d = (λ e. omega (arith, d.0 e), DueBy-mono q t u xs h d.1)

  -- Past the time by which a queue is due there is nothing of it.
  timed_of_late :
      (q t : ℕ) (y : Entry T) (ys : List (Entry T))
      → IsTimed (y ∷ ys)
      → DueBy q t (y ∷ ys)
      → t < y.send
      → timed_of q (y ∷ ys) ≡ []
  timed_of_late q t y [] s d h = ground (arith, d.0)
  timed_of_late q t y (z ∷ zs) s d h =
      ground (arith, d.0, timed_of_late q t z zs s.1 d.1 (omega arith))

  -- An entry that is due later than all of its queue comes last of them.
  pub timed_of-emplace_self :
      (x : Entry T) (t : ℕ) (ys : List (Entry T))
      → IsTimed ys
      → DueBy x.queue_id t ys
      → t < x.send
      → timed_of x.queue_id (emplace x ys) ≡ timed_of x.queue_id ys ++ (x.e, x.send) ∷ []
  unfolding emplace
  timed_of-emplace_self x t [] s d h = ground arith
  timed_of-emplace_self x t (y ∷ []) s d h = ground (arith, d.0)
  timed_of-emplace_self x t (y ∷ z ∷ zs) s d h = elim (Bool-cases (comes_after y x)) [
    | inl late ↦
        rw late (
          ground (arith, timed_of_late x.queue_id t y (z ∷ zs) s d (comes_after_send x y late t h)))
    | inr early ↦ rw early (ground (arith, timed_of-emplace_self x t (z ∷ zs) s.1 d.1 h))
  ]
