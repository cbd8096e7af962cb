-- ===== src/InputBuffer/Lanes.antt =====
-- utils/p4-queue.h, class InputBuffer: each lane is first in, first out and within its capacity, and
-- the high lane goes first.
use p4simulator.Base.{
  ℕ, suc, ◌≤◌, ◌≡◌, ◌⊎◌, refl, ap, sym, ◌∙◌, Option, none, some, List, [], ◌∷◌, ◌++◌, ltb,
  if◌then◌else◌, length, length-append, arith, inl, inr,
}
use mathlib.Core.List.{reverse, reverse-cons}
use p4simulator.InputBuffer.{
  PacketType, normal, resubmit, recirculate, sentinel, InputBuffer, Pushed, pushed, dropped,
  blocked, Lane, hi, lo, push_front, back, pop_back,
}

-- Two queues of limited length, oldest first.
pub record Lanes {ℓ} (A : Type ℓ) : Type ℓ where
  pub room_hi : ℕ
  pub room_lo : ℕ
  pub in_hi : List A
  pub in_lo : List A

-- Who gives up at a full queue, and who waits.
abbrev pub refusal : PacketType → Pushed
refusal normal = blocked
refusal resubmit = dropped
refusal recirculate = dropped
refusal sentinel = blocked

pub lane_of : PacketType → Lane
lane_of normal = lo
lane_of resubmit = hi
lane_of recirculate = hi
lane_of sentinel = hi

module _ {ℓ} {A : Type ℓ} where
  abbrev pub join : Lanes A → Lane → Pushed → A → Lanes A × Pushed
  join s hi e x =
      if ltb (length s.in_hi) s.room_hi
      then (record s { in_hi = s.in_hi ++ x ∷ [] }, pushed)
      else (s, e)
  join s lo e x =
      if ltb (length s.in_lo) s.room_lo
      then (record s { in_lo = s.in_lo ++ x ∷ [] }, pushed)
      else (s, e)

  abbrev take_from : Lanes A → List A → List A → Lanes A × Option A
  take_from s (x ∷ xs) ys = (record s { in_hi = xs }, some x)
  take_from s [] (y ∷ ys) = (record s { in_lo = ys }, some y)
  take_from s [] [] = (s, none)

  -- The oldest of the high queue; if there is none, the oldest of the low one.
  abbrev pub leave : Lanes A → Lanes A × Option A
  leave s = take_from s s.in_hi s.in_lo

  -- What waits in the buffer.
  abbrev pub lanes : InputBuffer A → Lanes A
  lanes b = record {
    room_hi = b.capacity_hi;
    room_lo = b.capacity_lo;
    in_hi = reverse b.queue_hi;
    in_lo = reverse b.queue_lo;
  }

  pub record IsBounded (b : InputBuffer A) : Type 0 where
    pub hi_fits : length b.queue_hi ≤ b.capacity_hi
    pub lo_fits : length b.queue_lo ≤ b.capacity_lo

  back_lem :
      (xs : List A)
      → ((xs ≡ []) × (back xs ≡ none))
        ⊎ ((r : List A) × (a : A) × (back xs ≡ some (r, a))
            × (reverse xs ≡ a ∷ reverse r)
            × (length xs ≡ suc (length r)))
  unfolding back
  back_lem [] = inl (refl, refl)
  back_lem (x ∷ []) = inr ([], x, refl, refl, refl)
  back_lem (x ∷ y ∷ ys) = elim (back_lem (y ∷ ys)) [
    | inl (e, _) ↦ absurd (cc)
    | inr (r, a, e, f, g) ↦ inr (
      x ∷ r,
      a,
      ground arith,
      reverse-cons x (y ∷ ys) ∙ rw f (sym (ap (◌∷◌ a) (reverse-cons x r))),
      ap suc g,
    )
  ]

  length-reverse : (xs : List A) → length (reverse xs) ≡ length xs
  length-reverse [] = refl
  length-reverse (x ∷ xs) =
      rw (reverse-cons x xs, length-append (reverse xs) (x ∷ []), length-reverse xs) (omega arith)

  -- Pushing on the buffer is joining the queue of its lane.
  pub push_front-join :
      (b : InputBuffer A) (t : PacketType) (x : A)
      → IsBounded b
      → let (b', r) = push_front b t x in
        ((lanes b', r) ≡ join (lanes b) (lane_of t) (refusal t) x) × IsBounded b'
  unfolding push_front lane_of
  push_front-join b normal x v =
      ground (arith, reverse-cons x b.queue_lo, length-reverse b.queue_lo)
  push_front-join b t x v = ground (arith, reverse-cons x b.queue_hi, length-reverse b.queue_hi)

  -- Popping the buffer is leaving the queues.
  pub pop_back-leave :
      (b : InputBuffer A)
      → IsBounded b
      → let (b', r) = pop_back b in ((lanes b', r) ≡ leave (lanes b)) × IsBounded b'
  unfolding pop_back
  pop_back-leave b v = ground (arith, back_lem b.queue_hi, back_lem b.queue_lo)
