-- ===== src/InputBuffer.antt =====
-- utils/p4-queue.h, class InputBuffer: the packets that wait for the ingress pipeline, in two lanes.
-- There is one thread: where the class would wait for room, it waits for ever.
pub mod Lanes
pub mod Runs
mod Tests
use p4simulator.Base.{
  ℕ, ◌+◌, ◌<◌, Bool, true, false, Option, none, some, List, [], ◌∷◌, ltb, ◌==◌, ◌||◌, if◌then◌else◌,
  length,
}

pub data PacketType : Type 0 where
  normal resubmit recirculate sentinel : PacketType

-- The head of a list is the front of the deque.
pub record InputBuffer {ℓ} (A : Type ℓ) : Type ℓ where
  pub capacity_hi : ℕ
  pub capacity_lo : ℕ
  pub queue_hi : List A
  pub queue_lo : List A

-- What `push_front` returns, 1 or 0, or that it does not return.
pub data Pushed : Type 0 where
  pushed dropped blocked : Pushed

pub data Lane : Type 0 where
  hi lo : Lane

module _ {ℓ} {A : Type ℓ} where
  -- The constructor's parameters in their order.
  unfoldable pub init : ℕ → ℕ → InputBuffer A
  init capacity_hi capacity_lo = record {
    capacity_hi = capacity_hi;
    capacity_lo = capacity_lo;
    queue_hi = [];
    queue_lo = [];
  }

  -- The private `push_front` on one of the two queues.
  unfoldable pub push_lane : InputBuffer A → Lane → A → Bool → InputBuffer A × Pushed
  push_lane b hi item blocking =
      if length b.queue_hi == b.capacity_hi
      then (b, if blocking then blocked else dropped)
      else (record b { queue_hi = item ∷ b.queue_hi }, pushed)
  push_lane b lo item blocking =
      if length b.queue_lo == b.capacity_lo
      then (b, if blocking then blocked else dropped)
      else (record b { queue_lo = item ∷ b.queue_lo }, pushed)

  unfoldable pub push_front : InputBuffer A → PacketType → A → InputBuffer A × Pushed
  unfolding push_lane
  push_front b normal item = push_lane b lo item true
  push_front b resubmit item = push_lane b hi item false
  push_front b recirculate item = push_lane b hi item false
  push_front b sentinel item = push_lane b hi item true

  -- The back of a deque, and the rest.
  unfoldable pub back : List A → Option (List A × A)
  back [] = none
  back (x ∷ []) = some ([], x)
  back (x ∷ y ∷ ys) = elim (back (y ∷ ys)) [ none ↦ none | some (r, a) ↦ some (x ∷ r, a) ]

  -- The pointer is left alone where both queues are empty.
  unfoldable pub pop_back : InputBuffer A → InputBuffer A × Option A
  pop_back b =
      if ltb 0 (length b.queue_hi) || ltb 0 (length b.queue_lo)
      then (if ltb 0 (length b.queue_hi)
          then elim (back b.queue_hi) [
            | none ↦ (b, none)
            | some (r, a) ↦ (record b { queue_hi = r }, some a)
          ]
          else elim (back b.queue_lo) [
            | none ↦ (b, none)
            | some (r, a) ↦ (record b { queue_lo = r }, some a)
          ])
      else (b, none)

  -- The capacity of the whole, and not what it holds.
  unfoldable pub get_size : InputBuffer A → ℕ
  get_size b = b.capacity_hi + b.capacity_lo
